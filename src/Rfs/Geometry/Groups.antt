-- ===== src/Rfs/Geometry/Groups.antt =====
-- The number of groups that `SuperBlock_getTotalGroups` computes with `lround`.
use la_liga_de_la_justicia.Base.{
  ℕ, ◌+◌, ◌-◌, ◌*◌, ◌≤◌, ◌<◌, ◌≡◌, refl, arith, some, le→ltb, div_unique,
}
use la_liga_de_la_justicia.Rfs.Geometry.{SuperBlock, lround_div, get_total_groups}

lround_div_exact : (q b : ℕ) → 0 < b → lround_div (q * b) b ≡ q
unfolding lround_div
lround_div_exact q b h = div_unique q b (2 * b) _ (omega arith) (omega arith)

lround_div_short : (q r b : ℕ) → 2 * r < b → lround_div (q * b + r) b ≡ q
unfolding lround_div
lround_div_short q r b h = div_unique q (2 * r + b) (2 * b) _ (omega arith) (omega arith)

lround_div_long : (q r b : ℕ) → b ≤ 2 * r → r < b → lround_div (q * b + r) b ≡ q + 1
unfolding lround_div
lround_div_long q r b h k = div_unique (q + 1) (2 * r - b) (2 * b) _ (omega arith) (omega arith)

module _ (s : SuperBlock) (q r : ℕ) (blocks : s.total_number_blocks_fs ≡ q * s.blocks_per_group + r)
    (rest : r < s.blocks_per_group) where
  -- A volume whose last group is at least half full has a group for each of its blocks, if its
  -- inode table does not ask for more groups than its blocks.
  pub get_total_groups_covers :
      s.blocks_per_group ≤ 2 * r
      → lround_div s.total_number_inodes_fs s.inodes_per_group ≤ q + 1
      → (get_total_groups (some s) ≡ q + 1)
        × (s.total_number_blocks_fs ≤ get_total_groups (some s) * s.blocks_per_group)
  unfolding get_total_groups
  get_total_groups_covers half inodes =
      let e = lround_div_long q r s.blocks_per_group half rest in
      rw (blocks, e, le→ltb (q + 1) _ inodes) (refl, omega arith)

  -- If the last group of a volume is not empty and less than half full, and the inodes fill the
  -- other groups, then that group is not counted: blocks are left outside every group.
  pub get_total_groups_short :
      0 < r
      → 2 * r < s.blocks_per_group
      → 0 < s.inodes_per_group
      → s.total_number_inodes_fs ≡ q * s.inodes_per_group
      → (get_total_groups (some s) ≡ q)
        × (get_total_groups (some s) * s.blocks_per_group < s.total_number_blocks_fs)
  unfolding get_total_groups
  get_total_groups_short some_left less table inodes =
      let e = lround_div_short q r s.blocks_per_group less in
      let e' = lround_div_exact q s.inodes_per_group table in
      rw (blocks, inodes, e, e', le→ltb q q (omega arith)) (refl, omega arith)
