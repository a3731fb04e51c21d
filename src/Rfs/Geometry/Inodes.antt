-- ===== src/Rfs/Geometry/Inodes.antt =====
-- Global inode numbers against a group and an index in its table.
use la_liga_de_la_justicia.Base.{ℕ, div_unique, mod_unique, ◌+◌, ◌-◌, ◌*◌, ◌<◌, ◌≡◌, arith}
use la_liga_de_la_justicia.Rfs.Geometry.{Geometry, u32, inode_locate_group, inode_get_local_index}

pred_u32 : (n : ℕ) → 0 < n → n < 4294967296 → u32 (n + 4294967295) ≡ n - 1
pred_u32 n p q = omega arith

-- For a 32-bit inode number above 0, the group and the local index are those that
-- Get_Free_Inodes_In_Group composes into `group * INODES_PER_GROUP + index + 1`, and the local index
-- lies in the table of the group.
pub inode_locate_roundtrip :
    (g : Geometry) (n : ℕ)
    → 0 < g.inodes_per_group
    → 0 < n
    → n < 4294967296
    → (inode_locate_group g n * g.inodes_per_group + inode_get_local_index g n + 1 ≡ n)
      × (inode_get_local_index g n < g.inodes_per_group)
unfolding inode_locate_group inode_get_local_index
inode_locate_roundtrip g n h p q = rw (pred_u32 n p q) (omega arith, omega arith)

-- Conversely, the inode number composed from a group and an index below INODES_PER_GROUP is located
-- in that group at that index, if the number fits 32 bits.
pub inode_compose_roundtrip :
    (g : Geometry) (group index : ℕ)
    → index < g.inodes_per_group
    → group * g.inodes_per_group + index + 1 < 4294967296
    → (inode_locate_group g (group * g.inodes_per_group + index + 1) ≡ group)
      × (inode_get_local_index g (group * g.inodes_per_group + index + 1) ≡ index)
unfolding inode_locate_group inode_get_local_index
inode_compose_roundtrip g group index h fits =
    rw (pred_u32 (group * g.inodes_per_group + index + 1) (omega arith) fits) (
      div_unique group index g.inodes_per_group _ h (omega arith),
      mod_unique group index g.inodes_per_group _ h (omega arith),
    )
