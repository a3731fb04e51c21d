-- ===== src/Rfs/Geometry/Sizes.antt =====
-- `Size_In_Blocks` and the one-time reading of the superblock.
use la_liga_de_la_justicia.Base.{
  ℕ, ◌%◌, inl, inr, ltb, Bool-cases, div_bounds, lt_of_mul, ◌+◌, ◌*◌, ◌≤◌, ◌<◌, ◌≡◌, refl, false,
  arith,
}
use la_liga_de_la_justicia.Rfs.Geometry.{SuperBlock, Geometry, size_in_blocks, super_block_read}

-- With a block size above 0, `Size_In_Blocks` gives the least number of blocks that hold the bytes:
-- they hold them, and one block less would not.
pub size_in_blocks_bounds :
    (g : Geometry) (bytes : ℕ)
    → 0 < g.block_size
    → (bytes ≤ size_in_blocks g bytes * g.block_size)
      × (size_in_blocks g bytes * g.block_size < bytes + g.block_size)
unfolding size_in_blocks
size_in_blocks_bounds g bytes h =
    let e = div_bounds bytes g.block_size h in
    elim (Bool-cases (ltb 0 (bytes % g.block_size))) [
      | inl more ↦ rw more (grind arith, grind arith)
      | inr exact ↦ rw exact (grind arith, grind arith)
    ]

-- A larger file never takes fewer blocks.
pub size_in_blocks_mono :
    (g : Geometry) (a b : ℕ) → 0 < g.block_size → a ≤ b → size_in_blocks g a ≤ size_in_blocks g b
size_in_blocks_mono g a b h le =
    let (fits, _) = size_in_blocks_bounds g b h in
    let (_, least) = size_in_blocks_bounds g a h in
    omega
      (arith, lt_of_mul (size_in_blocks g a) (size_in_blocks g b + 1) g.block_size (omega arith))

-- The constants are those of the superblock that was read first: reading any other one afterwards
-- changes nothing.
pub super_block_read_once :
    (first later : SuperBlock) (g : Geometry)
    → super_block_read later (super_block_read first (false, g)) ≡ super_block_read first (false, g)
unfolding super_block_read
super_block_read_once first later g = refl
