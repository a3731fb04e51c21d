-- ===== src/Rfs/Image.antt =====
-- The mapped image as the server sees it: the superblock, the group descriptors, the bitmap blocks
-- and the data blocks with their 32-bit words, each a region of its own as in a well-formed ext2
-- volume, and the `errno` of the worker. `Bits` is the type of bit arrays.
use la_liga_de_la_justicia.Base.{ℕ, ◌≡◌, ◌≢◌, refl, true, false, arith, ◌==◌, if◌then◌else◌}
use la_liga_de_la_justicia.Rfs.Geometry.{SuperBlock, GroupDescriptor}

pub record Image (Bits : Type 0) : Type 0 where
  pub super : SuperBlock
  -- the table at GDT_START, by group number
  pub descriptor : ℕ → GroupDescriptor
  -- the block of that address as a bit array
  pub bitmap : ℕ → Bits
  -- the block of that address as an array of `uint32_t`
  pub words : ℕ → ℕ → ℕ
  pub errno : ℕ

abbrev pub enospc : ℕ
enospc = 28

-- A write to one place of a region.
abbrev pub update {ℓ} : {A : Type ℓ} → (ℕ → A) → ℕ → A → ℕ → A
update f i v j = if i == j then v else f j

-- `memset (block, 0, BLOCK_SIZE)`.
abbrev pub wipe : (ℕ → ℕ → ℕ) → ℕ → ℕ → ℕ → ℕ
wipe words block = update words block (λ _. 0)

module _ {ℓ} {A : Type ℓ} (f : ℕ → A) (i : ℕ) (v : A) where
  pub update_here : update f i v i ≡ v
  update_here = let e : (i == i) ≡ true = ground arith in rw e refl

  pub update_other : (j : ℕ) → i ≢ j → update f i v j ≡ f j
  update_other j ne = let e : (i == j) ≡ false = ground arith in rw e refl
