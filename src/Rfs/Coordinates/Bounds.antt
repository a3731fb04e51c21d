-- ===== src/Rfs/Coordinates/Bounds.antt =====
-- The ranges of the four levels, for blocks of at most 4096 bytes: no 32-bit sum wraps.
use la_liga_de_la_justicia.Base.{ℕ, ◌+◌, ◌*◌, ◌≤◌, ◌≡◌, refl, arith, mul_mono_left}
use la_liga_de_la_justicia.Rfs.Geometry.{u64}
use la_liga_de_la_justicia.Rfs.Coordinates.{range1, range2, range3}

-- The number of blocks that an inode can address.
abbrev pub capacity : ℕ → ℕ
capacity p = 12 + p + p * p + p * p * p

pub square_small : (p : ℕ) → p ≤ 1024 → p * p ≤ 1048576
square_small p h = grind arith

pub cube_small : (p : ℕ) → p ≤ 1024 → p * p * p ≤ 1073741824
cube_small p h = omega (arith, mul_mono_left p 1024 (p * p) h, square_small p h)

module _ (p : ℕ) (small : p ≤ 1024) where
  pub range1_lem : ((range1 p).low ≡ 12) × ((range1 p).high ≡ 11 + p)
  unfolding range1
  range1_lem = (refl, omega arith)

  pub range2_lem : ((range2 p).low ≡ 12 + p) × ((range2 p).high ≡ 11 + p + p * p)
  unfolding range2
  range2_lem = let (_, h) = range1_lem in (omega (arith, h), omega (arith, h, square_small p small))

  pub range3_lem :
      ((range3 p).low ≡ 12 + p + p * p) × ((range3 p).high ≡ 11 + p + p * p + p * p * p)
  unfolding range3
  range3_lem =
      let (_, h) = range2_lem in
      let e : u64 (p * p) ≡ p * p = omega (arith, square_small p small) in
      rw e (
        omega (arith, h, square_small p small, cube_small p small),
        omega (arith, h, square_small p small, cube_small p small),
      )
