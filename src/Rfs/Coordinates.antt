-- ===== src/Rfs/Coordinates.antt =====
-- Where the pointer to a block of a file stands: `find_block_coordinates` of
-- rfs/source_RFS/file_operations.c. `p` is the number of pointers in a block, BLOCK_SIZE / 4.
pub mod Bounds
pub mod Roundtrip
use la_liga_de_la_justicia.Base.{
  ℕ, suc, ◌+◌, ◌-◌, ◌*◌, ◌/◌, ◌%◌, Bool, true, false, ◌&&◌, Option, none, some, leb, if◌then◌else◌,
}
use la_liga_de_la_justicia.Rfs.Geometry.{u32, u64}

-- `int32_t block_coordinates[4]`, with `none` for its -1.
pub record Coordinates : Type 0 where
  pub c0 : Option ℕ
  pub c1 : Option ℕ
  pub c2 : Option ℕ
  pub c3 : Option ℕ

abbrev pub unset : Coordinates
unset = record { c0 = none; c1 = none; c2 = none; c3 = none }

-- `bounds[level][0]` and `bounds[level][1]`; the loop that fills the array is written out.
pub record Range : Type 0 where
  pub low : ℕ
  pub high : ℕ

abbrev pub next_range : Range → ℕ → Range
next_range r pointers = record { low = u32 (r.high + 1); high = u32 (r.high + pointers) }

abbrev pub range0 : Range
range0 = record { low = 0; high = 11 }

unfoldable pub range1 : ℕ → Range
range1 p = next_range range0 p

unfoldable pub range2 : ℕ → Range
range2 p = next_range (range1 p) (u64 (p * p))

unfoldable pub range3 : ℕ → Range
range3 p = next_range (range2 p) (u64 (u64 (p * p) * p))

abbrev pub within : Range → ℕ → Bool
within r i = leb r.low i && leb i r.high

-- The four cases of the `switch`.
abbrev pub direct : ℕ → Coordinates
direct i = record { c0 = some i; c1 = none; c2 = none; c3 = none }

abbrev pub single : ℕ → ℕ → Coordinates
single p i = record { c0 = some 0; c1 = some (i % p); c2 = none; c3 = none }

abbrev pub double : ℕ → ℕ → Coordinates
double p i = record { c0 = some 0; c1 = some (i % p); c2 = some (i / p); c3 = none }

abbrev pub triple : ℕ → ℕ → ℕ → Coordinates
triple p squared i = record {
  c0 = some 0;
  c1 = some (i % squared % p);
  c2 = some (i % squared / p);
  c3 = some (i / squared);
}

unfoldable pub find_block_coordinates : ℕ → ℕ → Coordinates
find_block_coordinates p block_index =
    if within range0 block_index
    then direct block_index
    else if within (range1 p) block_index
    then single p (block_index - (range1 p).low)
    else if within (range2 p) block_index
    then double p (block_index - (range2 p).low)
    else if within (range3 p) block_index
    then triple p (u64 (p * p)) (block_index - (range3 p).low)
    else unset

-- The level that `Remove_Block` and `RemoveIndirect` read off the coordinates: one less than the
-- first position that holds -1, and 3 if there is none. At -1 in position 0 their counter wraps
-- below zero and no case of the `switch` is taken, which is `none`.
unfoldable pub coordinates_level : Coordinates → Option ℕ
coordinates_level c = elim c.c0 [
  | none ↦ none
  | some _ ↦ elim c.c1 [
    | none ↦ some 0
    | some _ ↦ elim c.c2 [ none ↦ some 1 | some _ ↦ elim c.c3 [ none ↦ some 2 | some _ ↦ some 3 ] ]
  ]
]
