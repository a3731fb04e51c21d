-- ===== src/Rfs/Coordinates/Roundtrip.antt =====
-- The coordinates name the pointer of the block, and only that one.
use native.Mathlib.Nat.{mod-eq_of_lt}
use la_liga_de_la_justicia.Base.{
  ℕ, ◌+◌, ◌-◌, ◌*◌, ◌/◌, ◌%◌, ◌≤◌, ◌<◌, ◌≡◌, refl, sym, ap, ◌∙◌, true, false, none, some, arith,
  ltb, Bool-cases, ltb→lt, ltb→le, inl, inr, div_bounds, div_lt,
}
use la_liga_de_la_justicia.Rfs.Geometry.{u64}
use la_liga_de_la_justicia.Rfs.Coordinates.{
  Coordinates, Range, range0, range1, range2, range3, within, direct, single, double, triple, unset,
  find_block_coordinates,
}
use la_liga_de_la_justicia.Rfs.Coordinates.Bounds.{
  capacity, range1_lem, range2_lem, range3_lem, square_small,
}

-- `Locates p i c`: the coordinates `c` are those of block `i` of a file, each within a block of `p`
-- pointers.
pub data Locates (p i : ℕ) : Coordinates → Type 0 where
  level0 : (a : ℕ) → a < 12 → i ≡ a → Locates p i (direct a)
  level1 :
      (a : ℕ)
      → a < p
      → i ≡ 12 + a
      → Locates p i (record { c0 = some 0; c1 = some a; c2 = none; c3 = none })
  level2 :
      (a b : ℕ)
      → a < p
      → b < p
      → i ≡ 12 + p + b * p + a
      → Locates p i (record { c0 = some 0; c1 = some a; c2 = some b; c3 = none })
  level3 :
      (a b c : ℕ)
      → a < p
      → b < p
      → c < p
      → i ≡ 12 + p + p * p + c * (p * p) + b * p + a
      → Locates p i (record { c0 = some 0; c1 = some a; c2 = some b; c3 = some c })

within_at : (r : Range) (i : ℕ) → r.low ≤ i → i ≤ r.high → within r i ≡ true
within_at r i low high = ground arith

within_above : (r : Range) (i : ℕ) → r.high < i → within r i ≡ false
within_above r i past = ground arith

module _ (p : ℕ) (small : p ≤ 1024) (pos : 0 < p) where
  double-Locates : (i k : ℕ) → k < p * p → i ≡ 12 + p + k → Locates p i (double p k)
  double-Locates i k h e =
      let (whole, rest) = div_bounds k p pos in
      level2 (k % p) (k / p) rest (div_lt k p p h) (omega arith)

  triple-Locates :
      (i k : ℕ) → k < p * p * p → i ≡ 12 + p + p * p + k → Locates p i (triple p (p * p) k)
  triple-Locates i k h e =
      let square : 0 < p * p = grind arith in
      let (outer, inner) = div_bounds k (p * p) square in
      let (whole, rest) = div_bounds (k % (p * p)) p pos in
      level3 (k % (p * p) % p) (k % (p * p) / p) (k / (p * p)) rest (div_lt (k % (p * p)) p p inner)
        (div_lt k (p * p) p (omega arith)) (omega arith)

  pub coordinates_direct : (i : ℕ) → i < 12 → find_block_coordinates p i ≡ direct i
  unfolding find_block_coordinates
  coordinates_direct i h = rw (within_at range0 i (omega arith) (omega arith)) refl

  pub coordinates_single :
      (i : ℕ) → 12 ≤ i → i < 12 + p → find_block_coordinates p i ≡ single p (i - 12)
  unfolding find_block_coordinates
  coordinates_single i low high =
      let (lo1, hi1) = range1_lem p small in
      rw
        (
          within_above range0 i (omega arith),
          within_at (range1 p) i (omega arith) (omega arith),
          lo1,
        )
        refl

  pub coordinates_double :
      (i : ℕ)
      → 12 + p ≤ i
      → i < 12 + p + p * p
      → find_block_coordinates p i ≡ double p (i - (12 + p))
  unfolding find_block_coordinates
  coordinates_double i low high =
      let (lo1, hi1) = range1_lem p small in
      let (lo2, hi2) = range2_lem p small in
      rw
        (
          within_above range0 i (omega arith),
          within_above (range1 p) i (omega arith),
          within_at (range2 p) i (omega arith) (omega arith),
          lo2,
        )
        refl

  pub coordinates_triple :
      (i : ℕ)
      → 12 + p + p * p ≤ i
      → i < capacity p
      → find_block_coordinates p i ≡ triple p (p * p) (i - (12 + p + p * p))
  unfolding find_block_coordinates
  coordinates_triple i low high =
      let (lo1, hi1) = range1_lem p small in
      let (lo2, hi2) = range2_lem p small in
      let (lo3, hi3) = range3_lem p small in
      let exact : u64 (p * p) ≡ p * p = omega (arith, square_small p small) in
      rw
        (
          within_above range0 i (omega arith),
          within_above (range1 p) i (omega arith),
          within_above (range2 p) i (omega arith),
          within_at (range3 p) i (omega arith) (omega arith),
          lo3,
          exact,
        )
        refl

  -- For blocks of at most 4096 bytes, an index past the last addressable block has no coordinates:
  -- all four positions are -1.
  pub find_block_coordinates-unset : (i : ℕ) → capacity p ≤ i → find_block_coordinates p i ≡ unset
  unfolding find_block_coordinates
  find_block_coordinates-unset i past =
      let (lo1, hi1) = range1_lem p small in
      let (lo2, hi2) = range2_lem p small in
      let (lo3, hi3) = range3_lem p small in
      rw
        (
          within_above range0 i (omega arith),
          within_above (range1 p) i (omega arith),
          within_above (range2 p) i (omega arith),
          within_above (range3 p) i (omega arith),
        )
        refl

  -- For blocks of at most 4096 bytes and an index that an inode can address, the coordinates locate
  -- the block: read back level by level they give the index again, and each is within its block.
  pub find_block_coordinates-Locates :
      (i : ℕ) → i < capacity p → Locates p i (find_block_coordinates p i)
  find_block_coordinates-Locates i h = elim (Bool-cases (ltb i 12)) [
    | inl in0 ↦ let h0 = ltb→lt i 12 in0 in rw (coordinates_direct i h0) (level0 i h0 refl)
    | inr out0 ↦
        let h0 = ltb→le i 12 out0 in
        elim (Bool-cases (ltb i (12 + p))) [
          | inl in1 ↦
              let h1 = ltb→lt i (12 + p) in1 in
              let (whole, rest) = div_bounds (i - 12) p pos in
              rw (coordinates_single i h0 h1, mod-eq_of_lt (single_small i h0 h1))
                (level1 (i - 12) (single_small i h0 h1) (omega arith))
          | inr out1 ↦
              let h1 = ltb→le i (12 + p) out1 in
              elim (Bool-cases (ltb i (12 + p + p * p))) [
                | inl in2 ↦
                    let h2 = ltb→lt i (12 + p + p * p) in2 in
                    rw (coordinates_double i h1 h2)
                      (double-Locates i (i - (12 + p)) (omega arith) (omega arith))
                | inr out2 ↦
                    let h2 = ltb→le i (12 + p + p * p) out2 in
                    rw (coordinates_triple i h2 h)
                      (triple-Locates i (i - (12 + p + p * p)) (omega arith) (omega arith))
              ]
        ]
  ]
    where
      single_small : (i : ℕ) → 12 ≤ i → i < 12 + p → i - 12 < p
      single_small i low high = omega arith

-- The index that a set of coordinates stands for.
unfoldable pub coordinates_index : ℕ → Coordinates → ℕ
coordinates_index p c = elim c.c0 [
  | none ↦ 0
  | some a ↦ elim c.c1 [
    | none ↦ a
    | some b ↦ elim c.c2 [
      | none ↦ 12 + b
      | some d ↦ elim c.c3 [
        | none ↦ 12 + p + d * p + b
        | some e ↦ 12 + p + p * p + e * (p * p) + d * p + b
      ]
    ]
  ]
]

Locates-index : (p i : ℕ) {c : Coordinates} → Locates p i c → i ≡ coordinates_index p c
unfolding coordinates_index
Locates-index p i (level0 a h e) = e
Locates-index p i (level1 a h e) = e
Locates-index p i (level2 a b h k e) = e
Locates-index p i (level3 a b c h k l e) = e

-- The coordinates tell the blocks of a file apart: for blocks of at most 4096 bytes, two indices
-- that an inode can address and that have the same coordinates are the same.
pub find_block_coordinates_injective :
    (p i j : ℕ)
    → p ≤ 1024
    → 0 < p
    → i < capacity p
    → j < capacity p
    → find_block_coordinates p i ≡ find_block_coordinates p j
    → i ≡ j
find_block_coordinates_injective p i j small pos hi hj e =
    Locates-index p i (find_block_coordinates-Locates p small pos i hi)
    ∙ ap (coordinates_index p) e
    ∙ sym (Locates-index p j (find_block_coordinates-Locates p small pos j hj))
