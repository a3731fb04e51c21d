-- ===== src/Rfs/Remove/Index.antt =====
-- The two ways in which the code finds a block of a file: `find_block_coordinates` and the cases of
-- `Remove_Block` for a block on its own, `Inode_Get_Data_Adressess` for all of them.
use native.Mathlib.Nat.{mod-eq_of_lt, pow-suc, pow-zero}
use la_liga_de_la_justicia.Base.{
  ℕ, ◌+◌, ◌-◌, ◌*◌, ◌^◌, ◌≤◌, ◌<◌, ◌≡◌, refl, ap, ◌∙◌, true, false, some, arith, ltb, Bool-cases,
  ltb→lt, ltb→le, inl, inr,
}
use la_liga_de_la_justicia.Rfs.Image.{Image}
use la_liga_de_la_justicia.Rfs.Coordinates.{find_block_coordinates, direct, single, double, triple}
use la_liga_de_la_justicia.Rfs.Coordinates.Bounds.{capacity}
use la_liga_de_la_justicia.Rfs.Coordinates.Roundtrip.{
  coordinates_direct, coordinates_single, coordinates_double, coordinates_triple,
}
use la_liga_de_la_justicia.Rfs.DataBlocks.{Pointers}
use la_liga_de_la_justicia.Rfs.DataBlocks.Reading.{address_at}
use la_liga_de_la_justicia.Rfs.DataBlocks.Addresses.{glued, data_address}
use la_liga_de_la_justicia.Rfs.Remove.{block_number}

pow_one : (p : ℕ) → p ^ 1 ≡ p
pow_one p = pow-suc p 0 ∙ ap (λ t. t * p) (pow-zero p) ∙ omega arith

pow_two : (p : ℕ) → p ^ 2 ≡ p * p
pow_two p = pow-suc p 1 ∙ ap (λ t. t * p) (pow_one p)

glued_low : (f g : ℕ → ℕ) (a i : ℕ) → i < a → glued f g a i ≡ f i
glued_low f g a i h = let t : ltb i a ≡ true = ground (arith, h) in rw t refl

glued_high : (f g : ℕ → ℕ) (a i : ℕ) → a ≤ i → glued f g a i ≡ g (i - a)
glued_high f g a i h = let t : ltb i a ≡ false = ground (arith, h) in rw t refl

module _ {Bits : Type 0} (p : ℕ) (small : p ≤ 1024) (pos : 0 < p) (fs : Image Bits)
    (ptr : Pointers) where
  direct_number : (i : ℕ) → block_number (direct i) fs ptr ≡ some (ptr.pointer_data_0 i)
  unfolding block_number
  direct_number i = refl

  single_number :
      (i : ℕ)
      → i < p
      → block_number (single p i) fs ptr ≡ some (address_at p fs.words 0 ptr.pointer_data_1 i)
  unfolding block_number address_at
  single_number i h = ap (λ k. some (fs.words ptr.pointer_data_1 k)) (mod-eq_of_lt h)

  double_number :
      (i : ℕ)
      → block_number (double p i) fs ptr ≡ some (address_at p fs.words 1 ptr.pointer_data_2 i)
  unfolding block_number address_at
  double_number i = rw (pow_one p) refl

  triple_number :
      (i : ℕ)
      → block_number (triple p (p * p) i) fs ptr
        ≡ some (address_at p fs.words 2 ptr.pointer_data_3 i)
  unfolding block_number address_at
  triple_number i = rw (pow_one p, pow_two p) refl

  -- For blocks of at most 4096 bytes, the block that `Remove_Block` finds at an index that an inode can
  -- address is the one that the list of all addresses of the file has there.
  pub block_number-data_address :
      (i : ℕ)
      → i < capacity p
      → block_number (find_block_coordinates p i) fs ptr ≡ some (data_address p fs.words ptr i)
  block_number-data_address i h = elim (Bool-cases (ltb i 12)) [
    | inl t ↦ let l = ltb→lt i 12 t in rw (coordinates_direct p small pos i l, t) (direct_number i)
    | inr t ↦
        let l = ltb→le i 12 t in
        elim (Bool-cases (ltb (i - 12) p)) [
          | inl t1 ↦
              let l1 = ltb→lt (i - 12) p t1 in
              rw (coordinates_single p small pos i l (omega (arith, l, l1)), t, t1)
                (single_number (i - 12) l1)
          | inr t1 ↦
              let l1 = ltb→le (i - 12) p t1 in
              elim (Bool-cases (ltb (i - 12 - p) (p ^ 2))) [
                | inl t2 ↦
                    let l2 = ltb→lt (i - 12 - p) (p ^ 2) t2 in
                    let e : i - (12 + p) ≡ i - 12 - p = omega arith in
                    rw
                      (
                        coordinates_double p small pos i (omega (arith, l, l1))
                            (omega (arith, l2, pow_two p)),
                        t,
                        t1,
                        t2,
                        e,
                      )
                      (double_number (i - 12 - p))
                | inr t2 ↦
                    let l2 = ltb→le (i - 12 - p) (p ^ 2) t2 in
                    let e : i - (12 + p + p * p) ≡ i - 12 - p - p ^ 2 = omega (arith, pow_two p) in
                    rw
                      (
                        coordinates_triple p small pos i (omega (arith, l, l1, l2, pow_two p)) h,
                        t,
                        t1,
                        t2,
                        e,
                      )
                      (triple_number (i - 12 - p - p ^ 2))
              ]
        ]
  ]
