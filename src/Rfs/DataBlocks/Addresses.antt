-- ===== src/Rfs/DataBlocks/Addresses.antt =====
-- `Inode_Get_Data_Adressess` against the address of the `i`-th block of a file.
use la_liga_de_la_justicia.Base.{
  ℕ, ◌+◌, ◌-◌, ◌*◌, ◌^◌, ◌<◌, ◌≤◌, ◌≡◌, refl, sym, ap, ◌∙◌, Bool, true, false, some, [], ◌∷◌, ◌++◌,
  map, ltb, leb, if◌then◌else◌, range_from, arith, inl, inr, Bool-cases,
}
use native.Mathlib.Nat.{pow-suc, pow-zero}
use la_liga_de_la_justicia.Rfs.DataBlocks.{
  Pointers, indirect_read, third_read, second_read, first_read, read_addresses,
}
use la_liga_de_la_justicia.Rfs.DataBlocks.Reading.{
  address_at, indirect_read-address_at, map-range_from_shift, map_ranges,
}

-- One function below `a` and another, counted from there, above.
abbrev pub glued : (ℕ → ℕ) → (ℕ → ℕ) → ℕ → ℕ → ℕ
glued f g a i = if ltb i a then f i else g (i - a)

if_false : {A : Type 0} → (b : Bool) (x y : A) → b ≡ false → (if b then x else y) ≡ y
if_false b x y e = ap (λ c. if c then x else y) e

glued_below :
    (f g : ℕ → ℕ) (a n : ℕ) → n ≤ a → map f (range_from 0 n) ≡ map (glued f g a) (range_from 0 n)
glued_below f g a n h =
    map-range_from_shift f (glued f g a) 0 0 n
      (λ x l. let t : ltb (0 + x) a ≡ true = ground (arith, l, h) in rw t refl)

glued_across :
    (f g : ℕ → ℕ) (a n : ℕ)
    → a ≤ n
    → map f (range_from 0 a) ++ map g (range_from 0 (n - a)) ≡ map (glued f g a) (range_from 0 n)
glued_across f g a n h =
    let above : map g (range_from 0 (n - a)) ≡ map (glued f g a) (range_from a (n - a)) =
      map-range_from_shift g (glued f g a) 0 a (n - a) (λ x l.
        let t : ltb (a + x) a ≡ false = ground arith in
        let e : a + x - a ≡ 0 + x = omega arith in rw (t, e) refl) in
    rw (glued_below f g a a (omega arith), above)
      (map_ranges (glued f g a) a (n - a) n (omega (arith, h)))

module _ (p : ℕ) (words : ℕ → ℕ → ℕ) (inode : Pointers) where
  -- The address of the `i`-th block: a direct pointer, or the address below the single, the double or the
  -- triple indirect block.
  abbrev below_third : ℕ → ℕ
  below_third i = address_at p words 2 inode.pointer_data_3 i

  abbrev below_second : ℕ → ℕ
  below_second i = glued (address_at p words 1 inode.pointer_data_2) below_third (p ^ 2) i

  abbrev below_first : ℕ → ℕ
  below_first i = glued (address_at p words 0 inode.pointer_data_1) below_second p i

  abbrev pub data_address : ℕ → ℕ
  data_address i = glued inode.pointer_data_0 below_first 12 i

  third_read-map :
      (n : ℕ)
      → 0 < p
      → n ≤ p ^ 3
      → third_read p words inode n ≡ some (map below_third (range_from 0 n))
  unfolding third_read
  third_read-map n h l =
      let t : leb n (p ^ 3) ≡ true = ground (arith, l) in
      rw t (indirect_read-address_at p words 2 inode.pointer_data_3 n h l)

  second_read-map :
      (n : ℕ)
      → 0 < p
      → n ≤ p ^ 2 + p ^ 3
      → second_read p words inode n ≡ some (map below_second (range_from 0 n))
  unfolding second_read
  second_read-map n h l = elim (Bool-cases (ltb (p ^ 2) n)) [
    | inl t ↦
        rw
          (
            t,
            indirect_read-address_at p words 1 inode.pointer_data_2 (p ^ 2) h (omega arith),
            third_read-map (n - p ^ 2) h (omega (arith, l)),
            glued_across (address_at p words 1 inode.pointer_data_2) below_third (p ^ 2) n
                (ground (arith, t)),
          )
          refl
    | inr t ↦
        let le : n ≤ p ^ 2 = ground (arith, t) in
        if_false (ltb (p ^ 2) n) _ (indirect_read p words 1 inode.pointer_data_2 n) t
        ∙ indirect_read-address_at p words 1 inode.pointer_data_2 n h le
        ∙ ap some (glued_below (address_at p words 1 inode.pointer_data_2) below_third (p ^ 2) n le)
  ]

  first_read-map :
      (n : ℕ)
      → 0 < p
      → p ≡ p ^ 1
      → n ≤ p + (p ^ 2 + p ^ 3)
      → first_read p words inode n ≡ some (map below_first (range_from 0 n))
  unfolding first_read
  first_read-map n h one l = elim (Bool-cases (ltb p n)) [
    | inl t ↦
        rw
          (
            t,
            indirect_read-address_at p words 0 inode.pointer_data_1 p h (omega (arith, one)),
            second_read-map (n - p) h (omega (arith, l)),
            glued_across (address_at p words 0 inode.pointer_data_1) below_second p n
                (ground (arith, t)),
          )
          refl
    | inr t ↦
        let le : n ≤ p = ground (arith, t) in
        if_false (ltb p n) _ (indirect_read p words 0 inode.pointer_data_1 n) t
        ∙ indirect_read-address_at p words 0 inode.pointer_data_1 n h (omega (arith, one, le))
        ∙ ap some (glued_below (address_at p words 0 inode.pointer_data_1) below_second p n le)
  ]

  -- With at least one pointer in a block and a number of blocks that an inode can address, all addresses
  -- are read, in the order of the file and each where the pointers lead to, with a 0 behind them.
  pub read_addresses-data_address :
      (n : ℕ)
      → 0 < p
      → n ≤ 12 + (p + (p ^ 2 + p ^ 3))
      → read_addresses p words inode n ≡ some (map data_address (range_from 0 n) ++ 0 ∷ [])
  unfolding read_addresses
  read_addresses-data_address n h l =
      let one : p ≡ p ^ 1 = sym (pow-suc p 0 ∙ ap (λ t. t * p) (pow-zero p) ∙ omega arith) in
      elim (Bool-cases (ltb 12 n)) [
        | inl t ↦
            rw (t, first_read-map (n - 12) h one (omega (arith, l)))
              (let g = glued_across inode.pointer_data_0 below_first 12 n (ground (arith, t)) in
                ap (λ r. some (r ++ 0 ∷ [])) g)
        | inr t ↦
            let g = glued_below inode.pointer_data_0 below_first 12 n (ground (arith, t)) in
            rw t (ap (λ r. some (r ++ 0 ∷ [])) g)
      ]
