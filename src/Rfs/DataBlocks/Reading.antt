-- ===== src/Rfs/DataBlocks/Reading.antt =====
-- Reading through the indirect blocks visits the tree from left to right.
use la_liga_de_la_justicia.Base.{
  ℕ, zero, suc, ◌+◌, ◌*◌, ◌/◌, ◌%◌, ◌^◌, ◌<◌, ◌≤◌, ◌≡◌, refl, sym, ap, ◌∙◌, false, Option, some,
  List, ◌∷◌, ◌++◌, map, ltb, ◌==◌, range_from, arith, inl, inr, Bool-cases, ==_iff, div_unique,
  mod_unique, div_bounds,
}
use native.Mathlib.Nat.{pow-suc, pow-zero, one-le-pow}
use la_liga_de_la_justicia.Rfs.DataBlocks.{indirect_read1, full_entries, indirect_read}

-- The `i`-th address below an indirect block of level `suc k`.
unfoldable pub address_at : (p : ℕ) → (ℕ → ℕ → ℕ) → (k block i : ℕ) → ℕ
address_at p words zero block i = words block i
address_at p words (suc k) block i =
    address_at p words k (words block (i / p ^ suc k)) (i % p ^ suc k)

module _ {ℓ} {A : Type ℓ} where
  pub map-range_from_append :
      (f : ℕ → A) (i a b : ℕ)
      → map f (range_from i a) ++ map f (range_from (i + a) b) ≡ map f (range_from i (a + b))
  map-range_from_append f i zero b =
      let e1 : i + 0 ≡ i = omega arith in let e2 : 0 + b ≡ b = omega arith in rw (e1, e2) refl
  map-range_from_append f i (suc a) b =
      let e1 : i + suc a ≡ i + 1 + a = omega arith in
      let e2 : suc a + b ≡ suc (a + b) = omega arith in
      rw (e1, e2) (ap (λ t. f i ∷ t) (map-range_from_append f (i + 1) a b))

  pub map_ranges :
      (f : ℕ → A) (a b n : ℕ)
      → a + b ≡ n
      → map f (range_from 0 a) ++ map f (range_from a b) ≡ map f (range_from 0 n)
  map_ranges f a b n e =
      ap (λ t. map f (range_from 0 a) ++ map f (range_from t b)) (omega arith)
      ∙ map-range_from_append f 0 a b
      ∙ ap (λ t. map f (range_from 0 t)) e

  -- Two functions that agree on a range, the one shifted against the other.
  pub map-range_from_shift :
      (f g : ℕ → A) (i j n : ℕ)
      → ((x : ℕ) → x < n → f (i + x) ≡ g (j + x))
      → map f (range_from i n) ≡ map g (range_from j n)
  map-range_from_shift f g i j zero h = refl
  map-range_from_shift f g i j (suc n) h =
      let e1 : i + 0 ≡ i = omega arith in
      let e2 : j + 0 ≡ j = omega arith in
      let here : f i ≡ g j = ap f (sym e1) ∙ h 0 (omega arith) ∙ ap g e2 in
      let rest = map-range_from_shift f g (i + 1) (j + 1) n (λ x l.
        let a1 : i + 1 + x ≡ i + suc x = omega arith in
        let a2 : j + suc x ≡ j + 1 + x = omega arith in
        ap f a1 ∙ h (suc x) (omega (arith, l)) ∙ ap g a2) in
      rw (here, rest) refl

module _ (p : ℕ) (words : ℕ → ℕ → ℕ) where
  entry_address :
      (f : ℕ → ℕ → ℕ)
      → (per block i x : ℕ) → x < per
      → f (words block i) x ≡ f (words block ((i * per + x) / per)) ((i * per + x) % per)
  entry_address f per block i x l =
      let d : (i * per + x) / per ≡ i = div_unique i x per (i * per + x) l refl in
      let m : (i * per + x) % per ≡ x = mod_unique i x per (i * per + x) l refl in rw (d, m) refl

  full_entries-map :
      (sub : ℕ → ℕ → Option (List ℕ)) (f : ℕ → ℕ → ℕ) (per block i k : ℕ)
      → ((b : ℕ) → sub b per ≡ some (map (f b) (range_from 0 per)))
      → full_entries p words sub per block i k
        ≡ some (map (λ x. f (words block (x / per)) (x % per)) (range_from (i * per) (k * per)))
  unfolding full_entries
  full_entries-map sub f per block i zero h = let e : 0 * per ≡ 0 = omega arith in rw e refl
  full_entries-map sub f per block i (suc k) h =
      let g : ℕ → ℕ = λ x. f (words block (x / per)) (x % per) in
      let ih = full_entries-map sub f per block (i + 1) k h in
      let first : map (f (words block i)) (range_from 0 per) ≡ map g (range_from (i * per) per) =
        map-range_from_shift (f (words block i)) g 0 (i * per) per
          (λ x l. ap (f (words block i)) (omega arith) ∙ entry_address f per block i x l) in
      let e1 : (i + 1) * per ≡ i * per + per = omega arith in
      let e2 : suc k * per ≡ per + k * per = omega arith in
      let all = map-range_from_append g (i * per) per (k * per) in
      rw (h (words block i), ih, first, e1, e2, all) refl

  -- Through an indirect block of level `suc k`, as many addresses as asked for are read, in order, if it
  -- can hold them.
  pub indirect_read-address_at :
      (k block n : ℕ)
      → 0 < p
      → n ≤ p ^ suc k
      → indirect_read p words k block n ≡ some (map (address_at p words k block) (range_from 0 n))
  unfolding indirect_read indirect_read1 address_at
  indirect_read-address_at zero block n h l =
      let e : p ^ 1 ≡ p = pow-suc p 0 ∙ ap (λ t. t * p) (pow-zero p) ∙ omega arith in
      let t : ltb p n ≡ false = ground (arith, e, l) in rw t refl
  indirect_read-address_at (suc k) block n h l =
      let per = p ^ suc k in
      let t : ltb (p ^ suc (suc k)) n ≡ false = ground (arith, l) in
      let q = n / per in
      let r = n % per in
      let db = div_bounds n per (one-le-pow (suc k) p h) in
      let f = address_at p words k in
      let g : ℕ → ℕ = λ x. f (words block (x / per)) (x % per) in
      let e0 : 0 * per ≡ 0 = omega arith in
      let whole =
        full_entries-map (indirect_read p words k) f per block 0 q
          (λ b. indirect_read-address_at k b per h (omega arith)) in
      rw (t, whole, e0)
        elim (Bool-cases (r == 0)) [
          | inl z ↦ let e : q * per ≡ n = omega (arith, db.0, (==_iff r 0).0 z) in rw (z, e) refl
          | inr z ↦
              let last = indirect_read-address_at k (words block q) r h (omega (arith, db.1)) in
              let tail : map (f (words block q)) (range_from 0 r) ≡ map g (range_from (q * per) r) =
                map-range_from_shift (f (words block q)) g 0 (q * per) r (λ x l.
                  ap (f (words block q)) (omega arith)
                  ∙ entry_address f per block q x (omega (arith, l, db.1))) in
              let all : map g (range_from 0 (q * per)) ++ map g (range_from (q * per) r)
                  ≡ map g (range_from 0 n) =
                map_ranges g (q * per) r n (db.0) in
              rw (z, last, tail, all) refl
        ]
