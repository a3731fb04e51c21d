-- ===== src/Rc/Chain.antt =====
-- The linked list of elements as it stands on the heap, and what walks along it find.
use la_liga_de_la_justicia.Base.{
  ℕ, zero, suc, ◌<◌, ◌≡◌, ◌≢◌, refl, ap, ◌∙◌, Bool, true, false, not, take, ==_iff, ◌&&◌, List, [],
  ◌∷◌, leb, ◌==◌, if◌then◌else◌, length, arith, inl, inr, Bool-cases,
}
use la_liga_de_la_justicia.Rc.Store.{Ptr, null, Element, Dictionary, done, load}
use la_liga_de_la_justicia.Rc.Dictionary.{
  obtener_loop, obtener, has_key, same_bytes, first_fit, is_free,
}

-- Along `next` from `p` stand the elements `l`, and then NULL.
abbrev pub Linked : (Ptr → Element) → Ptr → List Ptr → Type 0
Linked heap p [] = p ≡ null
Linked heap p (q ∷ qs) = (p ≡ q) × (q ≢ null) × Linked heap ((heap q).next) qs

abbrev pub first_with : (Ptr → Bool) → List Ptr → Ptr
first_with test [] = null
first_with test (q ∷ qs) = if test q then q else first_with test qs

pub load_element : (p : Ptr) (d : Dictionary) → p ≢ null → load p d ≡ done (d.heap p) d
unfolding load
load_element p d ne = let e : (p == null) ≡ false = ground arith in rw e refl

module _ (key : List ℕ) (nkey : ℕ) (d : Dictionary) where
  pub obtener_loop-first_with :
      (l : List Ptr) (fuel : ℕ) (p : Ptr)
      → Linked d.heap p l
      → length l < fuel
      → obtener_loop key nkey fuel p d ≡ done (first_with (λ q. has_key key nkey (d.heap q)) l) d
  unfolding obtener_loop
  obtener_loop-first_with l zero p k h = absurd (omega arith)
  obtener_loop-first_with [] (suc f) p k h = rw k refl
  obtener_loop-first_with (q ∷ qs) (suc f) p (e, ne, k) h =
      let n : (q == null) ≡ false = ground arith in
      let ih = obtener_loop-first_with qs f ((d.heap q).next) k (omega arith) in
      rw (e, n, load_element q d ne)
        elim (Bool-cases (has_key key nkey (d.heap q))) [
          | inl t ↦ rw t refl
          | inr t ↦ rw (t, ih) refl
        ]

-- The element holds that key: it has a key, of `nkey` bytes, and those agree.
pub record HasKey (key : List ℕ) (nkey : ℕ) (e : Element) : Type 0 where
  pub keyed : e.nkey ≢ 0
  pub same_length : e.nkey ≡ nkey
  pub same_key : take nkey e.key ≡ take nkey key

-- `p` is the first of the elements `l` that has the property, or NULL where none has.
pub data First (has : Ptr → Type 0) : (l : List Ptr) → (p : Ptr) → Type 0 where
  missing : First has [] null
  here : {q : Ptr} {l : List Ptr} → has q → First has (q ∷ l) q
  later : {q p : Ptr} {l : List Ptr} → ¬ (has q) → First has l p → First has (q ∷ l) p

split : (p q : Bool) → (p && q) ≡ true → (p ≡ true) × (q ≡ true)
split true q h = (refl, h)
split false q h = cc

same_bytes_sound : (xs ys : List ℕ) → same_bytes xs ys ≡ true → xs ≡ ys
same_bytes_sound [] [] h = refl
same_bytes_sound [] (y ∷ ys) h = cc
same_bytes_sound (x ∷ xs) [] h = cc
same_bytes_sound (x ∷ xs) (y ∷ ys) h =
    let (a, b) = split (x == y) (same_bytes xs ys) h in
    ap (λ z. z ∷ xs) ((==_iff x y).0 a) ∙ ap (λ l. y ∷ l) (same_bytes_sound xs ys b)

same_bytes_refl : (xs : List ℕ) → same_bytes xs xs ≡ true
same_bytes_refl [] = refl
same_bytes_refl (x ∷ xs) = let t : (x == x) ≡ true = ground arith in rw (t, same_bytes_refl xs) refl

module _ (key : List ℕ) (nkey : ℕ) (e : Element) where
  has_key-HasKey : has_key key nkey e ≡ true → HasKey key nkey e
  has_key-HasKey h =
      let (a, rest) =
        split (not (e.nkey == 0)) ((e.nkey == nkey) && same_bytes (take nkey e.key) (take nkey key))
          h in
      let (b, c) = split (e.nkey == nkey) (same_bytes (take nkey e.key) (take nkey key)) rest in
      record {
        keyed = ground (arith, a);
        same_length = (==_iff e.nkey nkey).0 b;
        same_key = same_bytes_sound (take nkey e.key) (take nkey key) c;
      }

  HasKey-has_key : HasKey key nkey e → has_key key nkey e ≡ true
  HasKey-has_key k =
      let a : (e.nkey == 0) ≡ false = ground (arith, k.keyed) in
      let b : (e.nkey == nkey) ≡ true = ground (arith, k.same_length) in
      let c : same_bytes (take nkey e.key) (take nkey key) ≡ true =
        rw k.same_key (same_bytes_refl (take nkey key)) in
      rw (a, b, c) refl

  no_key : has_key key nkey e ≡ false → ¬ (HasKey key nkey e)
  no_key h k = let h' = HasKey-has_key k in cc

first_with-First :
    (has : Ptr → Type 0) (test : Ptr → Bool)
    → ((q : Ptr) → test q ≡ true → has q)
    → ((q : Ptr) → test q ≡ false → ¬ (has q))
    → (l : List Ptr) → First has l (first_with test l)
first_with-First has test to from [] = missing
first_with-First has test to from (q ∷ l) = elim (Bool-cases (test q)) [
  | inl t ↦ rw t (here (to q t))
  | inr t ↦ rw t (later (from q t) (first_with-First has test to from l))
]

-- The lookup ends when the fuel exceeds the number of the listed elements and changes nothing. It gives the first
-- of them that has a key of `nkey` bytes, none of 0, that are those of the wanted key; and NULL where none has.
pub obtener-First :
    (key : List ℕ) (nkey : ℕ) (d : Dictionary) (l : List Ptr) (fuel : ℕ)
    → Linked d.heap d.elements l
    → length l < fuel
    → (p : Ptr) × (obtener fuel key nkey d ≡ done p d) × First (λ q. HasKey key nkey (d.heap q)) l p
unfolding obtener
obtener-First key nkey d l fuel k h = (
  first_with (λ q. has_key key nkey (d.heap q)) l,
  obtener_loop-first_with key nkey d l fuel d.elements k h,
  first_with-First (λ q. HasKey key nkey (d.heap q)) (λ q. has_key key nkey (d.heap q))
      (λ q. has_key-HasKey key nkey (d.heap q)) (λ q. no_key key nkey (d.heap q)) l,
)

-- The search for room gives the first listed element that is free and has `size` bytes, and NULL
-- where there is none; it changes nothing.
pub first_fit-first_with :
    (size : ℕ) (d : Dictionary) (l : List Ptr) (fuel : ℕ) (p : Ptr)
    → Linked d.heap p l
    → length l < fuel
    → first_fit size fuel p d
      ≡ done (first_with (λ q. is_free (d.heap q) && leb size ((d.heap q).chunk_size)) l) d
unfolding first_fit
first_fit-first_with size d l zero p k h = absurd (omega arith)
first_fit-first_with size d [] (suc f) p k h = rw k refl
first_fit-first_with size d (q ∷ qs) (suc f) p (e, ne, k) h =
    let n : (q == null) ≡ false = ground arith in
    let ih = first_fit-first_with size d qs f ((d.heap q).next) k (omega arith) in
    rw (e, n, load_element q d ne)
      elim (Bool-cases (is_free (d.heap q) && leb size ((d.heap q).chunk_size))) [
        | inl t ↦ rw t refl
        | inr t ↦ rw (t, ih) refl
      ]
