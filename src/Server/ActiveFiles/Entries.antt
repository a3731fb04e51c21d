-- ===== src/Server/ActiveFiles/Entries.antt =====
-- `active_file_list_find` on a list of files that are in use, with different addresses and paths.
use mathlib.Core.Option.{none-ne-some, some-injective}
use la_liga_de_la_justicia.Base.{
  ℕ, ◌+◌, ◌<◌, ◌≡◌, ◌≢◌, ◌⊎◌, ◌%◌, refl, sym, ◌∙◌, none, some, List, [], ◌∷◌, ◌==◌, if◌then◌else◌,
  true, false, arith, Bool-cases, inl, inr, ==_iff, ap,
}
use la_liga_de_la_justicia.Server.Strings.{same_path, same_path-same_string, different_path}
use la_liga_de_la_justicia.Server.ActiveFiles.{
  ActiveFile, Files, active_file_create, active_file_list_find, path_of, working_of,
}

-- No file of the list has that path.
abbrev pub Unnamed : List ℕ → Files → Type 0
Unnamed path files = (a : ℕ) → path_of a files ≢ some path

pub data IsKept : Files → Type 0 where
  kept_nil : IsKept []
  kept_cons :
      {f : ActiveFile} {fs : Files}
      → 0 < f.is_working
      → path_of f.address fs ≡ none
      → Unnamed f.path fs
      → IsKept fs
      → IsKept (f ∷ fs)

-- The first file of a list, at its address and at others.
module _ (f : ActiveFile) (fs : Files) where
  pub path_of_here : path_of f.address (f ∷ fs) ≡ some f.path
  unfolding path_of
  path_of_here = let t : (f.address == f.address) ≡ true = ground arith in rw t refl

  pub path_of_there : (a : ℕ) → f.address ≢ a → path_of a (f ∷ fs) ≡ path_of a fs
  unfolding path_of
  path_of_there a ne = let t : (f.address == a) ≡ false = ground arith in rw t refl

  pub working_of_here : working_of f.address (f ∷ fs) ≡ f.is_working
  unfolding working_of
  working_of_here = let t : (f.address == f.address) ≡ true = ground arith in rw t refl

  pub working_of_there : (a : ℕ) → f.address ≢ a → working_of a (f ∷ fs) ≡ working_of a fs
  unfolding working_of
  working_of_there a ne = let t : (f.address == a) ≡ false = ground arith in rw t refl

  pub absent_tail : (a : ℕ) → path_of a (f ∷ fs) ≡ none → (f.address ≢ a) × (path_of a fs ≡ none)
  unfolding path_of
  absent_tail a h = elim (Bool-cases (f.address == a)) [
    | inl t ↦
        absurd (none-ne-some f.path (sym h ∙ ap (λ b. if b then some f.path else path_of a fs) t))
    | inr t ↦ let ne : f.address ≢ a = ground arith in (ne, sym (path_of_there a ne) ∙ h)
  ]

pub path_of_cases :
    (f : ActiveFile) (fs : Files) (b : ℕ) (q : List ℕ)
    → path_of b (f ∷ fs) ≡ some q
    → ((f.address ≡ b) × (f.path ≡ q)) ⊎ ((f.address ≢ b) × (path_of b fs ≡ some q))
path_of_cases f fs b q h = elim (Bool-cases (f.address == b)) [
  | inl t ↦
      let e = (==_iff f.address b).0 t in
      inl
        (e, some-injective f.path q (sym (path_of_here f fs) ∙ ap (λ a. path_of a (f ∷ fs)) e ∙ h))
  | inr t ↦ let ne : f.address ≢ b = ground arith in inr (ne, sym (path_of_there f fs b ne) ∙ h)
]

pub path_of_at :
    (f : ActiveFile) (fs : Files) (b : ℕ) (q : List ℕ)
    → f.address ≡ b
    → f.path ≡ q
    → path_of b (f ∷ fs) ≡ some q
path_of_at f fs b q e p = ap (λ c. path_of c (f ∷ fs)) (sym e) ∙ path_of_here f fs ∙ ap some p

pub path_of-working_of : (a : ℕ) (fs : Files) → path_of a fs ≡ none → working_of a fs ≡ 0
unfolding working_of
path_of-working_of a [] h = refl
path_of-working_of a (f ∷ fs) h =
    let (ne, rest) = absent_tail f fs a h in
    working_of_there f fs a ne ∙ path_of-working_of a fs rest

module _ (new : ℕ) (path : List ℕ) where
  find_hit :
      (f : ActiveFile) (fs : Files)
      → same_path path f.path ≡ true
      → active_file_list_find new path (f ∷ fs)
        ≡ (f.address, record f { is_working = (f.is_working + 1) % 4294967296 } ∷ fs)
  unfolding active_file_list_find
  find_hit f fs t = rw t refl

  find_miss :
      (f : ActiveFile) (fs : Files)
      → same_path path f.path ≡ false
      → active_file_list_find new path (f ∷ fs)
        ≡ ((active_file_list_find new path fs).0, f ∷ (active_file_list_find new path fs).1)
  unfolding active_file_list_find
  find_miss f fs t = rw t refl

  -- What a call of `active_file_list_find` makes of a list.
  pub record Found (fs : Files) (r : ℕ × Files) : Type 0 where
    pub kept : IsKept r.1
    pub named : path_of r.0 r.1 ≡ some path
    pub others : (b : ℕ) → b ≢ new → path_of b r.1 ≡ path_of b fs
    pub counts : (b : ℕ) → working_of b r.1 ≡ working_of b fs + (if b == r.0 then 1 else 0)
    pub ours : (b : ℕ) (q : List ℕ) → path_of b r.1 ≡ some q → (path_of b fs ≡ some q) ⊎ (q ≡ path)

  Found-nil : Found [] (new, active_file_create new path ∷ [])
  unfolding active_file_create path_of working_of
  Found-nil = record {
    kept = kept_cons (omega arith) refl (λ a. none-ne-some path) kept_nil;
    named = path_of_here (active_file_create new path) [];
    others = λ b ne. path_of_there (active_file_create new path) [] b (λ e. ne (sym e));
    counts = λ b. ground arith;
    ours = λ b q e. inr (only b q e);
  }
    where
      only : (b : ℕ) (q : List ℕ) → path_of b (active_file_create new path ∷ []) ≡ some q → q ≡ path
      only b q e = elim (path_of_cases (active_file_create new path) [] b q e) [
        | inl (_, p) ↦ sym p
        | inr (_, nothing) ↦ absurd (none-ne-some q nothing)
      ]

  Found-hit :
      (f : ActiveFile) (fs : Files)
      → IsKept (f ∷ fs)
      → f.is_working < 4294967295
      → path ≡ f.path
      → Found (f ∷ fs) (f.address, record f { is_working = (f.is_working + 1) % 4294967296 } ∷ fs)
  unfolding path_of working_of
  Found-hit f fs (kept_cons pos own un k) small e = record {
    kept = kept_cons (omega arith) own un k;
    named =
        path_of_here (record f { is_working = (f.is_working + 1) % 4294967296 }) fs
        ∙ ap some (sym e);
    others = λ b ne. refl;
    counts = λ b. ground arith;
    ours = λ b q h. inl h;
  }

  Found-miss :
      (f : ActiveFile) (fs : Files) (r : ℕ × Files)
      → IsKept (f ∷ fs)
      → f.address ≢ new
      → path ≢ f.path
      → Found fs r
      → Found (f ∷ fs) (r.0, f ∷ r.1)
  unfolding path_of working_of
  Found-miss f fs (a, fs') (kept_cons pos own un k) ne differs found = record {
    kept =
        kept_cons pos gone
          (λ b h. elim (found.ours b f.path h) [ inl e ↦ un b e | inr e ↦ differs (sym e) ])
          found.kept;
    named = path_of_there f fs' a other ∙ found.named;
    others = λ b ne'. ground (arith, found.others b ne');
    counts = λ b. ground (arith, found.counts b, other);
    ours = λ b q h. elim (path_of_cases f fs' b q h) [
      | inl (e, p) ↦ inl (path_of_at f fs b q e p)
      | inr (ne', p) ↦ elim (found.ours b q p) [
        | inl o ↦ inl (path_of_there f fs b ne' ∙ o)
        | inr o ↦ inr o
      ]
    ];
  }
    where
      gone : path_of f.address fs' ≡ none
      gone = found.others f.address ne ∙ own

      other : f.address ≢ a
      other e = none-ne-some path (sym gone ∙ ap (λ b. path_of b fs') e ∙ found.named)

  pub active_file_list_find-Found :
      (fs : Files)
      → IsKept fs
      → path_of new fs ≡ none
      → ((b : ℕ) → working_of b fs < 4294967295)
      → Found fs (active_file_list_find new path fs)
  unfolding active_file_list_find
  active_file_list_find-Found [] k h small = Found-nil
  active_file_list_find-Found (f ∷ fs) (kept_cons pos own un k) h small =
      let (ne, absent) = absent_tail f fs new h in
      elim (Bool-cases (same_path path f.path)) [
        | inl t ↦ rw (find_hit f fs t) (
            Found-hit f fs (kept_cons pos own un k)
              (omega (arith, small f.address, working_of_here f fs))
              ((same_path-same_string path f.path).0.0 t))
        | inr t ↦ rw (find_miss f fs t) (
            Found-miss f fs (active_file_list_find new path fs) (kept_cons pos own un k) ne
              (different_path path f.path t)
              (active_file_list_find-Found fs k absent (λ b. below b)))
      ]
    where
      below : (b : ℕ) → working_of b fs < 4294967295
      below b = elim (Bool-cases (f.address == b)) [
        | inl t ↦
            let e = (==_iff f.address b).0 t in
            let z = ap (λ c. working_of c fs) (sym e) ∙ path_of-working_of f.address fs own in
            omega (arith, z)
        | inr t ↦
            let ne : f.address ≢ b = ground arith in
            omega (arith, small b, working_of_there f fs b ne)
      ]
