-- ===== src/Server/ActiveFiles/Finish.antt =====
-- `active_file_finished_using` on a list of files that are in use, with different addresses and paths.
use mathlib.Core.Option.{none-ne-some}
use la_liga_de_la_justicia.Base.{
  ℕ, ◌+◌, ◌-◌, ◌%◌, ◌<◌, ◌≡◌, ◌≢◌, ◌⊎◌, refl, sym, ap, ◌∙◌, none, some, List, [], ◌∷◌, ◌==◌,
  if◌then◌else◌, true, false, arith, Bool-cases, Option-cases, inl, inr, ==_iff,
}
use la_liga_de_la_justicia.Server.Strings.{same_path-same_string, different_string}
use la_liga_de_la_justicia.Server.ActiveFiles.{
  ActiveFile, Files, active_file_finished_using, active_file_list_remove, decrement, path_of,
  working_of,
}
use la_liga_de_la_justicia.Server.ActiveFiles.Entries.{
  IsKept, kept_cons, path_of_there, working_of_here, working_of_there, path_of_cases, path_of_at,
  path_of-working_of,
}

-- One operation less on the file at an address, which goes if that was the last.
settle : ℕ → Files → Files
settle a [] = []
settle a (f ∷ fs) =
    let rest = settle a fs in
    if f.address == a
    then (if f.is_working - 1 == 0 then fs else record f { is_working = f.is_working - 1 } ∷ fs)
    else f ∷ rest

-- The steps of the call on a file that is there.
finish : ℕ → List ℕ → Files → Files
finish a path fs =
    let fs' = decrement a fs in
    if working_of a fs' == 0 then active_file_list_remove path fs' else fs'

module _ (a : ℕ) where
  finish_here :
      (f : ActiveFile) (fs : Files)
      → f.address ≡ a
      → 0 < f.is_working
      → f.is_working < 4294967296
      → finish a f.path (f ∷ fs) ≡ settle a (f ∷ fs)
  unfolding finish settle decrement working_of active_file_list_remove
  finish_here f fs e pos small =
      let t : (f.address == a) ≡ true = (==_iff f.address a).1 e in
      let w : (f.is_working + 4294967295) % 4294967296 ≡ f.is_working - 1 = omega arith in
      let s = (same_path-same_string f.path f.path).1.1 refl in rw (t, w, s) (rw t refl)

  finish_there :
      (f : ActiveFile) (fs : Files) (path : List ℕ)
      → f.address ≢ a
      → path ≢ f.path
      → finish a path (f ∷ fs) ≡ f ∷ finish a path fs
  unfolding finish decrement working_of active_file_list_remove
  finish_there f fs path ne differs =
      let t : (f.address == a) ≡ false = ground arith in
      let s = different_string path f.path differs in
      rw (t, s)
        (rw t (elim (Bool-cases (working_of a (decrement a fs) == 0)) [
          | inl z ↦ rw z refl
          | inr z ↦ rw z refl
        ]))

  settle_there : (f : ActiveFile) (fs : Files) → f.address ≢ a → settle a (f ∷ fs) ≡ f ∷ settle a fs
  unfolding settle
  settle_there f fs ne = let t : (f.address == a) ≡ false = ground arith in rw t refl

  finish-settle :
      (fs : Files) (path : List ℕ)
      → IsKept fs
      → path_of a fs ≡ some path
      → working_of a fs < 4294967296
      → finish a path fs ≡ settle a fs
  unfolding path_of
  finish-settle [] path k h small = absurd (none-ne-some path h)
  finish-settle (f ∷ fs) path (kept_cons pos own un k) h small =
      elim (path_of_cases f fs a path h) [
        | inl (e, p) ↦
            let s = ap (λ b. working_of b (f ∷ fs)) (sym e) ∙ working_of_here f fs in
            rw (sym p) (finish_here f fs e pos (omega (arith, small, s)))
        | inr (ne, inside) ↦
            let differs : path ≢ f.path = λ e. un a (inside ∙ ap some e) in
            let below : working_of a fs < 4294967296 =
              omega (arith, small, working_of_there f fs a ne) in
            finish_there f fs path ne differs
            ∙ ap (λ r. f ∷ r) (finish-settle fs path k inside below)
            ∙ sym (settle_there f fs ne)
      ]

away : (a b : ℕ) (fs : Files) (q : List ℕ) → path_of a fs ≡ none → path_of b fs ≡ some q → a ≢ b
away a b fs q h h' e = none-ne-some q (sym h ∙ ap (λ c. path_of c fs) e ∙ h')

module _ (a : ℕ) where
  -- What the end of an operation makes of a list.
  pub record Finished (fs fs' : Files) : Type 0 where
    pub kept : IsKept fs'
    pub counts : (b : ℕ) → working_of b fs' ≡ working_of b fs - (if b == a then 1 else 0)
    pub ours : (b : ℕ) (q : List ℕ) → path_of b fs' ≡ some q → path_of b fs ≡ some q
    pub keeps :
        (b : ℕ) (q : List ℕ)
        → path_of b fs ≡ some q
        → (path_of b fs' ≡ some q) ⊎ ((b ≡ a) × (working_of b fs ≡ 1))

  Finished-drop :
      (f : ActiveFile) (fs : Files)
      → f.address ≡ a
      → f.is_working ≡ 1
      → IsKept (f ∷ fs)
      → Finished (f ∷ fs) fs
  unfolding working_of path_of
  Finished-drop f fs e one (kept_cons pos own un k) = record {
    kept = k;
    counts = λ b. elim (Bool-cases (f.address == b)) [
      | inl t ↦
          let e' = (==_iff f.address b).0 t in
          let z : working_of b fs ≡ 0 =
            ap (λ c. working_of c fs) (sym e') ∙ path_of-working_of f.address fs own in
          ground (arith, z, one)
      | inr t ↦ ground (arith, e)
    ];
    ours = λ b q h. path_of_there f fs b (away f.address b fs q own h) ∙ h;
    keeps = λ b q h. elim (path_of_cases f fs b q h) [
      | inl (e', p) ↦
          inr (sym e' ∙ e, ap (λ c. working_of c (f ∷ fs)) (sym e') ∙ working_of_here f fs ∙ one)
      | inr (ne, p) ↦ inl p
    ];
  }

  Finished-less :
      (f : ActiveFile) (fs : Files)
      → f.address ≡ a
      → 1 < f.is_working
      → IsKept (f ∷ fs)
      → Finished (f ∷ fs) (record f { is_working = f.is_working - 1 } ∷ fs)
  unfolding working_of path_of
  Finished-less f fs e more (kept_cons pos own un k) = record {
    kept = kept_cons (omega arith) own un k;
    counts = λ b. ground (arith, e, more);
    ours = λ b q h. h;
    keeps = λ b q h. inl h;
  }

  Finished-there :
      (f : ActiveFile) (fs fs' : Files)
      → f.address ≢ a
      → IsKept (f ∷ fs)
      → Finished fs fs'
      → Finished (f ∷ fs) (f ∷ fs')
  unfolding working_of path_of
  Finished-there f fs fs' ne (kept_cons pos own un k) r = record {
    kept = kept_cons pos gone (λ b h. un b (r.ours b f.path h)) r.kept;
    counts = λ b. ground (arith, r.counts b);
    ours = λ b q h. elim (path_of_cases f fs' b q h) [
      | inl (e, p) ↦ path_of_at f fs b q e p
      | inr (ne', p) ↦ path_of_there f fs b ne' ∙ r.ours b q p
    ];
    keeps = λ b q h. elim (path_of_cases f fs b q h) [
      | inl (e, p) ↦ inl (path_of_at f fs' b q e p)
      | inr (ne', p) ↦ elim (r.keeps b q p) [
        | inl x ↦ inl (path_of_there f fs' b ne' ∙ x)
        | inr (e, o) ↦ inr (e, working_of_there f fs b ne' ∙ o)
      ]
    ];
  }
    where
      gone : path_of f.address fs' ≡ none
      gone = elim (Option-cases (path_of f.address fs')) [
        | inl z ↦ z
        | inr (q, z) ↦ absurd (none-ne-some q (sym own ∙ r.ours f.address q z))
      ]

  settle-Finished :
      (fs : Files) (path : List ℕ)
      → IsKept fs
      → path_of a fs ≡ some path
      → Finished fs (settle a fs)
  unfolding path_of settle
  settle-Finished [] path k h = absurd (none-ne-some path h)
  settle-Finished (f ∷ fs) path (kept_cons pos own un k) h = elim (path_of_cases f fs a path h) [
    | inl (e, p) ↦
        let t = (==_iff f.address a).1 e in
        elim (Bool-cases (f.is_working - 1 == 0)) [
          | inl z ↦ rw (t, z) (Finished-drop f fs e (ground arith) (kept_cons pos own un k))
          | inr z ↦ rw (t, z) (Finished-less f fs e (ground arith) (kept_cons pos own un k))
        ]
    | inr (ne, inside) ↦
        let t : (f.address == a) ≡ false = ground arith in
        rw t (
          Finished-there f fs (settle a fs) ne (kept_cons pos own un k)
            (settle-Finished fs path k inside))
  ]

  -- The file of a path that is at the address is found, and the call leaves one operation less.
  pub active_file_finished_using-Finished :
      (fs : Files) (path : List ℕ)
      → IsKept fs
      → path_of a fs ≡ some path
      → working_of a fs < 4294967296
      → (fs' : Files) × (active_file_finished_using a fs ≡ some fs') × Finished fs fs'
  unfolding active_file_finished_using finish
  active_file_finished_using-Finished fs path k h small =
      rw (h, active_file_finished_using)
        (settle a fs, ap some (finish-settle a fs path k h small), settle-Finished fs path k h)
