-- ===== src/Server/ActiveFiles/Safety.antt =====
-- What holds of the list of active files whatever the operations do, in any order.
use mathlib.Core.Option.{none-ne-some, some-injective}
use la_liga_de_la_justicia.Base.{
  ℕ, ◌+◌, ◌≤◌, ◌<◌, ◌≡◌, refl, sym, ap, ◌∙◌, subst, none, some, List, [], ◌∷◌, ◌++◌, ◌==◌,
  if◌then◌else◌, arith, inl, inr, ==_iff, length, length-append,
}
use la_liga_de_la_justicia.Server.ActiveFiles.{
  Files, Handle, ServerFiles, begin_use, begins, ends, Reach, starts, goes, active_file_list_find,
  active_file_finished_using, path_of, working_of,
}
use la_liga_de_la_justicia.Server.ActiveFiles.Entries.{
  IsKept, Found, kept_nil, kept_cons, path_of_cases, working_of_here, active_file_list_find-Found,
}
use la_liga_de_la_justicia.Server.ActiveFiles.Finish.{active_file_finished_using-Finished, Finished}

-- The number of operations that were given an address.
held : ℕ → List Handle → ℕ
held a [] = 0
held a (h ∷ hs) = held a hs + (if a == h.handle_address then 1 else 0)

-- Every operation finds its path at its address.
data Valid (files : Files) : List Handle → Type 0 where
  valid_nil : Valid files []
  valid_cons :
      {h : Handle} {hs : List Handle}
      → path_of h.handle_address files ≡ some h.handle_path
      → Valid files hs
      → Valid files (h ∷ hs)

held-split :
    (a : ℕ) (before after : List Handle) (h : Handle)
    → held a (before ++ h ∷ after)
      ≡ held a (before ++ after) + (if a == h.handle_address then 1 else 0)
unfolding held
held-split a [] after h = refl
held-split a (x ∷ before) after h = omega (arith, held-split a before after h)

held-length : (a : ℕ) (hs : List Handle) → held a hs ≤ length hs
unfolding held
held-length a [] = omega arith
held-length a (h ∷ hs) = ground (arith, held-length a hs)

Valid-at :
    (files : Files) (before after : List Handle) (h : Handle)
    → Valid files (before ++ h ∷ after)
    → path_of h.handle_address files ≡ some h.handle_path
Valid-at files [] after h (valid_cons e v) = e
Valid-at files (x ∷ before) after h (valid_cons e v) = Valid-at files before after h v

Valid-drop :
    (files : Files) (before after : List Handle) (h : Handle)
    → Valid files (before ++ h ∷ after)
    → Valid files (before ++ after)
Valid-drop files [] after h (valid_cons e v) = v
Valid-drop files (x ∷ before) after h (valid_cons e v) =
    valid_cons e (Valid-drop files before after h v)

Valid-kept :
    (files files' : Files) (hs : List Handle)
    → Valid files hs
    → ((a : ℕ) (p : List ℕ) → 0 < held a hs → path_of a files ≡ some p → path_of a files' ≡ some p)
    → Valid files' hs
unfolding held
Valid-kept files files' [] valid_nil k = valid_nil
Valid-kept files files' (h ∷ hs) (valid_cons e v) k =
    valid_cons (k h.handle_address h.handle_path (ground arith) e)
      (Valid-kept files files' hs v (λ a p pos e'. k a p (omega (arith, pos)) e'))

record Inv (s : ServerFiles) : Type 0 where
  kept : IsKept s.files
  counted : (a : ℕ) → working_of a s.files ≡ held a s.handles
  valid : Valid s.files s.handles
  few : length s.handles ≤ 4294967295

begin_use-Inv :
    (new : ℕ) (path : List ℕ) (s : ServerFiles)
    → Inv s
    → path_of new s.files ≡ none
    → length s.handles < 4294967295
    → Inv (begin_use new path s)
unfolding begin_use held
begin_use-Inv new path s inv absent room = record {
  kept = found.kept;
  counted = λ a. omega (arith, found.counts a, inv.counted a);
  valid = valid_cons found.named (
      Valid-kept s.files (active_file_list_find new path s.files).1 s.handles inv.valid
        (λ a p pos e.
          found.others a
            (λ e'. none-ne-some p (sym absent ∙ ap (λ c. path_of c s.files) (sym e') ∙ e))
          ∙ e));
  few = omega (arith, room);
}
  where
    found : Found new path s.files (active_file_list_find new path s.files)
    found =
        active_file_list_find-Found new path s.files inv.kept absent
          (λ b. omega (arith, inv.counted b, held-length b s.handles, room))

ends-Inv :
    (s : ServerFiles) (before after : List Handle) (h : Handle) (files' : Files)
    → Inv s
    → s.handles ≡ before ++ h ∷ after
    → Finished h.handle_address s.files files'
    → Inv (record { files = files'; handles = before ++ after })
ends-Inv s before after h files' inv e r = record {
  kept = r.kept;
  counted = λ a. omega (arith, r.counts a, counts a);
  valid =
      Valid-kept s.files files' (before ++ after) (Valid-drop s.files before after h valid_here)
        (λ a p pos e'. elim (r.keeps a p e') [
          | inl x ↦ x
          | inr (same, one) ↦
              let t = (==_iff a h.handle_address).1 same in
              absurd (ground (arith, one, counts a, t, pos))
        ]);
  few =
      omega
        (arith, inv.few, ap length e, length-append before after, length-append before (h ∷ after));
}
  where
    counts :
        (a : ℕ)
        → working_of a s.files ≡ held a (before ++ after) + (if a == h.handle_address then 1 else 0)
    counts a = inv.counted a ∙ ap (held a) e ∙ held-split a before after h

    valid_here : Valid s.files (before ++ h ∷ after)
    valid_here = subst (Valid s.files) e inv.valid

-- The end of an operation that has a file in use.
finished :
    (s : ServerFiles) (before after : List Handle) (h : Handle)
    → Inv s
    → s.handles ≡ before ++ h ∷ after
    → (path_of h.handle_address s.files ≡ some h.handle_path)
      × ((files' : Files) × (active_file_finished_using h.handle_address s.files ≡ some files')
          × Finished h.handle_address s.files files')
finished s before after h inv e =
    let here = Valid-at s.files before after h (subst (Valid s.files) e inv.valid) in
    (
      here,
      active_file_finished_using-Finished h.handle_address s.files h.handle_path inv.kept here (
          omega
            (arith, inv.counted h.handle_address, held-length h.handle_address s.handles, inv.few)),
    )

Reach-Inv : {s : ServerFiles} → Reach s → Inv s
unfolding path_of working_of held
Reach-Inv starts = record {
  kept = kept_nil;
  counted = λ a. refl;
  valid = valid_nil;
  few = omega arith;
}
Reach-Inv (goes r (begins new path absent room)) =
    begin_use-Inv new path _ (Reach-Inv r) absent room
Reach-Inv (goes r (ends {s} before after h files' e done)) =
    let inv = Reach-Inv r in
    let (_, (files'', done', f)) = finished s before after h inv e in
    ends-Inv s before after h files' inv e (
      subst (Finished h.handle_address s.files) (some-injective files'' files' (sym done' ∙ done))
        f)

-- Whatever operations begin and end, in any order: an operation that has a file in use finds its path at
-- the address it was given, so the file was not freed, and the end of the operation finds it too.
pub held_file_listed :
    {s : ServerFiles}
    → Reach s
    → (before after : List Handle) (h : Handle) → s.handles ≡ before ++ h ∷ after
    → (path_of h.handle_address s.files ≡ some h.handle_path)
      × ((files' : Files) × (active_file_finished_using h.handle_address s.files ≡ some files'))
held_file_listed {s} r before after h e =
    let (here, (files', done, _)) = finished s before after h (Reach-Inv r) e in
    (here, (files', done))

paths_apart :
    (fs : Files) (a b : ℕ) (p : List ℕ)
    → IsKept fs
    → path_of a fs ≡ some p
    → path_of b fs ≡ some p
    → a ≡ b
unfolding path_of
paths_apart [] a b p k ha hb = absurd (none-ne-some p ha)
paths_apart (f ∷ fs) a b p (kept_cons pos own un k) ha hb = elim (path_of_cases f fs a p ha) [
  | inl (ea, pa) ↦ elim (path_of_cases f fs b p hb) [
    | inl (eb, pb) ↦ sym ea ∙ eb
    | inr (nb, pb) ↦ absurd (un b (pb ∙ ap some (sym pa)))
  ]
  | inr (na, pa) ↦ elim (path_of_cases f fs b p hb) [
    | inl (eb, pb) ↦ absurd (un a (pa ∙ ap some (sym pb)))
    | inr (nb, pb) ↦ paths_apart fs a b p k pa pb
  ]
]

-- One lock for each path: two operations on the same path, in any reachable state, have the same
-- `active_file_t`, so its lock holds for both.
pub one_file_per_path :
    {s : ServerFiles}
    → Reach s
    → (before after before' after' : List Handle) (h h' : Handle) → s.handles ≡ before ++ h ∷ after
    → s.handles ≡ before' ++ h' ∷ after'
    → h.handle_path ≡ h'.handle_path
    → h.handle_address ≡ h'.handle_address
one_file_per_path {s} r before after before' after' h h' e e' same =
    let inv = Reach-Inv r in
    let (here, _) = finished s before after h inv e in
    let (here', _) = finished s before' after' h' inv e' in
    paths_apart s.files h.handle_address h'.handle_address h.handle_path inv.kept here
      (here' ∙ ap some (sym same))

no_files : (fs : Files) → IsKept fs → ((a : ℕ) → working_of a fs ≡ 0) → fs ≡ []
no_files [] k h = refl
no_files (f ∷ fs) (kept_cons pos own un k) h =
    absurd (omega (arith, pos, h f.address, working_of_here f fs))

-- Nothing is leaked: when no operation has a file in use, the list of active files is empty.
pub no_handles_no_files : {s : ServerFiles} → Reach s → s.handles ≡ [] → s.files ≡ []
unfolding held
no_handles_no_files {s} r e =
    let inv = Reach-Inv r in no_files s.files inv.kept (λ a. inv.counted a ∙ ap (held a) e)
