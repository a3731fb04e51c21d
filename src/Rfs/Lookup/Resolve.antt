-- ===== src/Rfs/Lookup/Resolve.antt =====
-- What the search along a path finds, and that it gives back its locks.
use la_liga_de_la_justicia.Base.{
  ℕ, zero, suc, ◌+◌, ◌-◌, ◌<◌, ◌≤◌, ◌≡◌, refl, false, ◌&&◌, Option, none, some, List, [], ◌∷◌, ◌==◌,
  ltb, leb, if◌then◌else◌, length, arith,
}
use la_liga_de_la_justicia.Rfs.Image.{update}
use la_liga_de_la_justicia.Rfs.Directory.{Entry}
use la_liga_de_la_justicia.Server.Answers.{enoent}
use la_liga_de_la_justicia.Rfs.Lookup.{
  Locks, unlock, unlock_all, find_entry, give_up, arrive, StringSplit, active_file_get_file_name,
  search_in_directory,
}

-- `n` locks from `i` on are held once less.
abbrev pub Released : (n i : ℕ) → Locks → Locks → Type 0
Released n i held held' =
    (j : ℕ) → held' j ≡ (if leb i j && ltb j (i + n) then held j - 1 else held j)

unlock_held :
    (i : ℕ) (held : Locks) → 0 < held i → unlock i held ≡ some (update held i (held i - 1))
unfolding unlock
unlock_held i held h = let t : (held i == 0) ≡ false = ground arith in rw t refl

unlock_all-Released :
    (n i : ℕ) (held : Locks)
    → ((j : ℕ) → i ≤ j → j < i + n → 0 < held j)
    → (held' : Locks) × (unlock_all n i held ≡ some held') × Released n i held held'
unfolding unlock_all
unlock_all-Released zero i held h = (held, refl, λ j. ground arith)
unlock_all-Released (suc n) i held h =
    let held1 = update held i (held i - 1) in
    let (held', e, r) = unlock_all-Released n (i + 1) held1 (λ j a b. ground (arith, h j)) in
    (
      held',
      rw (unlock_held i held (h i (omega arith) (omega arith)), unlock_all) e,
      λ j. ground (arith, r j),
    )

give_up-Released :
    (count parent : ℕ) (held : Locks)
    → ((j : ℕ) → parent ≤ j → j < parent + suc count → 0 < held j)
    → (held' : Locks) × (give_up count parent held
        ≡ some (record { inode_number = 0; errno = enoent; held = held' }))
      × Released (suc count) parent held held'
unfolding give_up
give_up-Released count parent held h =
    let (held1, e, r) =
      unlock_all-Released count (parent + 1) held (λ j a b. h j (omega arith) (omega arith)) in
    let here : held1 parent ≡ held parent = ground (arith, r parent) in
    let u = unlock_held parent held1 (omega (arith, here, h parent)) in
    (
      update held1 parent (held1 parent - 1),
      rw (e, give_up) (rw (u, give_up) refl),
      λ j. ground (arith, r j, here),
    )

arrive-Released :
    (parent : ℕ) (e : Entry) (errno : ℕ) (held : Locks)
    → 0 < held parent
    → 0 < held (parent + 1)
    → (held' : Locks) × (arrive parent e errno held
        ≡ some (record { inode_number = e.inode_number; errno = errno; held = held' }))
      × Released 2 parent held held'
unfolding arrive
arrive-Released parent e errno held h k =
    let held1 = update held parent (held parent - 1) in
    let u = unlock_held parent held h in
    let v = unlock_held (parent + 1) held1 (ground (arith, k)) in
    (
      update held1 (parent + 1) (held1 (parent + 1) - 1),
      rw (u, arrive) (rw (v, arrive) refl),
      λ j. ground arith,
    )

-- The last names of paths.
module _ (strings : StringSplit) where
  abbrev pub Named : List (List ℕ) → List (List ℕ) → Type 0
  Named [] [] = Unit
  Named [] (n ∷ ns) = ⊥
  Named (p ∷ ps) [] = ⊥
  Named (p ∷ ps) (n ∷ ns) = (active_file_get_file_name strings p ≡ some n) × Named ps ns

module _ (strings : StringSplit) (entries_of : (inode_number : ℕ) → Option (List Entry))
    (errno : ℕ) where
  -- The names lead from the entries of a directory to the inode of that number. Where a name is missing the number is 0
  -- and the error ENOENT, else the error is as it was.
  pub data Resolves : List Entry → List (List ℕ) → ℕ → ℕ → Type 0 where
    missing :
        {es : List Entry} {n : List ℕ} {ns : List (List ℕ)}
        → find_entry n es ≡ none
        → Resolves es (n ∷ ns) 0 enoent
    found :
        {es : List Entry} {n : List ℕ} {e : Entry} {number : ℕ}
        → find_entry n es ≡ some e
        → number ≡ e.inode_number
        → Resolves es (n ∷ []) number errno
    inside :
        {es es' : List Entry} {n m : List ℕ} {ns : List (List ℕ)} {e : Entry} {number error : ℕ}
        → find_entry n es ≡ some e
        → entries_of e.inode_number ≡ some es'
        → Resolves es' (m ∷ ns) number error
        → Resolves es (n ∷ m ∷ ns) number error

  pub search_in_directory-Resolves :
      (parent : ℕ) (paths : List (List ℕ)) (held : Locks) {es : List Entry} {names : List (List ℕ)}
      {number error : ℕ}
      → Resolves es names number error
      → Named strings paths names
      → ((j : ℕ) → parent ≤ j → j < parent + suc (length paths) → 0 < held j)
      → (held' : Locks) × (search_in_directory strings entries_of parent paths es errno held
          ≡ some (record { inode_number = number; errno = error; held = held' }))
        × Released (suc (length paths)) parent held held'
  unfolding search_in_directory
  search_in_directory-Resolves parent [] held (missing f) n h = absurd n
  search_in_directory-Resolves parent [] held (found f e) n h = absurd n
  search_in_directory-Resolves parent [] held (inside f e r) n h = absurd n
  search_in_directory-Resolves parent (p ∷ []) held (missing f) (n, _) h =
      let (held', e, r) = give_up-Released 1 parent held h in
      (held', rw (n, search_in_directory) (rw (f, search_in_directory) e), r)
  search_in_directory-Resolves parent (p ∷ q ∷ ps) held (missing f) (n, _) h =
      let (held', e, r) = give_up-Released (suc (suc (length ps))) parent held h in
      (held', rw (n, search_in_directory) (rw (f, search_in_directory) e), r)
  search_in_directory-Resolves parent (p ∷ []) held (found {e} f same) (n, _) h =
      let (held', a, r) =
        arrive-Released parent e errno held (h parent (omega arith) (omega arith))
          (h (parent + 1) (omega arith) (omega arith)) in
      (held', rw (n, search_in_directory) (rw (f, search_in_directory) (rw same a)), r)
  search_in_directory-Resolves parent (p ∷ q ∷ ps) held (found f e) (n, m) h = absurd m
  search_in_directory-Resolves parent (p ∷ []) held (inside f e r) (n, m) h = absurd m
  search_in_directory-Resolves parent (p ∷ q ∷ ps) held (inside f e r) (n, m) h =
      let held1 = update held parent (held parent - 1) in
      let u = unlock_held parent held (h parent (omega arith) (omega arith)) in
      let (held', s, l) =
        search_in_directory-Resolves (parent + 1) (q ∷ ps) held1 r m
          (λ j a b. ground (arith, h j)) in
      (
        held',
        rw (n, search_in_directory)
            (rw (f, search_in_directory)
              (rw (e, search_in_directory) (rw (u, search_in_directory) s))),
        λ j. ground (arith, l j),
      )
