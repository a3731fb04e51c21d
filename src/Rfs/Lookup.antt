-- ===== src/Rfs/Lookup.antt =====
-- `search_in_directory` and `inode_of_file` of rfs/source_RFS/file_operations.c, with the locks of the
-- `active_file_t` of each path. The paths of one search differ, so their locks do, and a lock is the position of its
-- path; `held` counts what this worker holds. A release of a lock that is not held is `none`, as is a read through NULL.
pub mod Resolve
pub mod Whole
use la_liga_de_la_justicia.Base.{
  ℕ, zero, suc, ◌+◌, ◌-◌, ◌%◌, ◌≡◌, Bool, true, false, Option, none, some, List, [], ◌∷◌, ◌++◌,
  ◌==◌, if◌then◌else◌, length, All,
}
use la_liga_de_la_justicia.Rfs.Image.{update}
use la_liga_de_la_justicia.Rfs.Paths.{root, last, split_path}
use la_liga_de_la_justicia.Rfs.Paths.Tree.{joined, IsName}
use la_liga_de_la_justicia.Rfs.Directory.{Entry}
use la_liga_de_la_justicia.Rfs.Directory.Delete.{has_name}
use la_liga_de_la_justicia.Server.Answers.{enoent}
use la_liga_de_la_justicia.Server.ActiveFiles.{
  Files, active_file_list_find, active_file_finished_using,
}

abbrev pub root_inode_number : ℕ
root_inode_number = 2

abbrev pub Locks : Type 0
Locks = ℕ → ℕ

abbrev pub lock : ℕ → Locks → Locks
lock i held = update held i (held i + 1)

unfoldable pub unlock : ℕ → Locks → Option Locks
unlock i held = if held i == 0 then none else some (update held i (held i - 1))

-- `n` locks from `i` on, taken and released.
unfoldable pub lock_all : (n i : ℕ) → Locks → Locks
lock_all zero i held = held
lock_all (suc n) i held = lock_all n (i + 1) (lock i held)

unfoldable pub unlock_all : (n i : ℕ) → Locks → Option Locks
unlock_all zero i held = some held
unlock_all (suc n) i held = elim (unlock i held) [
  | none ↦ none
  | some held' ↦ unlock_all n (i + 1) held'
]

-- The first entry of that name.
unfoldable pub find_entry : (file_name : List ℕ) → List Entry → Option Entry
unfolding has_name
find_entry file_name [] = none
find_entry file_name (e ∷ es) =
    let rest = find_entry file_name es in if has_name file_name e then some e else rest

-- `string_split` of the commons library with "/": the parts between separators, without the empty ones.
pub record StringSplit : Type 0 where
  pub string_split : List ℕ → List (List ℕ)
  pub split-joined :
      (names : List (List ℕ)) → All IsName names → string_split (joined names) ≡ names
  pub split-slash :
      (names : List (List ℕ)) → All IsName names → string_split (joined names ++ root) ≡ names

pub record Found : Type 0 where
  pub inode_number : ℕ
  pub errno : ℕ
  pub held : Locks

-- The releases of a search that found nothing, and of one that found the file.
unfoldable pub give_up : (count parent : ℕ) → Locks → Option Found
give_up count parent held = elim (unlock_all count (parent + 1) held) [
  | none ↦ none
  | some held' ↦ elim (unlock parent held') [
    | none ↦ none
    | some held'' ↦ some (record { inode_number = 0; errno = enoent; held = held'' })
  ]
]

unfoldable pub arrive : (parent : ℕ) → Entry → (errno : ℕ) → Locks → Option Found
arrive parent e errno held = elim (unlock parent held) [
  | none ↦ none
  | some held' ↦ elim (unlock (parent + 1) held') [
    | none ↦ none
    | some held'' ↦ some (record { inode_number = e.inode_number; errno = errno; held = held'' })
  ]
]

-- `active_file_list_find` for every path, where `new` is the allocator, and the end of their use.
unfoldable pub find_all : (new : Files → ℕ) → List (List ℕ) → Files → List ℕ × Files
unfolding active_file_list_find
find_all new [] files = ([], files)
find_all new (path ∷ paths) files =
    let (a, files') = active_file_list_find (new files) path files in
    let (rest, files'') = find_all new paths files' in (a ∷ rest, files'')

unfoldable pub finish_all : (sub_paths : List ℕ) → Files → Option Files
unfolding active_file_finished_using
finish_all [] files = some files
finish_all (a ∷ rest) files = elim (active_file_finished_using a files) [
  | none ↦ none
  | some files' ↦ finish_all rest files'
]

module _ (strings : StringSplit) where
  open strings use {string_split}

  unfoldable pub active_file_get_file_name : (path : List ℕ) → Option (List ℕ)
  active_file_get_file_name path =
      if length path == 1
      then some path
      else elim (string_split path) [ [] ↦ none | n ∷ ns ↦ some (last n ns) ]

  -- `entries_of` is `read_directory` on the inode of that number; `none` where it returns NULL or never.
  module _ (entries_of : (inode_number : ℕ) → Option (List Entry)) where
    -- The paths are those of `sub_paths` from `*sub_paths` on, and `parent` is the position of `*(sub_paths - 1)`.
    unfoldable pub search_in_directory :
        (parent : ℕ)
        → (sub_paths : List (List ℕ)) → (old_entries : List Entry) → (errno : ℕ) → Locks
        → Option Found
    search_in_directory parent [] old_entries errno held = none
    search_in_directory parent (path ∷ []) old_entries errno held =
        elim (active_file_get_file_name path) [
          | none ↦ none
          | some file_name ↦ elim (find_entry file_name old_entries) [
            | none ↦ give_up 1 parent held
            | some e ↦ arrive parent e errno held
          ]
        ]
    search_in_directory parent (path ∷ next ∷ sub_paths) old_entries errno held =
        elim (active_file_get_file_name path) [
          | none ↦ none
          | some file_name ↦ elim (find_entry file_name old_entries) [
            | none ↦ give_up (suc (suc (length sub_paths))) parent held
            | some e ↦ elim (entries_of e.inode_number) [
              | none ↦ none
              | some new_entries ↦ elim (unlock parent held) [
                | none ↦ none
                | some held' ↦
                    search_in_directory (parent + 1) (next ∷ sub_paths) new_entries errno held'
              ]
            ]
          ]
        ]

    -- The search below the root, or the root.
    unfoldable pub search_paths : (paths : List (List ℕ)) → (errno : ℕ) → Locks → Option Found
    search_paths [] errno held = none
    search_paths (path ∷ []) errno held = elim (unlock 0 held) [
      | none ↦ none
      | some held' ↦ some (record { inode_number = root_inode_number; errno = errno; held = held' })
    ]
    search_paths (path ∷ next ∷ paths) errno held = elim (entries_of root_inode_number) [
      | none ↦ none
      | some root_entries ↦ search_in_directory 0 (next ∷ paths) root_entries errno held
    ]

    -- `inode_of_file` up to the reading of the inode: it returns NULL where the number is 0.
    unfoldable pub inode_of_file :
        (new : Files → ℕ) → (path : List ℕ) → (errno : ℕ) → Locks → Files → Option (Found × Files)
    inode_of_file new path errno held files = elim (split_path path) [
      | none ↦ some (record { inode_number = 0; errno = errno; held = held }, files)
      | some paths ↦
          let (sub_paths, files') = find_all new paths files in
          elim (search_paths paths errno (lock_all (length paths) 0 held)) [
            | none ↦ none
            | some found ↦ elim (finish_all sub_paths files') [
              | none ↦ none
              | some files'' ↦ some (found, files'')
            ]
          ]
    ]
