-- ===== src/Server/ActiveFiles.antt =====
-- The files that operations are working on, `active_file_list_t` of rfs/source_RFS/server_threading.c. Every
-- call holds the lock `access` of the list throughout, so it is one step.
pub mod Entries
pub mod Finish
pub mod Safety
use la_liga_de_la_justicia.Base.{
  ℕ, suc, ◌+◌, ◌-◌, ◌%◌, ◌<◌, ◌≡◌, Bool, true, false, ◌||◌, Option, none, some, List, [], ◌∷◌, ◌++◌,
  ◌==◌, if◌then◌else◌, length,
}
use la_liga_de_la_justicia.Server.Strings.{same_path, same_string}

-- `active_file_t`, with the address that `calloc` gave it; its lock is not used to wait here.
pub record ActiveFile : Type 0 where
  pub address : ℕ
  pub path : List ℕ
  pub is_working : ℕ

abbrev pub Files : Type 0
Files = List ActiveFile

unfoldable pub active_file_create : (new : ℕ) → (path : List ℕ) → ActiveFile
active_file_create new path = record { address = new; path = path; is_working = 1 }

-- `active_file_list_find`: the first file with that path counts one operation more, or a new file, at
-- the address `new`, goes to the end. The address of the file is returned.
unfoldable pub active_file_list_find : (new : ℕ) → (path : List ℕ) → Files → ℕ × Files
unfolding active_file_create
active_file_list_find new path [] = (new, active_file_create new path ∷ [])
active_file_list_find new path (f ∷ fs) =
    let (a, fs') = active_file_list_find new path fs in
    if same_path path f.path
    then (f.address, record f { is_working = (f.is_working + 1) % 4294967296 } ∷ fs)
    else (a, f ∷ fs')

-- `active_file_list_remove_and_destroy_element`: the first file with that path goes.
unfoldable pub active_file_list_remove : (path : List ℕ) → Files → Files
active_file_list_remove path [] = []
active_file_list_remove path (f ∷ fs) =
    let rest = active_file_list_remove path fs in if same_string path f.path then fs else f ∷ rest

-- What the memory at an address holds of a file.
unfoldable pub path_of : ℕ → Files → Option (List ℕ)
path_of a [] = none
path_of a (f ∷ fs) = let rest = path_of a fs in if f.address == a then some f.path else rest

unfoldable pub working_of : ℕ → Files → ℕ
working_of a [] = 0
working_of a (f ∷ fs) = let rest = working_of a fs in if f.address == a then f.is_working else rest

-- `a_file->is_working--` on a `uint32_t`.
unfoldable pub decrement : ℕ → Files → Files
decrement a [] = []
decrement a (f ∷ fs) =
    let rest = decrement a fs in
    if f.address == a
    then record f { is_working = (f.is_working + 4294967295) % 4294967296 } ∷ fs
    else f ∷ rest

-- `active_file_finished_using`. An address that no file of the list has is one that was freed: `none`.
unfoldable pub active_file_finished_using : ℕ → Files → Option Files
unfolding path_of working_of decrement active_file_list_remove
active_file_finished_using a files = elim (path_of a files) [
  | none ↦ none
  | some path ↦
      let files' = decrement a files in
      some (if working_of a files' == 0 then active_file_list_remove path files' else files')
]

-- An operation that has a file in use: the address it was given, and the path it asked for.
pub record Handle : Type 0 where
  pub handle_address : ℕ
  pub handle_path : List ℕ

-- The operations of the workers in any order. The allocator gives an address that no listed file has, and
-- there are fewer than 2 ^ 32 - 1 operations at once.
pub record ServerFiles : Type 0 where
  pub files : Files
  pub handles : List Handle

abbrev pub handle : ℕ → List ℕ → Handle
handle a path = record { handle_address = a; handle_path = path }

unfoldable pub begin_use : (new : ℕ) → (path : List ℕ) → ServerFiles → ServerFiles
unfolding active_file_list_find
begin_use new path s =
    let (a, files') = active_file_list_find new path s.files in
    record { files = files'; handles = handle a path ∷ s.handles }

pub data Step : ServerFiles → ServerFiles → Type 0 where
  begins :
      {s : ServerFiles} (new : ℕ) (path : List ℕ)
      → path_of new s.files ≡ none
      → length s.handles < 4294967295
      → Step s (begin_use new path s)
  ends :
      {s : ServerFiles} (before after : List Handle) (h : Handle) (files' : Files)
      → s.handles ≡ before ++ h ∷ after
      → active_file_finished_using h.handle_address s.files ≡ some files'
      → Step s (record { files = files'; handles = before ++ after })

abbrev pub initial : ServerFiles
initial = record { files = []; handles = [] }

pub data Reach : ServerFiles → Type 0 where
  starts : Reach initial
  goes : {s t : ServerFiles} → Reach s → Step s t → Reach t
