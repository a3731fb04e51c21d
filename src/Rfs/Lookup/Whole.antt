-- ===== src/Rfs/Lookup/Whole.antt =====
-- `inode_of_file` on a path of names.
use la_liga_de_la_justicia.Base.{ℕ, ◌≡◌, Option, some, List}
use la_liga_de_la_justicia.Rfs.Directory.{Entry}
use la_liga_de_la_justicia.Server.ActiveFiles.{Files}
use la_liga_de_la_justicia.Rfs.Lookup.{Locks, StringSplit, find_all, finish_all, inode_of_file}

module _ (strings : StringSplit) (entries_of : (inode_number : ℕ) → Option (List Entry))
    (new : Files → ℕ) (errno : ℕ) (held : Locks) (files files' : Files) where
  -- The number and the error, the list of files in use that was left, and no lock more or less.
  pub FoundAs : (path : List ℕ) → (number error : ℕ) → Type 0
  FoundAs path number error =
      (held' : Locks) × (inode_of_file strings entries_of new path errno held files
        ≡ some (record { inode_number = number; errno = error; held = held' }, files'))
      × ((j : ℕ) → held' j ≡ held j)

  -- The paths can be taken from the list again.
  abbrev pub Finishes : List (List ℕ) → Type 0
  Finishes paths =
      finish_all (find_all new paths files).0 (find_all new paths files).1 ≡ some files'
