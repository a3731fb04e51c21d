-- ===== src/Rfs/Directory.antt =====
-- The entries of a directory: `get_padded_size`, `read_directory`, `copy_entry` and the search for a place in
-- `attach_entry` of rfs/source_RFS/file_operations.c. A block is the function from a byte offset to the entry that
-- stands there, so that writing one leaves the others: that a new entry has the bytes it needs is a condition of its own,
-- and where an entry is copied over the one in front of it, its name comes out whole, as with `memmove`.
pub mod Chain
pub mod Insert
pub mod Delete
pub mod Erase
pub mod Undo
use la_liga_de_la_justicia.Base.{
  ℕ, zero, suc, ◌+◌, ◌-◌, ◌%◌, Bool, true, false, Option, none, some, List, [], ◌∷◌, ◌++◌, ltb,
  ◌==◌, if◌then◌else◌,
}
use la_liga_de_la_justicia.Rfs.Image.{update}

-- `entry_t`.
pub record Entry : Type 0 where
  pub inode_number : ℕ
  pub entry_len : ℕ
  pub name_len : ℕ
  pub file_type : ℕ
  pub file_name : List ℕ

abbrev pub Block : Type 0
Block = ℕ → Entry

unfoldable pub get_padded_size : Entry → ℕ
get_padded_size an_entry =
    let unpad_size = 8 + an_entry.name_len in
    if ltb 0 (unpad_size % 4) then unpad_size + 4 - unpad_size % 4 else unpad_size

-- The entries that are in use.
abbrev pub keep_used : Entry → List Entry → List Entry
keep_used e rest = if e.inode_number == 0 then rest else e ∷ rest

abbrev pub keep_read : Entry → Option (List Entry) → Option (List Entry)
keep_read e none = none
keep_read e (some rest) = some (keep_used e rest)

-- The entry `new` behind the one at `iterate`, or in its place if that one has no name.
unfoldable pub put_entry : (iterate : ℕ) → (new : Entry) → Block → Block
unfolding get_padded_size
put_entry iterate new b =
    let e = b iterate in
    let padded = get_padded_size e in
    if ltb 8 padded
    then update (update b iterate (record e { entry_len = padded })) (iterate + padded)
        (record new { entry_len = e.entry_len - padded })
    else update b iterate (record new { entry_len = e.entry_len })

-- The test for room behind an entry.
unfoldable pub has_room : (new e : Entry) → Bool
unfolding get_padded_size
has_room new e =
    let padded = get_padded_size e in
    if ltb padded e.entry_len then ltb new.entry_len (e.entry_len - padded) else false

module _ (block_size : ℕ) where
  -- The inner loop of `read_directory` from `iterate` on, for at most that many rounds: `none` where they are
  -- not enough.
  unfoldable pub read_block : (rounds iterate : ℕ) → Block → Option (List Entry)
  read_block zero iterate b = if ltb iterate block_size then none else some []
  read_block (suc r) iterate b =
      let rest = read_block r (iterate + (b iterate).entry_len) b in
      if ltb iterate block_size then keep_read (b iterate) rest else some []

  -- `read_directory` over the blocks of the directory.
  unfoldable pub read_directory : (rounds : ℕ) → List Block → Option (List Entry)
  unfolding read_block
  read_directory rounds [] = some []
  read_directory rounds (b ∷ bs) = elim (read_block rounds 0 b) [
    | none ↦ none
    | some es ↦ elim (read_directory rounds bs) [ none ↦ none | some rest ↦ some (es ++ rest) ]
  ]

  -- The loop of `attach_entry` over one block: the block with the entry, if it has room. `none` as above.
  unfoldable pub attach_in_block :
      (rounds iterate : ℕ) → (new : Entry) → Block → Option (Option Block)
  unfolding has_room put_entry
  attach_in_block zero iterate new b = if ltb iterate block_size then none else some none
  attach_in_block (suc r) iterate new b =
      let rest = attach_in_block r (iterate + (b iterate).entry_len) new b in
      if ltb iterate block_size
      then (if has_room new (b iterate) then some (some (put_entry iterate new b)) else rest)
      else some none
