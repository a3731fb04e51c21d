-- ===== src/Tests/RfsDirectory.antt =====
-- A directory of one block of 64 bytes with "." and "..", to which "a" is added.
use la_liga_de_la_justicia.Base.{
  ℕ, ◌≡◌, refl, Option, none, some, List, [], ◌∷◌, ◌==◌, if◌then◌else◌, arith,
}
use la_liga_de_la_justicia.Rfs.Directory.{Entry, Block, read_block}
use la_liga_de_la_justicia.Rfs.Directory.Chain.{Chain, at_end, entry, Used, read_block-Used}
use la_liga_de_la_justicia.Rfs.Directory.Delete.{
  Deletion, kept, emptied, changed, delete_at, delete_in_block,
}

abbrev named : (inode len : ℕ) → List ℕ → (name_len : ℕ) → Entry
named inode len name name_len = record {
  inode_number = inode;
  entry_len = len;
  name_len = name_len;
  file_type = 2;
  file_name = name;
}

abbrev dot : Entry
dot = named 2 12 (46 ∷ []) 1

abbrev dot_dot : Entry
dot_dot = named 2 52 (46 ∷ 46 ∷ []) 2

abbrev new_block : Block
new_block i = if i == 0 then dot else dot_dot

-- "a" was given back, and is passed over.
abbrev with_unused : Block
with_unused i =
    if i == 0 then dot else if i == 12 then named 0 12 (97 ∷ []) 1 else named 2 40 (98 ∷ []) 1

with_unused-Chain :
    Chain 64 with_unused 0 (dot ∷ named 0 12 (97 ∷ []) 1 ∷ named 2 40 (98 ∷ []) 1 ∷ [])
with_unused-Chain =
    entry (omega arith) refl (omega arith) (
      entry (omega arith) refl (omega arith) (entry (omega arith) refl (omega arith) (at_end refl)))

read_block-Used_example :
    (l' : List Entry) × (read_block 64 64 0 with_unused ≡ some l')
    × Used (dot ∷ named 0 12 (97 ∷ []) 1 ∷ named 2 40 (98 ∷ []) 1 ∷ []) l'
read_block-Used_example = read_block-Used 64 64 0 with_unused with_unused-Chain (omega arith)

-- The entries that are read there.
read_unused : read_block 64 64 0 with_unused ≡ some (dot ∷ named 2 40 (98 ∷ []) 1 ∷ [])
unfolding read_block
read_unused = refl

abbrev entry_a : Entry
entry_a = named 12 9 (97 ∷ []) 1

-- The directory with "a" and "b" behind "..", and nothing behind the block.
abbrev entry_b : Entry
entry_b = named 13 28 (98 ∷ []) 1

abbrev full_block : Block
full_block i =
    if i == 0
    then dot
    else if i == 12
    then named 2 12 (46 ∷ 46 ∷ []) 2
    else if i == 24
    then named 12 12 (97 ∷ []) 1
    else if i == 36
    then entry_b
    else named 0 0 [] 0

abbrev full_entries : List Entry
full_entries = dot ∷ named 2 12 (46 ∷ 46 ∷ []) 2 ∷ named 12 12 (97 ∷ []) 1 ∷ entry_b ∷ []

abbrev entry_at : ℕ → Option Deletion → Option Entry
entry_at i none = none
entry_at i (some kept) = none
entry_at i (some (emptied padded_size)) = none
entry_at i (some (changed b)) = some (b i)

-- "a" goes, and "b" stands in its place.
delete_a : entry_at 24 (delete_in_block 64 64 (97 ∷ []) full_block) ≡ some (named 13 40 (98 ∷ []) 1)
unfolding delete_in_block delete_at
delete_a = refl
