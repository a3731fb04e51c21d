-- ===== src/Rfs/Directory/Delete.antt =====
-- `delete_entry` and `create_entry` of rfs/source_RFS/file_operations.c. At the offset where a block ends stand the
-- bytes behind it, which the code reads as an entry too.
use la_liga_de_la_justicia.Base.{
  ℕ, zero, suc, ◌+◌, ◌-◌, ◌/◌, ◌%◌, Bool, ◌&&◌, Option, none, some, List, [], ◌∷◌, ltb, ◌==◌,
  if◌then◌else◌, length,
}
use la_liga_de_la_justicia.Server.Strings.{strncmp_equal}
use la_liga_de_la_justicia.Rfs.Geometry.{Geometry}
use la_liga_de_la_justicia.Rfs.Bitarray.{Bitarray}
use la_liga_de_la_justicia.Rfs.Image.{Image, update}
use la_liga_de_la_justicia.Rfs.Inode.{Inode}
use la_liga_de_la_justicia.Rfs.Remove.{remove_block}
use la_liga_de_la_justicia.Rfs.Directory.{Entry, Block, get_padded_size}

unfoldable pub create_entry : (file_name : List ℕ) → (inode_number : ℕ) → Entry
create_entry file_name inode_number = record {
  inode_number = inode_number;
  entry_len = (8 + length file_name) % 65536;
  name_len = length file_name % 256;
  file_type = 0;
  file_name = file_name;
}

unfoldable pub has_name : (file_name : List ℕ) → Entry → Bool
unfolding strncmp_equal
has_name file_name e =
    (e.name_len == length file_name) && strncmp_equal e.file_name file_name (length file_name)

-- The entry behind the one at `iterate` grows by that one's length and is copied over it.
unfoldable pub move_next : (iterate : ℕ) → Block → Block
move_next iterate b =
    let an_entry = b iterate in
    let next = iterate + an_entry.entry_len in
    let next_entry = record (b next) {
      entry_len = ((b next).entry_len + an_entry.entry_len) % 65536;
    } in
    update (update b next next_entry) iterate next_entry

-- What happens to a block: nothing, it goes, its first entry having needed `padded_size` bytes, or it changes.
pub data Deletion : Type 0 where
  kept : Deletion
  emptied : (padded_size : ℕ) → Deletion
  changed : Block → Deletion

module _ (block_size : ℕ) where
  -- An entry that is not the first, at `iterate`; the one before it is at `previous`.
  unfoldable pub delete_at : (previous iterate : ℕ) → Block → Block
  unfolding move_next
  delete_at previous iterate b =
      let an_entry = b iterate in
      let previous_entry = b previous in
      if an_entry.entry_len == (block_size + 4294967296 - iterate) % 4294967296
      then update b previous (record previous_entry {
        entry_len = (previous_entry.entry_len + an_entry.entry_len) % 65536;
      })
      else move_next iterate b

  -- The loop over the entries behind the one at `iterate`. `none` where the rounds are not enough.
  unfoldable pub delete_loop : (rounds iterate : ℕ) → (file_name : List ℕ) → Block → Option Deletion
  unfolding has_name
  delete_loop zero iterate file_name b = if ltb iterate block_size then none else some kept
  delete_loop (suc r) iterate file_name b =
      let next = iterate + (b iterate).entry_len in
      let rest = delete_loop r next file_name b in
      if ltb iterate block_size
      then (if has_name file_name (b next) then some (changed (delete_at iterate next b)) else rest)
      else some kept

  unfoldable pub delete_in_block : (rounds : ℕ) → (file_name : List ℕ) → Block → Option Deletion
  unfolding delete_loop has_name get_padded_size move_next
  delete_in_block rounds file_name b =
      let an_entry = b 0 in
      let padded_size = get_padded_size an_entry in
      if has_name file_name an_entry
      then some (
          if an_entry.entry_len == (block_size + 4294967296 - padded_size) % 4294967296
          then emptied padded_size
          else changed (move_next 0 b))
      else delete_loop rounds 0 file_name b

  -- The blocks of the directory until one lost the entry: the blocks, and the number and the padded size of one
  -- that goes.
  unfoldable pub delete_in_blocks :
      (rounds var : ℕ) → (file_name : List ℕ) → List Block → Option (List Block × Option (ℕ × ℕ))
  unfolding delete_in_block
  delete_in_blocks rounds var file_name [] = some ([], none)
  delete_in_blocks rounds var file_name (b ∷ bs) = elim (delete_in_block rounds file_name b) [
    | none ↦ none
    | some kept ↦ elim (delete_in_blocks rounds (var + 1) file_name bs) [
      | none ↦ none
      | some (rest, gone) ↦ some (b ∷ rest, gone)
    ]
    | some (emptied padded_size) ↦ some (b ∷ bs, some (var, padded_size))
    | some (changed b') ↦ some (b' ∷ bs, none)
  ]

-- `delete_entry` on the directory whose blocks stand at the addresses of the inode, in order.
module _ (bits : Bitarray) (g : Geometry) where
  open bits use {Bits}

  unfoldable pub delete_entry :
      (rounds : ℕ)
      → (file_name : List ℕ) → Inode
      → Image Bits
      → List Block
      → Option (Inode × Image Bits × List Block)
  unfolding delete_in_blocks remove_block
  delete_entry rounds file_name inode fs dir =
      elim (delete_in_blocks g.block_size rounds 0 file_name dir) [
        | none ↦ none
        | some (dir', none) ↦ some (inode, fs, dir')
        | some (dir', some (var, padded_size)) ↦
            let v = remove_block bits g var (fs, inode.pointers) in
            some (
              record inode {
                size = (inode.size + 4294967296 - padded_size) % 4294967296;
                blocks = (inode.blocks + 4294967296 - g.block_size / 512) % 4294967296;
                pointers = v.1;
              },
              v.0,
              dir',
            )
      ]
