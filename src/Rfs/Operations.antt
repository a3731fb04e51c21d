-- ===== src/Rfs/Operations.antt =====
-- The operations on directories of rfs/source_RFS/file_operations.c: `attach_entry` as a whole, `create_file_dir`,
-- `delete_file`, `delete_dir`, `list_directory`, `getattr` and `open_file`, on the inodes that `inode_of_file` found.
-- The entries of the directories are a region of their own, by the address of a block and the offset in it. A block that
-- is added keeps what stood in it: `CleanBlocks` leaves the last block of an array out, and the array has one block;
-- where the word behind the array makes it wipe that block too, the wiping shows in the words alone. The locks
-- of the files, which each operation takes and releases on all its branches, are those of the active files.
pub mod Emptiness
pub mod Unlink
pub mod Create
pub mod Fresh
pub mod Lifetime
use la_liga_de_la_justicia.Base.{
  ℕ, zero, suc, ◌+◌, ◌-◌, ◌*◌, ◌/◌, ◌%◌, Bool, true, false, Option, none, some, List, [], ◌∷◌, ltb,
  ◌==◌, if◌then◌else◌, map, get_or,
}
use la_liga_de_la_justicia.Rfs.Geometry.{Geometry, size_in_blocks, inode_locate_group}
use la_liga_de_la_justicia.Rfs.Bitarray.{Bitarray}
use la_liga_de_la_justicia.Rfs.Image.{Image, enospc, update}
use la_liga_de_la_justicia.Rfs.DataBlocks.{Pointers, get_data_addresses}
use la_liga_de_la_justicia.Rfs.Alloc.{get_free_inodes, set_free_inode_bitmap}
use la_liga_de_la_justicia.Rfs.BlockCache.{Memcached}
use la_liga_de_la_justicia.Rfs.Inode.{
  Inode, ifdir, has_flag, set_file_inode, set_dir_inode, clear_inode,
}
use la_liga_de_la_justicia.Rfs.Remove.{remove_block, remove_blocks}
use la_liga_de_la_justicia.Rfs.Attach.{attach_blocks}
use la_liga_de_la_justicia.Rfs.Directory.{
  Entry, Block, get_padded_size, read_directory, attach_in_block,
}
use la_liga_de_la_justicia.Rfs.Directory.Delete.{create_entry, delete_entry}

abbrev pub enotempty : ℕ
enotempty = 39

-- The volume with its inodes by number and the blocks of its directories by address.
pub record World (Bits : Type 0) : Type 0 where
  pub fs : Image Bits
  pub inodes : ℕ → Inode
  pub dirs : ℕ → Block

-- The word of the answer, 0 where all went well, and what is left.
abbrev pub Outcome : Type 0 → Type 0
Outcome Bits = ℕ × World Bits

-- The addresses before the first 0.
unfoldable pub until_empty : List ℕ → List ℕ
until_empty [] = []
until_empty (a ∷ rest) = let others = until_empty rest in if a == 0 then [] else a ∷ others

-- The blocks of a directory written back to their addresses.
unfoldable pub stored_back : (addresses : List ℕ) → List Block → (ℕ → Block) → ℕ → Block
stored_back [] bs dirs = dirs
stored_back (a ∷ rest) [] dirs = dirs
stored_back (a ∷ rest) (b ∷ bs) dirs = update (stored_back rest bs dirs) a b

-- The test of `delete_dir` on the first block of the directory: whether the second entry ends the block.
unfoldable pub only_two : (block_size : ℕ) → Block → Bool
unfolding get_padded_size
only_two block_size b =
    let first = b 0 in
    (b first.entry_len).entry_len == (block_size + 4294967296 - get_padded_size first) % 4294967296

module _ (bits : Bitarray) (g : Geometry) (rounds : ℕ) where
  open bits use {Bits}

  abbrev pub failed : World Bits → (error : ℕ) → Option (Outcome Bits)
  failed w error = some (1, record w { fs = record (w.fs) { errno = error } })

  -- The addresses of the blocks of an inode with so many bytes.
  unfoldable pub blocks_of : Inode → (bytes : ℕ) → World Bits → Option (List ℕ)
  unfolding get_data_addresses until_empty
  blocks_of inode bytes w = elim (get_data_addresses g w.fs.words inode.pointers bytes) [
    | none ↦ none
    | some addresses ↦ some (until_empty addresses)
  ]

  -- `delete_entry` on the directory with that inode.
  unfoldable pub remove_name : (name : List ℕ) → (dir : ℕ) → World Bits → Option (World Bits)
  unfolding stored_back
  remove_name name dir w =
      let inode = w.inodes dir in
      elim (blocks_of inode (inode.blocks * 512) w) [
        | none ↦ some w
        | some addresses ↦
            elim (delete_entry bits g rounds name inode w.fs (map w.dirs addresses)) [
              | none ↦ none
              | some (inode', fs', dir') ↦ some (record {
                fs = fs';
                inodes = update w.inodes dir inode';
                dirs = stored_back addresses dir' w.dirs;
              })
            ]
      ]

  -- The end of `delete_dir`: the block and the inode of the directory are given back.
  unfoldable pub freed : (dir : ℕ) → World Bits → World Bits
  unfolding remove_block set_free_inode_bitmap inode_locate_group
  freed dir w =
      let (fs1, _) = remove_block bits g 0 (w.fs, (w.inodes dir).pointers) in
      let group = inode_locate_group g dir in
      let d = fs1.descriptor group in
      let d' = record d {
        number_directories_group = (d.number_directories_group + 65535) % 65536;
      } in
      let fs2 = record fs1 { descriptor = update fs1.descriptor group d' } in
      record w {
        fs = set_free_inode_bitmap bits g dir fs2;
        inodes = update w.inodes dir clear_inode;
      }

  -- `delete_dir` from the directory's inode, if it was found, and its parent's on. The entry goes before the
  -- directory is seen to be empty.
  unfoldable pub delete_dir :
      (name : List ℕ) → (dir : Option ℕ) → (parent : ℕ) → World Bits → Option (Outcome Bits)
  delete_dir name none parent w = some (1, w)
  delete_dir name (some dir) parent w =
      let addresses = blocks_of (w.inodes dir) (w.inodes dir).size w in
      if ltb (g.block_size / 512) (w.inodes dir).blocks
      then failed w enotempty
      else elim addresses [
        | none ↦ some (1, w)
        | some places ↦ elim (remove_name name parent w) [
          | none ↦ none
          | some w1 ↦
              if only_two g.block_size (w1.dirs (get_or places 0 0))
              then some (0, freed dir w1)
              else failed w1 enotempty
        ]
      ]

  -- `delete_file`, likewise.
  module _ (m : Memcached (ℕ → ℕ)) (path : List ℕ) where
    open m use {State}

    unfoldable pub delete_file :
        (name : List ℕ)
        → (file : Option ℕ) → (parent : ℕ) → World Bits
        → State
        → Option (Outcome Bits × State)
    unfolding remove_blocks set_free_inode_bitmap
    delete_file name none parent w s = some ((1, w), s)
    delete_file name (some file) parent w s = elim (remove_name name parent w) [
      | none ↦ none
      | some w1 ↦
          let inode = w1.inodes file in
          let (v, s') =
            remove_blocks bits g m path inode.size (size_in_blocks g inode.size)
              (w1.fs, inode.pointers) s in
          some (
            (
              0,
              record w1 {
                fs = set_free_inode_bitmap bits g file v.0;
                inodes = update w1.inodes file clear_inode;
              },
            ),
            s',
          )
    ]
