-- ===== src/Rfs/Operations/Create.antt =====
-- `attach_entry` as a whole and `create_file_dir` of rfs/source_RFS/file_operations.c, and the operations that only read:
-- `list_directory`, `getattr` and `open_file`.
use la_liga_de_la_justicia.Base.{
  ℕ, zero, suc, ◌+◌, ◌*◌, ◌/◌, ◌%◌, Bool, true, false, Option, none, some, List, [], ◌∷◌, ◌==◌,
  if◌then◌else◌, map,
}
use la_liga_de_la_justicia.Rfs.Geometry.{Geometry}
use la_liga_de_la_justicia.Rfs.Bitarray.{Bitarray}
use la_liga_de_la_justicia.Rfs.Image.{Image, enospc, update}
use la_liga_de_la_justicia.Rfs.Alloc.{get_free_inodes, set_free_inode_bitmap}
use la_liga_de_la_justicia.Rfs.Inode.{ifdir, has_flag, set_file_inode, set_dir_inode, clear_inode}
use la_liga_de_la_justicia.Rfs.Attach.{attach_blocks}
use la_liga_de_la_justicia.Rfs.Directory.{Entry, Block, read_directory, attach_in_block}
use la_liga_de_la_justicia.Rfs.Directory.Delete.{create_entry}
use la_liga_de_la_justicia.Rfs.Operations.{
  World, Outcome, failed, blocks_of, stored_back, remove_name,
}

abbrev pub eexist : ℕ
eexist = 17

abbrev pub ecanceled : ℕ
ecanceled = 125

abbrev pub enotdir : ℕ
enotdir = 20

-- The first block with room for the entry gets it; `some none` where there is none.
unfoldable pub attach_in_blocks :
    (block_size rounds : ℕ) → (new : Entry) → List Block → Option (Option (List Block))
unfolding attach_in_block
attach_in_blocks block_size rounds new [] = some none
attach_in_blocks block_size rounds new (b ∷ bs) = elim (attach_in_block block_size rounds 0 new b) [
  | none ↦ none
  | some (some b') ↦ some (some (b' ∷ bs))
  | some none ↦ elim (attach_in_blocks block_size rounds new bs) [
    | none ↦ none
    | some none ↦ some none
    | some (some bs') ↦ some (some (b ∷ bs'))
  ]
]

-- The block of a new directory with "." in it, which takes the whole block.
unfoldable pub with_dot : (block_size inode_number : ℕ) → Block → Block
unfolding create_entry
with_dot block_size inode_number b =
    update b 0 (record (create_entry (46 ∷ []) inode_number) { entry_len = block_size % 65536 })

abbrev pub set_errno : {Bits : Type 0} → ℕ → World Bits → World Bits
set_errno error w = record w { fs = record (w.fs) { errno = error } }

module _ (bits : Bitarray) (g : Geometry) (rounds : ℕ) (beyond : Image (bits.Bits) → ℕ) where
  open bits use {Bits}

  -- One block more for a directory: `none` is a crash, and the flag says whether there was space.
  unfoldable pub grow_directory : (dir : ℕ) → World Bits → Option (Bool × World Bits)
  unfolding attach_blocks
  grow_directory dir w =
      let inode = w.inodes dir in
      elim (attach_blocks bits g beyond 1 (w.fs, inode.pointers)) [
        | none ↦ none
        | some (not_attached, (fs', ptr)) ↦
            if fs'.errno == enospc
            then some (
              false,
              record w { fs = fs'; inodes = update w.inodes dir (record inode { pointers = ptr }) },
            )
            else some (
              true,
              record w {
                fs = fs';
                inodes = update w.inodes dir (record inode {
                  pointers = ptr;
                  blocks = inode.blocks + g.block_size / 512;
                  size = inode.size + g.block_size;
                });
              },
            )
      ]

  -- `attach_entry`; `tries` bounds its calls of itself, each of which adds a block.
  unfoldable pub attach_entry :
      (tries : ℕ) → (new : Entry) → (dir : ℕ) → World Bits → Option (Bool × World Bits)
  unfolding attach_in_blocks stored_back blocks_of
  attach_entry zero new dir w = none
  attach_entry (suc tries) new dir w =
      elim (blocks_of bits g rounds (w.inodes dir) ((w.inodes dir).blocks * 512) w) [
        | none ↦ some (false, w)
        | some addresses ↦ elim (attach_in_blocks g.block_size rounds new (map w.dirs addresses)) [
          | none ↦ none
          | some (some dir') ↦ some (true, record w { dirs = stored_back addresses dir' w.dirs })
          | some none ↦ elim (grow_directory dir w) [
            | none ↦ none
            | some (false, w1) ↦ some (false, w1)
            | some (true, w1) ↦ elim (attach_entry tries new dir w1) [
              | none ↦ none
              | some (false, w2) ↦ some (false, set_errno ecanceled w2)
              | some (true, w2) ↦ some (true, w2)
            ]
          ]
        ]
      ]

  -- The inode given back, where a creation fails.
  unfoldable pub give_back : (number : ℕ) → World Bits → World Bits
  unfolding set_free_inode_bitmap
  give_back number w = record w { fs = set_free_inode_bitmap bits g number w.fs }

  -- The new directory in its inode: its block, "." and "..".
  unfoldable pub create_directory :
      (tries : ℕ) → (name : List ℕ) → (number parent mode : ℕ) → World Bits → Option (Outcome Bits)
  unfolding set_dir_inode with_dot create_entry
  create_directory tries name number parent mode w =
      let (inode, fs1) = set_dir_inode g mode number w.fs in
      elim (attach_blocks bits g beyond 1 (fs1, inode.pointers)) [
        | none ↦ none
        | some (not_attached, (fs2, ptr)) ↦
            let w2 = record w {
              fs = fs2;
              inodes = update w.inodes number (record inode { pointers = ptr });
            } in
            if fs2.errno == enospc
            then elim (remove_name bits g rounds name parent (give_back number w2)) [
              | none ↦ none
              | some w3 ↦ some (1, record w3 { inodes = update w3.inodes number clear_inode })
            ]
            else (let base = ptr.pointer_data_0 0 in
                let w3 = record w2 {
                  dirs = update w2.dirs base (with_dot g.block_size number (w2.dirs base));
                } in
                elim (attach_entry tries (create_entry (46 ∷ 46 ∷ []) parent) number w3) [
                  | none ↦ none
                  | some (attached, w4) ↦ some (0, set_errno 0 w4)
                ])
      ]

  -- `create_file_dir` from the inode of the path, if there is one, and of the directory above on.
  unfoldable pub create_file_dir :
      (tries : ℕ)
      → (name : List ℕ) → (existing : Option ℕ) → (parent : ℕ) → (file : Bool) → (mode : ℕ)
      → World Bits
      → Option (Outcome Bits)
  unfolding get_free_inodes attach_entry give_back create_entry
  create_file_dir tries name (some number) parent file mode w = failed bits g rounds w eexist
  create_file_dir tries name none parent file mode w =
      let (numbers, fs1) = get_free_inodes bits g 1 (record (w.fs) { errno = 0 }) in
      let w1 = record w { fs = fs1 } in
      elim numbers [
        | none ↦ some (1, w1)
        | some [] ↦ none
        | some (number ∷ more) ↦ elim (attach_entry tries (create_entry name number) parent w1) [
          | none ↦ none
          | some (false, w2) ↦ some (1, give_back number w2)
          | some (true, w2) ↦
              if file
              then some (
                0,
                set_errno 0 (record w2 { inodes = update w2.inodes number (set_file_inode mode) }),
              )
              else create_directory tries name number parent mode w2
        ]
      ]

  -- `list_directory`: the entries, or NULL where the path was not found or is no directory.
  unfoldable pub list_directory :
      (dir : Option ℕ) → World Bits → Option (Option (List Entry) × World Bits)
  unfolding read_directory blocks_of
  list_directory none w = some (none, w)
  list_directory (some dir) w =
      if has_flag (w.inodes dir).mode ifdir
      then elim (blocks_of bits g rounds (w.inodes dir) (w.inodes dir).size w) [
        | none ↦ some (none, w)
        | some addresses ↦ elim (read_directory g.block_size rounds (map w.dirs addresses)) [
          | none ↦ none
          | some entries ↦ some (some entries, w)
        ]
      ]
      else some (none, set_errno enotdir w)

-- `reduced_stat_t`.
pub record ReducedStat : Type 0 where
  pub inode_number : ℕ
  pub mode : ℕ
  pub size : ℕ
  pub links_count : ℕ

unfoldable pub getattr : {Bits : Type 0} → (file : Option ℕ) → World Bits → Option ReducedStat
getattr none w = none
getattr (some number) w = some (record {
  inode_number = number;
  mode = (w.inodes number).mode;
  size = (w.inodes number).size;
  links_count = (w.inodes number).links_count;
})

-- `open_file`: the word of the answer.
unfoldable pub open_file : (file : Option ℕ) → ℕ
open_file none = 1
open_file (some number) = 0
