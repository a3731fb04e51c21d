-- ===== src/Rfs/Truncate.antt =====
-- `truncate_file` of rfs/source_RFS/file_operations.c. Sizes are below 2 ^ 31, which the `int32_t` of an inode
-- holds.
pub mod Holds
pub mod Resized
use la_liga_de_la_justicia.Base.{
  ℕ, ◌+◌, ◌-◌, ◌/◌, ◌%◌, Bool, true, false, Option, none, some, List, ltb, ◌==◌, if◌then◌else◌,
}
use la_liga_de_la_justicia.Rfs.Geometry.{Geometry, size_in_blocks}
use la_liga_de_la_justicia.Rfs.Bitarray.{Bitarray}
use la_liga_de_la_justicia.Rfs.Image.{Image}
use la_liga_de_la_justicia.Rfs.DataBlocks.{Pointers}
use la_liga_de_la_justicia.Rfs.Inode.{Inode, ifreg, has_flag}
use la_liga_de_la_justicia.Rfs.BlockCache.{Memcached}
use la_liga_de_la_justicia.Rfs.Remove.{Volume, remove_blocks}
use la_liga_de_la_justicia.Rfs.Attach.{attach_blocks}

abbrev pub eperm : ℕ
eperm = 1

-- The inode with its new size; the code divides the number of blocks by 512.
abbrev pub resized : Geometry → Inode → Pointers → (new_size : ℕ) → Inode
resized g inode ptr new_size = record inode {
  size = new_size;
  blocks = size_in_blocks g new_size / 512;
  pointers = ptr;
}

-- What is left: the inode, the volume, the cache, and how often the lock of the file was released.
pub record Truncated (Bits State : Type 0) : Type 0 where
  pub inode : Inode
  pub image : Image Bits
  pub cache : State
  pub unlocks : ℕ

module _ (bits : Bitarray) (g : Geometry) (beyond : Image (bits.Bits) → ℕ) (m : Memcached (ℕ → ℕ))
    (path : List ℕ) where
  open bits use {Bits}
  open m use {State}

  -- The call on a regular file. Where not all blocks could be attached, the lock is released twice.
  unfoldable pub truncate_regular :
      (new_size : ℕ) → Inode → Image Bits → State → Option (Truncated Bits State)
  unfolding attach_blocks remove_blocks
  truncate_regular new_size inode fs s =
      let old = size_in_blocks g inode.size in
      let new = size_in_blocks g new_size in
      if ltb old new
      then elim (attach_blocks bits g beyond (new - old) (fs, inode.pointers)) [
        | none ↦ none
        | some (not_attached, v) ↦ some (record {
          inode = resized g inode v.1 new_size;
          image = v.0;
          cache = s;
          unlocks = if ltb 0 not_attached then 2 else 1;
        })
      ]
      else if ltb new old
      then (let (v, s') =
            remove_blocks bits g m path inode.size (old - new) (fs, inode.pointers) s in
          some
            (record { inode = resized g inode v.1 new_size; image = v.0; cache = s'; unlocks = 1 }))
      else some (record {
        inode = resized g inode inode.pointers new_size;
        image = fs;
        cache = s;
        unlocks = 1;
      })

  -- The whole call on the inode that was found, if any: the word of the answer, and what is left.
  unfoldable pub truncate_file :
      (size : ℕ)
      → Option Inode
      → Image Bits
      → State
      → Option (ℕ × Option (Truncated Bits State) × Image Bits)
  unfolding truncate_regular
  truncate_file size none fs s = some (1, none, fs)
  truncate_file size (some inode) fs s = elim (has_flag inode.mode ifreg) [
    | false ↦ some (1, none, record fs { errno = eperm })
    | true ↦ elim (truncate_regular (size % 4294967296) inode fs s) [
      | none ↦ none
      | some t ↦ some (0, some t, t.image)
    ]
  ]
