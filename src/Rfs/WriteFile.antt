-- ===== src/Rfs/WriteFile.antt =====
-- `write_file` of rfs/source_RFS/file_operations.c on a regular file that was found. The data blocks are a function
-- from the address of a block and a position in it to the byte; `buffer` gives the bytes of `write_buffer`.
pub mod Content
pub mod Stored
pub mod Full
use la_liga_de_la_justicia.Base.{
  ℕ, zero, suc, ◌+◌, ◌-◌, ◌*◌, ◌/◌, ◌%◌, ◌^◌, Bool, true, false, ◌&&◌, ◌||◌, Option, none, some,
  List, [], ltb, leb, ◌==◌, if◌then◌else◌, get_or,
}
use la_liga_de_la_justicia.Rfs.Geometry.{Geometry, size_in_blocks}
use la_liga_de_la_justicia.Rfs.Bitarray.{Bitarray}
use la_liga_de_la_justicia.Rfs.Image.{Image, update}
use la_liga_de_la_justicia.Rfs.DataBlocks.{Pointers, get_data_addresses}
use la_liga_de_la_justicia.Rfs.BlockCache.{Memcached, cache_set}
use la_liga_de_la_justicia.Rfs.Inode.{Inode, ifreg, has_flag}
use la_liga_de_la_justicia.Rfs.Attach.{attach_blocks}
use la_liga_de_la_justicia.Rfs.Truncate.{eperm}

abbrev pub Data : Type 0
Data = ℕ → ℕ → ℕ

-- `memcpy (&block[start], bytes, n)`.
abbrev pub put : (block : ℕ → ℕ) → (start n : ℕ) → (bytes : ℕ → ℕ) → ℕ → ℕ
put block start n bytes i = if leb start i && ltb i (start + n) then bytes (i - start) else block i

-- What is left: the answer, the data blocks and the cache, and whether the lock of the file was released.
pub record Written (State : Type 0) : Type 0 where
  pub bytes_written : ℕ
  pub stored : Data
  pub cache : State
  pub unlocked : Bool

module _ (m : Memcached (ℕ → ℕ)) (block_size : ℕ) (path : List ℕ) (file_data : List ℕ)
    (buffer : ℕ → ℕ) where
  open m use {State}

  -- The copy of `n` bytes of the buffer into a block of the file, and into the cache.
  unfoldable pub write_block : (block_number start written n : ℕ) → Data → State → Data × State
  unfolding cache_set
  write_block block_number start written n stored s =
      let address = get_or file_data block_number 0 in
      let block = put (stored address) start n (λ i. buffer (written + i)) in
      (update stored address block, cache_set m path block_number block s)

  -- The loop behind the first block. It returns at once, with the lock, behind the last block of the file.
  unfoldable pub write_loop :
      (rounds block_number count written bytes_to_write : ℕ) → Data → State → Written State
  write_loop zero block_number count written n stored s = record {
    bytes_written = written;
    stored = stored;
    cache = s;
    unlocked = true;
  }
  write_loop (suc r) block_number count written zero stored s = record {
    bytes_written = written;
    stored = stored;
    cache = s;
    unlocked = true;
  }
  write_loop (suc r) block_number count written (suc n) stored s =
      let bytes_to_copy = if ltb block_size (suc n) then block_size else suc n in
      let (stored', s') = write_block block_number 0 written bytes_to_copy stored s in
      let rest =
        write_loop r (block_number + 1) count (written + bytes_to_copy) (suc n - bytes_to_copy)
          stored' s' in
      if ltb count block_number
      then record { bytes_written = written; stored = stored; cache = s; unlocked = false }
      else rest

  -- The copies: the first block, and the loop where more is left than was written to it.
  unfoldable pub scatter : (offset count bytes_to_write : ℕ) → Data → State → Written State
  scatter offset count n stored s =
      let start_block = offset / block_size in
      let start_byte = offset % block_size in
      let remaining = block_size - start_byte in
      let bytes_to_copy = if ltb n remaining then n else remaining in
      let left = n - bytes_to_copy in
      let (stored1, s1) = write_block start_block start_byte 0 bytes_to_copy stored s in
      if ltb bytes_to_copy left
      then write_loop left (start_block + 1) count bytes_to_copy left stored1 s1
      else record { bytes_written = bytes_to_copy; stored = stored1; cache = s1; unlocked = true }

-- The bytes of the words of the data blocks, and back; a word is below 2 ^ 32.
abbrev pub bytes_of : (words : ℕ → ℕ → ℕ) → Data
bytes_of words address i = words address (i / 4) / 256 ^ (i % 4) % 256

abbrev pub words_of : Data → ℕ → ℕ → ℕ
words_of stored address w =
    stored address (4 * w)
    + 256 * stored address (4 * w + 1)
    + 65536 * stored address (4 * w + 2)
    + 16777216 * stored address (4 * w + 3)

-- What is left of the call: `inode->size` and `blocks` are set only if it got to its end.
pub record WriteResult (Bits State : Type 0) : Type 0 where
  pub inode : Inode
  pub image : Image Bits
  pub cache : State
  pub bytes_written : ℕ
  pub unlocked : Bool

module _ (bits : Bitarray) (g : Geometry) (beyond : Image (bits.Bits) → ℕ) (m : Memcached (ℕ → ℕ))
    (path : List ℕ) (buffer : ℕ → ℕ) where
  open bits use {Bits}
  open m use {State}

  -- The rest of the last block is set to 0 where the write starts behind the end of the file.
  unfoldable pub fill_gap : (offset : ℕ) → Inode → Image Bits → Option (Image Bits)
  unfolding get_data_addresses size_in_blocks
  fill_gap offset inode fs =
      let start = inode.size % g.block_size in
      if ltb inode.size offset && ltb 0 start
      then elim (get_data_addresses g fs.words inode.pointers inode.size) [
        | none ↦ none
        | some file_data ↦
            let last_block = get_or file_data (size_in_blocks g inode.size - 1) 0 in
            let stored = bytes_of fs.words in
            let zeros = put (stored last_block) start (g.block_size - start) (λ _. 0) in
            some (record fs { words = words_of (update stored last_block zeros) })
      ]
      else some fs

  -- The blocks that are added, with the code's count of them.
  unfoldable pub grow : (offset n : ℕ) → Inode → Image Bits → Option (Image Bits × Pointers)
  unfolding size_in_blocks
  grow offset n inode fs =
      if ltb (size_in_blocks g inode.size) (size_in_blocks g (offset + n))
      then elim (attach_blocks bits g beyond (size_in_blocks g (offset + n - inode.size))
          (fs, inode.pointers)) [ none ↦ none | some (not_attached, v) ↦ some v ]
      else some (fs, inode.pointers)

  -- The end of the call, if it gets there.
  unfoldable pub finish_write :
      (offset : ℕ) → Inode → Pointers → Image Bits → Written State → WriteResult Bits State
  unfolding size_in_blocks
  finish_write offset inode ptr fs w =
      let size =
        if ltb inode.size (offset + w.bytes_written)
        then offset + w.bytes_written
        else inode.size in
      let grown = ltb inode.size (offset + w.bytes_written) in
      record {
        inode =
            if w.unlocked && grown
            then record inode {
              size = size;
              blocks = size_in_blocks g size * (g.block_size / 512);
              pointers = ptr;
            }
            else record inode { pointers = ptr };
        image = record fs { words = words_of w.stored };
        cache = w.cache;
        bytes_written = w.bytes_written;
        unlocked = w.unlocked;
      }

  -- The call from the blocks of the file on, where the last one may be missing.
  unfoldable pub write_to :
      (offset n : ℕ)
      → Inode
      → Pointers
      → Image Bits
      → State
      → (file_data : List ℕ) → Option (WriteResult Bits State)
  unfolding size_in_blocks
  write_to offset n inode ptr fs s file_data =
      let count = size_in_blocks g (offset + n) in
      if count == 0
      then none
      else if ltb count (offset / g.block_size) || get_or file_data (count - 1) 0 == 0
      then some (record {
        inode = record inode { pointers = ptr };
        image = fs;
        cache = s;
        bytes_written = 0;
        unlocked = false;
      })
      else some (
          finish_write offset inode ptr fs
            (scatter m g.block_size path file_data buffer offset count n (bytes_of fs.words) s))

  unfoldable pub write_regular :
      (offset n : ℕ) → Inode → Image Bits → State → Option (WriteResult Bits State)
  write_regular offset n inode fs s = elim (fill_gap offset inode fs) [
    | none ↦ none
    | some fs1 ↦ elim (grow offset n inode fs1) [
      | none ↦ none
      | some (fs2, ptr) ↦ elim (get_data_addresses g fs2.words ptr (offset + n)) [
        | none ↦ none
        | some file_data ↦ write_to offset n inode ptr fs2 s file_data
      ]
    ]
  ]

  -- The whole call: the answer, if there is one, and what is left. Where the file is no regular one, a lock that
  -- is not held is released.
  unfoldable pub write_file :
      (offset n : ℕ)
      → Option Inode
      → Image Bits
      → State
      → Option (Option (WriteResult Bits State) × Image Bits)
  unfolding write_regular
  write_file offset n none fs s = some (none, fs)
  write_file offset n (some inode) fs s = elim (has_flag inode.mode ifreg) [
    | false ↦ some (none, record fs { errno = eperm })
    | true ↦ elim (write_regular (offset % 4294967296) n inode fs s) [
      | none ↦ none
      | some w ↦ some (some w, w.image)
    ]
  ]
