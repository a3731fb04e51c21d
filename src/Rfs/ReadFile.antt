-- ===== src/Rfs/ReadFile.antt =====
-- `read_file` of rfs/source_RFS/file_operations.c on a regular file that was found: the transfer of its
-- bytes through the cache. A block is the function from a position in it to the byte.
pub mod Content
use la_liga_de_la_justicia.Base.{
  ℕ, zero, suc, ◌+◌, ◌-◌, ◌*◌, ◌/◌, ◌%◌, Bool, true, false, Option, none, some, List, [], ◌∷◌, ◌++◌,
  map, length, replicate, get_or, ltb, leb, ◌==◌, if◌then◌else◌, range_from,
}
use la_liga_de_la_justicia.Rfs.BlockCache.{Memcached, cache_fs_get_set}

-- The answer: `read_bytes`, and that many bytes of the array, which is as long as was asked for.
pub record ReadResult : Type 0 where
  pub read_bytes : ℕ
  pub read_data : List ℕ

-- The first `n` bytes of a block from `start` on.
abbrev pub slice : (ℕ → ℕ) → (start n : ℕ) → List ℕ
slice block start n = map block (range_from start n)

-- The block of that number, whose address stands in `file_data`, on the volume.
abbrev pub on_disk : (volume : ℕ → ℕ → ℕ) → (file_data : List ℕ) → ℕ → ℕ → ℕ
on_disk volume file_data b = volume (get_or file_data b 0)

module _ (m : Memcached (ℕ → ℕ)) (block_size : ℕ) (path : List ℕ) (blocks : ℕ → ℕ → ℕ) where
  open m use {State}

  -- The loop behind the first block: every round reads a byte at least, so as many rounds as bytes do.
  unfoldable pub read_loop : (rounds block_number bytes_to_read : ℕ) → State → List ℕ × State
  unfolding cache_fs_get_set
  read_loop zero block_number n s = ([], s)
  read_loop (suc r) block_number zero s = ([], s)
  read_loop (suc r) block_number (suc n) s =
      let bytes_to_copy = if ltb block_size (suc n) then block_size else suc n in
      let (block, s') = cache_fs_get_set m path block_number (blocks block_number) s in
      let (rest, s'') = read_loop r (block_number + 1) (suc n - bytes_to_copy) s' in
      (slice block 0 bytes_to_copy ++ rest, s'')

  -- The copies: the first block, and the loop where more is left than the first block had from `offset`
  -- on.
  unfoldable pub gather : (offset bytes_to_read : ℕ) → State → List ℕ × State
  unfolding cache_fs_get_set read_loop
  gather offset n s =
      let start_block = offset / block_size in
      let start_byte = offset % block_size in
      let remaining = block_size - start_byte in
      let bytes_to_copy = if ltb remaining n then remaining else n in
      let (block, s1) = cache_fs_get_set m path start_block (blocks start_block) s in
      let left = n - bytes_to_copy in
      let (rest, s2) =
        if ltb remaining left then read_loop left (start_block + 1) left s1 else ([], s1) in
      (slice block start_byte bytes_to_copy ++ rest, s2)

  -- What is not read stays the 0 of `calloc`.
  unfoldable pub transfer : (offset bytes_to_read : ℕ) → State → ReadResult × State
  unfolding gather
  transfer offset n s =
      let (got, s') = gather offset n s in
      (record { read_bytes = n; read_data = got ++ replicate (n - length got) 0 }, s')

  -- With the length cut at the end of the file. From behind the end the length is negative, and the first
  -- copy runs out of memory: `none`.
  unfoldable pub read_file : (size offset bytes_to_read : ℕ) → State → Option (ReadResult × State)
  unfolding transfer
  read_file size offset n s =
      if ltb size offset
      then none
      else some (transfer offset (if leb size (offset + n) then size - offset else n) s)
