-- ===== src/Rfs/Remove.antt =====
-- Taking blocks away from a file: `deleteIfEmpty`, `RemoveIndirect`, `Remove_Block` and `Remove_Blocks` of
-- rfs/source_RFS/file_operations.c.
pub mod Index
pub mod Direct
use la_liga_de_la_justicia.Base.{
  ℕ, zero, suc, ◌+◌, ◌-◌, ◌/◌, Bool, true, false, Option, none, some, ◌&&◌, ◌==◌, if◌then◌else◌,
  List,
}
use la_liga_de_la_justicia.Rfs.Geometry.{Geometry, size_in_blocks}
use la_liga_de_la_justicia.Rfs.Coordinates.{Coordinates, find_block_coordinates, coordinates_level}
use la_liga_de_la_justicia.Rfs.Bitarray.{Bitarray}
use la_liga_de_la_justicia.Rfs.Image.{Image, update}
use la_liga_de_la_justicia.Rfs.Alloc.{set_free_block_bitmap}
use la_liga_de_la_justicia.Rfs.DataBlocks.{Pointers}
use la_liga_de_la_justicia.Rfs.BlockCache.{Memcached, cache_delete}

-- The words of a block up to `n` are 0.
abbrev pub all_zero : (ℕ → ℕ) → ℕ → Bool
all_zero words zero = true
all_zero words (suc n) = (words n == 0) && all_zero words n

-- A coordinate that the level says is there.
abbrev pub index_of : Option ℕ → ℕ
index_of none = 0
index_of (some i) = i

abbrev pub set_direct : Pointers → (i block : ℕ) → Pointers
set_direct ptr i block = record ptr { pointer_data_0 = update ptr.pointer_data_0 i block }

module _ {Bits : Type 0} where
  -- `ind[i] = v` in the block `ind`.
  abbrev pub set_word : (block i v : ℕ) → Image Bits → Image Bits
  set_word block i v fs = record fs { words = update fs.words block (update (fs.words block) i v) }

  -- The `block_number` that each case of `Remove_Block` reads.
  unfoldable pub block_number : Coordinates → Image Bits → Pointers → Option ℕ
  unfolding coordinates_level
  block_number c fs ptr = elim (coordinates_level c) [
    | none ↦ none
    | some zero ↦ some (ptr.pointer_data_0 (index_of c.c0))
    | some (suc zero) ↦ some (fs.words ptr.pointer_data_1 (index_of c.c1))
    | some (suc (suc zero)) ↦
        some (fs.words (fs.words ptr.pointer_data_2 (index_of c.c2)) (index_of c.c1))
    | some (suc (suc (suc _))) ↦
        let ind2 = fs.words ptr.pointer_data_3 (index_of c.c3) in
        some (fs.words (fs.words ind2 (index_of c.c2)) (index_of c.c1))
  ]

module _ (bits : Bitarray) (g : Geometry) where
  open bits use {Bits}

  unfoldable pub delete_if_empty : (block : ℕ) → Image Bits → Bool × Image Bits
  unfolding set_free_block_bitmap
  delete_if_empty block fs = elim (all_zero (fs.words block) (g.block_size / 4)) [
    | true ↦ (true, set_free_block_bitmap bits g block fs)
    | false ↦ (false, fs)
  ]

  abbrev pub Volume : Type 0
  Volume = Image Bits × Pointers

  -- `RemoveIndirect`: the indirect blocks on the way go too when they have become empty.
  unfoldable pub remove_indirect : Coordinates → Volume → Volume
  unfolding coordinates_level delete_if_empty
  remove_indirect c (fs, ptr) = elim (coordinates_level c) [
    | none ↦ (fs, ptr)
    | some zero ↦ (fs, ptr)
    | some (suc zero) ↦
        let (empty, fs1) = delete_if_empty ptr.pointer_data_1 fs in
        (fs1, if empty then record ptr { pointer_data_1 = 0 } else ptr)
    | some (suc (suc zero)) ↦
        let ind2 = ptr.pointer_data_2 in
        let (empty1, fs1) = delete_if_empty (fs.words ind2 (index_of c.c2)) fs in
        let fs2 = set_word ind2 (index_of c.c2) 0 fs1 in
        let (empty2, fs3) = delete_if_empty ind2 fs2 in
        if empty1
        then (fs3, if empty2 then record ptr { pointer_data_2 = 0 } else ptr)
        else (fs1, ptr)
    | some (suc (suc (suc _))) ↦
        let ind3 = ptr.pointer_data_3 in
        let ind2 = fs.words ind3 (index_of c.c3) in
        let (empty1, fs1) = delete_if_empty (fs.words ind2 (index_of c.c2)) fs in
        let fs2 = set_word ind2 (index_of c.c2) 0 fs1 in
        let (empty2, fs3) = delete_if_empty (fs2.words ind3 (index_of c.c3)) fs2 in
        let fs4 = set_word ind3 (index_of c.c3) 0 fs3 in
        let (empty3, fs5) = delete_if_empty ind3 fs4 in
        if empty1
        then (if empty2
            then (fs5, if empty3 then record ptr { pointer_data_3 = 0 } else ptr)
            else (fs3, ptr))
        else (fs1, ptr)
  ]

  -- The write of 0 over the pointer, and what follows it.
  unfoldable pub unlink : Coordinates → Volume → Volume
  unfolding coordinates_level remove_indirect
  unlink c (fs, ptr) = elim (coordinates_level c) [
    | none ↦ (fs, ptr)
    | some zero ↦ (fs, set_direct ptr (index_of c.c0) 0)
    | some (suc zero) ↦ remove_indirect c (set_word ptr.pointer_data_1 (index_of c.c1) 0 fs, ptr)
    | some (suc (suc zero)) ↦
        let ind1 = fs.words ptr.pointer_data_2 (index_of c.c2) in
        remove_indirect c (set_word ind1 (index_of c.c1) 0 fs, ptr)
    | some (suc (suc (suc _))) ↦
        let ind2 = fs.words ptr.pointer_data_3 (index_of c.c3) in
        let ind1 = fs.words ind2 (index_of c.c2) in
        remove_indirect c (set_word ind1 (index_of c.c1) 0 fs, ptr)
  ]

  -- The three steps of `Remove_Block` behind the coordinates.
  unfoldable pub remove_at : Coordinates → Volume → Volume
  unfolding block_number set_free_block_bitmap unlink
  remove_at c (fs, ptr) = elim (block_number c fs ptr) [
    | none ↦ (fs, ptr)
    | some block ↦ unlink c (set_free_block_bitmap bits g block fs, ptr)
  ]

  -- `Remove_Block`; past the last block that an inode can address no case is taken.
  unfoldable pub remove_block : (block_index : ℕ) → Volume → Volume
  unfolding find_block_coordinates remove_at
  remove_block block_index v = remove_at (find_block_coordinates (g.block_size / 4) block_index) v

  module _ (m : Memcached (ℕ → ℕ)) (path : List ℕ) where
    open m use {State}

    -- The loop of `Remove_Blocks` over `n` blocks from `index` on.
    unfoldable pub remove_loop : (n index : ℕ) → Volume → State → Volume × State
    unfolding remove_block cache_delete
    remove_loop zero index v s = (v, s)
    remove_loop (suc n) index v s =
        remove_loop n (index + 1) (remove_block index v) (cache_delete m path index s)

    -- `Remove_Blocks`: the last `amount` blocks of a file of that size, which has as many.
    unfoldable pub remove_blocks : (size amount : ℕ) → Volume → State → Volume × State
    unfolding remove_loop
    remove_blocks size amount v s = remove_loop amount (size_in_blocks g size - amount) v s
