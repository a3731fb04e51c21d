-- ===== src/Rfs/DataBlocks.antt =====
-- rfs/source_RFS/ex2_block_types.c: the addresses of a file's blocks, from the pointers of its inode
-- and the indirect blocks. `calloc` is taken to succeed. `words` holds the blocks as arrays of `uint32_t`, `p` is the
-- number of pointers in a block; the code's `pow` is exact on these numbers.
pub mod Reading
pub mod Addresses
use la_liga_de_la_justicia.Base.{
  ℕ, zero, suc, ◌+◌, ◌-◌, ◌*◌, ◌/◌, ◌%◌, ◌^◌, Bool, true, false, Option, none, some, List, [], ◌∷◌,
  ◌++◌, map, ltb, leb, ◌==◌, if◌then◌else◌, range_from,
}
use la_liga_de_la_justicia.Rfs.Geometry.{Geometry, size_in_blocks}

-- The pointers of an `inode_t`.
pub record Pointers : Type 0 where
  pub pointer_data_0 : ℕ → ℕ
  pub pointer_data_1 : ℕ
  pub pointer_data_2 : ℕ
  pub pointer_data_3 : ℕ

abbrev pub bind_option : {A B : Type 0} → Option A → (A → Option B) → Option B
bind_option none k = none
bind_option (some a) k = k a

infixl 5 ◌>>=◌
abbrev ◌>>=◌ : {A B : Type 0} → Option A → (A → Option B) → Option B
m >>= k = bind_option m k

module _ (p : ℕ) (words : ℕ → ℕ → ℕ) where
  -- `Inode_Indirect_Read1`.
  unfoldable pub indirect_read1 : (indirect_block blocks_to_read : ℕ) → Option (List ℕ)
  indirect_read1 block n = if ltb p n then none else some (map (words block) (range_from 0 n))

  -- The loop of `Inode_Indirect_Read23` over the `k` entries from `i` on that are read whole.
  unfoldable pub full_entries :
      (ℕ → ℕ → Option (List ℕ)) → (per_entry block i k : ℕ) → Option (List ℕ)
  full_entries sub per block i zero = some []
  full_entries sub per block i (suc k) = do
    addresses ← sub (words block i) per
    rest ← full_entries sub per block (i + 1) k
    some (addresses ++ rest)

  -- `Indirect_Read` at the level `suc k`: `Inode_Indirect_Read1` at level 1, `Inode_Indirect_Read23` above.
  unfoldable pub indirect_read : (k indirect_block blocks_to_read : ℕ) → Option (List ℕ)
  unfolding indirect_read1 full_entries
  indirect_read zero block n = indirect_read1 block n
  indirect_read (suc k) block n =
      let per = p ^ suc k in
      let sub = indirect_read k in
      if ltb (p ^ suc (suc k)) n then none else do
        whole ← full_entries sub per block 0 (n / per)
        if n % per == 0
            then some whole
            else do last ← sub (words block (n / per)) (n % per); some (whole ++ last)

  module _ (inode : Pointers) where
    -- The last part of `Inode_Get_Data_Adressess`: the triple indirect block.
    unfoldable pub third_read : ℕ → Option (List ℕ)
    unfolding indirect_read
    third_read n = if leb n (p ^ 3) then indirect_read 2 inode.pointer_data_3 n else none

    unfoldable pub second_read : ℕ → Option (List ℕ)
    unfolding indirect_read third_read
    second_read n =
        if ltb (p ^ 2) n
        then (do
          addresses ← indirect_read 1 inode.pointer_data_2 (p ^ 2)
          rest ← third_read (n - p ^ 2)
          some (addresses ++ rest))
        else indirect_read 1 inode.pointer_data_2 n

    unfoldable pub first_read : ℕ → Option (List ℕ)
    unfolding indirect_read second_read
    first_read n =
        if ltb p n
        then (do
          addresses ← indirect_read 0 inode.pointer_data_1 p
          rest ← second_read (n - p)
          some (addresses ++ rest))
        else indirect_read 0 inode.pointer_data_1 n

    -- `Inode_Get_Data_Adressess` for that many blocks; a 0 ends the array.
    unfoldable pub read_addresses : ℕ → Option (List ℕ)
    unfolding first_read
    read_addresses n =
        if ltb 12 n
        then (do
          rest ← first_read (n - 12)
          some ((map inode.pointer_data_0 (range_from 0 12) ++ rest) ++ 0 ∷ []))
        else some (map inode.pointer_data_0 (range_from 0 n) ++ 0 ∷ [])

-- `Inode_Get_Data_Adressess`: at least one block is read.
unfoldable pub get_data_addresses :
    Geometry → (ℕ → ℕ → ℕ) → Pointers → (file_size : ℕ) → Option (List ℕ)
unfolding read_addresses
get_data_addresses g words inode file_size =
    let n = size_in_blocks g file_size in
    read_addresses (g.block_size / 4) words inode (if ltb 1 n then n else 1)
