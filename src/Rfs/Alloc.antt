-- ===== src/Rfs/Alloc.antt =====
-- Allocation of blocks and inodes: `Get_Free_Blocks_In_Group` and `Get_Free_Inodes_In_Group` of
-- rfs/source_RFS/ex2_block_types.c, `Get_Free_Blocks`, `Get_Free_Inodes`, `CleanBlocks`,
-- `setFreeBlockBitmap` and `setFreeInodeBitmap` of rfs/source_RFS/server_threading.c.
-- Each runs under the mutexes of its group and of the superblock, so it is one step; `calloc` is
-- taken to succeed. Group numbers stay below TOTAL_GROUPS wherever a descriptor is read.
pub mod Scan
pub mod Takes
pub mod Edit
pub mod Group
pub mod Blocks
pub mod Obtain
pub mod Clean
pub mod Release
use la_liga_de_la_justicia.Base.{
  ℕ, zero, suc, ◌+◌, ◌-◌, ◌*◌, ◌/◌, ◌%◌, Bool, true, false, Option, none, some, List, [], ◌∷◌, ◌++◌,
  map, ltb, leb, ◌==◌, if◌then◌else◌, length, replicate,
}
use la_liga_de_la_justicia.Rfs.Geometry.{
  Geometry, SuperBlock, GroupDescriptor, u32, group_number, inode_locate_group,
  inode_get_local_index,
}
use la_liga_de_la_justicia.Rfs.Bitarray.{Bitarray}
use la_liga_de_la_justicia.Rfs.Image.{Image, enospc, update, wipe}

-- `uint16_t` and `uint32_t` counters that go up by one.
abbrev pub u16 : ℕ → ℕ
u16 n = n % 65536

-- `CleanBlocks` over the array, whose numbers are those of data blocks, and the word that stands behind it: an entry is
-- wiped only while the word behind it is not 0. The word after `beyond` is taken to be 0. Where it is not, the code goes
-- on to wipe the block that `beyond` happens to name, bitmaps and tables included, or leaves the mapping: what it does
-- then is not modelled.
unfoldable pub clean_blocks : List ℕ → (beyond : ℕ) → (ℕ → ℕ → ℕ) → ℕ → ℕ → ℕ
clean_blocks [] beyond words = words
clean_blocks (x ∷ []) beyond words = if beyond == 0 then words else wipe words x
clean_blocks (x ∷ y ∷ rest) beyond words =
    let later = clean_blocks (y ∷ rest) beyond (wipe words x) in if y == 0 then words else later

module _ (bits : Bitarray) where
  open bits use {Bits, test_bit, set_bit, clean_bit}

  -- The loop over a bitmap: `rounds` positions are left from `var` on, `need` are still wanted.
  -- The result lists the positions taken.
  unfoldable pub scan : (rounds var need : ℕ) → Bits → List ℕ × Bits
  scan zero var need b = ([], b)
  scan (suc r) var zero b = ([], b)
  scan (suc r) var (suc need) b = elim (test_bit b var) [
    | true ↦ scan r (var + 1) (suc need) b
    | false ↦ let (found, b') = scan r (var + 1) need (set_bit b var) in (var ∷ found, b')
  ]

  -- The array of `how_many` zeros that `calloc` gives, filled from the front.
  abbrev pub filled : ℕ → List ℕ → List ℕ
  filled how_many found = found ++ replicate (how_many - length found) 0

  module _ (g : Geometry) where
    unfoldable pub get_free_blocks_in_group : ℕ → GroupDescriptor → Image Bits → List ℕ × Image Bits
    unfolding scan
    get_free_blocks_in_group how_many d fs =
        let (found, b) = scan g.blocks_per_group 0 how_many (fs.bitmap d.bitmap_block_address) in
        let group_offset = u32 (u32 (group_number g d * g.blocks_per_group) + 1) in
        (
          filled how_many (map (λ var. u32 (var + group_offset)) found),
          record fs { bitmap = update fs.bitmap d.bitmap_block_address b },
        )

    -- The test is `var <= INODES_PER_GROUP`, so one position more than the group has is looked at.
    unfoldable pub get_free_inodes_in_group :
        ℕ → GroupDescriptor → ℕ → Image Bits → List ℕ × Image Bits
    unfolding scan
    get_free_inodes_in_group how_many d group fs =
        let (found, b) =
          scan (g.inodes_per_group + 1) 0 how_many (fs.bitmap d.bitmap_inode_address) in
        (
          filled how_many (map (λ var. u32 (group * g.inodes_per_group + var + 1)) found),
          record fs { bitmap = update fs.bitmap d.bitmap_inode_address b },
        )

    abbrev pub with_free_blocks : GroupDescriptor → ℕ → GroupDescriptor
    with_free_blocks d n = record d { unallocated_blocks = n }

    abbrev pub with_free_inodes : GroupDescriptor → ℕ → GroupDescriptor
    with_free_inodes d n = record d { unallocated_inodes = n }

    abbrev pub set_descriptor : Image Bits → ℕ → GroupDescriptor → Image Bits
    set_descriptor fs n d = record fs { descriptor = update fs.descriptor n d }

    -- The loop of `Get_Free_Blocks` over the groups from `n` on, `k` of them left.
    unfoldable pub blocks_loop : (k n how_many : ℕ) → Image Bits → List ℕ × Image Bits
    unfolding get_free_blocks_in_group
    blocks_loop zero n how_many fs = (replicate how_many 0, fs)
    blocks_loop (suc k) n zero fs = ([], fs)
    blocks_loop (suc k) n (suc m) fs =
        let d = fs.descriptor n in
        let free = d.unallocated_blocks in
        elim (free == 0) [
          | true ↦ blocks_loop k (n + 1) (suc m) fs
          | false ↦ elim (leb (suc m) free) [
            | true ↦
                let d' = with_free_blocks d (free - suc m) in
                get_free_blocks_in_group (suc m) d' (set_descriptor fs n d')
            | false ↦
                let (taken, fs') = get_free_blocks_in_group free d fs in
                let (rest, fs'') =
                  blocks_loop k (n + 1) (suc m - free)
                    (set_descriptor fs' n (with_free_blocks d 0)) in
                (taken ++ rest, fs'')
          ]
        ]

    module _ (beyond : ℕ) where
      -- `beyond` is the word that the heap holds behind the returned array; the one after it is 0, as above.
      unfoldable pub get_free_blocks : ℕ → Image Bits → Option (List ℕ) × Image Bits
      unfolding blocks_loop clean_blocks
      get_free_blocks how_many fs =
          if ltb fs.super.total_unallocated_blocks how_many
          then (none, record fs { errno = enospc })
          else (let total = fs.super.total_unallocated_blocks - how_many in
              let fs1 = record fs {
                super = record (fs.super) { total_unallocated_blocks = total };
              } in
              let (blocks, fs2) = blocks_loop g.total_groups 0 how_many fs1 in
              (some blocks, record fs2 { words = clean_blocks blocks beyond fs2.words }))

    -- The loop of `Get_Free_Inodes`. Where a group does not suffice, the code has set its counter to 0
    -- before it asks the group for the inodes that are then still missing, copies 0 bytes of the
    -- answer and moves `mem_index` by 0.
    unfoldable pub inodes_loop : (k n how_many : ℕ) → Image Bits → List ℕ × Image Bits
    unfolding get_free_inodes_in_group
    inodes_loop zero n how_many fs = (replicate how_many 0, fs)
    inodes_loop (suc k) n zero fs = ([], fs)
    inodes_loop (suc k) n (suc m) fs =
        let d = fs.descriptor n in
        let free = d.unallocated_inodes in
        elim (leb (suc m) free) [
          | true ↦
              let d' = with_free_inodes d (free - suc m) in
              get_free_inodes_in_group (suc m) d' n (set_descriptor fs n d')
          | false ↦ elim (free == 0) [
            | true ↦ inodes_loop k (n + 1) (suc m) fs
            | false ↦
                let d' = with_free_inodes d 0 in
                let (_, fs') =
                  get_free_inodes_in_group (suc m - free) d' n (set_descriptor fs n d') in
                let (rest, fs'') = inodes_loop k (n + 1) (suc m - free) fs' in
                (rest ++ replicate free 0, fs'')
          ]
        ]

    unfoldable pub get_free_inodes : ℕ → Image Bits → Option (List ℕ) × Image Bits
    unfolding inodes_loop
    get_free_inodes how_many fs =
        if ltb fs.super.total_unallocated_inodes how_many
        then (none, record fs { errno = enospc })
        else (let total = fs.super.total_unallocated_inodes - how_many in
            let fs1 = record fs {
              super = record (fs.super) { total_unallocated_inodes = total };
            } in
            let (inodes, fs2) = inodes_loop g.total_groups 0 how_many fs1 in (some inodes, fs2))

    unfoldable pub set_free_block_bitmap : ℕ → Image Bits → Image Bits
    set_free_block_bitmap block fs =
        let group = u32 (block + 4294967295) / g.blocks_per_group in
        let d = fs.descriptor group in
        let index = u32 (block + 4294967295) % g.blocks_per_group in
        let b = clean_bit (fs.bitmap d.bitmap_block_address) index in
        let free = u16 (d.unallocated_blocks + 1) in
        let total = u32 (fs.super.total_unallocated_blocks + 1) in
        record fs {
          bitmap = update fs.bitmap d.bitmap_block_address b;
          descriptor = update fs.descriptor group (with_free_blocks d free);
          super = record (fs.super) { total_unallocated_blocks = total };
        }

    unfoldable pub set_free_inode_bitmap : ℕ → Image Bits → Image Bits
    unfolding inode_locate_group inode_get_local_index
    set_free_inode_bitmap inode fs =
        let group = inode_locate_group g inode in
        let d = fs.descriptor group in
        let b = clean_bit (fs.bitmap d.bitmap_inode_address) (inode_get_local_index g inode) in
        let free = u16 (d.unallocated_inodes + 1) in
        let total = u32 (fs.super.total_unallocated_inodes + 1) in
        record fs {
          bitmap = update fs.bitmap d.bitmap_inode_address b;
          descriptor = update fs.descriptor group (with_free_inodes d free);
          super = record (fs.super) { total_unallocated_inodes = total };
        }
