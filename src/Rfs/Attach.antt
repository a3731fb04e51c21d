-- ===== src/Rfs/Attach.antt =====
-- Giving blocks to a file: `Attach_Blocks`, `Inode_Indirect_Attach1`, `Inode_Indirect_Attach2`,
-- `check_and_set_Ind` and `check_and_attach1` of rfs/source_RFS/file_operations.c.
pub mod Direct
use la_liga_de_la_justicia.Base.{
  ℕ, zero, suc, ◌+◌, ◌-◌, ◌/◌, Bool, true, false, Option, none, some, List, [], ◌∷◌, ltb, ◌==◌,
  if◌then◌else◌, get_or,
}
use la_liga_de_la_justicia.Rfs.Geometry.{Geometry}
use la_liga_de_la_justicia.Rfs.Bitarray.{Bitarray}
use la_liga_de_la_justicia.Rfs.Image.{Image, enospc, update}
use la_liga_de_la_justicia.Rfs.Alloc.{get_free_blocks}
use la_liga_de_la_justicia.Rfs.DataBlocks.{Pointers}
use la_liga_de_la_justicia.Rfs.Remove.{Volume, set_word}

-- `for (; entry[i] != 0 && i < limit; ++i);` with `rounds` positions left from `i` on.
unfoldable pub first_zero : (ℕ → ℕ) → (rounds i : ℕ) → ℕ
first_zero entry zero i = i
first_zero entry (suc r) i =
    let next = first_zero entry r (i + 1) in if entry i == 0 then i else next

-- `memcpy (&entry[i], blocks, …)`.
unfoldable pub placed : (ℕ → ℕ) → (i : ℕ) → List ℕ → ℕ → ℕ
placed entry i [] = entry
placed entry i (x ∷ xs) = update (placed entry (i + 1) xs) i x

-- `(available > wanted) ? wanted : available`.
abbrev pub slots_to_copy : (available wanted : ℕ) → ℕ
slots_to_copy available wanted = if ltb wanted available then wanted else available

-- What the heap holds behind the arrays that the calls of `Get_Free_Blocks` return.
module _ (bits : Bitarray) (g : Geometry) (beyond : Image (bits.Bits) → ℕ) where
  open bits use {Bits}

  abbrev pub free_blocks : ℕ → Image Bits → Option (List ℕ) × Image Bits
  unfolding get_free_blocks
  free_blocks n fs = get_free_blocks bits g (beyond fs) n fs

  unfoldable pub inode_indirect_attach1 :
      (indirect_block block_offset n : ℕ) → Image Bits → Image Bits
  unfolding get_free_blocks placed
  inode_indirect_attach1 block offset n fs =
      let (blocks, fs1) = free_blocks n fs in
      elim blocks [
        | none ↦ fs1
        | some bs ↦ record fs1 {
          words = update fs1.words block (placed (fs1.words block) offset bs);
        }
      ]

  -- `none` for -1.
  unfoldable pub check_and_attach1 : (block n : ℕ) → Image Bits → Option ℕ × Image Bits
  unfolding first_zero inode_indirect_attach1
  check_and_attach1 block n fs =
      let sub_entries = first_zero (fs.words block) (g.block_size / 4) 0 in
      let available = g.block_size / 4 - sub_entries in
      let copied = slots_to_copy available n in
      let fs1 =
        if ltb 0 available then inode_indirect_attach1 block sub_entries copied fs else fs in
      (if fs1.errno == enospc then none else some copied, fs1)

  -- The pointer that `check_and_set_Ind` leaves. Where no block is free it reads through the NULL that it was
  -- given, and the server crashes: `none`.
  unfoldable pub check_and_set_ind : (indirection : ℕ) → Image Bits → Option (ℕ × Image Bits)
  unfolding get_free_blocks
  check_and_set_ind indirection fs =
      let (blocks, fs1) = free_blocks 1 fs in
      if indirection == 0
      then (elim blocks [ none ↦ none | some bs ↦ some (get_or bs 0 0, fs1) ])
      else some (indirection, fs)

  -- The loop of `Inode_Indirect_Attach2` over the entries from `i` on, `rounds` of them left.
  unfoldable pub attach2_loop : (rounds block i n total : ℕ) → Image Bits → Option (ℕ × Image Bits)
  unfolding check_and_set_ind check_and_attach1
  attach2_loop zero block i n total fs = some (total, fs)
  attach2_loop (suc r) block i n total fs = elim (check_and_set_ind (fs.words block i) fs) [
    | none ↦ none
    | some (entry, fs1) ↦
        let (attached, fs2) = check_and_attach1 entry n (set_word block i entry fs1) in
        elim attached [
          | none ↦ some (total, fs2)
          | some a ↦
              let next = attach2_loop r block (i + 1) (n - a) (total + a) fs2 in
              if n - a == 0 then some (total + a, fs2) else next
        ]
  ]

  unfoldable pub inode_indirect_attach2 :
      (indirect_block n : ℕ) → Image Bits → Option (ℕ × Image Bits)
  unfolding attach2_loop
  inode_indirect_attach2 block n fs = attach2_loop (g.block_size / 4) block 0 n 0 fs

  -- The number of blocks that `Attach_Blocks` returns, and the volume; `none` is the crash.
  abbrev pub Attached : Type 0
  Attached = Option (ℕ × Volume bits g)

  -- The loop of level 3.
  unfoldable pub level3_loop : (rounds i n : ℕ) → Volume bits g → Attached
  unfolding check_and_set_ind inode_indirect_attach2
  level3_loop zero i n v = some (n, v)
  level3_loop (suc r) i zero v = some (0, v)
  level3_loop (suc r) i (suc n) (fs, ptr) =
      elim (check_and_set_ind (fs.words ptr.pointer_data_3 i) fs) [
        | none ↦ none
        | some (entry, fs1) ↦
            let fs2 = set_word ptr.pointer_data_3 i entry fs1 in
            if fs2.errno == enospc
            then some (suc n, (fs2, ptr))
            else elim (inode_indirect_attach2 entry (suc n) fs2) [
              | none ↦ none
              | some (attached, fs3) ↦
                  let next = level3_loop r (i + 1) (suc n - attached) (fs3, ptr) in
                  if fs3.errno == enospc then some (suc n - attached, (fs3, ptr)) else next
            ]
      ]

  unfoldable pub level3 : (n : ℕ) → Volume bits g → Attached
  unfolding level3_loop
  level3 n (fs, ptr) = elim (check_and_set_ind ptr.pointer_data_3 fs) [
    | none ↦ none
    | some (entry, fs1) ↦
        level3_loop (g.block_size / 4) 0 n (fs1, record ptr { pointer_data_3 = entry })
  ]

  -- Without space, level 2 returns how many blocks it attached, the other levels how many it did not.
  unfoldable pub level2 : (n : ℕ) → Volume bits g → Attached
  unfolding level3
  level2 n (fs, ptr) = elim (check_and_set_ind ptr.pointer_data_2 fs) [
    | none ↦ none
    | some (entry, fs1) ↦
        let ptr1 = record ptr { pointer_data_2 = entry } in
        elim (inode_indirect_attach2 entry n fs1) [
          | none ↦ none
          | some (attached, fs2) ↦
              let next = level3 (n - attached) (fs2, ptr1) in
              if fs2.errno == enospc
              then some (attached, (fs2, ptr1))
              else if n - attached == 0
              then some (0, (fs2, ptr1))
              else next
        ]
  ]

  unfoldable pub level1 : (n : ℕ) → Volume bits g → Attached
  unfolding level2 check_and_attach1
  level1 n (fs, ptr) = elim (check_and_set_ind ptr.pointer_data_1 fs) [
    | none ↦ none
    | some (entry, fs1) ↦
        let ptr1 = record ptr { pointer_data_1 = entry } in
        let (attached, fs2) = check_and_attach1 entry n fs1 in
        elim attached [
          | none ↦ some (n, (fs2, ptr1))
          | some a ↦
              let next = level2 (n - a) (fs2, ptr1) in
              if n - a == 0 then some (0, (fs2, ptr1)) else next
        ]
  ]

  -- Behind level 0, with `left` blocks to attach.
  unfoldable pub past_level0 : (left : ℕ) → Volume bits g → Attached
  unfolding level1
  past_level0 left v = let next = level1 left v in if left == 0 then some (0, v) else next

  -- The answer of `Get_Free_Blocks` at level 0. Without space, the number of free pointers is returned.
  unfoldable pub attach_direct :
      (sub_entries left : ℕ) → Option (List ℕ) × Image Bits → Pointers → Attached
  unfolding past_level0 placed
  attach_direct sub_entries left (none, fs) ptr = some (12 - sub_entries, (fs, ptr))
  attach_direct sub_entries left (some bs, fs) ptr =
      past_level0 left
        (fs, record ptr { pointer_data_0 = placed ptr.pointer_data_0 sub_entries bs })

  unfoldable pub attach_at : (sub_entries copied n : ℕ) → Volume bits g → Attached
  unfolding attach_direct get_free_blocks
  attach_at sub_entries copied n (fs, ptr) =
      if ltb 0 (12 - sub_entries)
      then attach_direct sub_entries (n - copied) (free_blocks copied fs) ptr
      else past_level0 (n - copied) (fs, ptr)

  unfoldable pub attach_blocks : (new_blocks_amount : ℕ) → Volume bits g → Attached
  unfolding first_zero attach_at
  attach_blocks n (fs, ptr) =
      let sub_entries = first_zero ptr.pointer_data_0 12 0 in
      attach_at sub_entries (slots_to_copy (12 - sub_entries) n) n (fs, ptr)
