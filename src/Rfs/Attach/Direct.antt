-- ===== src/Rfs/Attach/Direct.antt =====
-- `Attach_Blocks` where the direct pointers of the inode have room for the new blocks.
use la_liga_de_la_justicia.Base.{
  ℕ, zero, suc, ◌+◌, ◌-◌, ◌*◌, ◌/◌, ◌%◌, ◌≤◌, ◌<◌, ◌≡◌, ◌≢◌, refl, sym, ap, ◌∙◌, subst, inl, inr,
  true, false, false≢true, none, some, ◌&&◌, List, [], ◌∷◌, arith, ◌==◌, leb, ltb, if◌then◌else◌,
  Bool-cases, length, get_or, has, Run-get_or, Run-ascending, has-get_or, div_bounds, div_lt,
}
use la_liga_de_la_justicia.Rfs.Geometry.{Geometry}
use la_liga_de_la_justicia.Rfs.Bitarray.{Bitarray}
use la_liga_de_la_justicia.Rfs.Image.{Image, enospc}
use la_liga_de_la_justicia.Rfs.Alloc.{get_free_blocks}
use la_liga_de_la_justicia.Rfs.Alloc.Takes.{block_at}
use la_liga_de_la_justicia.Rfs.Alloc.Obtain.{
  IsSound, Obtained, get_free_blocks-Obtained, get_free_blocks-enospc,
}
use la_liga_de_la_justicia.Rfs.DataBlocks.{Pointers}
use la_liga_de_la_justicia.Rfs.BlockCache.{Memcached}
use la_liga_de_la_justicia.Rfs.Remove.{Volume, remove_loop}
use la_liga_de_la_justicia.Rfs.Remove.Direct.{IsUsed, Owns, remove_loop-IsSound}
use la_liga_de_la_justicia.Rfs.Attach.{
  first_zero, placed, slots_to_copy, Attached, check_and_set_ind, level1, past_level0,
  attach_direct, attach_at, attach_blocks,
}

pub placed-get_or :
    (f : ℕ → ℕ) (i : ℕ) (xs : List ℕ) (j : ℕ)
    → placed f i xs j ≡ (if leb i j && ltb j (i + length xs) then get_or xs (j - i) 0 else f j)
unfolding placed
placed-get_or f i [] j = ground arith
placed-get_or f i (x ∷ xs) j = elim (Bool-cases (i == j)) [
  | inl e ↦
      let z : j - i ≡ 0 = ground arith in
      let t : (leb i j && ltb j (i + suc (length xs))) ≡ true = ground arith in rw (e, t, z) refl
  | inr e ↦ rw e (
      placed-get_or f (i + 1) xs j ∙ elim (Bool-cases (ltb i j)) [
        | inl l ↦ let z : j - i ≡ suc (j - (i + 1)) = ground arith in rw z (ground arith)
        | inr l ↦ ground arith
      ])
]

factor_pos : (a b c : ℕ) → 1 ≤ c → c < a * b + 1 → 0 < b
factor_pos a zero c h k = absurd (omega arith)
factor_pos a (suc b) c h k = omega arith

module _ (bits : Bitarray) (g : Geometry) where
  open bits use {Bits}

  module _ {fs fs' : Image Bits} {n : ℕ} {blocks : List ℕ}
      (o : Obtained bits g fs fs' n blocks) where
    -- A block that was handed out is a used block of the volume.
    pub Obtained-IsUsed : (i : ℕ) → i < n → IsUsed bits g fs' (get_or blocks i 0)
    Obtained-IsUsed i h =
        let b = get_or blocks i 0 in
        let inside : i < length blocks = omega (arith, o.count) in
        let (low, high) =
          Run-get_or (block_at bits g 0 0) (block_at bits g g.total_groups 0) blocks i o.ascending
            inside in
        let p : 0 < g.blocks_per_group =
          factor_pos g.total_groups g.blocks_per_group b (omega (arith, low))
            (omega (arith, high)) in
        let (whole, rest) = div_bounds (b - 1) g.blocks_per_group p in
        let e : b ≡ block_at bits g ((b - 1) / g.blocks_per_group) ((b - 1) % g.blocks_per_group) =
          omega (arith, low) in
        let lt = div_lt (b - 1) g.blocks_per_group g.total_groups (omega (arith, high, low)) in
        let mark = o.marked ((b - 1) / g.blocks_per_group) ((b - 1) % g.blocks_per_group) lt rest in
        let mine : has
              (block_at bits g ((b - 1) / g.blocks_per_group) ((b - 1) % g.blocks_per_group)) blocks
            ≡ true =
          subst (λ c. has c blocks ≡ true) e (has-get_or blocks i inside) in
        record {
          group = (b - 1) / g.blocks_per_group;
          index = (b - 1) % g.blocks_per_group;
          group_lt = lt;
          index_lt = rest;
          here = e;
          used = ground (arith, mark, mine);
        }

    pub Obtained-apart : (i j : ℕ) → i < j → j < n → get_or blocks i 0 ≢ get_or blocks j 0
    Obtained-apart i j lt h =
        let up =
          Run-ascending (block_at bits g 0 0) (block_at bits g g.total_groups 0) blocks i j
            o.ascending lt (omega (arith, o.count)) in
        omega (arith, up)

    -- A block that was used before stays used, and is none of those handed out.
    pub Obtained-kept : (b : ℕ) → IsUsed bits g fs b → IsUsed bits g fs' b
    Obtained-kept b u = record {
      group = u.group;
      index = u.index;
      group_lt = u.group_lt;
      index_lt = u.index_lt;
      here = u.here;
      used = ground (arith, o.marked u.group u.index u.group_lt u.index_lt, u.used);
    }

    pub Obtained-new : (b i : ℕ) → IsUsed bits g fs b → i < n → b ≢ get_or blocks i 0
    Obtained-new b i u h e =
        let mine : has (block_at bits g u.group u.index) blocks ≡ true =
          subst (λ c. has c blocks ≡ true) (sym e ∙ u.here)
            (has-get_or blocks i (omega (arith, o.count))) in
        false≢true (sym (o.free u.group u.index u.group_lt u.index_lt mine) ∙ u.used)

    -- Direct pointers from `sub` on that were given those blocks.
    Obtained-Owns :
        (ptr : Pointers) (sub : ℕ)
        → Owns bits g n sub fs'
            (record ptr { pointer_data_0 = placed ptr.pointer_data_0 sub blocks })
    Obtained-Owns ptr sub = record {
      owned = λ j low high. rw (here j low high) (Obtained-IsUsed (j - sub) (omega arith));
      apart = λ i j low lt high.
          rw (here i low (omega arith), here j (omega arith) high)
            (Obtained-apart (i - sub) (j - sub) (omega arith) (omega arith));
    }
      where
        here :
            (j : ℕ)
            → sub ≤ j
            → j < sub + n
            → placed ptr.pointer_data_0 sub blocks j ≡ get_or blocks (j - sub) 0
        here j low high =
            let t : (leb sub j && ltb j (sub + length blocks)) ≡ true = ground (arith, o.count) in
            placed-get_or ptr.pointer_data_0 sub blocks j
            ∙ ap (λ b. if b then get_or blocks (j - sub) 0 else ptr.pointer_data_0 j) t

  module _ (beyond : Image Bits → ℕ) (fs : Image Bits) (ptr : Pointers) (n : ℕ) where
    abbrev sub_entries : ℕ
    sub_entries = first_zero ptr.pointer_data_0 12 0

    -- The call where the direct pointers have room.
    attach_blocks_room :
        (blocks : List ℕ)
        → 0 < n
        → sub_entries + n ≤ 12
        → (get_free_blocks bits g (beyond fs) n fs).0 ≡ some blocks
        → attach_blocks bits g beyond n (fs, ptr)
          ≡ some (
            0,
            (
              (get_free_blocks bits g (beyond fs) n fs).1,
              record ptr { pointer_data_0 = placed ptr.pointer_data_0 sub_entries blocks },
            ),
          )
    unfolding attach_blocks attach_at attach_direct past_level0
    attach_blocks_room blocks pos room e =
        let available : ltb 0 (12 - sub_entries) ≡ true = ground arith in
        let copied : slots_to_copy (12 - sub_entries) n ≡ n = ground arith in
        let z : (n - n == 0) ≡ true = ground arith in
        let fs1 = (get_free_blocks bits g (beyond fs) n fs).1 in
        ap (λ c. attach_at bits g beyond sub_entries c n (fs, ptr)) copied
        ∙ rw available refl
        ∙ ap {B = Attached bits g beyond}
            (λ r. attach_direct bits g beyond sub_entries (n - n) (r, fs1) ptr) e
        ∙ rw z refl

    -- Where the direct pointers have room, and the volume has the blocks and its books are right, all the
    -- blocks are attached: new blocks of the volume, as `Get_Free_Blocks` promises, in the first free pointers.
    pub attach_blocks-Obtained :
        IsSound bits g fs
        → 0 < n
        → sub_entries + n ≤ 12
        → n ≤ fs.super.total_unallocated_blocks
        → (blocks : List ℕ) × ((fs' : Image Bits) × (attach_blocks bits g beyond n (fs, ptr)
              ≡ some (
                0,
                (fs', record ptr { pointer_data_0 = placed ptr.pointer_data_0 sub_entries blocks }),
              ))
            × Obtained bits g fs fs' n blocks)
    attach_blocks-Obtained sound pos room have =
        let (blocks, e, o) = get_free_blocks-Obtained bits g (beyond fs) fs n sound have in
        (
          blocks,
          ((get_free_blocks bits g (beyond fs) n fs).1, attach_blocks_room blocks pos room e, o),
        )

    module _ (p : 0 < g.block_size / 4) (small : g.block_size / 4 ≤ 1024)
        (below : g.blocks_per_group < 65536) (m : Memcached (ℕ → ℕ)) (path : List ℕ)
        (s : m.State) where
      -- Blocks that were attached can be taken away again: on a volume whose books are right and that has
      -- them, with room in the direct pointers, and groups of fewer than 65536 blocks, where behind the array of the
      -- blocks at most one word stands before the next word that is 0. The books are right at
      -- the end, the count of free blocks is that of the start, and so are the direct pointers, but for the
      -- ones that were given, which are 0.
      pub attach_blocks-remove_loop :
          IsSound bits g fs
          → 0 < n
          → sub_entries + n ≤ 12
          → n ≤ fs.super.total_unallocated_blocks
          → (v : Volume bits g) × (attach_blocks bits g beyond n (fs, ptr) ≡ some (0, v))
            × IsSound bits g (remove_loop bits g m path n sub_entries v s).0.0
            × ((remove_loop bits g m path n sub_entries v s).0.0.super.total_unallocated_blocks
                ≡ fs.super.total_unallocated_blocks)
            × ((j : ℕ)
                → (remove_loop bits g m path n sub_entries v s).0.1.pointer_data_0 j ≡ (
                    if leb sub_entries j && ltb j (sub_entries + n)
                    then 0
                    else ptr.pointer_data_0 j))
      attach_blocks-remove_loop sound pos room have =
          let (blocks, (fs', e, o)) = attach_blocks-Obtained sound pos room have in
          let ptr' = record ptr { pointer_data_0 = placed ptr.pointer_data_0 sub_entries blocks } in
          let (sound', total, zeros) =
            remove_loop-IsSound bits g p small below m path n sub_entries fs' ptr' s room o.sound
              (Obtained-Owns o ptr sub_entries) in
          (
            (fs', ptr'),
            e,
            sound',
            omega (arith, total, o.less),
            λ j.
                zeros j
                ∙ ground (arith, o.count, placed-get_or ptr.pointer_data_0 sub_entries blocks j),
          )

    -- Without the blocks, nothing is attached.
    pub attach_blocks-enospc :
        0 < n
        → sub_entries + n ≤ 12
        → fs.super.total_unallocated_blocks < n
        → attach_blocks bits g beyond n (fs, ptr)
          ≡ some (12 - sub_entries, (record fs { errno = enospc }, ptr))
    unfolding attach_blocks attach_at attach_direct
    attach_blocks-enospc pos room short =
        let available : ltb 0 (12 - sub_entries) ≡ true = ground arith in
        let copied : slots_to_copy (12 - sub_entries) n ≡ n = ground arith in
        ap (λ c. attach_at bits g beyond sub_entries c n (fs, ptr)) copied
        ∙ rw available refl
        ∙ ap {B = Attached bits g beyond}
            (λ r. attach_direct bits g beyond sub_entries (n - n) r ptr)
            (get_free_blocks-enospc bits g (beyond fs) fs n short)

    set_ind_crash :
        ptr.pointer_data_1 ≡ 0
        → fs.super.total_unallocated_blocks ≡ 0
        → check_and_set_ind bits g beyond ptr.pointer_data_1 fs ≡ none
    unfolding check_and_set_ind
    set_ind_crash unset empty =
        let u : (ptr.pointer_data_1 == 0) ≡ true = ground arith in
        let e = get_free_blocks-enospc bits g (beyond fs) fs 1 (omega arith) in rw (u, e) refl

    level1_crash :
        (k : ℕ)
        → check_and_set_ind bits g beyond ptr.pointer_data_1 fs ≡ none
        → level1 bits g beyond k (fs, ptr) ≡ none
    unfolding level1
    level1_crash k e = rw (e, level1) refl

    -- With all direct pointers in use, no indirect block yet and no free block, the server crashes on a NULL.
    pub attach_blocks_crash :
        (sub_entries ≡ 12)
        → 0 < n
        → ptr.pointer_data_1 ≡ 0
        → fs.super.total_unallocated_blocks ≡ 0
        → attach_blocks bits g beyond n (fs, ptr) ≡ none
    unfolding attach_blocks attach_at past_level0
    attach_blocks_crash full pos unset empty =
        let t : ltb 0 (12 - sub_entries) ≡ false = ground arith in
        let copied : slots_to_copy (12 - sub_entries) n ≡ 0 = ground arith in
        let z : (n - 0 == 0) ≡ false = ground arith in
        ap (λ c. attach_at bits g beyond sub_entries c n (fs, ptr)) copied
        ∙ rw (t, z) (level1_crash (n - 0) (set_ind_crash unset empty))
