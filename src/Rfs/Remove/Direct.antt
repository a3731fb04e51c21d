-- ===== src/Rfs/Remove/Direct.antt =====
-- `Remove_Block` and `Remove_Blocks` on the direct pointers of an inode: the books of the volume.
use mathlib.Core.Path.{subst}
use mathlib.Core.Option.{none-ne-some}
use la_liga_de_la_justicia.Base.{
  ℕ, zero, suc, ◌+◌, ◌/◌, ◌≤◌, ◌<◌, ◌≡◌, ◌≢◌, refl, sym, ap, ◌∙◌, inl, inr, true, false, Option,
  none, some, ◌&&◌, List, arith, ◌==◌, leb, ltb, if◌then◌else◌, Bool-cases, ==_iff,
}
use la_liga_de_la_justicia.Rfs.Geometry.{Geometry}
use la_liga_de_la_justicia.Rfs.Bitarray.{Bitarray}
use la_liga_de_la_justicia.Rfs.Image.{Image, update_other}
use la_liga_de_la_justicia.Rfs.Alloc.{set_free_block_bitmap}
use la_liga_de_la_justicia.Rfs.Alloc.Takes.{status, block_at}
use la_liga_de_la_justicia.Rfs.Alloc.Obtain.{IsSound}
use la_liga_de_la_justicia.Rfs.Alloc.Release.{set_free_block_bitmap-IsSound}
use la_liga_de_la_justicia.Rfs.DataBlocks.{Pointers}
use la_liga_de_la_justicia.Rfs.Coordinates.Roundtrip.{coordinates_direct}
use la_liga_de_la_justicia.Rfs.BlockCache.{Memcached, generate_key, cache_delete}
use la_liga_de_la_justicia.Rfs.Remove.{Volume, set_direct, remove_at, remove_block, remove_loop}

pub absent : {A : Type 0} → (o : Option A) → ((w : A) → o ≡ some w → ⊥) → o ≡ none
absent none h = refl
absent (some w) h = absurd (h w refl)

module _ (bits : Bitarray) (g : Geometry) where
  open bits use {Bits}

  -- A block of the volume that is marked as used.
  pub record IsUsed (fs : Image Bits) (block : ℕ) : Type 0 where
    pub group : ℕ
    pub index : ℕ
    pub group_lt : group < g.total_groups
    pub index_lt : index < g.blocks_per_group
    pub here : block ≡ block_at bits g group index
    pub used : status bits g fs group index ≡ true

  -- Direct pointers `index` to `index + n - 1` lead to used blocks, no two to the same one.
  pub record Owns (n index : ℕ) (fs : Image Bits) (ptr : Pointers) : Type 0 where
    pub owned : (j : ℕ) → index ≤ j → j < index + n → IsUsed fs (ptr.pointer_data_0 j)
    pub apart :
        (i j : ℕ) → index ≤ i → i < j → j < index + n → ptr.pointer_data_0 i ≢ ptr.pointer_data_0 j

  module _ (m : Memcached (ℕ → ℕ)) (path : List ℕ) where
    open m use {State, memcached_get}

    -- What is not there stays away: the loop only deletes.
    cache_delete-absent :
        (index : ℕ) (key : List ℕ) (s : State)
        → memcached_get s key ≡ none
        → memcached_get (cache_delete m path index s) key ≡ none
    unfolding cache_delete
    cache_delete-absent index key s h =
        absent (memcached_get (cache_delete m path index s) key) (λ w e.
          let (_, kept) = m.get-delete s (generate_key path index) key w e in
          none-ne-some w (sym h ∙ kept))

    cache_delete-gone :
        (index : ℕ) (s : State)
        → memcached_get (cache_delete m path index s) (generate_key path index) ≡ none
    unfolding cache_delete
    cache_delete-gone index s =
        absent (memcached_get (cache_delete m path index s) (generate_key path index))
          (λ w e. (m.get-delete s (generate_key path index) (generate_key path index) w e).0 refl)

    remove_loop-absent :
        (n index : ℕ) (key : List ℕ) (v : Volume bits g) (s : State)
        → memcached_get s key ≡ none
        → memcached_get (remove_loop bits g m path n index v s).1 key ≡ none
    unfolding remove_loop
    remove_loop-absent zero index key v s h = h
    remove_loop-absent (suc n) index key v s h =
        remove_loop-absent n (index + 1) key (remove_block bits g index v)
          (cache_delete m path index s) (cache_delete-absent index key s h)

    -- Whatever the volume is like, `Remove_Blocks` leaves none of the blocks that it takes away in the cache.
    pub remove_loop_forgets :
        (n index j : ℕ) (v : Volume bits g) (s : State)
        → index ≤ j
        → j < index + n
        → memcached_get (remove_loop bits g m path n index v s).1 (generate_key path j) ≡ none
    unfolding remove_loop
    remove_loop_forgets zero index j v s low high = absurd (omega arith)
    remove_loop_forgets (suc n) index j v s low high = elim (Bool-cases (index == j)) [
      | inl e ↦
          subst
            (λ i.
              memcached_get (remove_loop bits g m path (suc n) index v s).1 (generate_key path i)
              ≡ none)
            ((==_iff index j).0 e)
            (remove_loop-absent n (index + 1) (generate_key path index)
              (remove_block bits g index v) (cache_delete m path index s)
              (cache_delete-gone index s))
      | inr e ↦
          let ne : index ≢ j = ground arith in
          remove_loop_forgets n (index + 1) j (remove_block bits g index v)
            (cache_delete m path index s) (omega arith) (omega arith)
    ]

  module _ (p : 0 < g.block_size / 4) (small : g.block_size / 4 ≤ 1024)
      (below : g.blocks_per_group < 65536) where
    remove_block-direct :
        (i : ℕ) (fs : Image Bits) (ptr : Pointers)
        → i < 12
        → remove_block bits g i (fs, ptr)
          ≡ (set_free_block_bitmap bits g (ptr.pointer_data_0 i) fs, set_direct ptr i 0)
    unfolding remove_block remove_at
    remove_block-direct i fs ptr h =
        ap (λ c. remove_at bits g c (fs, ptr)) (coordinates_direct (g.block_size / 4) small p i h)

    -- Giving back a used block leaves the books right and the other used blocks used.
    release :
        (fs : Image Bits) (block : ℕ)
        → IsSound bits g fs
        → IsUsed fs block
        → IsSound bits g (set_free_block_bitmap bits g block fs)
          × ((set_free_block_bitmap bits g block fs).super.total_unallocated_blocks
              ≡ fs.super.total_unallocated_blocks + 1)
          × ((b : ℕ) → block ≢ b → IsUsed fs b → IsUsed (set_free_block_bitmap bits g block fs) b)
    release fs block sound u =
        let (s, st, t) =
          set_free_block_bitmap-IsSound bits g fs sound u.group u.index u.group_lt u.index_lt below
            u.used in
        rw u.here (
          s,
          t,
          λ b ne v. record {
            group = v.group;
            index = v.index;
            group_lt = v.group_lt;
            index_lt = v.index_lt;
            here = v.here;
            used = st v.group v.index v.group_lt ∙ kept b v ne;
          },
        )
      where
        kept :
            (b : ℕ) (v : IsUsed fs b)
            → block_at bits g u.group u.index ≢ b
            → (if (v.group == u.group) && (v.index == u.index)
                then false
                else status bits g fs v.group v.index)
              ≡ true
        kept b v ne = elim (Bool-cases (v.group == u.group)) [
          | inl e ↦ elim (Bool-cases (v.index == u.index)) [
            | inl k ↦ absurd (
                ne (
                  ap (λ (n : ℕ). block_at bits g n u.index) (sym ((==_iff v.group u.group).0 e))
                  ∙ ap (block_at bits g v.group) (sym ((==_iff v.index u.index).0 k))
                  ∙ sym v.here))
            | inr k ↦ rw (e, k) v.used
          ]
          | inr e ↦ rw e v.used
        ]

    Owns-suc :
        (n index : ℕ) (fs : Image Bits) (ptr : Pointers)
        → IsSound bits g fs
        → Owns (suc n) index fs ptr
        → Owns n
            (index + 1)
            (set_free_block_bitmap bits g (ptr.pointer_data_0 index) fs)
            (set_direct ptr index 0)
    Owns-suc n index fs ptr sound o =
        let u = o.owned index (omega arith) (omega arith) in
        let (_, _, keep) = release fs (ptr.pointer_data_0 index) sound u in
        let other = update_other ptr.pointer_data_0 index 0 in
        record {
          owned = λ j low high.
              let ne : index ≢ j = omega arith in
              rw (other j ne) (
                keep (ptr.pointer_data_0 j)
                  (o.apart index j (omega arith) (omega arith) (omega arith))
                  (o.owned j (omega arith) (omega arith)));
          apart = λ i j low lt high.
              let ne : index ≢ i = omega arith in
              let ne' : index ≢ j = omega arith in
              rw (other i ne, other j ne') (o.apart i j (omega arith) lt (omega arith));
        }

    module _ (m : Memcached (ℕ → ℕ)) (path : List ℕ) where
      open m use {State}

      -- Taking the blocks of direct pointers away from a file, when the volume's books are right and the
      -- pointers lead to different used blocks: the books are right again with as many free blocks
      -- more, those pointers are 0, and the others are as they were.
      pub remove_loop-IsSound :
          (n index : ℕ) (fs : Image Bits) (ptr : Pointers) (s : State)
          → index + n ≤ 12
          → IsSound bits g fs
          → Owns n index fs ptr
          → IsSound bits g (remove_loop bits g m path n index (fs, ptr) s).0.0
            × ((remove_loop bits g m path n index (fs, ptr) s).0.0.super.total_unallocated_blocks
                ≡ fs.super.total_unallocated_blocks + n)
            × ((j : ℕ)
                → (remove_loop bits g m path n index (fs, ptr) s).0.1.pointer_data_0 j
                  ≡ (if leb index j && ltb j (index + n) then 0 else ptr.pointer_data_0 j))
      unfolding remove_loop
      remove_loop-IsSound zero index fs ptr s h sound o = (sound, omega arith, λ j. ground arith)
      remove_loop-IsSound (suc n) index fs ptr s h sound o =
          let b = ptr.pointer_data_0 index in
          let u = o.owned index (omega arith) (omega arith) in
          let (sound', total, _) = release fs b sound u in
          let (s2, t2, p2) =
            remove_loop-IsSound n (index + 1) (set_free_block_bitmap bits g b fs)
              (set_direct ptr index 0) (cache_delete m path index s) (omega arith) sound'
              (Owns-suc n index fs ptr sound o) in
          rw (remove_block-direct index fs ptr (omega arith), remove_loop)
            (s2, omega (arith, t2, total), λ j. p2 j ∙ ground arith)

      -- A used block to which none of those pointers leads stays used.
      pub remove_loop-IsUsed :
          (n index : ℕ) (fs : Image Bits) (ptr : Pointers) (s : State) (b : ℕ)
          → index + n ≤ 12
          → IsSound bits g fs
          → Owns n index fs ptr
          → IsUsed fs b
          → ((j : ℕ) → index ≤ j → j < index + n → ptr.pointer_data_0 j ≢ b)
          → IsUsed (remove_loop bits g m path n index (fs, ptr) s).0.0 b
      unfolding remove_loop
      remove_loop-IsUsed zero index fs ptr s b h sound o u apart = u
      remove_loop-IsUsed (suc n) index fs ptr s b h sound o u apart =
          let c = ptr.pointer_data_0 index in
          let (sound', _, keep) = release fs c sound (o.owned index (omega arith) (omega arith)) in
          let u' = keep b (apart index (omega arith) (omega arith)) u in
          let other = update_other ptr.pointer_data_0 index 0 in
          rw (remove_block-direct index fs ptr (omega arith), remove_loop)
            (remove_loop-IsUsed n (index + 1) (set_free_block_bitmap bits g c fs)
              (set_direct ptr index 0) (cache_delete m path index s) b (omega arith) sound'
              (Owns-suc n index fs ptr sound o) u'
              (λ j low high. rw (other j (omega arith)) (apart j (omega arith) (omega arith))))
