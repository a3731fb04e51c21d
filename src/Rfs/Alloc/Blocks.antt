-- ===== src/Rfs/Alloc/Blocks.antt =====
-- `Get_Free_Blocks` over all the groups.
use mathlib.Core.List.{append-nil}
use mathlib.Core.Path.{subst}
use native.Mathlib.Nat.{le_of_eq}
use la_liga_de_la_justicia.Base.{
  ℕ, zero, suc, ◌+◌, ◌-◌, ◌≤◌, ◌<◌, ◌≡◌, refl, inl, inr, true, false, ◌++◌, arith, leb, ◌==◌,
  Bool-cases, leb→le, leb→lt, ==_iff,
}
use la_liga_de_la_justicia.Rfs.Geometry.{Geometry, GroupDescriptor, group_number}
use la_liga_de_la_justicia.Rfs.Bitarray.{Bitarray}
use la_liga_de_la_justicia.Rfs.Image.{Image, update}
use la_liga_de_la_justicia.Rfs.Alloc.{with_free_blocks, set_descriptor, blocks_loop}
use la_liga_de_la_justicia.Rfs.Alloc.Takes.{
  sum_free, IsLaidOut, IsCounted, Takes, Takes-nothing, sum_free_ext, Takes-append, Takes-IsLaidOut,
}
use la_liga_de_la_justicia.Rfs.Alloc.Group.{
  scanned, group_blocks, group_image, group_blocks_lem, group_Takes,
}

module _ (bits : Bitarray) (g : Geometry) where
  open bits use {Bits, test_bit}

  abbrev LoopTakes : (k n m : ℕ) → Image Bits → Type 0
  LoopTakes k n m fs =
      Takes bits g fs (blocks_loop bits g k n m fs).1 n k m (blocks_loop bits g k n m fs).0

  -- The image after a whole group was taken, with `z` left in its counter.
  abbrev emptied : Image Bits → ℕ → ℕ → Image Bits
  emptied fs n z =
      let d = fs.descriptor n in
      record fs {
        bitmap =
            update fs.bitmap d.bitmap_block_address (scanned bits g fs n d.unallocated_blocks).1;
        descriptor = update fs.descriptor n (record d { unallocated_blocks = z });
      }

  -- The three ways through the body of the loop.
  loop_skip :
      (k n m : ℕ) (fs : Image Bits)
      → ((fs.descriptor n).unallocated_blocks == 0) ≡ true
      → blocks_loop bits g (suc k) n (suc m) fs ≡ blocks_loop bits g k (n + 1) (suc m) fs
  unfolding blocks_loop
  loop_skip k n m fs e = rw (e, blocks_loop)

  module _ (fs : Image Bits) (laid : IsLaidOut bits g fs) (counted : IsCounted bits g fs) (n : ℕ)
      (n_lt : n < g.total_groups) where
    loop_last :
        (k m : ℕ)
        → ((fs.descriptor n).unallocated_blocks == 0) ≡ false
        → leb (suc m) (fs.descriptor n).unallocated_blocks ≡ true
        → blocks_loop bits g (suc k) n (suc m) fs
          ≡ (group_blocks bits g fs n (suc m), group_image bits g fs n (suc m))
    unfolding blocks_loop group_number
    loop_last k m e le =
        rw (e, blocks_loop)
          (rw (le, blocks_loop)
            (λ i. (
              group_blocks_lem bits g fs laid n (suc m) n_lt (lessened (suc m)) refl
                  (laid.numbered n n_lt) (set_descriptor bits g fs n (lessened (suc m))) refl
                  (rw (← counted n n_lt) (leb→le (suc m) _ le)) i,
              group_image bits g fs n (suc m),
            )))
      where
        lessened : ℕ → GroupDescriptor
        lessened c =
            with_free_blocks bits g (fs.descriptor n) ((fs.descriptor n).unallocated_blocks - c)

    loop_more :
        (k m : ℕ)
        → ((fs.descriptor n).unallocated_blocks == 0) ≡ false
        → leb (suc m) (fs.descriptor n).unallocated_blocks ≡ false
        → let free = (fs.descriptor n).unallocated_blocks in
          let rest = blocks_loop bits g k (n + 1) (suc m - free) (group_image bits g fs n free) in
          blocks_loop bits g (suc k) n (suc m) fs
          ≡ (group_blocks bits g fs n free ++ rest.0, rest.1)
    unfolding blocks_loop group_number
    loop_more k m e le =
        rw (e, blocks_loop)
          (rw (le, blocks_loop)
            (λ i.
              let image = emptied fs n (zero_left i) in
              let rest =
                blocks_loop bits g k (n + 1) (suc m - (fs.descriptor n).unallocated_blocks) image in
              (
                group_blocks_lem bits g fs laid n (fs.descriptor n).unallocated_blocks n_lt
                      (fs.descriptor n) refl (laid.numbered n n_lt) fs refl
                      (le_of_eq (counted n n_lt)) i
                    ++ rest.0,
                rest.1,
              )))
      where
        zero_left : 0 ≡ (fs.descriptor n).unallocated_blocks - (fs.descriptor n).unallocated_blocks
        zero_left = omega arith

  pub blocks_loop-Takes :
      (k n m : ℕ) (fs : Image Bits)
      → IsLaidOut bits g fs
      → IsCounted bits g fs
      → n + k ≡ g.total_groups
      → m ≤ sum_free bits g fs n k
      → LoopTakes k n m fs
  blocks_loop-Takes zero n zero fs laid counted e h =
      unfold blocks_loop in Takes-nothing bits g fs n zero
  blocks_loop-Takes zero n (suc m) fs laid counted e h = absurd (omega arith)
  blocks_loop-Takes (suc k) n zero fs laid counted e h =
      unfold blocks_loop in Takes-nothing bits g fs n (suc k)
  blocks_loop-Takes (suc k) n (suc m) fs laid counted e h =
      let d = fs.descriptor n in
      let n_lt : n < g.total_groups = omega arith in
      elim (Bool-cases (d.unallocated_blocks == 0)) [
        | inl none_free ↦ rw (loop_skip k n m fs none_free) (
            Takes-append bits g (Takes-nothing bits g fs n 1)
              (blocks_loop-Takes k (n + 1) (suc m) fs laid counted (omega arith)
                (omega (arith, (==_iff d.unallocated_blocks 0).0 none_free)))
              (omega arith))
        | inr some_free ↦ elim (Bool-cases (leb (suc m) d.unallocated_blocks)) [
          | inl enough ↦ rw (loop_last fs laid counted n n_lt k m some_free enough) (
              subst (λ l. Takes bits g fs (group_image bits g fs n (suc m)) n (suc k) (suc m) l)
                (append-nil (group_blocks bits g fs n (suc m)))
                (Takes-append bits g
                  (group_Takes bits g fs laid n (suc m) n_lt
                    (rw (← counted n n_lt) (leb→le (suc m) d.unallocated_blocks enough))
                    (leb→le (suc m) d.unallocated_blocks enough))
                  (Takes-nothing bits g (group_image bits g fs n (suc m)) (n + 1) k) (omega arith)))
          | inr short ↦
              let taken =
                group_Takes bits g fs laid n d.unallocated_blocks n_lt (le_of_eq (counted n n_lt))
                  (omega arith) in
              let image = group_image bits g fs n d.unallocated_blocks in
              let left : sum_free bits g image (n + 1) k ≡ sum_free bits g fs (n + 1) k =
                sum_free_ext bits g fs image (n + 1) k (λ j le. taken.others j (inr le)) in
              let more = leb→lt (suc m) d.unallocated_blocks short in
              rw (loop_more fs laid counted n n_lt k m some_free short) (
                Takes-append bits g taken
                  (blocks_loop-Takes k (n + 1) (suc m - d.unallocated_blocks) image
                    (Takes-IsLaidOut bits g taken laid) (taken.counted counted) (omega arith)
                    (omega arith))
                  (omega arith))
        ]
      ]
