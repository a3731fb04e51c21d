-- ===== src/Rfs/Alloc/Group.antt =====
-- One group: what `Get_Free_Blocks_In_Group` does when the group counts enough free blocks.
use mathlib.Core.List.{append-nil}
use mathlib.Core.Path.{subst}
use la_liga_de_la_justicia.Base.{
  ℕ, ◌+◌, ◌-◌, ◌*◌, ◌≤◌, ◌<◌, ◌≡◌, refl, sym, ◌∙◌, ap, inl, inr, true, false, ◌||◌, List, [], ◌∷◌,
  ◌++◌, map, arith, ◌==◌, length, length-map, replicate, has, has-map_add, Run, Run-map_add,
  Run-widen, Bool-cases, has-Run_below, has-Run_above, ltb, ltb→lt, ltb→le, ==_iff, All-at, ◌≢◌,
}
use la_liga_de_la_justicia.Rfs.Geometry.{Geometry, GroupDescriptor, u32, group_number}
use la_liga_de_la_justicia.Rfs.Bitarray.{Bitarray}
use la_liga_de_la_justicia.Rfs.Image.{Image}
use la_liga_de_la_justicia.Rfs.Alloc.{scan, get_free_blocks_in_group}
use la_liga_de_la_justicia.Rfs.Alloc.Scan.{
  free_count, scan-Run, scan-test, scan-free, length-scan, free_count-scan,
}
use la_liga_de_la_justicia.Rfs.Alloc.Edit.{
  edited, edited_address, edited_own, edited_other, count_own, count_other,
}
use la_liga_de_la_justicia.Rfs.Alloc.Takes.{
  status, block_at, IsLaidOut, IsCounted, Takes, block_at_mono,
}

-- On members below a bound the 32-bit sums of `map` do not wrap.
map-u32 :
    (off hi : ℕ) (lo : ℕ) (l : List ℕ)
    → Run lo hi l
    → hi + off < 4294967296
    → map (λ var. u32 (var + off)) l ≡ map (λ var. off + var) l
map-u32 off hi lo [] r h = refl
map-u32 off hi lo (x ∷ xs) (a, b, r) h =
    let e : u32 (x + off) ≡ off + x = omega arith in rw (e, map-u32 off hi (x + 1) xs r h)

append_zeros : (l : List ℕ) (n : ℕ) → length l ≡ n → l ++ replicate (n - length l) 0 ≡ l
append_zeros l n h = let e : n - length l ≡ 0 = omega arith in rw e (append-nil l)

module _ (bits : Bitarray) (g : Geometry) where
  open bits use {Bits, test_bit}

  -- Taking `c` blocks out of group `n`: the bitmap, the descriptor and the block numbers.
  abbrev pub scanned : Image Bits → (n c : ℕ) → List ℕ × Bits
  scanned fs n c =
      scan bits g.blocks_per_group 0 c (fs.bitmap (fs.descriptor n).bitmap_block_address)

  abbrev pub group_blocks : Image Bits → (n c : ℕ) → List ℕ
  group_blocks fs n c = map (λ var. block_at bits g n 0 + var) (scanned fs n c).0

  abbrev pub group_image : Image Bits → (n c : ℕ) → Image Bits
  group_image fs n c =
      edited bits g fs n (scanned fs n c).1 ((fs.descriptor n).unallocated_blocks - c)

  module _ (fs : Image Bits) (laid : IsLaidOut bits g fs) (n c : ℕ)
      (n_lt : n < g.total_groups) where
    pub group_blocks_lem :
        (d : GroupDescriptor)
        → d.bitmap_block_address ≡ (fs.descriptor n).bitmap_block_address
        → group_number g d ≡ n
        → (fs' : Image Bits) → fs'.bitmap ≡ fs.bitmap
        → c
          ≤ free_count bits (fs.bitmap (fs.descriptor n).bitmap_block_address) 0 g.blocks_per_group
        → (get_free_blocks_in_group bits g c d fs').0 ≡ group_blocks fs n c
    unfolding get_free_blocks_in_group
    group_blocks_lem d addr num fs' same enough =
        let room : g.blocks_per_group + block_at bits g n 0 < 4294967296 =
          omega (arith, laid.fits, block_at_mono bits g (n + 1) g.total_groups (omega arith)) in
        let off : u32 (u32 (n * g.blocks_per_group) + 1) ≡ block_at bits g n 0 = omega arith in
        let found = (scanned fs n c).0 in
        let exact =
          map-u32 (block_at bits g n 0) (0 + g.blocks_per_group) 0 found
            (scan-Run bits g.blocks_per_group 0 c _) (omega arith) in
        let count = length-scan bits g.blocks_per_group 0 c _ enough in
        rw (num, addr, same, off, exact)
          (append_zeros (group_blocks fs n c) c (length-map found _ ∙ count))

    module _
        (enough : c
          ≤ free_count bits
              (fs.bitmap (fs.descriptor n).bitmap_block_address)
              0
              g.blocks_per_group) where
      found : List ℕ
      found = (scanned fs n c).0

      group-Run : Run (block_at bits g n 0) (block_at bits g (n + 1) 0) (group_blocks fs n c)
      group-Run =
          Run-widen (block_at bits g n 0 + 0) (block_at bits g n 0)
            (block_at bits g n 0 + (0 + g.blocks_per_group)) (block_at bits g (n + 1) 0)
            (group_blocks fs n c) (omega arith) (omega arith)
            (Run-map_add (block_at bits g n 0) 0 (0 + g.blocks_per_group) (scanned fs n c).0
              (scan-Run bits g.blocks_per_group 0 c _))

      -- Membership of a block of the group itself, and of any other group.
      group_has_own :
          (i : ℕ) → has (block_at bits g n i) (group_blocks fs n c) ≡ has i (scanned fs n c).0
      group_has_own i =
          let e : block_at bits g n i ≡ block_at bits g n 0 + i = omega arith in
          rw e (has-map_add (block_at bits g n 0) i (scanned fs n c).0)

      group_has_other :
          (j i : ℕ)
          → i < g.blocks_per_group
          → j ≢ n
          → has (block_at bits g j i) (group_blocks fs n c) ≡ false
      group_has_other j i small ne = elim (Bool-cases (ltb j n)) [
        | inl before ↦
            has-Run_below (block_at bits g j i) (block_at bits g n 0) (block_at bits g (n + 1) 0)
              (group_blocks fs n c) group-Run
              (omega (
                arith,
                ltb→lt j n before,
                block_at_mono bits g (j + 1) n (omega (arith, ltb→lt j n before)),
              ))
        | inr behind ↦
            has-Run_above (block_at bits g j i) (block_at bits g n 0) (block_at bits g (n + 1) 0)
              (group_blocks fs n c) group-Run
              (omega (arith, block_at_mono bits g (n + 1) j (omega (arith, ltb→le j n behind))))
      ]

      own_marks :
          (i : ℕ)
          → status bits g (group_image fs n c) n i
            ≡ (has (block_at bits g n i) (group_blocks fs n c) || status bits g fs n i)
      own_marks i =
          ap (λ b. test_bit b i)
            (edited_own bits g fs n (scanned fs n c).1 ((fs.descriptor n).unallocated_blocks - c))
          ∙ scan-test bits g.blocks_per_group 0 c _ i
          ∙ ap (λ h. h || status bits g fs n i) (sym (group_has_own i))

      group_marks :
          (j i : ℕ)
          → j < g.total_groups
          → i < g.blocks_per_group
          → status bits g (group_image fs n c) j i
            ≡ (has (block_at bits g j i) (group_blocks fs n c) || status bits g fs j i)
      group_marks j i j_lt small = elim (Bool-cases (j == n)) [
        | inl e ↦
            subst
              (λ k.
                status bits g (group_image fs n c) k i
                ≡ (has (block_at bits g k i) (group_blocks fs n c) || status bits g fs k i))
              (sym ((==_iff j n).0 e)) (own_marks i)
        | inr e ↦
            let ne : j ≢ n = ground arith in
            rw (group_has_other j i small ne) (
              ap (λ b. test_bit b i)
                (edited_other bits g fs n (scanned fs n c).1
                  ((fs.descriptor n).unallocated_blocks - c) laid j n_lt j_lt ne))
      ]

      group_free :
          (j i : ℕ)
          → i < g.blocks_per_group
          → has (block_at bits g j i) (group_blocks fs n c) ≡ true
          → status bits g fs j i ≡ false
      group_free j i small h = elim (Bool-cases (j == n)) [
        | inl e ↦
            let e' = (==_iff j n).0 e in
            let own : has (block_at bits g n i) (group_blocks fs n c) ≡ true =
              subst (λ k. has (block_at bits g k i) (group_blocks fs n c) ≡ true) e' h in
            subst (λ k. status bits g fs k i ≡ false) (sym e')
              (All-at (λ k. status bits g fs n k ≡ false) i (scanned fs n c).0
                (scan-free bits g.blocks_per_group 0 c _) (sym (group_has_own i) ∙ own))
        | inr e ↦ let ne : j ≢ n = ground arith in cc (group_has_other j i small ne)
      ]

      group-IsCounted : IsCounted bits g fs → IsCounted bits g (group_image fs n c)
      group-IsCounted counted j j_lt = elim (Bool-cases (j == n)) [
        | inl e ↦
            subst
              (λ k.
                ((group_image fs n c).descriptor k).unallocated_blocks
                ≡ free_count bits
                    ((group_image fs n c).bitmap
                      ((group_image fs n c).descriptor k).bitmap_block_address)
                    0 g.blocks_per_group)
              (sym ((==_iff j n).0 e))
              (count_own bits g fs n (scanned fs n c).1 ((fs.descriptor n).unallocated_blocks - c)
                ∙ own_count (counted n n_lt)
                ∙ ap (λ b. free_count bits b 0 g.blocks_per_group)
                    (sym (
                      edited_own bits g fs n (scanned fs n c).1
                        ((fs.descriptor n).unallocated_blocks - c))))
        | inr e ↦
            let ne : j ≢ n = ground arith in
            count_other bits g fs n (scanned fs n c).1 ((fs.descriptor n).unallocated_blocks - c) j
              ne
            ∙ counted j j_lt
            ∙ ap (λ b. free_count bits b 0 g.blocks_per_group)
                (sym (
                  edited_other bits g fs n (scanned fs n c).1
                    ((fs.descriptor n).unallocated_blocks - c) laid j n_lt j_lt ne))
      ]
        where
          own_count :
              (fs.descriptor n).unallocated_blocks
                ≡ free_count bits
                    (fs.bitmap (fs.descriptor n).bitmap_block_address)
                    0
                    g.blocks_per_group
              → (fs.descriptor n).unallocated_blocks - c
                ≡ free_count bits (scanned fs n c).1 0 g.blocks_per_group
          own_count e = omega (
            arith,
            e,
            free_count-scan bits g.blocks_per_group 0 c
                (fs.bitmap (fs.descriptor n).bitmap_block_address),
            length-scan bits g.blocks_per_group 0 c
                (fs.bitmap (fs.descriptor n).bitmap_block_address) enough,
          )

      pub group_Takes :
          c ≤ (fs.descriptor n).unallocated_blocks
          → Takes bits g fs (group_image fs n c) n 1 c (group_blocks fs n c)
      group_Takes within = record {
        run = group-Run;
        len = length-map (scanned fs n c).0 _ ∙ length-scan bits g.blocks_per_group 0 c _ enough;
        free = λ j i p q. group_free j i q;
        marks = group_marks;
        same_address =
            edited_address bits g fs n (scanned fs n c).1
              ((fs.descriptor n).unallocated_blocks - c);
        others = λ j e.
            count_other bits g fs n (scanned fs n c).1 ((fs.descriptor n).unallocated_blocks - c) j
              (elim e [ inl l ↦ omega arith | inr h ↦ omega arith ]);
        counted = group-IsCounted;
        sums = omega (
          arith,
          count_own bits g fs n (scanned fs n c).1 ((fs.descriptor n).unallocated_blocks - c),
        );
        same_super = refl;
        same_words = refl;
        same_errno = refl;
      }
