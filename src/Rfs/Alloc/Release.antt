-- ===== src/Rfs/Alloc/Release.antt =====
-- Giving a block back: `setFreeBlockBitmap`.
use mathlib.Core.Path.{subst}
use la_liga_de_la_justicia.Base.{
  ℕ, zero, suc, ◌+◌, ◌*◌, ◌/◌, ◌%◌, ◌≤◌, ◌<◌, ◌≡◌, ◌≢◌, refl, sym, ap, ◌∙◌, inl, inr, true, false,
  ◌&&◌, arith, ◌==◌, if◌then◌else◌, Bool-cases, ==_iff, div_unique, mod_unique,
}
use la_liga_de_la_justicia.Rfs.Geometry.{Geometry, u32}
use la_liga_de_la_justicia.Rfs.Bitarray.{Bitarray}
use la_liga_de_la_justicia.Rfs.Image.{Image}
use la_liga_de_la_justicia.Rfs.Alloc.{u16, set_free_block_bitmap}
use la_liga_de_la_justicia.Rfs.Alloc.Scan.{free_count, free_count-suc, free_count_ext}
use la_liga_de_la_justicia.Rfs.Alloc.Edit.{
  edited, bitmap_of, edited_address, edited_own, edited_other, count_own, count_other,
}
use la_liga_de_la_justicia.Rfs.Alloc.Takes.{
  status, block_at, block_at_mono, sum_free, sum_free_ext, IsLaidOut, IsLaidOut-address, IsCounted,
}
use la_liga_de_la_justicia.Rfs.Alloc.Obtain.{IsSound}

module _ (bits : Bitarray) where
  open bits use {Bits, test_bit, clean_bit, test-clean}

  free_count-le : (b : Bits) (var r : ℕ) → free_count bits b var r ≤ r
  unfolding free_count
  free_count-le b var zero = omega arith
  free_count-le b var (suc r) = ground (arith, free_count-le b (var + 1) r)

  clean_other : (b : Bits) (i j : ℕ) → i ≢ j → test_bit (clean_bit b i) j ≡ test_bit b j
  clean_other b i j ne = ground (arith, test-clean b i j)

  clean_here : (b : Bits) (i : ℕ) → test_bit (clean_bit b i) i ≡ false
  clean_here b i = ground (arith, test-clean b i i)

  -- Cleaning a set bit within the range makes one position more free.
  pub free_count-clean :
      (b : Bits) (i var r : ℕ)
      → var ≤ i
      → i < var + r
      → test_bit b i ≡ true
      → free_count bits (clean_bit b i) var r ≡ free_count bits b var r + 1
  free_count-clean b i var zero low high used = absurd (omega arith)
  free_count-clean b i var (suc r) low high used = elim (Bool-cases (i == var)) [
    | inl e ↦
        let e' = (==_iff i var).0 e in
        let same =
          free_count_ext bits b (clean_bit b i) (var + 1) r
            (λ j le. clean_other b i j (omega arith)) in
        let used' : test_bit b var ≡ true = ap (test_bit b) (sym e') ∙ used in
        let freed : test_bit (clean_bit b i) var ≡ false =
          ap (test_bit (clean_bit b i)) (sym e') ∙ clean_here b i in
        rw (free_count-suc bits (clean_bit b i) var r, free_count-suc bits b var r)
          (rw (freed, used') (omega arith))
    | inr e ↦
        let ne : i ≢ var = ground arith in
        let ih = free_count-clean b i (var + 1) r (omega arith) (omega arith) used in
        rw (free_count-suc bits (clean_bit b i) var r, free_count-suc bits b var r)
          (rw (clean_other b i var ne) (ground (arith, ih)))
  ]

module _ (bits : Bitarray) (g : Geometry) where
  open bits use {Bits, test_bit, clean_bit}

  sum_free-le :
      (fs : Image Bits) (n k : ℕ)
      → IsCounted bits g fs
      → n + k ≤ g.total_groups
      → sum_free bits g fs n k ≤ k * g.blocks_per_group
  sum_free-le fs n zero counted h = omega arith
  sum_free-le fs n (suc k) counted h = omega (
    arith,
    counted n (omega arith),
    free_count-le bits (bitmap_of bits g fs n) 0 g.blocks_per_group,
    sum_free-le fs (n + 1) k counted (omega arith),
  )

  -- One count that goes up by one raises the sum over a range that has it by one.
  sum_free_raise :
      (fs fs' : Image Bits) (j n k : ℕ)
      → n ≤ j
      → j < n + k
      → (fs'.descriptor j).unallocated_blocks ≡ (fs.descriptor j).unallocated_blocks + 1
      → ((i : ℕ)
          → i ≢ j
          → (fs'.descriptor i).unallocated_blocks ≡ (fs.descriptor i).unallocated_blocks)
      → sum_free bits g fs' n k ≡ sum_free bits g fs n k + 1
  sum_free_raise fs fs' j n zero low high up same = absurd (omega arith)
  sum_free_raise fs fs' j n (suc k) low high up same = elim (Bool-cases (n == j)) [
    | inl e ↦
        let e' = (==_iff n j).0 e in
        let head : (fs'.descriptor n).unallocated_blocks
            ≡ (fs.descriptor n).unallocated_blocks + 1 =
          subst
            (λ i. (fs'.descriptor i).unallocated_blocks ≡ (fs.descriptor i).unallocated_blocks + 1)
            (sym e') up in
        omega (arith, head, sum_free_ext bits g fs fs' (n + 1) k (λ i le. same i (omega arith)))
    | inr e ↦
        let ne : n ≢ j = ground arith in
        omega
          (arith, same n ne, sum_free_raise fs fs' j (n + 1) k (omega arith) (omega arith) up same)
  ]

  module _ (fs : Image Bits) (sound : IsSound bits g fs) (n i : ℕ) (n_lt : n < g.total_groups)
      (i_lt : i < g.blocks_per_group) (small : g.blocks_per_group < 65536)
      (used : status bits g fs n i ≡ true) where
    abbrev pub released : Image Bits
    released = set_free_block_bitmap bits g (block_at bits g n i) fs

    -- A used bit in the group leaves its count below the size of the group.
    count_room : (fs.descriptor n).unallocated_blocks < g.blocks_per_group
    count_room = omega (
      arith,
      sound.counted n n_lt,
      free_count-clean bits (bitmap_of bits g fs n) i 0 g.blocks_per_group (omega arith)
          (omega arith) used,
      free_count-le bits (clean_bit (bitmap_of bits g fs n) i) 0 g.blocks_per_group,
    )

    in_volume : block_at bits g n i < g.total_groups * g.blocks_per_group + 1
    in_volume = omega (arith, block_at_mono bits g (n + 1) g.total_groups (omega arith))

    released-edited : released ≡ (
        let e =
          edited bits g fs n
            (clean_bit (bitmap_of bits g fs n) i)
            ((fs.descriptor n).unallocated_blocks + 1) in
        record e {
          super = record (fs.super) {
            total_unallocated_blocks = fs.super.total_unallocated_blocks + 1;
          };
        })
    unfolding set_free_block_bitmap
    released-edited = rw (exact, group, index, counter, total) refl
      where
        exact : u32 (block_at bits g n i + 4294967295) ≡ n * g.blocks_per_group + i
        exact = omega (arith, in_volume, sound.laid.fits)

        group : (n * g.blocks_per_group + i) / g.blocks_per_group ≡ n
        group = div_unique n i g.blocks_per_group _ i_lt refl

        index : (n * g.blocks_per_group + i) % g.blocks_per_group ≡ i
        index = mod_unique n i g.blocks_per_group _ i_lt refl

        counter :
            u16 ((fs.descriptor n).unallocated_blocks + 1)
            ≡ (fs.descriptor n).unallocated_blocks + 1
        counter = omega (arith, count_room)

        total : u32 (fs.super.total_unallocated_blocks + 1) ≡ fs.super.total_unallocated_blocks + 1
        total = omega (
          arith,
          sound.total,
          sound.laid.fits,
          sum_free-le fs 0 g.total_groups sound.counted (omega arith),
        )

    -- The image that the call leaves.
    after : Image Bits
    after =
        edited bits g fs n (clean_bit (bitmap_of bits g fs n) i)
          ((fs.descriptor n).unallocated_blocks + 1)

    after-status :
        (j k : ℕ)
        → j < g.total_groups
        → status bits g after j k ≡ (if (j == n) && (k == i) then false else status bits g fs j k)
    unfolding after
    after-status j k j_lt = elim (Bool-cases (j == n)) [
      | inl e ↦
          let own : status bits g after n k ≡ (if k == i then false else status bits g fs n k) =
            ap (λ b. test_bit b k)
              (edited_own bits g fs n (clean_bit (bitmap_of bits g fs n) i)
                ((fs.descriptor n).unallocated_blocks + 1))
            ∙ ground (arith, bits.test-clean (bitmap_of bits g fs n) i k) in
          subst
            (λ m.
              status bits g after m k
              ≡ (if (m == n) && (k == i) then false else status bits g fs m k))
            (sym ((==_iff j n).0 e)) (ground (arith, own))
      | inr e ↦
          let ne : j ≢ n = ground arith in
          rw e (
            ap (λ b. test_bit b k)
              (edited_other bits g fs n (clean_bit (bitmap_of bits g fs n) i)
                ((fs.descriptor n).unallocated_blocks + 1) sound.laid j n_lt j_lt ne))
    ]

    after-IsCounted : IsCounted bits g after
    unfolding after
    after-IsCounted j j_lt = elim (Bool-cases (j == n)) [
      | inl e ↦
          subst
            (λ m.
              (after.descriptor m).unallocated_blocks
              ≡ free_count bits (bitmap_of bits g after m) 0 g.blocks_per_group)
            (sym ((==_iff j n).0 e))
            (count_own bits g fs n (clean_bit (bitmap_of bits g fs n) i)
                ((fs.descriptor n).unallocated_blocks + 1)
              ∙ own
              ∙ ap (λ b. free_count bits b 0 g.blocks_per_group)
                  (sym (
                    edited_own bits g fs n (clean_bit (bitmap_of bits g fs n) i)
                      ((fs.descriptor n).unallocated_blocks + 1))))
      | inr e ↦
          let ne : j ≢ n = ground arith in
          count_other bits g fs n (clean_bit (bitmap_of bits g fs n) i)
            ((fs.descriptor n).unallocated_blocks + 1) j ne
          ∙ sound.counted j j_lt
          ∙ ap (λ b. free_count bits b 0 g.blocks_per_group)
              (sym (
                edited_other bits g fs n (clean_bit (bitmap_of bits g fs n) i)
                  ((fs.descriptor n).unallocated_blocks + 1) sound.laid j n_lt j_lt ne))
    ]
      where
        own :
            (fs.descriptor n).unallocated_blocks + 1
            ≡ free_count bits (clean_bit (bitmap_of bits g fs n) i) 0 g.blocks_per_group
        own = omega (
          arith,
          sound.counted n n_lt,
          free_count-clean bits (bitmap_of bits g fs n) i 0 g.blocks_per_group (omega arith)
              (omega arith) used,
        )

    after_laid : IsLaidOut bits g after
    unfolding after
    after_laid =
        IsLaidOut-address bits g fs after
          (edited_address bits g fs n (clean_bit (bitmap_of bits g fs n) i)
            ((fs.descriptor n).unallocated_blocks + 1))
          sound.laid

    -- Giving back a used block of a volume whose books are right, and whose groups have fewer than
    -- 65536 blocks, clears the bit of that block and no other one, and the books are right again with
    -- one free block more.
    pub set_free_block_bitmap-IsSound :
        IsSound bits g released
        × ((j k : ℕ)
            → j < g.total_groups
            → status bits g released j k
              ≡ (if (j == n) && (k == i) then false else status bits g fs j k))
        × (released.super.total_unallocated_blocks ≡ fs.super.total_unallocated_blocks + 1)
    unfolding after
    set_free_block_bitmap-IsSound = rw released-edited (
      record {
        laid = record {
          numbered = after_laid.numbered;
          apart = after_laid.apart;
          fits = after_laid.fits;
        };
        counted = after-IsCounted;
        total = omega (
          arith,
          sound.total,
          sum_free_raise fs after n 0 g.total_groups (omega arith) (omega arith)
              (count_own bits g fs n (clean_bit (bitmap_of bits g fs n) i)
                ((fs.descriptor n).unallocated_blocks + 1))
              (count_other bits g fs n (clean_bit (bitmap_of bits g fs n) i)
                ((fs.descriptor n).unallocated_blocks + 1)),
        );
      },
      after-status,
      refl,
    )
