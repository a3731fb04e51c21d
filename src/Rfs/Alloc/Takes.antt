-- ===== src/Rfs/Alloc/Takes.antt =====
-- The effect of taking blocks out of a range of groups, and how two such effects compose.
use la_liga_de_la_justicia.Base.{
  ℕ, zero, suc, ◌+◌, ◌*◌, ◌≤◌, ◌<◌, ◌≡◌, refl, sym, ◌∙◌, ◌⊎◌, inl, inr, Bool, true, false, ◌||◌,
  List, [], ◌++◌, arith, length, length-append, has, has-append, Run, Run-append, Run-widen,
  mul_mono_left,
}
use la_liga_de_la_justicia.Rfs.Geometry.{Geometry, group_number}
use la_liga_de_la_justicia.Rfs.Bitarray.{Bitarray}
use la_liga_de_la_justicia.Rfs.Image.{Image}
use la_liga_de_la_justicia.Rfs.Alloc.Scan.{free_count}

module _ (bits : Bitarray) (g : Geometry) where
  open bits use {Bits, test_bit}

  -- Bit `i` of the block bitmap of group `n`.
  abbrev pub status : Image Bits → ℕ → ℕ → Bool
  status fs n i = test_bit (fs.bitmap (fs.descriptor n).bitmap_block_address) i

  -- The number of the block that this bit stands for.
  abbrev pub block_at : ℕ → ℕ → ℕ
  block_at n i = n * g.blocks_per_group + 1 + i

  -- The free blocks that the descriptors of the `k` groups from `n` on count.
  abbrev pub sum_free : Image Bits → (n k : ℕ) → ℕ
  sum_free fs n zero = 0
  sum_free fs n (suc k) = (fs.descriptor n).unallocated_blocks + sum_free fs (n + 1) k

  -- The layout of a volume: each descriptor is that of its group, no two groups share a bitmap, and
  -- block numbers fit 32 bits.
  pub record IsLaidOut (fs : Image Bits) : Type 0 where
    pub numbered : (n : ℕ) → n < g.total_groups → group_number g (fs.descriptor n) ≡ n
    pub apart :
        (n m : ℕ)
        → n < g.total_groups
        → m < g.total_groups
        → (fs.descriptor n).bitmap_block_address ≡ (fs.descriptor m).bitmap_block_address
        → n ≡ m
    pub fits : g.total_groups * g.blocks_per_group + 1 < 4294967296

  -- Each descriptor counts the clear bits of its bitmap.
  abbrev pub IsCounted : Image Bits → Type 0
  IsCounted fs =
      (n : ℕ)
      → n < g.total_groups
      → (fs.descriptor n).unallocated_blocks
        ≡ free_count bits (fs.bitmap (fs.descriptor n).bitmap_block_address) 0 g.blocks_per_group

  pub sum_free_ext :
      (fs fs' : Image Bits) (n k : ℕ)
      → ((j : ℕ)
          → n ≤ j
          → (fs'.descriptor j).unallocated_blocks ≡ (fs.descriptor j).unallocated_blocks)
      → sum_free fs' n k ≡ sum_free fs n k
  sum_free_ext fs fs' n zero h = refl
  sum_free_ext fs fs' n (suc k) h =
      omega (arith, h n (omega arith), sum_free_ext fs fs' (n + 1) k (λ j le. h j (omega arith)))

  -- `fs'` is `fs` after the blocks of `l`, `m` of them, were taken out of the `k` groups from `n` on.
  pub record Takes (fs fs' : Image Bits) (n k m : ℕ) (l : List ℕ) : Type 0 where
    pub run : Run (block_at n 0) (block_at (n + k) 0) l
    pub len : length l ≡ m
    pub free :
        (j i : ℕ)
        → j < g.total_groups
        → i < g.blocks_per_group
        → has (block_at j i) l ≡ true
        → status fs j i ≡ false
    pub marks :
        (j i : ℕ)
        → j < g.total_groups
        → i < g.blocks_per_group
        → status fs' j i ≡ (has (block_at j i) l || status fs j i)
    pub same_address :
        (j : ℕ) → (fs'.descriptor j).bitmap_block_address ≡ (fs.descriptor j).bitmap_block_address
    pub others :
        (j : ℕ)
        → (j < n) ⊎ (n + k ≤ j)
        → (fs'.descriptor j).unallocated_blocks ≡ (fs.descriptor j).unallocated_blocks
    pub counted : IsCounted fs → IsCounted fs'
    pub sums : sum_free fs' n k + m ≡ sum_free fs n k
    pub same_super : fs'.super ≡ fs.super
    pub same_words : fs'.words ≡ fs.words
    pub same_errno : fs'.errno ≡ fs.errno

  pub Takes-nothing : (fs : Image Bits) (n k : ℕ) → Takes fs fs n k 0 []
  Takes-nothing fs n k = record {
    run = tt;
    len = refl;
    free = λ j i p q e. cc;
    marks = λ j i p q. refl;
    same_address = λ j. refl;
    others = λ j e. refl;
    counted = λ c. c;
    sums = omega arith;
    same_super = refl;
    same_words = refl;
    same_errno = refl;
  }

  group_number-address :
      (fs fs' : Image Bits) (j : ℕ)
      → (fs'.descriptor j).bitmap_block_address ≡ (fs.descriptor j).bitmap_block_address
      → group_number g (fs'.descriptor j) ≡ group_number g (fs.descriptor j)
  unfolding group_number
  group_number-address fs fs' j e = rw e

  -- The layout is in the bitmap addresses.
  pub IsLaidOut-address :
      (fs fs' : Image Bits)
      → ((j : ℕ) → (fs'.descriptor j).bitmap_block_address ≡ (fs.descriptor j).bitmap_block_address)
      → IsLaidOut fs
      → IsLaidOut fs'
  IsLaidOut-address fs fs' same laid = record {
    numbered = λ j h. group_number-address fs fs' j (same j) ∙ laid.numbered j h;
    apart = λ j i p q e. laid.apart j i p q (sym (same j) ∙ e ∙ same i);
    fits = laid.fits;
  }

  pub Takes-IsLaidOut :
      {fs fs' : Image Bits} {n k m : ℕ} {l : List ℕ}
      → Takes fs fs' n k m l
      → IsLaidOut fs
      → IsLaidOut fs'
  Takes-IsLaidOut {fs} {fs'} t = IsLaidOut-address fs fs' t.same_address

  pub block_at_mono : (n m : ℕ) → n ≤ m → block_at n 0 ≤ block_at m 0
  block_at_mono n m h = omega (arith, mul_mono_left n m g.blocks_per_group h)

  pub Takes-append :
      {fs fs1 fs' : Image Bits} {n k m m' total : ℕ} {l l' : List ℕ}
      → Takes fs fs1 n 1 m l
      → Takes fs1 fs' (n + 1) k m' l'
      → m + m' ≡ total
      → Takes fs fs' n (suc k) total (l ++ l')
  Takes-append {fs} {fs1} {fs'} {n} {k} {m} {m'} {l} {l'} t u total_eq = record {
    run =
        Run-append (block_at n 0) (block_at (n + 1) 0) (block_at (n + suc k) 0) l l'
          (block_at_mono n (n + 1) (omega arith)) (block_at_mono (n + 1) (n + suc k) (omega arith))
          t.run
          (Run-widen (block_at (n + 1) 0) (block_at (n + 1) 0) (block_at (n + 1 + k) 0)
            (block_at (n + suc k) 0) l' (omega arith)
            (block_at_mono (n + 1 + k) (n + suc k) (omega arith)) u.run);
    len = omega (arith, length-append {0} l l', t.len, u.len);
    free = λ j i p q e.
        ground
          (arith, has-append (block_at j i) l l', t.free j i p q, u.free j i p q, t.marks j i p q);
    marks =
        λ j i p q. ground (arith, has-append (block_at j i) l l', t.marks j i p q, u.marks j i p q);
    same_address = λ j. u.same_address j ∙ t.same_address j;
    others = λ j e. elim e [
      | inl low ↦ u.others j (inl (omega arith)) ∙ t.others j (inl low)
      | inr high ↦ u.others j (inr (omega arith)) ∙ t.others j (inr (omega arith))
    ];
    counted = λ c. u.counted (t.counted c);
    sums = omega (
      arith,
      u.others n (inl (omega arith)),
      t.sums,
      u.sums,
      sum_free_ext fs fs1 (n + 1) k (λ j le. t.others j (inr le)),
    );
    same_super = u.same_super ∙ t.same_super;
    same_words = u.same_words ∙ t.same_words;
    same_errno = u.same_errno ∙ t.same_errno;
  }
