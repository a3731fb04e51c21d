-- ===== src/Rfs/Alloc/Scan.antt =====
-- The loop over a bitmap: what it takes, what it leaves, and how often it succeeds.
use la_liga_de_la_justicia.Base.{
  ℕ, zero, suc, ◌+◌, ◌≤◌, ◌≡◌, refl, ap, inl, inr, true, false, ◌||◌, ◌∷◌, arith, if◌then◌else◌,
  length, has, All, All-implies, Run, Run-widen, has-Run_below, Bool-cases,
}
use la_liga_de_la_justicia.Rfs.Bitarray.{Bitarray}
use la_liga_de_la_justicia.Rfs.Alloc.{scan}

module _ (bits : Bitarray) where
  open bits use {Bits, test_bit, set_bit, clean_bit, test-set}

  -- How many of the `rounds` positions from `var` on are free.
  unfoldable pub free_count : Bits → (var rounds : ℕ) → ℕ
  free_count b var zero = 0
  free_count b var (suc r) =
      if test_bit b var then free_count b (var + 1) r else free_count b (var + 1) r + 1

  pub free_count-suc :
      (b : Bits) (var r : ℕ)
      → free_count b var (suc r)
        ≡ (if test_bit b var then free_count b (var + 1) r else free_count b (var + 1) r + 1)
  unfolding free_count
  free_count-suc b var r = refl

  pub free_count_ext :
      (b b' : Bits) (var r : ℕ)
      → ((j : ℕ) → var ≤ j → test_bit b' j ≡ test_bit b j)
      → free_count b' var r ≡ free_count b var r
  unfolding free_count
  free_count_ext b b' var zero h = refl
  free_count_ext b b' var (suc r) h =
      rw (h var (omega arith), free_count_ext b b' (var + 1) r (λ j le. h j (omega arith))) refl

  -- The position that was just set is above nothing that is still to come.
  set_later : (b : Bits) (var j : ℕ) → var + 1 ≤ j → test_bit (set_bit b var) j ≡ test_bit b j
  set_later b var j h = ground (arith, test-set b var j)

  set_here : (b : Bits) (var : ℕ) → test_bit (set_bit b var) var ≡ true
  set_here b var = ground (arith, test-set b var var)

  -- What the loop found, in ascending order and free before.
  pub scan-Run : (r var need : ℕ) (b : Bits) → Run var (var + r) (scan bits r var need b).0
  unfolding scan
  scan-Run zero var need b = tt
  scan-Run (suc r) var zero b = tt
  scan-Run (suc r) var (suc need) b = elim (Bool-cases (test_bit b var)) [
    | inl used ↦
        rw (used, scan)
          (Run-widen (var + 1) var (var + 1 + r) (var + suc r) _ (omega arith) (omega arith)
            (scan-Run r (var + 1) (suc need) b))
    | inr free ↦
        rw (free, scan)
          (
            omega arith,
            omega arith,
            Run-widen (var + 1) (var + 1) (var + 1 + r) (var + suc r) _ (omega arith) (omega arith)
                (scan-Run r (var + 1) need (set_bit b var)),
          )
  ]

  -- Exactly the positions found are set, and all the others stay as they were.
  pub scan-test :
      (r var need : ℕ) (b : Bits) (j : ℕ)
      → test_bit (scan bits r var need b).1 j ≡ (has j (scan bits r var need b).0 || test_bit b j)
  unfolding scan
  scan-test zero var need b j = refl
  scan-test (suc r) var zero b j = refl
  scan-test (suc r) var (suc need) b j = elim (Bool-cases (test_bit b var)) [
    | inl used ↦ rw (used, scan) (scan-test r (var + 1) (suc need) b j)
    | inr free ↦
        rw (free, scan)
          (ground (arith, scan-test r (var + 1) need (set_bit b var) j, test-set b var j))
  ]

  -- What the loop found was free before.
  pub scan-free :
      (r var need : ℕ) (b : Bits) → All (λ j. test_bit b j ≡ false) (scan bits r var need b).0
  unfolding scan
  scan-free zero var need b = tt
  scan-free (suc r) var zero b = tt
  scan-free (suc r) var (suc need) b = elim (Bool-cases (test_bit b var)) [
    | inl used ↦ rw (used, scan) (scan-free r (var + 1) (suc need) b)
    | inr free ↦
        rw (free, scan)
          (
            free,
            All-implies (λ j. test_bit (set_bit b var) j ≡ false) (λ j. test_bit b j ≡ false) _
                (λ j e. ground (arith, test-set b var j))
                (scan-free r (var + 1) need (set_bit b var)),
          )
  ]

  -- The loop stops short only when nothing is free any more.
  pub length-scan :
      (r var need : ℕ) (b : Bits)
      → need ≤ free_count b var r
      → length (scan bits r var need b).0 ≡ need
  unfolding scan free_count
  length-scan zero var need b h = omega arith
  length-scan (suc r) var zero b h = refl
  length-scan (suc r) var (suc need) b h = elim (Bool-cases (test_bit b var)) [
    | inl used ↦ rw (used, scan) (length-scan r (var + 1) (suc need) b (rw used at h))
    | inr free ↦
        let e = free_count_ext b (set_bit b var) (var + 1) r (set_later b var) in
        let h' : suc need ≤ free_count b (var + 1) r + 1 = rw free at h in
        rw (free, scan) (ap suc (length-scan r (var + 1) need (set_bit b var) (omega arith)))
  ]

  scan_used :
      (r var need : ℕ) (b : Bits)
      → test_bit b var ≡ true
      → scan bits (suc r) var (suc need) b ≡ scan bits r (var + 1) (suc need) b
  unfolding scan
  scan_used r var need b used = rw (used, scan)

  scan_step :
      (r var need : ℕ) (b : Bits)
      → test_bit b var ≡ false
      → scan bits (suc r) var (suc need) b ≡ (
        var ∷ (scan bits r (var + 1) need (set_bit b var)).0,
        (scan bits r (var + 1) need (set_bit b var)).1,
      )
  unfolding scan
  scan_step r var need b free = rw (free, scan)

  -- A position that the rest of the loop starts above keeps its bit.
  scan_below :
      (r var need : ℕ) (b : Bits) → test_bit (scan bits r (var + 1) need b).1 var ≡ test_bit b var
  scan_below r var need b = rw (
    scan-test r (var + 1) need b var,
    has-Run_below var (var + 1) (var + 1 + r) (scan bits r (var + 1) need b).0
        (scan-Run r (var + 1) need b) (omega arith),
  )

  -- Each position found is one free position less.
  pub free_count-scan :
      (r var need : ℕ) (b : Bits)
      → free_count (scan bits r var need b).1 var r + length (scan bits r var need b).0
        ≡ free_count b var r
  free_count-scan zero var need b = unfold scan free_count in refl
  free_count-scan (suc r) var zero b = unfold scan in omega arith
  free_count-scan (suc r) var (suc need) b = elim (Bool-cases (test_bit b var)) [
    | inl used ↦ rw (scan_used r var need b used) (
        rw (free_count-suc (scan bits r (var + 1) (suc need) b).1 var r, free_count-suc b var r)
          (rw (scan_below r var (suc need) b, used) (free_count-scan r (var + 1) (suc need) b)))
    | inr free ↦
        let b' = set_bit b var in
        let e = free_count_ext b b' (var + 1) r (set_later b var) in
        let ih = free_count-scan r (var + 1) need b' in
        rw (scan_step r var need b free) (
          rw (free_count-suc (scan bits r (var + 1) need b').1 var r, free_count-suc b var r)
            (rw (scan_below r var need b', set_here b var, free) (omega arith)))
  ]
