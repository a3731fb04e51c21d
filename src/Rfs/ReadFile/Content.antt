-- ===== src/Rfs/ReadFile/Content.antt =====
-- What `read_file` returns against the content of the file.
use la_liga_de_la_justicia.Base.{
  ℕ, zero, suc, ◌+◌, ◌-◌, ◌*◌, ◌/◌, ◌%◌, ◌<◌, ◌≤◌, ◌≡◌, ◌⊎◌, inl, inr, refl, sym, ap, ◌∙◌, true,
  false, List, ◌++◌, map, length, append_nil, length-map, replicate, ltb, if◌then◌else◌, range_from,
  arith, div_unique, mod_unique, div_bounds, Bool-cases,
}
use la_liga_de_la_justicia.Rfs.DataBlocks.Reading.{map-range_from_shift, map-range_from_append}
use la_liga_de_la_justicia.Rfs.BlockCache.{Memcached, cache_fs_get_set, IsFresh}
use la_liga_de_la_justicia.Rfs.BlockCache.Keys.{cache_fs_get_set-IsFresh}
use la_liga_de_la_justicia.Rfs.ReadFile.{ReadResult, slice, read_loop, gather, transfer}

-- The byte at a position of the file.
abbrev pub content : (block_size : ℕ) → (ℕ → ℕ → ℕ) → ℕ → ℕ
content bs blocks x = blocks (x / bs) (x % bs)

length-range_from : (i n : ℕ) → length (range_from i n) ≡ n
length-range_from i zero = refl
length-range_from i (suc n) = ap suc (length-range_from (i + 1) n)

slice-content :
    (bs : ℕ) (blocks : ℕ → ℕ → ℕ) (b start n : ℕ)
    → start + n ≤ bs
    → slice (blocks b) start n ≡ map (content bs blocks) (range_from (b * bs + start) n)
slice-content bs blocks b start n h =
    map-range_from_shift (blocks b) (content bs blocks) start (b * bs + start) n (λ x l.
      let e : b * bs + start + x ≡ b * bs + (start + x) = omega arith in
      let d : (b * bs + start + x) / bs ≡ b =
        div_unique b (start + x) bs (b * bs + start + x) (omega (arith, l, h)) (sym e) in
      let r : (b * bs + start + x) % bs ≡ start + x =
        mod_unique b (start + x) bs (b * bs + start + x) (omega (arith, l, h)) (sym e) in
      rw (d, r) refl)

-- A slice of a block and what follows it in the next blocks.
pieces :
    (bs : ℕ) (blocks : ℕ → ℕ → ℕ) (b start c n : ℕ)
    → c ≤ n
    → start + c ≤ bs
    → (start + c ≡ bs) ⊎ (n ≡ c)
    → slice (blocks b) start c ++ map (content bs blocks) (range_from ((b + 1) * bs) (n - c))
      ≡ map (content bs blocks) (range_from (b * bs + start) n)
pieces bs blocks b start c n le fits full =
    let g = content bs blocks in
    let e : c + (n - c) ≡ n = omega (arith, le) in
    let next : map g (range_from ((b + 1) * bs) (n - c))
        ≡ map g (range_from (b * bs + start + c) (n - c)) =
      elim full [
        | inl f ↦ ap (λ i. map g (range_from i (n - c))) (omega (arith, f))
        | inr f ↦ let z : n - c ≡ 0 = omega (arith, f) in rw z refl
      ] in
    rw (slice-content bs blocks b start c fits, next)
      (map-range_from_append g (b * bs + start) c (n - c)
        ∙ ap (λ k. map g (range_from (b * bs + start) k)) e)

module _ (m : Memcached (ℕ → ℕ)) (bs : ℕ) (path : List ℕ) (blocks : ℕ → ℕ → ℕ) where
  open m use {State}

  read_loop-content :
      (rounds b n : ℕ) (s : State)
      → 0 < bs
      → n ≤ rounds
      → b + n < 4294967296
      → IsFresh m path blocks s
      → ((read_loop m bs path blocks rounds b n s).0
          ≡ map (content bs blocks) (range_from (b * bs) n))
        × IsFresh m path blocks (read_loop m bs path blocks rounds b n s).1
  unfolding read_loop
  read_loop-content zero b n s p h k f = let e : n ≡ 0 = omega arith in rw e (refl, f)
  read_loop-content (suc r) b zero s p h k f = (refl, f)
  read_loop-content (suc r) b (suc n) s p h k f =
      let c = if ltb bs (suc n) then bs else suc n in
      let c_pos : 0 < c = ground arith in
      let c_small : c ≤ bs = ground arith in
      let c_le : c ≤ suc n = ground arith in
      let (v, f1) = cache_fs_get_set-IsFresh m path blocks b s (omega arith) f in
      let s1 = (cache_fs_get_set m path b (blocks b) s).1 in
      let (e, f2) =
        read_loop-content r (b + 1) (suc n - c) s1 p (omega (arith, c_pos)) (omega (arith, c_pos))
          f1 in
      let full : (0 + c ≡ bs) ⊎ (suc n ≡ c) = elim (Bool-cases (ltb bs (suc n))) [
        | inl t ↦ inl (rw t (omega arith))
        | inr t ↦ inr (rw t refl)
      ] in
      let joined = pieces bs blocks b 0 c (suc n) c_le (omega (arith, c_small)) full in
      let z : b * bs + 0 ≡ b * bs = omega arith in
      (rw (v, e) (joined ∙ ap (λ i. map (content bs blocks) (range_from i (suc n))) z), f2)

  -- The number of bytes that the first block gives.
  abbrev first_part : (offset n : ℕ) → ℕ
  first_part offset n = if ltb (bs - offset % bs) n then bs - offset % bs else n

  gather_one :
      (offset n : ℕ) (s : State)
      → 0 < bs
      → offset / bs < 4294967296
      → IsFresh m path blocks s
      → n - first_part offset n ≤ bs - offset % bs
      → ((gather m bs path blocks offset n s).0
          ≡ map (content bs blocks) (range_from offset (first_part offset n)))
        × IsFresh m path blocks (gather m bs path blocks offset n s).1
  unfolding gather
  gather_one offset n s p k f h =
      let b = offset / bs in
      let c = first_part offset n in
      let (whole, below) = div_bounds offset bs p in
      let c_small : c ≤ bs - offset % bs = ground arith in
      let t : ltb (bs - offset % bs) (n - c) ≡ false = ground (arith, h) in
      let (v, f1) = cache_fs_get_set-IsFresh m path blocks b s k f in
      let got = slice-content bs blocks b (offset % bs) c (omega (arith, c_small, below)) in
      rw (t, v)
        (
          append_nil (slice (blocks b) (offset % bs) c)
              ∙ got
              ∙ ap (λ i. map (content bs blocks) (range_from i c)) whole,
          f1,
        )

  gather_more :
      (offset n : ℕ) (s : State)
      → 0 < bs
      → offset / bs + n < 4294967296
      → IsFresh m path blocks s
      → bs - offset % bs < n - first_part offset n
      → ((gather m bs path blocks offset n s).0 ≡ map (content bs blocks) (range_from offset n))
        × IsFresh m path blocks (gather m bs path blocks offset n s).1
  unfolding gather
  gather_more offset n s p k f h =
      let b = offset / bs in
      let c = first_part offset n in
      let (whole, below) = div_bounds offset bs p in
      let c_is : c ≡ bs - offset % bs = ground (arith, h) in
      let t : ltb (bs - offset % bs) (n - c) ≡ true = ground (arith, h) in
      let (v, f1) = cache_fs_get_set-IsFresh m path blocks b s (omega (arith, k)) f in
      let s1 = (cache_fs_get_set m path b (blocks b) s).1 in
      let (e, f2) =
        read_loop-content (n - c) (b + 1) (n - c) s1 p (omega arith)
          (omega (arith, k, h, c_is, below)) f1 in
      let joined =
        pieces bs blocks b (offset % bs) c n (omega (arith, c_is, h)) (omega (arith, c_is, below))
          (inl (omega (arith, c_is, below))) in
      rw (t, v, e) (joined ∙ ap (λ i. map (content bs blocks) (range_from i n)) whole, f2)

-- The answer with the bytes that were got.
answer : (n : ℕ) → List ℕ → ReadResult
answer n got = record { read_bytes = n; read_data = got ++ replicate (n - length got) 0 }

answer-range :
    (g : ℕ → ℕ) (offset k n : ℕ) (got : List ℕ)
    → got ≡ map g (range_from offset k)
    → answer n got
      ≡ record { read_bytes = n; read_data = map g (range_from offset k) ++ replicate (n - k) 0 }
unfolding answer
answer-range g offset k n got e =
    let l : length (map g (range_from offset k)) ≡ k =
      length-map (range_from offset k) g ∙ length-range_from offset k in
    rw (e, l) refl

answer_whole :
    (g : ℕ → ℕ) (offset n : ℕ) (got : List ℕ)
    → got ≡ map g (range_from offset n)
    → answer n got ≡ record { read_bytes = n; read_data = map g (range_from offset n) }
answer_whole g offset n got e =
    let z : n - n ≡ 0 = omega arith in
    answer-range g offset n n got e
    ∙ ap {A = List ℕ} {B = ReadResult} (λ l. record { read_bytes = n; read_data = l })
        (ap (λ k. map g (range_from offset n) ++ replicate k 0) z
          ∙ append_nil (map g (range_from offset n)))

module _ (m : Memcached (ℕ → ℕ)) (bs : ℕ) (path : List ℕ) (blocks : ℕ → ℕ → ℕ) where
  open m use {State}

  -- On a fresh cache `n` bytes from `offset` on are the file's, if they lie in one block, or if more of
  -- them lie behind that block than in it; and the cache stays fresh.
  pub transfer-content :
      (offset n : ℕ) (s : State)
      → 0 < bs
      → offset / bs + n < 4294967296
      → IsFresh m path blocks s
      → (n ≤ bs - offset % bs) ⊎ (2 * (bs - offset % bs) < n)
      → ((transfer m bs path blocks offset n s).0
          ≡ record { read_bytes = n; read_data = map (content bs blocks) (range_from offset n) })
        × IsFresh m path blocks (transfer m bs path blocks offset n s).1
  unfolding transfer answer
  transfer-content offset n s p k f (inl one) =
      let c : first_part m bs path blocks offset n ≡ n = ground (arith, one) in
      let (e, f1) =
        gather_one m bs path blocks offset n s p (omega (arith, k)) f (omega (arith, c)) in
      (
        answer_whole (content bs blocks) offset n (gather m bs path blocks offset n s).0
            (e ∙ ap (λ k. map (content bs blocks) (range_from offset k)) c),
        f1,
      )
  transfer-content offset n s p k f (inr more) =
      let (e, f1) = gather_more m bs path blocks offset n s p k f (ground (arith, more)) in
      (answer_whole (content bs blocks) offset n (gather m bs path blocks offset n s).0 e, f1)

  -- Where what lies behind the first block is no longer than what lies in it, only the bytes of the first
  -- block are read: the others stay 0.
  pub transfer_stops :
      (offset n : ℕ) (s : State)
      → 0 < bs
      → offset / bs < 4294967296
      → IsFresh m path blocks s
      → bs - offset % bs < n
      → n ≤ 2 * (bs - offset % bs)
      → (transfer m bs path blocks offset n s).0 ≡ record {
        read_bytes = n;
        read_data =
            map (content bs blocks) (range_from offset (bs - offset % bs))
            ++ replicate (n - (bs - offset % bs)) 0;
      }
  unfolding transfer answer
  transfer_stops offset n s p k f more less =
      let c : first_part m bs path blocks offset n ≡ bs - offset % bs = ground (arith, more) in
      let (e, f1) = gather_one m bs path blocks offset n s p k f (omega (arith, c, less)) in
      answer-range (content bs blocks) offset (bs - offset % bs) n
        (gather m bs path blocks offset n s).0
        (e ∙ ap (λ k. map (content bs blocks) (range_from offset k)) c)
