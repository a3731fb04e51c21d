-- ===== src/Rfs/WriteFile/Stored.antt =====
-- `write_file` against the content of the file: what it stores, and what a read then returns.
use la_liga_de_la_justicia.Base.{
  ℕ, zero, suc, ◌+◌, ◌-◌, ◌*◌, ◌/◌, ◌%◌, ◌<◌, ◌≤◌, ◌≡◌, ◌⊎◌, inl, inr, refl, ap, ◌∙◌, true, false,
  ◌&&◌, List, ltb, leb, if◌then◌else◌, map, range_from, arith, lt_of_mul, mul_mono_left, div_bounds,
  Bool-cases,
}
use la_liga_de_la_justicia.Rfs.DataBlocks.Reading.{map-range_from_shift}
use la_liga_de_la_justicia.Rfs.BlockCache.{Memcached, IsFresh}
use la_liga_de_la_justicia.Rfs.ReadFile.{ReadResult, on_disk, transfer}
use la_liga_de_la_justicia.Rfs.ReadFile.Content.{content, transfer-content}
use la_liga_de_la_justicia.Rfs.WriteFile.{Data, Written, write_block, write_loop, scatter}
use la_liga_de_la_justicia.Rfs.WriteFile.Content.{replaced, Apart, write_block-replaced}

-- Two replacements, one behind the other or the second one of no bytes, are one.
replaced_join :
    (from next c n x : ℕ) (f g before between : ℕ → ℕ)
    → c ≤ n
    → (next ≡ from + c) ⊎ (n ≡ c)
    → ((i : ℕ) → g i ≡ f (c + i))
    → between x ≡ replaced from c f before x
    → replaced next (n - c) g between x ≡ replaced from n f before x
replaced_join from next c n x f g before between le (inl e) same b =
    elim (Bool-cases (leb next x && ltb x (next + (n - c)))) [
      | inl t ↦
          let u : (leb from x && ltb x (from + n)) ≡ true = ground (arith, e, t, le) in
          let q : c + (x - next) ≡ x - from = ground (arith, e, t) in
          rw (t, u) (same (x - next) ∙ ap f q)
      | inr t ↦
          let v : (leb from x && ltb x (from + c)) ≡ (leb from x && ltb x (from + n)) =
            ground (arith, e, t, le) in
          rw t (b ∙ ap (λ k. if k then f (x - from) else before x) v)
    ]
replaced_join from next c n x f g before between le (inr e) same b =
    let t : (leb next x && ltb x (next + (n - c))) ≡ false = ground (arith, e) in rw (t, e) b

module _ (m : Memcached (ℕ → ℕ)) (bs : ℕ) (path : List ℕ) (file_data : List ℕ) where
  open m use {State}

  abbrev file : Data → ℕ → ℕ
  file stored = content bs (on_disk stored file_data)

  -- The file has `total` bytes of the buffer from the position `from` on and is as it was elsewhere, the cache is
  -- fresh, `answer` is the number that is answered, and the lock of the file was released.
  pub record IsWritten (from total answer : ℕ) (bytes : ℕ → ℕ) (stored : Data) (w : Written State)
      : Type 0 where
    pub answered : w.bytes_written ≡ answer
    pub unlocked : w.unlocked ≡ true
    pub here : (x : ℕ) → file w.stored x ≡ replaced from total bytes (file stored) x
    pub fresh : IsFresh m path (on_disk w.stored file_data) w.cache

  -- Nothing is left to copy.
  nothing-IsWritten :
      (from answer : ℕ) (bytes : ℕ → ℕ) (stored : Data) (s : State)
      → IsFresh m path (on_disk stored file_data) s
      → IsWritten from 0 answer bytes stored
          (record { bytes_written = answer; stored = stored; cache = s; unlocked = true })
  nothing-IsWritten from answer bytes stored s f = record {
    answered = refl;
    unlocked = refl;
    here = λ x. let t : (leb from x && ltb x (from + 0)) ≡ false = ground arith in rw t refl;
    fresh = f;
  }

  module _ (buffer : ℕ → ℕ) (count : ℕ) (p : 0 < bs) (small : count < 4294967296)
      (apart : Apart count file_data) where
    write_loop-IsWritten :
        (rounds b written n : ℕ) (stored : Data) (s : State)
        → n ≤ rounds
        → b * bs + n ≤ count * bs
        → IsFresh m path (on_disk stored file_data) s
        → IsWritten
            (b * bs)
            n
            (written + n)
            (λ i. buffer (written + i))
            stored
            (write_loop m bs path file_data buffer rounds b count written n stored s)
    unfolding write_loop
    write_loop-IsWritten zero b written n stored s h k f =
        let e : n ≡ 0 = omega arith in
        let z : written + 0 ≡ written = omega arith in
        rw (e, z) (nothing-IsWritten (b * bs) written (λ i. buffer (written + i)) stored s f)
    write_loop-IsWritten (suc r) b written zero stored s h k f =
        let z : written + 0 ≡ written = omega arith in
        rw z (nothing-IsWritten (b * bs) written (λ i. buffer (written + i)) stored s f)
    write_loop-IsWritten (suc r) b written (suc n) stored s h k f =
        let c = if ltb bs (suc n) then bs else suc n in
        let c_pos : 0 < c = ground arith in
        let c_small : c ≤ bs = ground arith in
        let c_le : c ≤ suc n = ground arith in
        let below : b < count = lt_of_mul b count bs (omega (arith, k)) in
        let t : ltb count b ≡ false = ground (arith, below) in
        let (first, f1) =
          write_block-replaced m bs path file_data buffer b 0 written c count stored s p below
            (omega (arith, below)) (omega (arith, c_small)) apart f in
        let next = (write_block m bs path file_data buffer b 0 written c stored s) in
        let full : ((b + 1) * bs ≡ b * bs + c) ⊎ (suc n ≡ c) = elim (Bool-cases (ltb bs (suc n))) [
          | inl u ↦ inl (rw u (omega arith))
          | inr u ↦ inr (rw u refl)
        ] in
        let room : (b + 1) * bs + (suc n - c) ≤ count * bs = elim full [
          | inl u ↦ omega (arith, u, k, c_le)
          | inr u ↦ omega (arith, u, mul_mono_left (b + 1) count bs (omega (arith, below)))
        ] in
        let zero_start : b * bs + 0 ≡ b * bs = omega arith in
        let ih =
          write_loop-IsWritten r (b + 1) (written + c) (suc n - c) next.0 next.1
            (omega (arith, c_pos)) room f1 in
        rw t record {
          answered = ih.answered ∙ omega (arith, c_le);
          unlocked = ih.unlocked;
          here = λ x.
              ih.here x
              ∙ replaced_join (b * bs) ((b + 1) * bs) c (suc n) x (λ i. buffer (written + i))
                  (λ i. buffer (written + c + i)) (file stored) (file next.0) c_le full
                  (λ i. ap buffer (omega arith))
                  (first x
                    ∙ ap (λ k. replaced k c (λ i. buffer (written + i)) (file stored) x)
                        zero_start);
          fresh = ih.fresh;
        }

    -- The bytes of `n` that are written from `offset` on: all, or only those of the first block.
    abbrev pub reached : (offset n : ℕ) → ℕ
    reached offset n =
        let remaining = bs - offset % bs in
        if leb n (2 * remaining) then (if leb n remaining then n else remaining) else n

    zero_add : (i : ℕ) → 0 + i ≡ i
    zero_add i = omega arith

    -- A write to a file whose blocks are at addresses of their own and reach to the end of what is to be written, with
    -- a fresh cache. If the bytes lie in one block, or more of them lie behind that block than in it, all are stored,
    -- else only those that lie in the first block. The answer is their number, the file has the bytes of the
    -- buffer there and is as it was elsewhere, the cache is fresh, and the lock is released.
    pub scatter-IsWritten :
        (offset n : ℕ) (stored : Data) (s : State)
        → offset + n ≤ count * bs
        → 0 < n
        → IsFresh m path (on_disk stored file_data) s
        → IsWritten offset
            (reached offset n)
            (reached offset n)
            buffer
            stored
            (scatter m bs path file_data buffer offset count n stored s)
    unfolding scatter
    scatter-IsWritten offset n stored s k pos f =
        let b = offset / bs in
        let start = offset % bs in
        let (whole, within) = div_bounds offset bs p in
        let c = if ltb n (bs - start) then n else bs - start in
        let c_small : c ≤ bs - start = ground arith in
        let c_le : c ≤ n = ground arith in
        let below : b < count = lt_of_mul b count bs (omega (arith, k, whole, pos)) in
        let (first, f1) =
          write_block-replaced m bs path file_data buffer b start 0 c count stored s p below
            (omega (arith, below)) (omega (arith, c_small, within)) apart f in
        let zero_written : (x : ℕ)
            → file (write_block m bs path file_data buffer b start 0 c stored s).0 x
              ≡ replaced offset c buffer (file stored) x =
          λ x.
            first x
            ∙ ap (λ k. replaced k c (λ i. buffer (0 + i)) (file stored) x) whole
            ∙ ap (λ v. if leb offset x && ltb x (offset + c) then v else file stored x)
                (ap buffer (zero_add (x - offset))) in
        elim (Bool-cases (ltb c (n - c))) [
          | inl more ↦
              let r : reached offset n ≡ n = ground (arith, more) in
              let full : c ≡ bs - start = ground (arith, more) in
              let next = write_block m bs path file_data buffer b start 0 c stored s in
              let rest =
                write_loop-IsWritten (n - c) (b + 1) c (n - c) next.0 next.1 (omega arith)
                  (omega (arith, k, whole, within, full, c_le)) f1 in
              rw (more, r)
                record {
                  answered = rest.answered ∙ omega (arith, c_le);
                  unlocked = rest.unlocked;
                  here = λ x.
                      rest.here x
                      ∙ replaced_join offset ((b + 1) * bs) c n x buffer (λ i. buffer (c + i))
                          (file stored) (file next.0) c_le
                          (inl (omega (arith, whole, within, full))) (λ i. refl) (zero_written x);
                  fresh = rest.fresh;
                }
          | inr stop ↦
              let r : reached offset n ≡ c = ground (arith, stop) in
              rw (stop, r)
                record { answered = refl; unlocked = refl; here = zero_written; fresh = f1 }
        ]

    -- What was written can be read back: where the bytes lie in one block, or more of them lie behind that block than
    -- in it, a read of as many bytes from the same offset returns the bytes of the buffer, and no others.
    pub scatter-transfer :
        (offset n : ℕ) (stored : Data) (s : State)
        → offset + n ≤ count * bs
        → 0 < n
        → offset / bs + n < 4294967296
        → IsFresh m path (on_disk stored file_data) s
        → (n ≤ bs - offset % bs) ⊎ (2 * (bs - offset % bs) < n)
        → (transfer m bs path
            (on_disk (scatter m bs path file_data buffer offset count n stored s).stored file_data)
            offset
            n
            (scatter m bs path file_data buffer offset count n stored s).cache).0
          ≡ record { read_bytes = n; read_data = map buffer (range_from 0 n) }
    scatter-transfer offset n stored s k pos limit f cases =
        let w = scatter-IsWritten offset n stored s k pos f in
        let all : reached offset n ≡ n = elim cases [
          | inl one ↦ ground (arith, one)
          | inr more ↦ ground (arith, more)
        ] in
        let (e, _) =
          transfer-content m bs path
            (on_disk (scatter m bs path file_data buffer offset count n stored s).stored file_data)
            offset n (scatter m bs path file_data buffer offset count n stored s).cache p limit
            w.fresh cases in
        e
        ∙ ap {A = List ℕ} {B = ReadResult} (λ l. record { read_bytes = n; read_data = l })
            (map-range_from_shift
              (file (scatter m bs path file_data buffer offset count n stored s).stored) buffer
              offset 0 n
              (λ x l.
                let t : (leb offset (offset + x) && ltb (offset + x) (offset + n)) ≡ true =
                  ground (arith, l) in
                let q : offset + x - offset ≡ 0 + x = omega arith in
                w.here (offset + x) ∙ rw (all, t) (ap buffer q)))
