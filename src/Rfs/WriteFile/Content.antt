-- ===== src/Rfs/WriteFile/Content.antt =====
-- What `write_file` leaves in the file.
use la_liga_de_la_justicia.Base.{
  ℕ, ◌+◌, ◌-◌, ◌*◌, ◌/◌, ◌%◌, ◌<◌, ◌≤◌, ◌≡◌, ◌≢◌, ◌⊎◌, inl, inr, refl, sym, ap, subst, ◌∙◌, ◌&&◌,
  List, ltb, leb, ◌==◌, if◌then◌else◌, get_or, arith, div_unique, div_bounds, Bool-cases,
}
use la_liga_de_la_justicia.Rfs.Image.{update, update_here, update_other}
use la_liga_de_la_justicia.Rfs.BlockCache.{Memcached, cache_set, generate_key, IsFresh}
use la_liga_de_la_justicia.Rfs.BlockCache.Keys.{generate_key_injective}
use la_liga_de_la_justicia.Rfs.ReadFile.{on_disk}
use la_liga_de_la_justicia.Rfs.ReadFile.Content.{content}
use la_liga_de_la_justicia.Rfs.WriteFile.{Data, put, write_block}

-- The bytes of the file with `n` of them replaced from the position `from` on.
abbrev pub replaced : (from n : ℕ) → (bytes before : ℕ → ℕ) → ℕ → ℕ
replaced from n bytes before x =
    if leb from x && ltb x (from + n) then bytes (x - from) else before x

-- The blocks of the file stand at addresses of their own.
abbrev pub Apart : (count : ℕ) → (file_data : List ℕ) → Type 0
Apart count file_data = (b c : ℕ) → b < count → get_or file_data b 0 ≡ get_or file_data c 0 → b ≡ c

ℕ-cases : (a b : ℕ) → (a ≡ b) ⊎ (a ≢ b)
ℕ-cases a b = elim (Bool-cases (a == b)) [
  | inl t ↦ inl (ground arith)
  | inr t ↦ inr (λ e. ground (arith, e))
]

replaced_shift :
    (base start n r x o : ℕ) (bytes : ℕ → ℕ)
    → x ≡ base + r
    → (if leb start r && ltb r (start + n) then bytes (r - start) else o)
      ≡ (if leb (base + start) x && ltb x (base + start + n) then bytes (x - (base + start)) else o)
replaced_shift base start n r x o bytes e =
    let d : x - (base + start) ≡ r - start = omega arith in rw d (ground arith)

-- A position in the block `b`, and one in another block.
put-replaced :
    (bs b start n x : ℕ) (bytes before : ℕ → ℕ) (old : ℕ → ℕ)
    → 0 < bs
    → x / bs ≡ b
    → before x ≡ old (x % bs)
    → put old start n bytes (x % bs) ≡ replaced (b * bs + start) n bytes before x
put-replaced bs b start n x bytes before old p e o =
    let (whole, below) = div_bounds x bs p in
    let here : x ≡ b * bs + x % bs = sym whole ∙ ap (λ k. k * bs + x % bs) e in
    rw o (replaced_shift (b * bs) start n (x % bs) x (old (x % bs)) bytes here)

replaced_elsewhere :
    (bs b start n x : ℕ) (bytes before : ℕ → ℕ)
    → start + n ≤ bs
    → b ≢ x / bs
    → before x ≡ replaced (b * bs + start) n bytes before x
replaced_elsewhere bs b start n x bytes before fits ne =
    elim (Bool-cases (leb (b * bs + start) x && ltb x (b * bs + start + n))) [
      | inl t ↦
          let low : b * bs + start ≤ x = ground arith in
          let high : x < b * bs + start + n = ground arith in
          absurd
            (ne (sym (div_unique b (x - b * bs) bs x (omega (arith, fits)) (omega (arith, low)))))
      | inr t ↦ rw t refl
    ]

module _ (m : Memcached (ℕ → ℕ)) (bs : ℕ) (path : List ℕ) (file_data : List ℕ)
    (buffer : ℕ → ℕ) where
  open m use {State, get-set}

  -- The cache with a new value for a block is fresh for the file with that block replaced.
  cache_set-replaced :
      (b : ℕ) (blocks blocks' : ℕ → ℕ → ℕ) (s : State)
      → b < 4294967296
      → ((c : ℕ) → b ≢ c → blocks' c ≡ blocks c)
      → IsFresh m path blocks s
      → IsFresh m path blocks' (cache_set m path b (blocks' b) s)
  unfolding cache_set
  cache_set-replaced b blocks blocks' s h same fresh c hc v e =
      elim (get-set s (generate_key path b) (generate_key path c) (blocks' b) v e) [
        | inl (k, w) ↦ w ∙ ap blocks' ((generate_key_injective path path b c h hc k).1)
        | inr (k, w) ↦ fresh c hc v w ∙ sym (same c (λ q. k (ap (generate_key path) q)))
      ]

  -- A copy into one block.
  pub write_block-replaced :
      (b start written n count : ℕ) (stored : Data) (s : State)
      → 0 < bs
      → b < count
      → b < 4294967296
      → start + n ≤ bs
      → Apart count file_data
      → IsFresh m path (on_disk stored file_data) s
      → ((x : ℕ)
          → content bs
              (on_disk
                (write_block m bs path file_data buffer b start written n stored s).0
                file_data)
              x
            ≡ replaced
                (b * bs + start)
                n
                (λ i. buffer (written + i))
                (content bs (on_disk stored file_data))
                x)
        × IsFresh m path
            (on_disk
              (write_block m bs path file_data buffer b start written n stored s).0
              file_data)
            (write_block m bs path file_data buffer b start written n stored s).1
  unfolding write_block
  write_block-replaced b start written n count stored s p lt small fits apart fresh =
      let address = get_or file_data b 0 in
      let block = put (stored address) start n (λ i. buffer (written + i)) in
      let at_b : on_disk (update stored address block) file_data b ≡ block =
        update_here stored address block in
      let at_others : (c : ℕ)
          → b ≢ c
          → on_disk (update stored address block) file_data c ≡ on_disk stored file_data c =
        λ c ne.
          update_other stored address block (get_or file_data c 0) (λ e. ne (apart b c lt e)) in
      (
        λ x. elim (ℕ-cases b (x / bs)) [
          | inl e ↦
              ap (λ v. v (x % bs))
                (ap (on_disk (update stored address block) file_data) (sym e) ∙ at_b)
              ∙ put-replaced bs b start n x (λ i. buffer (written + i))
                  (content bs (on_disk stored file_data)) (stored address) p (sym e)
                  (ap (λ c. on_disk stored file_data c (x % bs)) (sym e))
          | inr ne ↦
              ap (λ v. v (x % bs)) (at_others (x / bs) ne)
              ∙ replaced_elsewhere bs b start n x (λ i. buffer (written + i))
                  (content bs (on_disk stored file_data)) fits ne
        ],
        subst
            (λ v.
              IsFresh m path (on_disk (update stored address block) file_data)
                (cache_set m path b v s))
            at_b
            (cache_set-replaced b (on_disk stored file_data)
              (on_disk (update stored address block) file_data) s small at_others fresh),
      )
