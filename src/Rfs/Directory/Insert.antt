-- ===== src/Rfs/Directory/Insert.antt =====
-- Where `attach_entry` puts a new entry in a block.
use la_liga_de_la_justicia.Base.{
  ℕ, zero, suc, ◌+◌, ◌-◌, ◌≤◌, ◌<◌, ◌≡◌, ◌⊎◌, inl, inr, refl, ap, subst, ◌∙◌, true, false, Option,
  none, some, List, ◌∷◌, ltb, arith, Bool-cases, All,
}
use la_liga_de_la_justicia.Rfs.Image.{update, update_here, update_other}
use la_liga_de_la_justicia.Rfs.Directory.{
  Entry, Block, get_padded_size, put_entry, has_room, attach_in_block,
}
use la_liga_de_la_justicia.Rfs.Directory.Chain.{Chain, at_end, entry, Chain-agrees, Chain-le}

abbrev pub with_len : Entry → ℕ → Entry
with_len e n = record e { entry_len = n }

-- Behind the bytes that the entry needs, the new one takes less than is left of its length.
abbrev pub IsRoom : (new e : Entry) → Type 0
IsRoom new e = get_padded_size e + new.entry_len < e.entry_len

-- `Inserted new l l'`: `l'` is `l` with `new` behind an entry, in the bytes that the entry does not need, or in
-- the place of an entry without a name: at the first entry that has room for it. The other entries are as they were.
pub data Inserted (new : Entry) : List Entry → List Entry → Type 0 where
  behind :
      {e : Entry} {l : List Entry}
      → 8 < get_padded_size e
      → IsRoom new e
      → Inserted new
          (e ∷ l)
          (with_len e (get_padded_size e) ∷ with_len new (e.entry_len - get_padded_size e) ∷ l)
  instead :
      {e : Entry} {l : List Entry}
      → get_padded_size e ≤ 8
      → IsRoom new e
      → Inserted new (e ∷ l) (with_len new e.entry_len ∷ l)
  further :
      {e : Entry} {l l' : List Entry}
      → ¬ (IsRoom new e)
      → Inserted new l l'
      → Inserted new (e ∷ l) (e ∷ l')

module _ (bs : ℕ) (new : Entry) where
  -- The block with the new entry, from the offset `i` on.
  pub record Attached (i : ℕ) (b : Block) (l : List Entry) (o : Option (Option Block))
      : Type 0 where
    pub block : Block
    pub entries : List Entry
    pub returned : o ≡ some (some block)
    pub chain : Chain bs block i entries
    pub inserted : Inserted new l entries
    pub before : (j : ℕ) → j < i → block j ≡ b j
    pub past : (j : ℕ) → bs ≤ j → block j ≡ b j

  has_room-sizes : (e : Entry) → has_room new e ≡ true → IsRoom new e
  unfolding has_room get_padded_size
  has_room-sizes e h = ground arith

  no-IsRoom : (e : Entry) → has_room new e ≡ false → ¬ (IsRoom new e)
  unfolding has_room get_padded_size
  no-IsRoom e h p = ground (arith, h, p)

  get_padded_size_pos : (e : Entry) → 0 < get_padded_size e
  unfolding get_padded_size
  get_padded_size_pos e = ground arith

  put_behind :
      (i : ℕ) (b : Block) (e : Entry)
      → b i ≡ e
      → ltb 8 (get_padded_size e) ≡ true
      → put_entry i new b
        ≡ update
            (update b i (with_len e (get_padded_size e)))
            (i + get_padded_size e)
            (with_len new (e.entry_len - get_padded_size e))
  unfolding put_entry
  put_behind i b e at t = rw (at, t) refl

  put_instead :
      (i : ℕ) (b : Block) (e : Entry)
      → b i ≡ e
      → ltb 8 (get_padded_size e) ≡ false
      → put_entry i new b ≡ update b i (with_len new e.entry_len)
  unfolding put_entry
  put_instead i b e at t = rw (at, t) refl

  module _ (i : ℕ) (b : Block) (e : Entry) (l : List Entry) (low : i < bs) (at : b i ≡ e)
      (room : has_room new e ≡ true) (c : Chain bs b (i + e.entry_len) l) where
    abbrev padded : ℕ
    padded = get_padded_size e

    abbrev shortened : Block
    shortened = update b i (with_len e (get_padded_size e))

    abbrev extended : Block
    extended =
        update shortened (i + get_padded_size e) (with_len new (e.entry_len - get_padded_size e))

    behind-Attached :
        ltb 8 (get_padded_size e) ≡ true → Attached i b (e ∷ l) (some (some (put_entry i new b)))
    behind-Attached t =
        let size = has_room-sizes e room in
        let pos = get_padded_size_pos e in
        let fits = Chain-le bs b c in
        let rejoin : i + e.entry_len ≡ i + padded + (e.entry_len - padded) = omega (arith, size) in
        let first : extended i ≡ with_len e padded =
          update_other shortened (i + padded) (with_len new (e.entry_len - padded)) i
            (omega (arith, pos))
          ∙ update_here b i (with_len e padded) in
        let second = update_here shortened (i + padded) (with_len new (e.entry_len - padded)) in
        let after : Chain bs extended (i + e.entry_len) l =
          Chain-agrees bs b extended (i + e.entry_len) c (λ j le.
            update_other shortened (i + padded) (with_len new (e.entry_len - padded)) j
              (omega (arith, le, size))
            ∙ update_other b i (with_len e padded) j (omega (arith, le, size))) in
        record {
          block = extended;
          entries = with_len e padded ∷ with_len new (e.entry_len - padded) ∷ l;
          returned = ap (λ p. some (some p)) (put_behind i b e at t);
          chain = entry low first pos (
              entry (omega (arith, fits, size)) second (omega (arith, size))
                (subst (λ k. Chain bs extended k l) rejoin after));
          inserted = behind (ground arith) size;
          before = λ j lt.
              update_other shortened (i + padded) (with_len new (e.entry_len - padded)) j
                (omega (arith, lt))
              ∙ update_other b i (with_len e padded) j (omega (arith, lt));
          past = λ j le.
              update_other shortened (i + padded) (with_len new (e.entry_len - padded)) j
                (omega (arith, le, size, fits))
              ∙ update_other b i (with_len e padded) j (omega (arith, le, low));
        }

    instead-Attached :
        ltb 8 (get_padded_size e) ≡ false → Attached i b (e ∷ l) (some (some (put_entry i new b)))
    instead-Attached t =
        let size = has_room-sizes e room in
        let b' = update b i (with_len new e.entry_len) in
        record {
          block = b';
          entries = with_len new e.entry_len ∷ l;
          returned = ap (λ p. some (some p)) (put_instead i b e at t);
          chain = entry low (update_here b i (with_len new e.entry_len)) (omega (arith, size)) (
              Chain-agrees bs b b' (i + e.entry_len) c
                (λ j le. update_other b i (with_len new e.entry_len) j (omega (arith, le, size))));
          inserted = instead (ground arith) size;
          before = λ j lt. update_other b i (with_len new e.entry_len) j (omega (arith, lt));
          past = λ j le. update_other b i (with_len new e.entry_len) j (omega (arith, le, low));
        }

    put-Attached : Attached i b (e ∷ l) (some (some (put_entry i new b)))
    put-Attached = elim (Bool-cases (ltb 8 (get_padded_size e))) [
      | inl t ↦ behind-Attached t
      | inr t ↦ instead-Attached t
    ]

  -- No entry of the list has room behind it.
  pub NoRoom : List Entry → Type 0
  NoRoom l = All (λ e. ¬ (IsRoom new e)) l

  pub attach_in_block-Attached :
      (rounds i : ℕ) (b : Block) {l : List Entry}
      → Chain bs b i l
      → bs - i ≤ rounds
      → ((attach_in_block bs rounds i new b ≡ some none) × NoRoom l)
        ⊎ Attached i b l (attach_in_block bs rounds i new b)
  unfolding attach_in_block NoRoom
  attach_in_block-Attached zero i b (at_end e) h =
      let t : ltb i bs ≡ false = ground arith in inl (rw t refl, tt)
  attach_in_block-Attached zero i b (entry low e pos c) h = absurd (omega arith)
  attach_in_block-Attached (suc r) i b (at_end e) h =
      let t : ltb i bs ≡ false = ground arith in inl (rw t refl, tt)
  attach_in_block-Attached (suc r) i b (entry {e} {l} low at pos c) h =
      let t : ltb i bs ≡ true = ground arith in
      elim (Bool-cases (has_room new e)) [
        | inl room ↦
            let here = ap (has_room new) at ∙ room in
            inr (rw (t, here) (put-Attached i b e l low at room c))
        | inr none_here ↦
            let here = ap (has_room new) at ∙ none_here in
            let len : (b i).entry_len ≡ e.entry_len = ap (λ x. x.entry_len) at in
            elim (attach_in_block-Attached r (i + e.entry_len) b c (omega arith)) [
              | inl (n, rest) ↦ inl (rw (t, here, len) n, (no-IsRoom e none_here, rest))
              | inr a ↦ inr (
                  rw (t, here, len)
                    record {
                      block = a.block;
                      entries = e ∷ a.entries;
                      returned = a.returned;
                      chain = entry low (a.before i (omega arith) ∙ at) pos a.chain;
                      inserted = further (no-IsRoom e none_here) a.inserted;
                      before = λ j lt. a.before j (omega (arith, lt));
                      past = a.past;
                    })
            ]
      ]
