-- ===== src/Rfs/Directory/Erase.antt =====
-- What `delete_entry` takes out of a block.
use la_liga_de_la_justicia.Base.{
  ℕ, zero, suc, ◌+◌, ◌-◌, ◌%◌, ◌≤◌, ◌<◌, ◌≡◌, ◌⊎◌, inl, inr, refl, ap, sym, subst, ◌≢◌, ◌∙◌, true,
  false, Option, some, List, [], ◌∷◌, ltb, ◌==◌, if◌then◌else◌, map, arith, Bool-cases, All,
}
use la_liga_de_la_justicia.Rfs.Image.{update, update_here, update_other}
use la_liga_de_la_justicia.Rfs.Directory.{Entry, Block}
use la_liga_de_la_justicia.Rfs.Directory.Chain.{Chain, at_end, entry, Chain-agrees, Chain-le}
use la_liga_de_la_justicia.Rfs.Directory.Insert.{with_len}
use la_liga_de_la_justicia.Rfs.Directory.Delete.{
  has_name, move_next, Deletion, kept, changed, delete_at, delete_loop, delete_in_block,
}

-- An entry but for its length.
abbrev pub bare : Entry → Entry
bare e = with_len e 0

-- The list without the first entry of that name.
unfoldable pub erase : (name : List ℕ) → List Entry → List Entry
erase name [] = []
erase name (e ∷ l) = let rest = erase name l in if has_name name e then l else e ∷ rest

pub has_name-bare : (name : List ℕ) (e : Entry) → has_name name (bare e) ≡ has_name name e
unfolding has_name
has_name-bare name e = refl

module _ (bs : ℕ) (name : List ℕ) where
  -- A block that lost the first entry of that name among `l`, from the offset `i` on.
  pub record Erased (i : ℕ) (b : Block) (l : List Entry) (o : Option Deletion) : Type 0 where
    pub block : Block
    pub entries : List Entry
    pub returned : o ≡ some (changed block)
    pub chain : Chain bs block i entries
    pub others : map bare entries ≡ erase name (map bare l)
    pub before : (j : ℕ) → j < i → block j ≡ b j

  abbrev pub NotNamed : List Entry → Type 0
  NotNamed l = All (λ e. has_name name e ≡ false) l

  module _ (i : ℕ) (b : Block) (e d : Entry) (low : i < bs) (small : bs < 65536) (at : b i ≡ e)
      (pos : 0 < e.entry_len) (at_d : b (i + e.entry_len) ≡ d) (pos_d : 0 < d.entry_len)
      (first : has_name name e ≡ false) (named : has_name name d ≡ true) where
    abbrev j : ℕ
    j = i + e.entry_len

    last-Erased :
        j + d.entry_len ≡ bs → Erased i b (e ∷ d ∷ []) (some (changed (delete_at bs i j b)))
    unfolding delete_at erase
    last-Erased h =
        let z : (e.entry_len + d.entry_len) % 65536 ≡ e.entry_len + d.entry_len =
          omega (arith, h, small) in
        let t : (d.entry_len == (bs + 4294967296 - j) % 4294967296) ≡ true =
          ground (arith, h, small) in
        record {
          block = update b i (with_len e (e.entry_len + d.entry_len));
          entries = with_len e (e.entry_len + d.entry_len) ∷ [];
          returned = rw (at, at_d, t, z) refl;
          chain =
              entry low (update_here b i (with_len e (e.entry_len + d.entry_len)))
                (omega (arith, pos)) (at_end (omega (arith, h)));
          others = rw (has_name-bare name e, first, has_name-bare name d, named) refl;
          before = λ k lt.
              update_other b i (with_len e (e.entry_len + d.entry_len)) k (omega (arith, lt));
        }

    module _ (n : Entry) (l : List Entry) (low_n : j + d.entry_len < bs)
        (at_n : b (j + d.entry_len) ≡ n) (pos_n : 0 < n.entry_len)
        (c : Chain bs b (j + d.entry_len + n.entry_len) l) where
      abbrev joined : Entry
      joined = with_len n (n.entry_len + d.entry_len)

      abbrev moved : Block
      moved = update (update b (j + d.entry_len) joined) j joined

      moved_same : (k : ℕ) → k ≢ j → k ≢ j + d.entry_len → moved k ≡ b k
      moved_same k p q =
          update_other (update b (j + d.entry_len) joined) j joined k (λ h. p (sym h))
          ∙ update_other b (j + d.entry_len) joined k (λ h. q (sym h))

      delete_at-moved : delete_at bs i j b ≡ moved
      unfolding delete_at move_next
      delete_at-moved =
          let end = Chain-le bs b c in
          let z : (n.entry_len + d.entry_len) % 65536 ≡ n.entry_len + d.entry_len =
            omega (arith, end, small) in
          let t : (d.entry_len == (bs + 4294967296 - j) % 4294967296) ≡ false =
            ground (arith, low_n, small) in
          rw (at, at_d, t, at_n, z) refl

      moved-Erased : Erased i b (e ∷ d ∷ n ∷ l) (some (changed (delete_at bs i j b)))
      unfolding erase
      moved-Erased =
          let rejoin : j + d.entry_len + n.entry_len ≡ j + (n.entry_len + d.entry_len) =
            omega arith in
          let after : Chain bs moved (j + d.entry_len + n.entry_len) l =
            Chain-agrees bs b moved (j + d.entry_len + n.entry_len) c (λ k le.
              moved_same k (λ h. omega (arith, h, le, pos_d)) (λ h. omega (arith, h, le, pos_n))) in
          record {
            block = moved;
            entries = e ∷ joined ∷ l;
            returned = ap (λ x. some (changed x)) delete_at-moved;
            chain =
                entry low
                  (moved_same i (λ h. omega (arith, h, pos)) (λ h. omega (arith, h, pos)) ∙ at) pos
                  (entry (omega (arith, low_n))
                    (update_here (update b (j + d.entry_len) joined) j joined)
                    (omega (arith, pos_n)) (subst (λ k. Chain bs moved k l) rejoin after));
            others = rw (has_name-bare name e, first, has_name-bare name d, named) refl;
            before = λ k lt.
                moved_same k (λ h. omega (arith, h, lt, pos)) (λ h. omega (arith, h, lt, pos));
          }

    -- The deleted entry is the last one, or the one behind it takes its place.
    delete_at-Erased :
        {l : List Entry}
        → Chain bs b (j + d.entry_len) l
        → Erased i b (e ∷ d ∷ l) (some (changed (delete_at bs i j b)))
    delete_at-Erased (at_end h) = last-Erased h
    delete_at-Erased (entry {e = n} {l} low_n at_n pos_n c) = moved-Erased n l low_n at_n pos_n c

  delete_loop_behind : (r i : ℕ) (b : Block) → bs ≤ i → delete_loop bs r i name b ≡ some kept
  unfolding delete_loop
  delete_loop_behind zero i b h = let t : ltb i bs ≡ false = ground arith in rw t refl
  delete_loop_behind (suc r) i b h = let t : ltb i bs ≡ false = ground arith in rw t refl

  -- The loop behind an entry that does not have the name, on a block that is a chain of entries with nothing of
  -- that name right behind the block.
  delete_loop-Erased :
      (rounds i : ℕ) (b : Block) {e : Entry} {l : List Entry}
      → bs < 65536
      → has_name name (b bs) ≡ false
      → Chain bs b i (e ∷ l)
      → has_name name e ≡ false
      → bs - i ≤ rounds
      → ((delete_loop bs rounds i name b ≡ some kept) × NotNamed (e ∷ l))
        ⊎ Erased i b (e ∷ l) (delete_loop bs rounds i name b)
  unfolding delete_loop erase
  delete_loop-Erased zero i b small out (entry low at pos c) first h = absurd (omega arith)
  delete_loop-Erased (suc r) i b small out (entry {e} low at pos (at_end end)) first h =
      let t : ltb i bs ≡ true = ground arith in
      let f : has_name name (b (i + e.entry_len)) ≡ false = rw end out in
      inl
        (rw (t, at, f) (delete_loop_behind r (i + e.entry_len) b (omega (arith, end))), (first, tt))
  delete_loop-Erased (suc r) i b small out
        (entry {e} low at pos (entry {e = d} {l} low' at' pos' c)) first h =
      let t : ltb i bs ≡ true = ground arith in
      elim (Bool-cases (has_name name d)) [
        | inl named ↦
            rw (t, at, at', named)
              (inr (delete_at-Erased i b e d low small at pos at' pos' first named c))
        | inr other ↦
            elim (delete_loop-Erased r (i + e.entry_len) b small out (entry low' at' pos' c) other
              (omega arith)) [
                | inl (n, rest) ↦ inl (rw (t, at, at', other) n, (first, rest))
                | inr x ↦ inr (
                    rw (t, at, at', other)
                      record {
                        block = x.block;
                        entries = e ∷ x.entries;
                        returned = x.returned;
                        chain = entry low (x.before i (omega arith) ∙ at) pos x.chain;
                        others = rw (has_name-bare name e, first) (ap (λ k. bare e ∷ k) x.others);
                        before = λ k lt. x.before k (omega (arith, lt));
                      })
              ]
      ]

  pub delete_in_block-Erased :
      (rounds : ℕ) (b : Block) {e : Entry} {l : List Entry}
      → bs < 65536
      → has_name name (b bs) ≡ false
      → Chain bs b 0 (e ∷ l)
      → has_name name e ≡ false
      → bs ≤ rounds
      → ((delete_in_block bs rounds name b ≡ some kept) × NotNamed (e ∷ l))
        ⊎ Erased 0 b (e ∷ l) (delete_in_block bs rounds name b)
  unfolding delete_in_block
  delete_in_block-Erased rounds b small out (entry {e} low at pos c) first h =
      let f : has_name name (b 0) ≡ false = rw at first in
      rw f (delete_loop-Erased rounds 0 b small out (entry low at pos c) first (omega arith))
