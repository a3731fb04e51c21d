-- ===== src/Rfs/Directory/Undo.antt =====
-- An entry that is added to a block and deleted again.
use la_liga_de_la_justicia.Base.{
  ℕ, ◌≤◌, ◌<◌, ◌≡◌, ◌⊎◌, inl, inr, refl, ap, sym, subst, ◌∙◌, true, false, some, none, List, ◌∷◌,
  map, arith, All,
}
use la_liga_de_la_justicia.Rfs.Directory.{Entry, Block, get_padded_size, attach_in_block}
use la_liga_de_la_justicia.Rfs.Directory.Chain.{Chain}
use la_liga_de_la_justicia.Rfs.Directory.Insert.{
  Inserted, behind, instead, further, with_len, Attached, NoRoom, attach_in_block-Attached,
}
use la_liga_de_la_justicia.Rfs.Directory.Delete.{has_name, changed, delete_in_block}
use la_liga_de_la_justicia.Rfs.Directory.Erase.{
  bare, erase, has_name-bare, NotNamed, delete_in_block-Erased,
}

-- Every entry has a name, and so is kept by an insertion.
abbrev pub AllNamed : List Entry → Type 0
AllNamed l = All (λ e. 8 < get_padded_size e) l

module _ (bs : ℕ) (name : List ℕ) (new : Entry) where
  -- A block with the new entry, that without it again, and the entries of the latter.
  pub record Undone (b : Block) (l : List Entry) (rounds : ℕ) : Type 0 where
    pub attached : Block
    pub deleted : Block
    pub entries : List Entry
    pub added : attach_in_block bs rounds 0 new b ≡ some (some attached)
    pub removed : delete_in_block bs rounds name attached ≡ some (changed deleted)
    pub chain : Chain bs deleted 0 entries
    pub same : map bare entries ≡ map bare l

module _ (bs : ℕ) (name : List ℕ) (new : Entry) (named : has_name name new ≡ true) where
  not_named : (n : ℕ) → ¬ (has_name name (with_len new n) ≡ false)
  unfolding has_name
  not_named n h = let h' : has_name name new ≡ false = h in cc

  Inserted-erase :
      {l l' : List Entry}
      → Inserted new l l'
      → NotNamed bs name l
      → AllNamed l
      → erase name (map bare l') ≡ map bare l
  unfolding erase
  Inserted-erase (behind {e} p room) (h, hs) a =
      rw (has_name-bare name e, h, has_name-bare name new, named) refl
  Inserted-erase (instead p room) hs (a, ns) = absurd (omega (arith, p, a))
  Inserted-erase (further {e} out i) (h, hs) (a, ns) =
      rw (has_name-bare name e, h) (ap (λ k. bare e ∷ k) (Inserted-erase i hs ns))

  -- The new entry is there.
  Inserted-named : {l l' : List Entry} → Inserted new l l' → ¬ (NotNamed bs name l')
  Inserted-named (behind p room) (h, (h', hs)) = not_named _ h'
  Inserted-named (instead p room) (h, hs) = not_named _ h
  Inserted-named (further out i) (h, hs) = Inserted-named i hs

  -- The first entry is still the first.
  Inserted-first :
      {e : Entry} {l l' : List Entry}
      → Inserted new (e ∷ l) l'
      → 8 < get_padded_size e
      → (e' : Entry) × (r : List Entry) × (l' ≡ e' ∷ r) × (has_name name e' ≡ has_name name e)
  unfolding has_name
  Inserted-first (behind p room) a = (_, _, refl, refl)
  Inserted-first (instead p room) a = absurd (omega (arith, p, a))
  Inserted-first (further out i) a = (_, _, refl, refl)

  module _ (rounds : ℕ) (b : Block) (small : bs < 65536) (enough : bs ≤ rounds)
      (out : has_name name (b bs) ≡ false) where
    Attached-Undone :
        {e : Entry} {l : List Entry}
        → NotNamed bs name (e ∷ l)
        → AllNamed (e ∷ l)
        → Attached bs new 0 b (e ∷ l) (attach_in_block bs rounds 0 new b)
        → Undone bs name new b (e ∷ l) rounds
    Attached-Undone {e} {l} hs ns a =
        let (e', r, eq, first) = Inserted-first a.inserted ns.0 in
        let c : Chain bs a.block 0 (e' ∷ r) = subst (λ k. Chain bs a.block 0 k) eq a.chain in
        let past : has_name name (a.block bs) ≡ false =
          ap (has_name name) (a.past bs (omega arith)) ∙ out in
        elim (delete_in_block-Erased bs name rounds a.block small past c (first ∙ hs.0) enough) [
          | inl (k, none_there) ↦
              absurd
                (Inserted-named a.inserted (subst (λ k. NotNamed bs name k) (sym eq) none_there))
          | inr x ↦ record {
            attached = a.block;
            deleted = x.block;
            entries = x.entries;
            added = a.returned;
            removed = x.returned;
            chain = x.chain;
            same =
                x.others
                ∙ ap (λ k. erase name (map bare k)) (sym eq)
                ∙ Inserted-erase a.inserted hs ns;
          }
        ]

    -- An entry of a name that no entry of the block has, added by `attach_entry` to a block of less than 65536 bytes
    -- that is a chain of at least one entry, all with names, with nothing of that name right behind the block, and then
    -- deleted by `delete_entry`: either there was no room for it; or the block is a chain of the entries that there
    -- were, in their order, the same but for their lengths.
    pub attach_in_block-delete_in_block :
        {e : Entry} {l : List Entry}
        → Chain bs b 0 (e ∷ l)
        → NotNamed bs name (e ∷ l)
        → AllNamed (e ∷ l)
        → ((attach_in_block bs rounds 0 new b ≡ some none) × NoRoom bs new (e ∷ l))
          ⊎ Undone bs name new b (e ∷ l) rounds
    attach_in_block-delete_in_block c hs ns =
        elim (attach_in_block-Attached bs new rounds 0 b c (omega (arith, enough))) [
          | inl x ↦ inl x
          | inr a ↦ inr (Attached-Undone hs ns a)
        ]
