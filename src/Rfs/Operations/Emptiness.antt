-- ===== src/Rfs/Operations/Emptiness.antt =====
-- How `delete_dir` tells an empty directory.
use la_liga_de_la_justicia.Base.{
  ℕ, ◌+◌, ◌-◌, ◌%◌, ◌<◌, ◌≤◌, ◌≡◌, ◌↔◌, refl, ap, sym, ◌∙◌, true, List, [], ◌∷◌, arith,
}
use la_liga_de_la_justicia.Rfs.Directory.{Entry, Block, get_padded_size}
use la_liga_de_la_justicia.Rfs.Directory.Chain.{Chain, at_end, entry, Chain-le}
use la_liga_de_la_justicia.Rfs.Operations.{only_two}

Chain-at_end : (bs i : ℕ) (b : Block) {l : List Entry} → Chain bs b i l → (i ≡ bs) ↔ (l ≡ [])
Chain-at_end bs i b (at_end e) = (λ _. refl, λ _. e)
Chain-at_end bs i b (entry low at pos c) = (λ e. absurd (omega (arith, e)), λ e. cc)

module _ (bs : ℕ) (b : Block) (small : bs < 65536) where
  only_two-second :
      (e d : Entry)
      → b 0 ≡ e
      → b e.entry_len ≡ d
      → e.entry_len ≡ get_padded_size e
      → e.entry_len ≤ bs
      → (only_two bs b ≡ true) ↔ (e.entry_len + d.entry_len ≡ bs)
  unfolding only_two
  only_two-second e d at at_d tight fits =
      let r : (bs + 4294967296 - get_padded_size e) % 4294967296 ≡ bs - e.entry_len =
        omega (arith, tight, small) in
      rw (at, at_d, r) (ground (arith, fits))

  -- A block of less than 65536 bytes that is a chain of at least two entries, the first of which takes no more bytes
  -- than it needs, is taken for that of an empty directory exactly when it has no third entry.
  pub only_two-Chain :
      {e d : Entry} {l : List Entry}
      → Chain bs b 0 (e ∷ d ∷ l)
      → e.entry_len ≡ get_padded_size e
      → (only_two bs b ≡ true) ↔ (l ≡ [])
  only_two-Chain (entry {e} low at pos (entry {e = d} low' at' pos' c)) tight =
      let z : 0 + e.entry_len ≡ e.entry_len = omega arith in
      let (to, from) =
        only_two-second e d at (ap b (sym z) ∙ at') tight (omega (arith, Chain-le bs b c)) in
      let (ends, ended) = Chain-at_end bs (0 + e.entry_len + d.entry_len) b c in
      (λ h. ends (omega (arith, to h)), λ h. from (omega (arith, ended h)))
