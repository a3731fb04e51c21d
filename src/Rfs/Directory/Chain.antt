-- ===== src/Rfs/Directory/Chain.antt =====
-- The entries of a block as a chain, and reading along it.
use la_liga_de_la_justicia.Base.{
  ℕ, zero, suc, ◌+◌, ◌-◌, ◌≤◌, ◌<◌, ◌≡◌, ◌≢◌, refl, inl, inr, Bool-cases, ◌==◌, ==_iff, ◌∙◌, true,
  false, none, some, List, [], ◌∷◌, ltb, arith,
}
use la_liga_de_la_justicia.Rfs.Directory.{Entry, Block, keep_used, read_block}

-- `Chain bs b i l`: from the offset `i` on, the block holds the entries of `l`, each as long as it says, up to
-- the end of the block exactly.
pub data Chain (bs : ℕ) (b : Block) : ℕ → List Entry → Type 0 where
  at_end : {i : ℕ} → i ≡ bs → Chain bs b i []
  entry :
      {i : ℕ} {e : Entry} {l : List Entry}
      → i < bs
      → b i ≡ e
      → 0 < e.entry_len
      → Chain bs b (i + e.entry_len) l
      → Chain bs b i (e ∷ l)

-- An inode number of 0 marks an entry that is not in use.
abbrev pub InUse : Entry → Type 0
InUse e = e.inode_number ≢ 0

-- `Used l l'`: the entries of `l'` are those of `l` that are in use, in their order.
pub data Used : List Entry → List Entry → Type 0 where
  none_left : Used [] []
  in_use : {e : Entry} {l l' : List Entry} → InUse e → Used l l' → Used (e ∷ l) (e ∷ l')
  unused : {e : Entry} {l l' : List Entry} → e.inode_number ≡ 0 → Used l l' → Used (e ∷ l) l'

keep_used-Used : (e : Entry) {l l' : List Entry} → Used l l' → Used (e ∷ l) (keep_used e l')
keep_used-Used e u = elim (Bool-cases (e.inode_number == 0)) [
  | inl t ↦ rw t (unused ((==_iff e.inode_number 0).0 t) u)
  | inr t ↦ rw t (in_use (ground (arith, t)) u)
]

-- The loop over a block of the directory that is a chain of entries ends within as many rounds as the block has
-- bytes, and returns those of the entries whose inode number is not 0, in their order.
pub read_block-Used :
    (bs rounds i : ℕ) (b : Block) {l : List Entry}
    → Chain bs b i l
    → bs - i ≤ rounds
    → (l' : List Entry) × (read_block bs rounds i b ≡ some l') × Used l l'
unfolding read_block
read_block-Used bs zero i b (at_end e) h =
    let t : ltb i bs ≡ false = ground arith in ([], rw t refl, none_left)
read_block-Used bs zero i b (entry low e pos c) h = absurd (omega arith)
read_block-Used bs (suc r) i b (at_end e) h =
    let t : ltb i bs ≡ false = ground arith in ([], rw t refl, none_left)
read_block-Used bs (suc r) i b (entry {e = x} low e pos c) h =
    let t : ltb i bs ≡ true = ground arith in
    let (l', ih, u) = read_block-Used bs r _ b c (omega arith) in
    (keep_used x l', rw (t, e, ih) refl, keep_used-Used x u)

-- An entry of length 0 that is reached is read for ever.
pub read_block_stuck :
    (bs rounds i : ℕ) (b : Block) → i < bs → (b i).entry_len ≡ 0 → read_block bs rounds i b ≡ none
unfolding read_block
read_block_stuck bs zero i b low z = let t : ltb i bs ≡ true = ground arith in rw t refl
read_block_stuck bs (suc r) i b low z =
    let t : ltb i bs ≡ true = ground arith in
    let same : i + (b i).entry_len ≡ i = omega arith in
    rw (t, same, read_block_stuck bs r i b low z) refl

-- A block that agrees from `i` on has the same chain there.
pub Chain-agrees :
    (bs : ℕ) (b b' : Block) (i : ℕ) {l : List Entry}
    → Chain bs b i l
    → ((j : ℕ) → i ≤ j → b' j ≡ b j)
    → Chain bs b' i l
Chain-agrees bs b b' i (at_end e) same = at_end e
Chain-agrees bs b b' i (entry {e} low at pos c) same =
    entry low (same i (omega arith) ∙ at) pos
      (Chain-agrees bs b b' (i + e.entry_len) c (λ j le. same j (omega (arith, le))))

pub Chain-le : (bs : ℕ) (b : Block) {i : ℕ} {l : List Entry} → Chain bs b i l → i ≤ bs
Chain-le bs b (at_end e) = omega arith
Chain-le bs b (entry low e pos c) = omega arith
