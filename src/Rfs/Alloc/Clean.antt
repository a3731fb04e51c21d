-- ===== src/Rfs/Alloc/Clean.antt =====
-- What `CleanBlocks` wipes.
use la_liga_de_la_justicia.Base.{
  ℕ, ◌≡◌, ◌≢◌, refl, ◌∙◌, ◌||◌, Bool, true, false, List, [], ◌∷◌, ◌++◌, arith, ◌==◌, if◌then◌else◌,
  has, All, Bool-cases, inl, inr,
}
use la_liga_de_la_justicia.Rfs.Image.{wipe}
use la_liga_de_la_justicia.Rfs.Alloc.{clean_blocks}

wiped :
    (words : ℕ → ℕ → ℕ) (x b : ℕ) (later : Bool)
    → (if later then (λ _. 0) else wipe words x b)
      ≡ (if (x == b) || later then (λ _. 0) else words b)
wiped words x b true = elim (Bool-cases (x == b)) [ inl e ↦ rw e refl | inr e ↦ rw e refl ]
wiped words x b false = elim (Bool-cases (x == b)) [ inl e ↦ rw e refl | inr e ↦ rw e refl ]

-- Where a zero word follows an array of nonzero block numbers, CleanBlocks wipes every block of the
-- array but the last one, which keeps its old words unless it occurs earlier, and no other block.
pub clean_blocks_spares_last :
    (l : List ℕ) (z : ℕ) (words : ℕ → ℕ → ℕ) (b : ℕ)
    → All (λ x. x ≢ 0) l
    → z ≢ 0
    → clean_blocks (l ++ z ∷ []) 0 words b ≡ (if has b l then (λ _. 0) else words b)
unfolding clean_blocks
clean_blocks_spares_last [] z words b nonzero h = refl
clean_blocks_spares_last (x ∷ []) z words b nonzero h =
    let e : (z == 0) ≡ false = ground arith in rw e (wiped words x b false)
clean_blocks_spares_last (x ∷ y ∷ l) z words b (p, nonzero) h =
    let e : (y == 0) ≡ false = ground (arith, nonzero.0) in
    rw e (
      clean_blocks_spares_last (y ∷ l) z (wipe words x) b nonzero h
      ∙ wiped words x b (has b (y ∷ l)))
