-- ===== src/Rfs/Alloc/Edit.antt =====
-- Giving one group a new block bitmap and a new count, which is all that taking or giving back
-- blocks of that group does.
use la_liga_de_la_justicia.Base.{
  ℕ, ◌<◌, ◌≡◌, ◌≢◌, refl, sym, ap, ◌∙◌, ◌==◌, Bool-cases, ==_iff, inl, inr,
}
use la_liga_de_la_justicia.Rfs.Geometry.{Geometry}
use la_liga_de_la_justicia.Rfs.Bitarray.{Bitarray}
use la_liga_de_la_justicia.Rfs.Image.{Image, update, update_here, update_other}
use la_liga_de_la_justicia.Rfs.Alloc.Takes.{IsLaidOut}

module _ (bits : Bitarray) (g : Geometry) where
  open bits use {Bits}

  abbrev pub edited : Image Bits → ℕ → Bits → ℕ → Image Bits
  edited fs n b v =
      let d = fs.descriptor n in
      record fs {
        bitmap = update fs.bitmap d.bitmap_block_address b;
        descriptor = update fs.descriptor n (record d { unallocated_blocks = v });
      }

  abbrev pub bitmap_of : Image Bits → ℕ → Bits
  bitmap_of fs n = fs.bitmap (fs.descriptor n).bitmap_block_address

  module _ (fs : Image Bits) (n : ℕ) (b : Bits) (v : ℕ) where
    pub edited_address :
        (j : ℕ)
        → ((edited fs n b v).descriptor j).bitmap_block_address
          ≡ (fs.descriptor j).bitmap_block_address
    edited_address j = elim (Bool-cases (n == j)) [
      | inl e ↦ rw e (ap (λ k. (fs.descriptor k).bitmap_block_address) ((==_iff n j).0 e))
      | inr e ↦ rw e refl
    ]

    pub edited_own : bitmap_of (edited fs n b v) n ≡ b
    edited_own = ap (edited fs n b v).bitmap (edited_address n) ∙ update_here fs.bitmap _ b

    pub edited_other :
        IsLaidOut bits g fs
        → (j : ℕ) → n < g.total_groups
        → j < g.total_groups
        → j ≢ n
        → bitmap_of (edited fs n b v) j ≡ bitmap_of fs j
    edited_other laid j n_lt j_lt ne =
        ap (edited fs n b v).bitmap (edited_address j)
        ∙ update_other fs.bitmap _ b _ (λ e. ne (laid.apart j n j_lt n_lt (sym e)))

    pub count_own : ((edited fs n b v).descriptor n).unallocated_blocks ≡ v
    count_own = ap (λ d. d.unallocated_blocks) (update_here fs.descriptor n _)

    pub count_other :
        (j : ℕ)
        → j ≢ n
        → ((edited fs n b v).descriptor j).unallocated_blocks ≡ (fs.descriptor j).unallocated_blocks
    count_other j ne =
        ap (λ d. d.unallocated_blocks) (update_other fs.descriptor n _ j (λ e. ne (sym e)))
