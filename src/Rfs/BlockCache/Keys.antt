-- ===== src/Rfs/BlockCache/Keys.antt =====
-- The keys tell paths and blocks apart, and what an access leaves in the cache.
use la_liga_de_la_justicia.Base.{
  ℕ, ◌+◌, ◌<◌, ◌≡◌, inl, inr, refl, sym, ap, ◌∙◌, List, [], append_nil, length, length-append, take,
  drop, arith, Option-cases,
}
use la_liga_de_la_justicia.Wire.Bytes.{le, read, length-le, read-le, take-append, drop-append}
use la_liga_de_la_justicia.Rfs.BlockCache.{
  Memcached, generate_key, cache_fs_get_set, cache_set, IsFresh,
}

-- Two keys are equal only for the same path and the same block.
pub generate_key_injective :
    (p q : List ℕ) (b c : ℕ)
    → b < 4294967296
    → c < 4294967296
    → generate_key p b ≡ generate_key q c
    → (p ≡ q) × (b ≡ c)
unfolding generate_key
generate_key_injective p q b c hb hc e =
    let len : length p + 4 ≡ length q + 4 =
      ap (λ n. length p + n) (sym (length-le 4 b))
      ∙ sym (length-append p (le 4 b))
      ∙ ap length e
      ∙ length-append q (le 4 c)
      ∙ ap (λ n. length q + n) (length-le 4 c) in
    let same : length p ≡ length q = omega (arith, len) in
    let paths : p ≡ q =
      sym (take-append (length p) p (le 4 b) refl)
      ∙ ap (take (length p)) e
      ∙ take-append (length p) q (le 4 c) (sym same) in
    let tails : le 4 b ≡ le 4 c =
      sym (drop-append (length p) p (le 4 b) refl)
      ∙ ap (drop (length p)) e
      ∙ drop-append (length p) q (le 4 c) (sym same) in
    let value : (v : ℕ) → v < 4294967296 → read 4 (le 4 v) ≡ v =
      λ v h. ap (read 4) (sym (append_nil (le 4 v))) ∙ read-le 4 v [] h in
    (paths, sym (value b hb) ∙ ap (read 4) tails ∙ value c hc)

module _ {V : Type 0} (m : Memcached V) (path : List ℕ) (blocks : ℕ → V) where
  open m use {State, memcached_get, memcached_set, get-set, get-delete}

  -- Setting a block to what the file holds keeps the cache fresh.
  pub cache_set-IsFresh :
      (b : ℕ) (s : State)
      → b < 4294967296
      → IsFresh m path blocks s
      → IsFresh m path blocks (cache_set m path b (blocks b) s)
  unfolding cache_set
  cache_set-IsFresh b s h fresh c hc v e =
      elim (get-set s (generate_key path b) (generate_key path c) (blocks b) v e) [
        | inl (k, w) ↦ w ∙ ap blocks ((generate_key_injective path path b c h hc k).1)
        | inr (k, w) ↦ fresh c hc v w
      ]

  -- An access to a fresh cache gives the block of the file, and leaves the cache fresh.
  pub cache_fs_get_set-IsFresh :
      (b : ℕ) (s : State)
      → b < 4294967296
      → IsFresh m path blocks s
      → ((cache_fs_get_set m path b (blocks b) s).0 ≡ blocks b)
        × IsFresh m path blocks (cache_fs_get_set m path b (blocks b) s).1
  unfolding cache_fs_get_set cache_set
  cache_fs_get_set-IsFresh b s h fresh =
      elim (Option-cases (memcached_get s (generate_key path b))) [
        | inl e ↦ rw (e, cache_fs_get_set) (refl, cache_set-IsFresh b s h fresh)
        | inr (v, e) ↦ rw (e, cache_fs_get_set) (fresh b h v e, fresh)
      ]
