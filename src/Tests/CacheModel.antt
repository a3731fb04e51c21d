-- ===== src/Tests/CacheModel.antt =====
-- A memcached that loses nothing: the function from keys to values.
use mathlib.Core.Option.{some-injective, none-ne-some}
use la_liga_de_la_justicia.Base.{
  ℕ, ◌≡◌, ◌≢◌, ◌⊎◌, inl, inr, refl, sym, ◌∙◌, Option, none, some, List, Bool-cases, if◌then◌else◌,
}
use la_liga_de_la_justicia.Server.Strings.{same_path, same_path-same_string, different_path}
use la_liga_de_la_justicia.Rfs.BlockCache.{Memcached}

abbrev pub Table : Type 0 → Type 0
Table V = List ℕ → Option V

module _ {V : Type 0} where
  abbrev pub write : Table V → List ℕ → Option V → Table V
  write s k v k' = if same_path k k' then v else s k'

  write_cases :
      (s : Table V) (k k' : List ℕ) (v : Option V)
      → ((k ≡ k') × (write s k v k' ≡ v)) ⊎ ((k ≢ k') × (write s k v k' ≡ s k'))
  write_cases s k k' v = elim (Bool-cases (same_path k k')) [
    | inl t ↦ inl ((same_path-same_string k k').0.0 t, rw t refl)
    | inr t ↦ inr (different_path k k' t, rw t refl)
  ]

  pub set_law :
      (s : Table V) (k k' : List ℕ) (v w : V)
      → write s k (some v) k' ≡ some w
      → ((k ≡ k') × (w ≡ v)) ⊎ ((k ≢ k') × (s k' ≡ some w))
  set_law s k k' v w h = elim (write_cases s k k' (some v)) [
    | inl (e, o) ↦ inl (e, some-injective w v (sym h ∙ o))
    | inr (ne, o) ↦ inr (ne, sym o ∙ h)
  ]

  pub delete_law :
      (s : Table V) (k k' : List ℕ) (w : V)
      → write s k none k' ≡ some w
      → (k ≢ k') × (s k' ≡ some w)
  delete_law s k k' w h = elim (write_cases s k k' none) [
    | inl (e, o) ↦ absurd (none-ne-some w (sym o ∙ h))
    | inr (ne, o) ↦ (ne, sym o ∙ h)
  ]

  abbrev pub table : Memcached V
  table = record {
    State = Table V;
    memcached_get = λ s k. s k;
    memcached_set = λ s k v. write s k (some v);
    memcached_delete = λ s k. write s k none;
    get-set = set_law;
    get-delete = delete_law;
  }
