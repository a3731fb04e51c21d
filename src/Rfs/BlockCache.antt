-- ===== src/Rfs/BlockCache.antt =====
-- The memcached that the server keeps file blocks in, as an interface, and the keys of
-- rfs/source_RFS/file_operations.c: `generate_key`, `cache_fs_get_set`, `cache_set` and `cache_delete`.
pub mod Keys
use la_liga_de_la_justicia.Base.{
  ℕ, ◌<◌, ◌≡◌, ◌≢◌, ◌⊎◌, Bool, true, false, Option, none, some, List, [], ◌∷◌, ◌++◌,
}
use la_liga_de_la_justicia.Wire.Bytes.{le}

-- What the documentation of libmemcached promises: a value that is found is the last one that was set
-- under that key, and was not deleted since; a value may be lost at any time. `V` is the type of values.
pub record Memcached (V : Type 0) : Type 1 where
  pub State : Type 0
  pub memcached_get : State → List ℕ → Option V
  pub memcached_set : State → List ℕ → V → State
  pub memcached_delete : State → List ℕ → State
  pub get-set :
      (s : State) (k k' : List ℕ) (v w : V)
      → memcached_get (memcached_set s k v) k' ≡ some w
      → ((k ≡ k') × (w ≡ v)) ⊎ ((k ≢ k') × (memcached_get s k' ≡ some w))
  pub get-delete :
      (s : State) (k k' : List ℕ) (w : V)
      → memcached_get (memcached_delete s k) k' ≡ some w
      → (k ≢ k') × (memcached_get s k' ≡ some w)

-- `generate_key`: the path and the four bytes of the block's number.
unfoldable pub generate_key : (path : List ℕ) → (block_number : ℕ) → List ℕ
unfolding le
generate_key path block_number = path ++ le 4 block_number

module _ {V : Type 0} (m : Memcached V) where
  open m use {State, memcached_get, memcached_set, memcached_delete}

  -- `cache_fs_get_set`: the block from the cache, or else from the volume, which is then cached.
  unfoldable pub cache_fs_get_set : (path : List ℕ) → (block_number : ℕ) → V → State → V × State
  unfolding generate_key
  cache_fs_get_set path block_number on_disk s =
      let key = generate_key path block_number in
      elim (memcached_get s key) [ none ↦ (on_disk, memcached_set s key on_disk) | some v ↦ (v, s) ]

  unfoldable pub cache_set : (path : List ℕ) → (block_number : ℕ) → V → State → State
  unfolding generate_key
  cache_set path block_number value s = memcached_set s (generate_key path block_number) value

  unfoldable pub cache_delete : (path : List ℕ) → (block_number : ℕ) → State → State
  unfolding generate_key
  cache_delete path block_number s = memcached_delete s (generate_key path block_number)

  -- What the cache holds for the blocks of a file is what the file holds.
  abbrev pub IsFresh : (path : List ℕ) → (ℕ → V) → State → Type 0
  IsFresh path blocks s =
      (b : ℕ)
      → b < 4294967296
      → (v : V) → memcached_get s (generate_key path b) ≡ some v
      → v ≡ blocks b
