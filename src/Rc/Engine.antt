-- ===== src/Rc/Engine.antt =====
-- rc/source/justice_engine.c: the operations that memcached calls. `now` is what `time (NULL)` gives;
-- logging is left out, except that it reads the key of an item. Each operation is one command; store and
-- get_item_info do so without the lock of the cache, the others hold it. Keys of requests end in a zero byte.
use la_liga_de_la_justicia.Base.{ℕ, ◌+◌, true, not, List, ◌==◌, if◌then◌else◌}
use la_liga_de_la_justicia.Rc.Store.{
  Ptr, null, Cmd, pure, ◌>>=◌, ◌>>◌, self, nothing, load, modify, copy_bytes,
}
use la_liga_de_la_justicia.Rc.Dictionary.{obtener, limpiar}
use la_liga_de_la_justicia.Rc.Dynamic.{eliminar, obtener_direccion}
use la_liga_de_la_justicia.Rc.Buddy.{eliminar_buddy, obtener_direccion_buddy}

-- The functions that the engine is set up with.
pub data Scheme : Type 0 where
  dinamicas : Scheme
  buddy_system : Scheme

pub data ErrorCode : Type 0 where
  success : ErrorCode
  key_enoent : ErrorCode
  e2big : ErrorCode
  not_stored : ErrorCode

unfoldable pub f_eliminar : Scheme → ℕ → Ptr → Cmd Ptr
unfolding eliminar eliminar_buddy
f_eliminar dinamicas fuel it = eliminar fuel it
f_eliminar buddy_system fuel it = eliminar_buddy fuel it

unfoldable pub f_obtener_direccion : Scheme → (fuel data_size : ℕ) → Cmd Ptr
unfolding obtener_direccion obtener_direccion_buddy
f_obtener_direccion dinamicas fuel n = obtener_direccion fuel n
f_obtener_direccion buddy_system fuel n = obtener_direccion_buddy fuel n

-- `item_info`.
pub record ItemInfo : Type 0 where
  pub info_flags : ℕ
  pub nbytes : ℕ
  pub info_key : List ℕ
  pub info_nkey : ℕ
  pub iov_base : ℕ
  pub iov_len : ℕ

module _ (scheme : Scheme) (fuel : ℕ) where
  -- `justice_engine_allocate`: the answer and the item.
  unfoldable pub allocate : (key : List ℕ) → (nkey nbytes flags : ℕ) → Cmd (ErrorCode × Ptr)
  unfolding obtener load modify f_eliminar f_obtener_direccion
  allocate key nkey nbytes flags = do
    old ← obtener fuel key nkey
    (if old == null then nothing else do
      e ← load old
      if e.ocupado then (do f_eliminar scheme fuel old; nothing) else nothing)
    element ← f_obtener_direccion scheme fuel nbytes
    if element == null then pure (e2big, null) else do
      modify element
          (λ e. record e { nkey = nkey; flags = flags; key = copy_bytes (nkey + 1) key e.key })
      pure (success, element)

  -- `justice_engine_store`.
  unfoldable pub store_item : (now : ℕ) → Ptr → Cmd ErrorCode
  unfolding load modify obtener
  store_item now item = do
    e ← load item
    it ← obtener fuel e.key e.nkey
    if it == null
        then pure not_stored
        else do modify it (λ x. record x { ocupado = true; hour = now }); pure success

  -- `justice_engine_get_item_info`.
  unfoldable pub get_item_info : Ptr → Cmd ItemInfo
  unfolding load
  get_item_info item = do
    it ← load item
    pure record {
      info_flags = it.flags;
      nbytes = it.data_size;
      info_key = it.key;
      info_nkey = it.nkey;
      iov_base = it.address;
      iov_len = it.data_size;
    }

  -- `justice_engine_item_release`, which calls `diccionario_eliminar` in both schemes.
  unfoldable pub item_release : Ptr → Cmd (Unit {0})
  unfolding load eliminar
  item_release item = do
    it ← load item
    if it.ocupado then nothing else do eliminar fuel item; nothing

  -- `justice_engine_get`.
  unfoldable pub get : (now : ℕ) → (key : List ℕ) → (nkey : ℕ) → Cmd (ErrorCode × Ptr)
  unfolding obtener load modify
  get now key nkey = do
    it ← obtener fuel key nkey
    if it == null then pure (key_enoent, null) else do
      e ← load it
      if not e.ocupado then pure (key_enoent, null) else do
        d ← self
        (if d.lru then modify it (λ x. record x { hour = now }) else nothing)
        pure (success, it)

  -- `justice_engine_item_delete`.
  unfoldable pub item_delete : (key : List ℕ) → (nkey : ℕ) → Cmd ErrorCode
  unfolding obtener f_eliminar
  item_delete key nkey = do
    element ← obtener fuel key nkey
    if element == null then pure key_enoent else do f_eliminar scheme fuel element; pure success

  -- `justice_engine_flush`.
  unfoldable pub flush : Cmd ErrorCode
  unfolding limpiar f_eliminar
  flush = do limpiar (f_eliminar scheme fuel) fuel; pure success
