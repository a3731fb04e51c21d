-- ===== src/Rc/Dynamic.antt =====
-- rc/source/diccionario_dinamicas.c: dynamic partitions. Sizes are below 2 ^ 31, so that `int` and
-- `size_t` agree on them.
use la_liga_de_la_justicia.Base.{
  ℕ, zero, suc, ◌+◌, ◌-◌, ◌/◌, Bool, true, false, not, ◌&&◌, List, ltb, leb, ◌==◌, if◌then◌else◌, ℤ,
  pos, is_positive, is_zero, pred_ℤ,
}
use la_liga_de_la_justicia.Rc.Store.{
  Ptr, null, Element, Dictionary, Cmd, pure, out_of_fuel, ◌>>=◌, ◌>>◌, self, set_self, nothing,
  load, modify, copy_bytes, clear_key, move_bytes,
}
use la_liga_de_la_justicia.Rc.Dictionary.{
  max, minus32, first_element, first_node, inicializar_elementos, wiped, is_free, elegir_victima,
  to_pool, set_prev, first_fit, best_fit, sub_current, reservar,
}

-- `diccionario_crear` with the settings that `justice_engine_inicializar` stores afterwards; it leaves
-- `compactarMemoria` at the 0 of `calloc`. `heap` is what
-- the memory holds before, `mem` the area that `malloc` gives.
unfoldable pub crear :
    (key_buffer : List ℕ)
    → (table_max_size slab_size mem : ℕ) → (lru bestfit : Bool) → ℤ
    → (Ptr → Element)
    → (ℕ → ℕ)
    → Dictionary
unfolding inicializar_elementos
crear key_buffer table_max_size slab_size mem lru bestfit frecuencia heap memory =
    let max_el = table_max_size / slab_size in
    record {
      heap = inicializar_elementos key_buffer max_el table_max_size mem heap;
      memory = memory;
      nodes = first_node;
      elements = first_element;
      table_max_size = table_max_size;
      table_current_size = 0;
      slab_min_size = slab_size;
      lru = lru;
      bestfit = bestfit;
      compactar_memoria = pos zero;
      frecuencia_compactacion = frecuencia;
    }

-- The first loop of `diccionario_eliminar`: `it` joins the free elements before it.
unfoldable pub join_back : ℕ → Ptr → Cmd Ptr
unfolding load modify set_prev to_pool
join_back zero it = λ _. out_of_fuel
join_back (suc f) it = do
  e ← load it
  if e.prev == null then pure it else do
    a ← load e.prev
    if a.ocupado then pure it else do
      modify e.prev (λ x. record x { chunk_size = a.chunk_size + e.chunk_size; next = e.next })
      modify it (λ x. record x { chunk_size = 0 })
      set_prev e.next e.prev
      to_pool it
      join_back f e.prev

-- The second loop: the free elements behind `it` join it. The element behind them keeps its `prev`.
unfoldable pub join_forward : ℕ → Ptr → Cmd (Unit {0})
unfolding load modify to_pool
join_forward zero it = λ _. out_of_fuel
join_forward (suc f) it = do
  e ← load it
  if e.next == null then nothing else do
    p ← load e.next
    if p.ocupado then nothing else do
      modify it (λ x. record x { chunk_size = e.chunk_size + p.chunk_size; next = p.next })
      modify e.next (λ x. record x { chunk_size = 0 })
      to_pool e.next
      join_forward f it

unfoldable pub eliminar : ℕ → Ptr → Cmd Ptr
unfolding load modify join_back join_forward
eliminar fuel it = if it == null then pure null else do
  e ← load it
  sub_current e.data_size
  modify it wiped
  it' ← join_back fuel it
  join_forward fuel it'
  pure it'

-- `diccionario_compactarMemoria`: the loop to the first free element.
unfoldable pub first_free : ℕ → Ptr → Cmd Ptr
unfolding load
first_free zero item = λ _. out_of_fuel
first_free (suc f) item =
    if item == null
    then pure null
    else do e ← load item; if is_free e then pure item else first_free f e.next

-- The loop that joins the free elements behind `item_libre`; it gives the element that ends it.
unfoldable pub absorb : ℕ → (item_libre item : Ptr) → Cmd Ptr
unfolding load modify set_prev to_pool
absorb zero item_libre item = λ _. out_of_fuel
absorb (suc f) item_libre item = if item == null then pure null else do
  e ← load item
  if not (is_free e) then pure item else do
    modify item_libre (λ x. record x { chunk_size = x.chunk_size + e.chunk_size; next = e.next })
    set_prev e.next item_libre
    to_pool item
    modify item (λ x. record x { chunk_size = 0 })
    l ← load item_libre
    absorb f item_libre l.next

-- The exchange of a free element with the used one behind it; `nkey` and `flags` stay where they are.
unfoldable pub swap : (item_libre item : Ptr) → Cmd (Unit {0})
unfolding load modify
swap item_libre item = do
  l ← load item_libre
  e ← load item
  d ← self
  set_self (record d { memory = move_bytes l.address e.address e.chunk_size d.memory })
  modify item_libre (λ x. record x {
    chunk_size = e.chunk_size;
    data_size = e.data_size;
    hour = e.hour;
    key = copy_bytes (e.nkey + 1) e.key x.key;
    ocupado = true;
  })
  modify item (λ x. record x {
    address = l.address + e.chunk_size;
    prev = item_libre;
    chunk_size = l.chunk_size;
    ocupado = false;
    key = clear_key x.key;
    hour = 0;
    data_size = 0;
  })

-- The loop over the elements behind the first free one.
unfoldable pub shift_down : (rounds fuel : ℕ) → (item_libre item : Ptr) → Cmd (Unit {0})
unfolding load absorb swap
shift_down zero fuel item_libre item = λ _. out_of_fuel
shift_down (suc r) fuel item_libre item = if item == null then nothing else do
  used ← absorb fuel item_libre item
  if used == null then nothing else do
    swap item_libre used
    l ← load item_libre
    e ← load used
    shift_down r fuel l.next e.next

unfoldable pub compactar_memoria : ℕ → Cmd (Unit {0})
unfolding load first_free shift_down
compactar_memoria fuel = do
  d ← self
  item_libre ← first_free fuel d.elements
  if item_libre == null
      then nothing
      else do e ← load item_libre; shift_down fuel fuel item_libre e.next

-- The end of `diccionario_obtenerDireccion` that cuts the element: the rest of it becomes a node from
-- the pool. `item` has at least `size` bytes.
unfoldable pub dividir : (size : ℕ) → Ptr → Cmd (Unit {0})
unfolding load modify set_prev
dividir size item = do
  d ← self
  e ← load item
  if d.nodes == null
      then nothing
      else (if ltb (e.chunk_size - size) d.slab_min_size then nothing else do
        n ← load d.nodes
        set_self (record d { nodes = n.next })
        set_prev n.next null
        modify d.nodes (λ x. record x {
          next = e.next;
          prev = item;
          chunk_size = x.chunk_size + (e.chunk_size - size);
          address = e.address + size;
        })
        set_prev e.next d.nodes
        modify item (λ x. record x { next = d.nodes; chunk_size = size }))

-- The branch without a fitting element: compaction when its turn has come and the free bytes suffice,
-- and a victim otherwise. `compactarMemoria` at -1 never comes to 0.
unfoldable pub make_room : (fuel size : ℕ) → Cmd (Unit {0})
unfolding elegir_victima eliminar compactar_memoria
make_room fuel size = do
  d ← self
  let left =
      if is_positive d.compactar_memoria then pred_ℤ d.compactar_memoria else d.compactar_memoria
  set_self (record d { compactar_memoria = left })
  let free = minus32 d.table_max_size d.table_current_size
  if is_zero left && (ltb free 2147483648 && leb size free)
      then (do
        compactar_memoria fuel
        d' ← self
        set_self (record d' { compactar_memoria = d'.frecuencia_compactacion }))
      else (do victima ← elegir_victima fuel; eliminar fuel victima; nothing)

unfoldable pub obtener_direccion_loop : (rounds fuel data_size size : ℕ) → Cmd Ptr
unfolding first_fit best_fit make_room dividir reservar
obtener_direccion_loop zero fuel data_size size = λ _. out_of_fuel
obtener_direccion_loop (suc r) fuel data_size size = do
  d ← self
  if ltb d.table_max_size size then pure null else do
    item ← first_fit size fuel d.elements
    if item == null
        then (do make_room fuel size; obtener_direccion_loop r fuel data_size size)
        else (do
          best ← (if d.bestfit then best_fit size fuel item item else pure item)
          dividir size best
          reservar data_size best)

unfoldable pub obtener_direccion : (fuel data_size : ℕ) → Cmd Ptr
unfolding obtener_direccion_loop
obtener_direccion fuel data_size = do
  d ← self
  obtener_direccion_loop fuel fuel data_size (max data_size d.slab_min_size)
