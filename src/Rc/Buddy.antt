-- ===== src/Rc/Buddy.antt =====
-- rc/source/diccionario_buddy.c: the buddy system. Sizes are below 2 ^ 31.
use la_liga_de_la_justicia.Base.{
  ℕ, zero, suc, ◌+◌, ◌*◌, ◌/◌, ◌%◌, Bool, not, ◌&&◌, ◌||◌, List, ltb, leb, ◌==◌, if◌then◌else◌, ℤ,
  pos,
}
use la_liga_de_la_justicia.Rc.Store.{
  Ptr, null, Element, Dictionary, Cmd, pure, out_of_fuel, ◌>>=◌, ◌>>◌, self, set_self, nothing,
  load, modify,
}
use la_liga_de_la_justicia.Rc.Dictionary.{
  max, first_element, first_node, inicializar_elementos, wiped, is_free, elegir_victima, to_pool,
  set_prev, first_fit, best_fit, sub_current, reservar,
}

-- `diccionario_crear_buddy`, with the settings as in the other scheme.
unfoldable pub crear_buddy :
    (key_buffer : List ℕ)
    → (table_max_size slab_size mem : ℕ) → (lru bestfit : Bool) → ℤ
    → (Ptr → Element)
    → (ℕ → ℕ)
    → Dictionary
unfolding inicializar_elementos
crear_buddy key_buffer table_max_size slab_size mem lru bestfit frecuencia heap memory =
    let max_hojas = table_max_size / slab_size in
    record {
      heap = inicializar_elementos key_buffer max_hojas table_max_size mem heap;
      memory = memory;
      nodes = first_node;
      elements = first_element;
      table_max_size = table_max_size;
      table_current_size = 0;
      slab_min_size = slab_size;
      lru = lru;
      bestfit = bestfit;
      compactar_memoria = pos zero;
      frecuencia_compactacion = frecuencia;
    }

-- `agregarHijosDePadre`.
unfoldable pub agregar_hijos : Ptr → Cmd (Unit {0})
unfolding load modify set_prev
agregar_hijos padre = do
  d ← self
  h ← load d.nodes
  set_prev h.next null
  set_self' h.next
  e ← load padre
  set_prev e.next d.nodes
  modify d.nodes (λ x. record x {
    next = e.next;
    prev = padre;
    chunk_size = e.chunk_size / 2;
    address = e.address + e.chunk_size / 2;
  })
  modify padre (λ x. record x { next = d.nodes; chunk_size = e.chunk_size / 2 })
  where
    set_self' : Ptr → Cmd (Unit {0})
    set_self' n = do d ← self; set_self (record d { nodes = n })

-- The loop that halves the element while half of it is enough.
unfoldable pub halve : (size : ℕ) → ℕ → Ptr → Cmd (Unit {0})
unfolding load agregar_hijos
halve size zero item = λ _. out_of_fuel
halve size (suc f) item = do
  d ← self
  e ← load item
  if leb size (e.chunk_size / 2) && not (d.nodes == null)
      then (do agregar_hijos item; halve size f item)
      else nothing

-- The loop of `esElPrimerHermano`. Listed elements are not empty, so nothing is divided by 0.
unfoldable pub hermano_loop :
    (chunk : ℕ) → (item : Ptr) → ℕ → Ptr → (cantidad subtamanio : ℕ) → Cmd Bool
unfolding load
hermano_loop chunk item zero aux_item cantidad subtamanio = λ _. out_of_fuel
hermano_loop chunk item (suc f) aux_item cantidad subtamanio =
    if (aux_item == null) || (aux_item == item) then pure (cantidad % 2 == 0) else do
      a ← load aux_item
      let sub = subtamanio + a.chunk_size % chunk
      if ltb a.chunk_size chunk
          then (if sub == chunk
              then hermano_loop chunk item f a.next (cantidad + 1) 0
              else hermano_loop chunk item f a.next cantidad sub)
          else hermano_loop chunk item f a.next (cantidad + a.chunk_size / chunk) subtamanio

unfoldable pub es_el_primer_hermano : ℕ → Ptr → Cmd Bool
unfolding load hermano_loop
es_el_primer_hermano fuel item = do
  d ← self
  e ← load item
  hermano_loop e.chunk_size item fuel d.elements 0 0

-- The element to join with, and the address of the two.
unfoldable pub elegir_hermano : ℕ → Ptr → ℕ → Cmd (Ptr × ℕ)
unfolding load es_el_primer_hermano
elegir_hermano fuel it area = do
  e ← load it
  primero ← es_el_primer_hermano fuel it
  if primero then pure (e.next, area) else do h ← load e.prev; pure (e.prev, h.address)

-- The loop of `diccionario_eliminar_buddy` that joins brothers.
unfoldable pub unir : (rounds fuel : ℕ) → (it hno area : ℕ) → Cmd (Unit {0})
unfolding load modify set_prev to_pool elegir_hermano
unir zero fuel it hno area = λ _. out_of_fuel
unir (suc r) fuel it hno area = if hno == null then nothing else do
  h ← load hno
  e ← load it
  if not (is_free h && (h.chunk_size == e.chunk_size)) then nothing else do
    modify hno (λ x. record x { chunk_size = 0; address = null })
    (if h.prev == null
        then (do d ← self; set_self (record d { elements = h.next }))
        else modify h.prev (λ x. record x { next = h.next }))
    set_prev h.next h.prev
    to_pool hno
    modify it (λ x. record x { address = area; chunk_size = x.chunk_size * 2 })
    siguiente ← elegir_hermano fuel it area
    unir r fuel it siguiente.0 siguiente.1

unfoldable pub eliminar_buddy : ℕ → Ptr → Cmd Ptr
unfolding load modify elegir_hermano unir
eliminar_buddy fuel it = do
  e ← load it
  hermano ← elegir_hermano fuel it e.address
  sub_current e.data_size
  modify it wiped
  unir fuel fuel it hermano.0 hermano.1
  pure it

unfoldable pub obtener_direccion_buddy_loop : (rounds fuel data_size size : ℕ) → Cmd Ptr
unfolding first_fit best_fit elegir_victima eliminar_buddy halve reservar
obtener_direccion_buddy_loop zero fuel data_size size = λ _. out_of_fuel
obtener_direccion_buddy_loop (suc r) fuel data_size size = do
  d ← self
  if ltb d.table_max_size size then pure null else do
    item ← first_fit size fuel d.elements
    if item == null
        then (do
          victima ← elegir_victima fuel
          eliminar_buddy fuel victima
          obtener_direccion_buddy_loop r fuel data_size size)
        else (do
          best ← (if d.bestfit then best_fit size fuel item item else pure item)
          halve size fuel best
          reservar data_size best)

unfoldable pub obtener_direccion_buddy : (fuel data_size : ℕ) → Cmd Ptr
unfolding obtener_direccion_buddy_loop
obtener_direccion_buddy fuel data_size = do
  d ← self
  obtener_direccion_buddy_loop fuel fuel data_size (max data_size d.slab_min_size)
