-- ===== src/Rc/Dictionary.antt =====
-- rc/source/diccionario.c: what both schemes share. Loops along `next` run on fuel.
use la_liga_de_la_justicia.Base.{
  ℕ, zero, suc, ◌+◌, ◌-◌, ◌/◌, ◌^◌, ◌%◌, Bool, true, false, not, ◌&&◌, List, [], ◌∷◌, ltb, leb,
  ◌==◌, if◌then◌else◌, take,
}
use la_liga_de_la_justicia.Rc.Store.{
  Ptr, null, Element, clear_key, Cmd, pure, out_of_fuel, ◌>>=◌, ◌>>◌, self, set_self, nothing, load,
  modify,
}

abbrev pub max : ℕ → ℕ → ℕ
max a b = if ltb b a then a else b

-- `log2` and `pow` on doubles: the largest power of two that is not above the number.
unfoldable pub floor_log2 : ℕ → ℕ → ℕ
floor_log2 zero n = 0
floor_log2 (suc f) n = let rest = floor_log2 f (n / 2) in if ltb n 2 then 0 else suc rest

unfoldable pub power_two_low : ℕ → ℕ
unfolding floor_log2
power_two_low n = 2 ^ floor_log2 n n

-- An `int` as 32 bits: what is left of `n` after taking `m` away.
abbrev pub minus32 : ℕ → ℕ → ℕ
minus32 n m = (n + (4294967296 - m % 4294967296)) % 4294967296

-- `inicializarElementos`: the element stands at 1, the nodes at 2, 3, …, and `max_el` is their number
-- with one that lies behind the array; of that one only `next` is written.
abbrev pub first_element : Ptr
first_element = 1

abbrev pub first_node : Ptr
first_node = 2

unfoldable pub inicializar_elementos :
    (key_buffer : List ℕ) → (max_el table_max_size mem : ℕ) → (Ptr → Element) → Ptr → Element
inicializar_elementos key_buffer max_el table_max_size mem heap p =
    if p == first_element
    then record {
      prev = null;
      key = key_buffer;
      nkey = 0;
      address = mem;
      hour = 0;
      chunk_size = table_max_size;
      data_size = 0;
      ocupado = false;
      flags = 0;
      next = null;
    }
    else (if leb first_node p && ltb (p + 1) (first_node + max_el)
        then record {
          prev = if p == first_node then null else p - 1;
          key = key_buffer;
          nkey = 0;
          address = null;
          hour = 0;
          chunk_size = 0;
          data_size = 0;
          ocupado = false;
          flags = 0;
          next = p + 1;
        }
        else (if p + 1 == first_node + max max_el 1
            then record (heap p) { next = null }
            else heap p))

-- The first lines of both functions for deleting.
abbrev pub wiped : Element → Element
wiped e = record e {
  key = clear_key e.key;
  hour = 0;
  nkey = 0;
  flags = 0;
  ocupado = false;
  data_size = 0;
}

abbrev pub esta_reservado : Element → Bool
esta_reservado e = not e.ocupado && not (e.nkey == 0)

-- `!ocupado && !estaReservado`
abbrev pub is_free : Element → Bool
is_free e = not e.ocupado && not (esta_reservado e)

abbrev pub same_bytes : List ℕ → List ℕ → Bool
same_bytes [] [] = true
same_bytes [] (y ∷ ys) = false
same_bytes (x ∷ xs) [] = false
same_bytes (x ∷ xs) (y ∷ ys) = (x == y) && same_bytes xs ys

-- The two tests of `diccionario_obtener`; `memcmp` looks at the first `nkey` bytes.
abbrev pub has_key : List ℕ → ℕ → Element → Bool
has_key key nkey e =
    not (e.nkey == 0) && ((e.nkey == nkey) && same_bytes (take nkey e.key) (take nkey key))

unfoldable pub obtener_loop : List ℕ → ℕ → ℕ → Ptr → Cmd Ptr
obtener_loop key nkey zero it = λ _. out_of_fuel
obtener_loop key nkey (suc f) it =
    if it == null
    then pure null
    else do e ← load it; if has_key key nkey e then pure it else obtener_loop key nkey f e.next

unfoldable pub obtener : ℕ → List ℕ → ℕ → Cmd Ptr
unfolding obtener_loop
obtener fuel key nkey = do d ← self; obtener_loop key nkey fuel d.elements

-- The first loop of `diccionario_elegirVictima`, to the first element with an hour.
unfoldable pub first_used : ℕ → Ptr → Cmd Ptr
first_used zero it = λ _. out_of_fuel
first_used (suc f) it =
    if it == null
    then pure null
    else do e ← load it; if e.hour == 0 then first_used f e.next else pure it

-- The second loop, to the element with the least hour; 0 is no hour.
unfoldable pub oldest : ℕ → (item victima : Ptr) → Cmd Ptr
oldest zero item victima = λ _. out_of_fuel
oldest (suc f) item victima = if item == null then pure victima else do
  e ← load item
  v ← load victima
  oldest f e.next (if not (e.hour == 0) && ltb e.hour v.hour then item else victima)

-- The log line at the end reads the key of the victim, whatever it is.
unfoldable pub elegir_victima : ℕ → Cmd Ptr
unfolding first_used oldest
elegir_victima fuel = do
  d ← self
  first ← first_used fuel d.elements
  victima ← oldest fuel first first
  load victima
  pure victima

-- `diccionario_limpiar` with the scheme's function for deleting.
unfoldable pub limpiar_loop : (Ptr → Cmd Ptr) → ℕ → Ptr → Cmd (Unit {0})
limpiar_loop f_eliminar zero item = λ _. out_of_fuel
limpiar_loop f_eliminar (suc f) item = if item == null then nothing else do
  e ← load item
  item' ← (if e.nkey == 0 then pure item else f_eliminar item)
  e' ← load item'
  limpiar_loop f_eliminar f e'.next

unfoldable pub limpiar : (Ptr → Cmd Ptr) → ℕ → Cmd (Unit {0})
unfolding limpiar_loop
limpiar f_eliminar fuel = do d ← self; limpiar_loop f_eliminar fuel d.elements

-- `item->prev = NULL; item->next = nodes; if (nodes) nodes->prev = item; nodes = item`, which the
-- schemes do wherever a node goes back to the pool.
unfoldable pub to_pool : Ptr → Cmd (Unit {0})
unfolding modify
to_pool item = do
  d ← self
  modify item (λ e. record e { prev = null; next = d.nodes })
  (if d.nodes == null then nothing else modify d.nodes (λ e. record e { prev = item }))
  d' ← self
  set_self (record d' { nodes = item })

-- `if (p != NULL) p->prev = q`.
unfoldable pub set_prev : Ptr → Ptr → Cmd (Unit {0})
unfolding modify
set_prev p q = if p == null then nothing else modify p (λ e. record e { prev = q })

-- `while (item != NULL && (ocupado || reservado || chunk_size < size)) item = item->next`.
unfoldable pub first_fit : (size : ℕ) → ℕ → Ptr → Cmd Ptr
first_fit size zero item = λ _. out_of_fuel
first_fit size (suc f) item = if item == null then pure null else do
  e ← load item
  if is_free e && leb size e.chunk_size then pure item else first_fit size f e.next

-- The loop for the best fit, from `aux_item` on.
unfoldable pub best_fit : (size : ℕ) → ℕ → (aux_item item : Ptr) → Cmd Ptr
best_fit size zero aux_item item = λ _. out_of_fuel
best_fit size (suc f) aux_item item = if aux_item == null then pure item else do
  a ← load aux_item
  e ← load item
  let better = is_free a && (ltb a.chunk_size e.chunk_size && leb size a.chunk_size)
  best_fit size f a.next (if better then aux_item else item)

-- `table_current_size += n` and `-= n`.
abbrev pub add_current : ℕ → Cmd (Unit {0})
add_current n = do
  d ← self
  set_self (record d { table_current_size = (d.table_current_size + n) % 4294967296 })

abbrev pub sub_current : ℕ → Cmd (Unit {0})
sub_current n = do
  d ← self
  set_self (record d { table_current_size = minus32 d.table_current_size n })

-- `item->data_size = data_size; table_current_size += data_size; return item`.
unfoldable pub reservar : ℕ → Ptr → Cmd Ptr
unfolding modify
reservar data_size item = do
  modify item (λ e. record e { data_size = data_size })
  add_current data_size
  pure item
