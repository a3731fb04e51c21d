-- ===== src/Wire/Messages.antt =====
-- The requests and the answers as bytes. The client serializes requests and deserializes answers by
-- fsc/sources_FSC/serializadores.c, the server does the opposite by rfs/commons/serializadores.c.
-- Strings are lists of bytes without the final 0. Lengths are below 2 ^ 31.
use la_liga_de_la_justicia.Base.{
  ℕ, ◌+◌, ◌-◌, List, [], ◌∷◌, ◌++◌, Option, none, some, ltb, if◌then◌else◌, length, take, drop,
  replicate,
}
use la_liga_de_la_justicia.Wire.Bytes.{le, read}

-- The widths of the C library's types in bytes.
pub record Widths : Type 0 where
  pub size_t : ℕ
  pub off_t : ℕ
  pub mode_t : ℕ
  pub ino_t : ℕ
  pub nlink_t : ℕ
  pub blksize_t : ℕ
  pub blkcnt_t : ℕ

-- `t_stream`; `beyond` counts the bytes written behind the allocated array.
pub record Stream : Type 0 where
  pub bytes : List ℕ
  pub longitud : ℕ
  pub beyond : ℕ

-- A buffer that was allocated and filled, `past` bytes of it behind its end.
pub record Buffer : Type 0 where
  pub content : List ℕ
  pub past : ℕ

pub record Header : Type 0 where
  pub tipo : ℕ
  pub payload_longitud : ℕ

pub record PedidoModoNombre : Type 0 where
  pub modo : ℕ
  pub modo_archivo : Buffer

pub record PedidoLeer : Type 0 where
  pub leer_size : ℕ
  pub leer_offset : ℕ
  pub leer_archivo : Buffer

pub record PedidoEscribir : Type 0 where
  pub escribir_size : ℕ
  pub escribir_offset : ℕ
  pub escribir_buffer : Buffer
  pub escribir_archivo : Buffer

pub record PedidoTruncar : Type 0 where
  pub truncar_size : ℕ
  pub truncar_archivo : Buffer

abbrev pub leer_archivo_tipo : ℕ
leer_archivo_tipo = 2

abbrev pub escribir_archivo_tipo : ℕ
escribir_archivo_tipo = 3

abbrev pub truncar_archivo_tipo : ℕ
truncar_archivo_tipo = 5

-- `strcpy`'s bytes.
abbrev pub c_string : List ℕ → List ℕ
c_string name = name ++ 0 ∷ []

-- Header, body, and the zeros of `calloc` up to the capacity of the payload.
unfoldable pub frame : (tipo payload capacity : ℕ) → List ℕ → Stream
unfolding le
frame tipo payload capacity body = record {
  bytes = le 1 tipo ++ (le 2 payload ++ (body ++ replicate (capacity - length body) 0));
  longitud = 3 + capacity;
  beyond = length body - capacity;
}

-- A payload whose length is a `uint32_t` and holds the body.
unfoldable pub request : (tipo : ℕ) → List ℕ → Stream
unfolding frame
request tipo body = frame tipo (length body) (length body) body

unfoldable pub serializar_handshake : ℕ → Stream
unfolding frame
serializar_handshake tipo = frame tipo 0 0 []

unfoldable pub deserializar_handshake : List ℕ → ℕ
unfolding read
deserializar_handshake stream = read 1 stream

unfoldable pub deserializar_header : List ℕ → Header
unfolding read
deserializar_header stream = record {
  tipo = read 1 stream;
  payload_longitud = read 2 (drop 1 stream);
}

-- `calloc (longitud - less)` and a copy of `n` bytes: a count below 0 is a huge `size_t`, which
-- `calloc` refuses.
unfoldable pub fill : (longitud less n : ℕ) → List ℕ → Option Buffer
fill longitud less n from =
    if ltb longitud less
    then none
    else some record { content = take n from; past = n - (longitud - less) }

unfoldable pub serializar_pedido_nombre : (tipo : ℕ) → List ℕ → Stream
unfolding request
serializar_pedido_nombre tipo nombre = request tipo (c_string nombre)

unfoldable pub deserializar_pedido_nombre : List ℕ → (longitud : ℕ) → Option Buffer
unfolding fill
deserializar_pedido_nombre stream longitud = fill longitud 0 longitud stream

infixl 5 ◌>>=◌
abbrev ◌>>=◌ : {A B : Type 0} → Option A → (A → Option B) → Option B
none >>= k = none
some a >>= k = k a

module _ (w : Widths) where
  unfoldable pub serializar_pedido_modo_nombre : (tipo : ℕ) → List ℕ → (modo : ℕ) → Stream
  unfolding request
  serializar_pedido_modo_nombre tipo nombre modo =
      request tipo (le w.mode_t modo ++ c_string nombre)

  unfoldable pub serializar_pedido_leer_archivo : List ℕ → (size offset : ℕ) → Stream
  unfolding request
  serializar_pedido_leer_archivo nombre size offset =
      request leer_archivo_tipo (le w.size_t size ++ (le w.off_t offset ++ c_string nombre))

  -- The buffer holds at least `size` bytes.
  unfoldable pub serializar_pedido_escribir_archivo :
      (nombre buffer : List ℕ) → (size desplazamiento : ℕ) → Stream
  unfolding request
  serializar_pedido_escribir_archivo nombre buffer size desplazamiento =
      request escribir_archivo_tipo
        (le w.size_t size ++ (le w.off_t desplazamiento ++ (take size buffer ++ c_string nombre)))

  unfoldable pub serializar_pedido_truncar_archivo : List ℕ → (size : ℕ) → Stream
  unfolding request
  serializar_pedido_truncar_archivo nombre size =
      request truncar_archivo_tipo (le w.size_t size ++ c_string nombre)

  unfoldable pub deserializar_pedido_modo_nombre : List ℕ → (longitud : ℕ) → Option PedidoModoNombre
  unfolding fill
  deserializar_pedido_modo_nombre stream longitud = do
    nombre ← fill longitud w.mode_t (longitud - w.mode_t) (drop w.mode_t stream)
    some record { modo = read w.mode_t stream; modo_archivo = nombre }

  -- As the server has it; the client's copy, which nothing calls, allocates 4 bytes less.
  unfoldable pub deserializar_pedido_leer_archivo : List ℕ → (longitud : ℕ) → Option PedidoLeer
  unfolding fill
  deserializar_pedido_leer_archivo stream longitud = do
    let from = drop w.off_t (drop w.size_t stream)
    nombre ← fill longitud (w.size_t + w.off_t) (longitud - (w.size_t + w.off_t)) from
    some record {
      leer_size = read w.size_t stream;
      leer_offset = read w.off_t (drop w.size_t stream);
      leer_archivo = nombre;
    }

  unfoldable pub deserializar_pedido_escribir_archivo :
      List ℕ → (longitud : ℕ) → Option PedidoEscribir
  unfolding fill
  deserializar_pedido_escribir_archivo stream longitud = do
    let size = read w.size_t stream
    let from = drop w.off_t (drop w.size_t stream)
    let offset = w.size_t + w.off_t + size
    buffer ← fill size 0 size from
    nombre ← fill longitud offset (longitud - offset) (drop size from)
    some record {
      escribir_size = size;
      escribir_offset = read w.off_t (drop w.size_t stream);
      escribir_buffer = buffer;
      escribir_archivo = nombre;
    }

  unfoldable pub deserializar_pedido_truncar_archivo :
      List ℕ → (longitud : ℕ) → Option PedidoTruncar
  unfolding fill
  deserializar_pedido_truncar_archivo stream longitud = do
    nombre ← fill longitud w.size_t (longitud - w.size_t) (drop w.size_t stream)
    some record { truncar_size = read w.size_t stream; truncar_archivo = nombre }
