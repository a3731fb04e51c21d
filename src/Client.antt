-- ===== src/Client.antt =====
-- The client's requests: which message each FUSE operation of fsc/sources_FSC/operaciones_fuse.c sends. The paths
-- are lists of bytes without the final 0.
pub mod Cache
pub mod Coherence
pub mod Listing
pub mod Session
use la_liga_de_la_justicia.Base.{ℕ, List}
use la_liga_de_la_justicia.Base.{length}
use la_liga_de_la_justicia.Wire.Messages.{
  Widths, Stream, serializar_pedido_nombre, serializar_pedido_modo_nombre,
  serializar_pedido_leer_archivo, serializar_pedido_escribir_archivo,
  serializar_pedido_truncar_archivo,
}

-- The `enum` of the message types.
abbrev pub tipo_crear_archivo : ℕ
tipo_crear_archivo = 0

abbrev pub tipo_abrir_archivo : ℕ
tipo_abrir_archivo = 1

abbrev pub tipo_eliminar_archivo : ℕ
tipo_eliminar_archivo = 4

abbrev pub tipo_crear_directorio : ℕ
tipo_crear_directorio = 7

abbrev pub tipo_leer_directorio : ℕ
tipo_leer_directorio = 8

abbrev pub tipo_eliminar_directorio : ℕ
tipo_eliminar_directorio = 9

abbrev pub tipo_obtener_atributos : ℕ
tipo_obtener_atributos = 10

abbrev pub tipo_respuesta_ok : ℕ
tipo_respuesta_ok = 14

-- The operations that send a request, with their arguments.
pub data Pedido : Type 0 where
  crear_archivo : (path : List ℕ) → (mode : ℕ) → Pedido
  abrir_archivo : (path : List ℕ) → Pedido
  leer_archivo : (path : List ℕ) → (size offset : ℕ) → Pedido
  escribir_archivo : (path buffer : List ℕ) → (offset : ℕ) → Pedido
  truncar_archivo : (path : List ℕ) → (size : ℕ) → Pedido
  eliminar_archivo : (path : List ℕ) → Pedido
  crear_directorio : (path : List ℕ) → (mode : ℕ) → Pedido
  leer_directorio : (path : List ℕ) → Pedido
  eliminar_directorio : (path : List ℕ) → Pedido
  obtener_atributos : (path : List ℕ) → Pedido

-- The stream that the operation hands to `enviar_paquete`.
unfoldable pub enviado : Widths → Pedido → Stream
enviado w (crear_archivo path mode) = serializar_pedido_modo_nombre w tipo_crear_archivo path mode
enviado w (abrir_archivo path) = serializar_pedido_nombre tipo_abrir_archivo path
enviado w (leer_archivo path size offset) = serializar_pedido_leer_archivo w path size offset
enviado w (escribir_archivo path buffer offset) =
    serializar_pedido_escribir_archivo w path buffer (length buffer) offset
enviado w (truncar_archivo path size) = serializar_pedido_truncar_archivo w path size
enviado w (eliminar_archivo path) = serializar_pedido_nombre tipo_eliminar_archivo path
enviado w (crear_directorio path mode) =
    serializar_pedido_modo_nombre w tipo_crear_directorio path mode
enviado w (leer_directorio path) = serializar_pedido_nombre tipo_leer_directorio path
enviado w (eliminar_directorio path) = serializar_pedido_nombre tipo_eliminar_directorio path
enviado w (obtener_atributos path) = serializar_pedido_nombre tipo_obtener_atributos path
