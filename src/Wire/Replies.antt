-- ===== src/Wire/Replies.antt =====
-- The answers as bytes: the server writes them by rfs/commons/serializadores.c, the client reads them by
-- fsc/sources_FSC/serializadores.c.
use la_liga_de_la_justicia.Base.{
  ℕ, ◌+◌, ◌%◌, List, [], ◌∷◌, ◌++◌, Option, none, some, length, take, drop,
}
use la_liga_de_la_justicia.Wire.Bytes.{le, read}
use la_liga_de_la_justicia.Wire.Messages.{Widths, Stream, Buffer, frame}

pub record RespuestaLeer : Type 0 where
  pub bytes_leidos : ℕ
  pub leido : Buffer

pub record Atributos : Type 0 where
  pub numero_de_inodo : ℕ
  pub modo_de_inodo : ℕ
  pub numero_de_hard_links : ℕ
  pub size : ℕ
  pub tamano_de_bloque : ℕ
  pub bloques_de_512b : ℕ

unfoldable pub serializar_respuesta_finalizacion : ℕ → Stream
unfolding frame
serializar_respuesta_finalizacion tipo = frame tipo 0 0 []

-- The payload length of the answers is a `uint16_t`, which also sizes the array.
unfoldable pub response : (tipo longitud : ℕ) → List ℕ → Stream
unfolding frame
response tipo longitud body = frame tipo (longitud % 65536) (longitud % 65536) body

unfoldable pub deserializar_respuesta_escribir_archivo : List ℕ → (longitud : ℕ) → ℕ
unfolding read
deserializar_respuesta_escribir_archivo stream longitud = read longitud stream

-- The names with '#' between them.
unfoldable pub joined : List (List ℕ) → List ℕ
joined [] = []
joined (x ∷ []) = x
joined (x ∷ y ∷ rest) = x ++ 35 ∷ joined (y ∷ rest)

-- The sum of `name_len + 1` over the entries.
unfoldable pub names_length : List (List ℕ) → ℕ
names_length [] = 0
names_length (x ∷ xs) = length x + 1 + names_length xs

-- Without an entry, the loop reads the name of `entries[0]`, which is NULL.
unfoldable pub serializar_respuesta_leer_directorio : (tipo : ℕ) → List (List ℕ) → Option Stream
unfolding response joined names_length
serializar_respuesta_leer_directorio tipo [] = none
serializar_respuesta_leer_directorio tipo (x ∷ xs) =
    some (response tipo (names_length (x ∷ xs) + length xs) (joined (x ∷ xs)))

-- `memcpy` of `longitud` bytes into an `int32_t`, read without its sign.
unfoldable pub deserializar_respuesta_finalizacion : List ℕ → (longitud : ℕ) → ℕ
unfolding read
deserializar_respuesta_finalizacion stream longitud = read longitud stream

module _ (w : Widths) where
  unfoldable pub serializar_respuesta_escribir_archivo : (tipo bytes_escritos : ℕ) → Stream
  unfolding response
  serializar_respuesta_escribir_archivo tipo bytes_escritos =
      response tipo w.size_t (le w.size_t bytes_escritos)

  -- The buffer holds at least `bytes_leidos` bytes.
  unfoldable pub serializar_respuesta_leer_archivo : (tipo bytes_leidos : ℕ) → List ℕ → Stream
  unfolding response
  serializar_respuesta_leer_archivo tipo bytes_leidos buffer =
      response tipo (w.size_t + bytes_leidos) (le w.size_t bytes_leidos ++ take bytes_leidos buffer)

  -- The size is written with `sizeof (size_t)` bytes, and counted with `sizeof (off_t)`.
  unfoldable pub serializar_respuesta_obtener_atributos : ℕ → Atributos → Stream
  unfolding response
  serializar_respuesta_obtener_atributos tipo a =
      response tipo (w.ino_t + w.mode_t + w.nlink_t + w.off_t + w.blksize_t + w.blkcnt_t) (
        le w.ino_t a.numero_de_inodo
        ++ (le w.mode_t a.modo_de_inodo
            ++ (le w.nlink_t a.numero_de_hard_links
                ++ (le w.size_t a.size
                    ++ (le w.blksize_t a.tamano_de_bloque ++ le w.blkcnt_t a.bloques_de_512b)))))

  unfoldable pub deserializar_respuesta_leer_archivo : List ℕ → RespuestaLeer
  unfolding read
  deserializar_respuesta_leer_archivo stream =
      let n = read w.size_t stream in
      record {
        bytes_leidos = n;
        leido = record { content = take (n % 4294967296) (drop w.size_t stream); past = 0 };
      }

  unfoldable pub deserializar_respuesta_obtener_atributos : List ℕ → Atributos
  unfolding read
  deserializar_respuesta_obtener_atributos stream =
      let modo = drop w.ino_t stream in
      let links = drop w.mode_t modo in
      let size = drop w.nlink_t links in
      let blksize = drop w.off_t size in
      let blkcnt = drop w.blksize_t blksize in
      record {
        numero_de_inodo = read w.ino_t stream;
        modo_de_inodo = read w.mode_t modo;
        numero_de_hard_links = read w.nlink_t links;
        size = read w.off_t size;
        tamano_de_bloque = read w.blksize_t blksize;
        bloques_de_512b = read w.blkcnt_t blkcnt;
      }
