-- ===== src/Wire/Requests.antt =====
-- The server reads what the client sends.
use la_liga_de_la_justicia.Base.{
  ℕ, ◌+◌, ◌-◌, sym, ◌∙◌, ◌^◌, ◌<◌, ◌≡◌, refl, ap, List, [], ◌∷◌, ◌++◌, some, length, drop,
  length-append, arith,
}
use la_liga_de_la_justicia.Wire.Bytes.{le, length-le, read-le, drop-le, drop-append}
use la_liga_de_la_justicia.Wire.Messages.{
  Widths, leer_archivo_tipo, escribir_archivo_tipo, c_string, deserializar_header,
  serializar_pedido_modo_nombre, serializar_pedido_leer_archivo, serializar_pedido_escribir_archivo,
  deserializar_pedido_modo_nombre, deserializar_pedido_leer_archivo,
  deserializar_pedido_escribir_archivo, truncar_archivo_tipo, serializar_pedido_truncar_archivo,
  deserializar_pedido_truncar_archivo, serializar_pedido_nombre, deserializar_pedido_nombre, fill,
}
use la_liga_de_la_justicia.Wire.Frames.{take_all, fill_exact, fill_front, request-IsReceived}

module _ (w : Widths) where
  -- A request with a mode arrives as it was sent: below 2 ^ 16 bytes of payload, a mode of the width of
  -- `mode_t`, and a type of one byte; the buffer for the name holds the name and its 0, no more.
  pub pedido_modo_nombre_roundtrip :
      (tipo modo : ℕ) (nombre : List ℕ)
      → tipo < 256
      → modo < 256 ^ w.mode_t
      → w.mode_t + length nombre + 1 < 65536
      → let s = serializar_pedido_modo_nombre w tipo nombre modo in
        let header = deserializar_header s.bytes in
        (header.tipo ≡ tipo)
        × (deserializar_pedido_modo_nombre w (drop 3 s.bytes) header.payload_longitud
            ≡ some record {
              modo = modo;
              modo_archivo = record { content = c_string nombre; past = 0 };
            })
  unfolding serializar_pedido_modo_nombre deserializar_pedido_modo_nombre
  pedido_modo_nombre_roundtrip tipo modo nombre h k l =
      let body = le w.mode_t modo ++ c_string nombre in
      let n1 = length-append (le w.mode_t modo) (c_string nombre) in
      let n2 = length-append nombre (0 ∷ []) in
      let n3 = length-le w.mode_t modo in
      let r = request-IsReceived tipo body h (omega (arith, n1, n2, n3, l)) in
      let f =
        fill_exact (length body) w.mode_t (length nombre + 1) (c_string nombre)
          (omega (arith, n1, n2, n3)) (omega (arith, n2)) in
      (
        ap (λ x. x.tipo) r.header,
        rw
            (
              r.header,
              r.body,
              drop-le w.mode_t modo (c_string nombre),
              f,
              read-le w.mode_t modo (c_string nombre) k,
            )
            refl,
      )

  -- A request to read arrives as it was sent.
  pub pedido_leer_archivo_roundtrip :
      (size offset : ℕ) (nombre : List ℕ)
      → size < 256 ^ w.size_t
      → offset < 256 ^ w.off_t
      → w.size_t + w.off_t + length nombre + 1 < 65536
      → let s = serializar_pedido_leer_archivo w nombre size offset in
        let header = deserializar_header s.bytes in
        (header.tipo ≡ leer_archivo_tipo)
        × (deserializar_pedido_leer_archivo w (drop 3 s.bytes) header.payload_longitud
            ≡ some record {
              leer_size = size;
              leer_offset = offset;
              leer_archivo = record { content = c_string nombre; past = 0 };
            })
  unfolding serializar_pedido_leer_archivo deserializar_pedido_leer_archivo
  pedido_leer_archivo_roundtrip size offset nombre k1 k2 l =
      let tail = le w.off_t offset ++ c_string nombre in
      let body = le w.size_t size ++ tail in
      let n1 = length-append (le w.size_t size) tail in
      let n2 = length-append (le w.off_t offset) (c_string nombre) in
      let n3 = length-append nombre (0 ∷ []) in
      let n4 = length-le w.size_t size in
      let n5 = length-le w.off_t offset in
      let r =
        request-IsReceived leer_archivo_tipo body (omega arith)
          (omega (arith, n1, n2, n3, n4, n5, l)) in
      let f =
        fill_exact (length body) (w.size_t + w.off_t) (length nombre + 1) (c_string nombre)
          (omega (arith, n1, n2, n3, n4, n5)) (omega (arith, n3)) in
      (
        ap (λ x. x.tipo) r.header,
        rw
            (
              r.header,
              r.body,
              drop-le w.size_t size tail,
              drop-le w.off_t offset (c_string nombre),
              f,
              read-le w.size_t size tail k1,
              read-le w.off_t offset (c_string nombre) k2,
            )
            refl,
      )

  -- A request to write arrives as it was sent, the data of it included: `size` is the length of the
  -- data, and the payload has less than 2 ^ 16 bytes.
  pub pedido_escribir_archivo_roundtrip :
      (desplazamiento : ℕ) (nombre buffer : List ℕ)
      → length buffer < 256 ^ w.size_t
      → desplazamiento < 256 ^ w.off_t
      → w.size_t + w.off_t + length buffer + length nombre + 1 < 65536
      → let s = serializar_pedido_escribir_archivo w nombre buffer (length buffer) desplazamiento in
        let header = deserializar_header s.bytes in
        (header.tipo ≡ escribir_archivo_tipo)
        × (deserializar_pedido_escribir_archivo w (drop 3 s.bytes) header.payload_longitud
            ≡ some record {
              escribir_size = length buffer;
              escribir_offset = desplazamiento;
              escribir_buffer = record { content = buffer; past = 0 };
              escribir_archivo = record { content = c_string nombre; past = 0 };
            })
  unfolding serializar_pedido_escribir_archivo deserializar_pedido_escribir_archivo
  pedido_escribir_archivo_roundtrip desplazamiento nombre buffer k1 k2 l =
      let size = length buffer in
      let data' = buffer ++ c_string nombre in
      let tail = le w.off_t desplazamiento ++ data' in
      let body = le w.size_t size ++ tail in
      let n1 = length-append (le w.size_t size) tail in
      let n2 = length-append (le w.off_t desplazamiento) data' in
      let n3 = length-append nombre (0 ∷ []) in
      let n4 = length-le w.size_t size in
      let n5 = length-le w.off_t desplazamiento in
      let n6 = length-append buffer (c_string nombre) in
      let r =
        request-IsReceived escribir_archivo_tipo body (omega arith)
          (omega (arith, n1, n2, n3, n4, n5, n6, l)) in
      let f =
        fill_exact (length body) (w.size_t + w.off_t + size) (length nombre + 1) (c_string nombre)
          (omega (arith, n1, n2, n3, n4, n5, n6)) (omega (arith, n3)) in
      rw (take_all size buffer refl) (
        ap (λ x. x.tipo) r.header,
        rw
            (
              r.header,
              r.body,
              drop-le w.size_t size tail,
              drop-le w.off_t desplazamiento data',
              read-le w.size_t size tail k1,
              read-le w.off_t desplazamiento data' k2,
              drop-append size buffer (c_string nombre) refl,
              f,
              fill_front size buffer (c_string nombre) refl,
            )
            refl,
      )

  -- A request to truncate arrives as it was sent.
  pub pedido_truncar_archivo_roundtrip :
      (size : ℕ) (nombre : List ℕ)
      → size < 256 ^ w.size_t
      → w.size_t + length nombre + 1 < 65536
      → let s = serializar_pedido_truncar_archivo w nombre size in
        let header = deserializar_header s.bytes in
        (header.tipo ≡ truncar_archivo_tipo)
        × (deserializar_pedido_truncar_archivo w (drop 3 s.bytes) header.payload_longitud
            ≡ some record {
              truncar_size = size;
              truncar_archivo = record { content = c_string nombre; past = 0 };
            })
  unfolding serializar_pedido_truncar_archivo deserializar_pedido_truncar_archivo
  pedido_truncar_archivo_roundtrip size nombre k l =
      let body = le w.size_t size ++ c_string nombre in
      let n1 = length-append (le w.size_t size) (c_string nombre) in
      let n2 = length-append nombre (0 ∷ []) in
      let n3 = length-le w.size_t size in
      let r =
        request-IsReceived truncar_archivo_tipo body (omega arith) (omega (arith, n1, n2, n3, l)) in
      let f =
        fill_exact (length body) w.size_t (length nombre + 1) (c_string nombre)
          (omega (arith, n1, n2, n3)) (omega (arith, n2)) in
      (
        ap (λ x. x.tipo) r.header,
        rw
            (
              r.header,
              r.body,
              drop-le w.size_t size (c_string nombre),
              f,
              read-le w.size_t size (c_string nombre) k,
            )
            refl,
      )

-- A request with a name arrives as it was sent.
pub pedido_nombre_roundtrip :
    (tipo : ℕ) (nombre : List ℕ)
    → tipo < 256
    → length nombre + 1 < 65536
    → let s = serializar_pedido_nombre tipo nombre in
      let header = deserializar_header s.bytes in
      (header.tipo ≡ tipo)
      × (deserializar_pedido_nombre (drop 3 s.bytes) header.payload_longitud
          ≡ some record { content = c_string nombre; past = 0 })
unfolding serializar_pedido_nombre deserializar_pedido_nombre
pedido_nombre_roundtrip tipo nombre h l =
    let n = length-append nombre (0 ∷ []) in
    let r = request-IsReceived tipo (c_string nombre) h (omega (arith, n, l)) in
    let z : length (c_string nombre) - 0 ≡ length (c_string nombre) = omega arith in
    let f =
      ap (λ k. fill (length (c_string nombre)) 0 k (c_string nombre)) (sym z)
      ∙ fill_exact (length (c_string nombre)) 0 (length (c_string nombre)) (c_string nombre)
          (omega arith) refl in
    (ap (λ x. x.tipo) r.header, rw (r.header, r.body) f)
