-- ===== src/Server/Tasks/Requests.antt =====
-- What the client asks for is what a worker is told to do.
use la_liga_de_la_justicia.Base.{
  ℕ, ◌+◌, ◌^◌, ◌<◌, ◌≡◌, refl, sym, ap, ◌∙◌, true, false, Option, some, List, [], ◌∷◌, ◌++◌, length,
  drop, take, has, ◌==◌, arith, length-append,
}
use la_liga_de_la_justicia.Rfs.Geometry.{u32, u64}
use la_liga_de_la_justicia.Wire.Bytes.{le, length-le}
use la_liga_de_la_justicia.Wire.Messages.{
  Widths, c_string, request, deserializar_header, serializar_pedido_nombre,
  serializar_pedido_modo_nombre, serializar_pedido_leer_archivo, serializar_pedido_escribir_archivo,
  serializar_pedido_truncar_archivo, deserializar_pedido_nombre, deserializar_pedido_modo_nombre,
  deserializar_pedido_leer_archivo, deserializar_pedido_escribir_archivo,
  deserializar_pedido_truncar_archivo,
}
use la_liga_de_la_justicia.Wire.Frames.{take_all, request-IsReceived}
use la_liga_de_la_justicia.Wire.Requests.{
  pedido_nombre_roundtrip, pedido_modo_nombre_roundtrip, pedido_leer_archivo_roundtrip,
  pedido_escribir_archivo_roundtrip, pedido_truncar_archivo_roundtrip,
}
use la_liga_de_la_justicia.Client.{Pedido, enviado}
use la_liga_de_la_justicia.Server.Tasks.{
  Task, Params, no_params, c_text, made, generar_task, atender,
}
use la_liga_de_la_justicia.Server.Tasks

-- The task for a request.
unfoldable pub tarea : (socket : ℕ) → Pedido → Task
tarea s (Pedido.crear_archivo path mode) = record {
  params = record (no_params path s) { mode = mode; file = true };
  run = Tasks.create_file_dir;
  deliver_response = Tasks.crear_archivo_response;
}
tarea s (Pedido.abrir_archivo path) = record {
  params = no_params path s;
  run = Tasks.open_file;
  deliver_response = Tasks.abrir_archivo_response;
}
tarea s (Pedido.leer_archivo path size offset) = record {
  params = record (no_params path s) { bytes_to_read = size; offset = offset };
  run = Tasks.read_file;
  deliver_response = Tasks.leer_archivo_response;
}
tarea s (Pedido.escribir_archivo path buffer offset) = record {
  params = record (no_params path s) {
    offset = offset;
    bytes_to_write = length buffer;
    write_buffer = buffer;
  };
  run = Tasks.write_file;
  deliver_response = Tasks.escribir_archivo_response;
}
tarea s (Pedido.truncar_archivo path size) = record {
  params = record (no_params path s) { size = size };
  run = Tasks.truncate_file;
  deliver_response = Tasks.truncar_archivo_response;
}
tarea s (Pedido.eliminar_archivo path) = record {
  params = no_params path s;
  run = Tasks.delete_file;
  deliver_response = Tasks.eliminar_archivo_response;
}
tarea s (Pedido.crear_directorio path mode) = record {
  params = record (no_params path s) { mode = mode; file = false };
  run = Tasks.create_file_dir;
  deliver_response = Tasks.crear_directorio_response;
}
tarea s (Pedido.leer_directorio path) = record {
  params = no_params path s;
  run = Tasks.list_directory;
  deliver_response = Tasks.listar_directorio_response;
}
tarea s (Pedido.eliminar_directorio path) = record {
  params = no_params path s;
  run = Tasks.delete_dir;
  deliver_response = Tasks.eliminar_directorio_response;
}
tarea s (Pedido.obtener_atributos path) = record {
  params = no_params path s;
  run = Tasks.getattr;
  deliver_response = Tasks.obtener_atributos_response;
}

c_text-c_string : (path : List ℕ) → has 0 path ≡ false → c_text (c_string path) ≡ path
unfolding c_text
c_text-c_string [] h = refl
c_text-c_string (x ∷ xs) h =
    let t : (x == 0) ≡ false = ground (arith, h) in
    rw (t, c_text-c_string xs (ground (arith, h))) refl

module _ (s : ℕ) (w : Widths) where
  -- A request without its frame.
  atender-request :
      (tipo : ℕ) (body : List ℕ)
      → tipo < 256
      → length body < 65536
      → atender s w (request tipo body).bytes ≡ generar_task s w body (length body) tipo
  unfolding atender
  atender-request tipo body h k =
      let r = request-IsReceived tipo body h k in
      rw (r.header, r.body, take_all (length body) body refl) refl

  -- What was read off a whole message can be read off its payload.
  payload_of :
      {R : Type 0} (D : List ℕ → ℕ → Option R)
      → (tipo : ℕ) (body : List ℕ) → tipo < 256
      → length body < 65536
      → D body (length body)
        ≡ D
            (drop 3 (request tipo body).bytes)
            (deserializar_header (request tipo body).bytes).payload_longitud
  payload_of D tipo body h k =
      let r = request-IsReceived tipo body h k in
      ap (λ b. D b (length body)) (sym r.body)
      ∙ ap (λ x. D (drop 3 (request tipo body).bytes) x.payload_longitud) (sym r.header)

  nombre_read :
      (tipo : ℕ) (path : List ℕ)
      → tipo < 256
      → length path + 1 < 65536
      → deserializar_pedido_nombre (c_string path) (length (c_string path))
        ≡ some record { content = c_string path; past = 0 }
  unfolding serializar_pedido_nombre
  nombre_read tipo path h l =
      let n = length-append path (0 ∷ []) in
      payload_of deserializar_pedido_nombre tipo (c_string path) h (omega (arith, n, l))
      ∙ (pedido_nombre_roundtrip tipo path h l).1

  modo_read :
      (tipo modo : ℕ) (path : List ℕ)
      → tipo < 256
      → modo < 256 ^ w.mode_t
      → w.mode_t + length path + 1 < 65536
      → let body = le w.mode_t modo ++ c_string path in
        (length body < 65536)
        × (deserializar_pedido_modo_nombre w body (length body)
            ≡ some
                record { modo = modo; modo_archivo = record { content = c_string path; past = 0 } })
  unfolding serializar_pedido_modo_nombre
  modo_read tipo modo path h k l =
      let body = le w.mode_t modo ++ c_string path in
      let n1 = length-append (le w.mode_t modo) (c_string path) in
      let n2 = length-append path (0 ∷ []) in
      let n3 = length-le w.mode_t modo in
      let n : length body < 65536 = omega (arith, n1, n2, n3, l) in
      (
        n,
        payload_of (deserializar_pedido_modo_nombre w) tipo body h n
            ∙ (pedido_modo_nombre_roundtrip w tipo modo path h k l).1,
      )

  leer_read :
      (size offset : ℕ) (path : List ℕ)
      → size < 256 ^ w.size_t
      → offset < 256 ^ w.off_t
      → w.size_t + w.off_t + length path + 1 < 65536
      → let body = le w.size_t size ++ (le w.off_t offset ++ c_string path) in
        (length body < 65536)
        × (deserializar_pedido_leer_archivo w body (length body)
            ≡ some record {
              leer_size = size;
              leer_offset = offset;
              leer_archivo = record { content = c_string path; past = 0 };
            })
  unfolding serializar_pedido_leer_archivo
  leer_read size offset path k1 k2 l =
      let tail = le w.off_t offset ++ c_string path in
      let body = le w.size_t size ++ tail in
      let n1 = length-append (le w.size_t size) tail in
      let n2 = length-append (le w.off_t offset) (c_string path) in
      let n3 = length-append path (0 ∷ []) in
      let n : length body < 65536 =
        omega (arith, n1, n2, n3, length-le w.size_t size, length-le w.off_t offset, l) in
      (
        n,
        payload_of (deserializar_pedido_leer_archivo w) 2 body (omega arith) n
            ∙ (pedido_leer_archivo_roundtrip w size offset path k1 k2 l).1,
      )

  escribir_read :
      (offset : ℕ) (path buffer : List ℕ)
      → length buffer < 256 ^ w.size_t
      → offset < 256 ^ w.off_t
      → w.size_t + w.off_t + length buffer + length path + 1 < 65536
      → let body =
          le w.size_t (length buffer)
          ++ (le w.off_t offset ++ (take (length buffer) buffer ++ c_string path)) in
        (length body < 65536)
        × (deserializar_pedido_escribir_archivo w body (length body)
            ≡ some record {
              escribir_size = length buffer;
              escribir_offset = offset;
              escribir_buffer = record { content = buffer; past = 0 };
              escribir_archivo = record { content = c_string path; past = 0 };
            })
  unfolding serializar_pedido_escribir_archivo
  escribir_read offset path buffer k1 k2 l =
      let whole = ap length (take_all (length buffer) buffer refl) in
      let inner = take (length buffer) buffer ++ c_string path in
      let tail = le w.off_t offset ++ inner in
      let body = le w.size_t (length buffer) ++ tail in
      let n1 = length-append (le w.size_t (length buffer)) tail in
      let n2 = length-append (le w.off_t offset) inner in
      let n3 = length-append path (0 ∷ []) in
      let n4 = length-append (take (length buffer) buffer) (c_string path) in
      let n : length body < 65536 = omega (
        arith,
        n1,
        n2,
        n3,
        n4,
        whole,
        length-le w.size_t (length buffer),
        length-le w.off_t offset,
        l,
      ) in
      (
        n,
        payload_of (deserializar_pedido_escribir_archivo w) 3 body (omega arith) n
            ∙ (pedido_escribir_archivo_roundtrip w offset path buffer k1 k2 l).1,
      )

  truncar_read :
      (size : ℕ) (path : List ℕ)
      → size < 256 ^ w.size_t
      → w.size_t + length path + 1 < 65536
      → let body = le w.size_t size ++ c_string path in
        (length body < 65536)
        × (deserializar_pedido_truncar_archivo w body (length body)
            ≡ some record {
              truncar_size = size;
              truncar_archivo = record { content = c_string path; past = 0 };
            })
  unfolding serializar_pedido_truncar_archivo
  truncar_read size path k l =
      let body = le w.size_t size ++ c_string path in
      let n1 = length-append (le w.size_t size) (c_string path) in
      let n2 = length-append path (0 ∷ []) in
      let n : length body < 65536 = omega (arith, n1, n2, length-le w.size_t size, l) in
      (
        n,
        payload_of (deserializar_pedido_truncar_archivo w) 5 body (omega arith) n
            ∙ (pedido_truncar_archivo_roundtrip w size path k l).1,
      )

  -- A path that a client can send, with `more` bytes beside it.
  abbrev Sent : (more : ℕ) → List ℕ → Type 0
  Sent more path = (has 0 path ≡ false) × (more + length path + 1 < 65536)

  -- The bounds of a request: a path without a 0, a payload below 2 ^ 16 bytes, a mode of its type's width, and
  -- sizes and offsets that the types of the client and the server hold.
  unfoldable pub Fits : Pedido → Type 0
  Fits (Pedido.crear_archivo path mode) = Sent w.mode_t path × (mode < 256 ^ w.mode_t)
  Fits (Pedido.abrir_archivo path) = Sent 0 path
  Fits (Pedido.leer_archivo path size offset) =
      Sent (w.size_t + w.off_t) path
      × (size < 256 ^ w.size_t)
      × (offset < 256 ^ w.off_t)
      × (size < 4294967296)
      × (offset < 4294967296)
  Fits (Pedido.escribir_archivo path buffer offset) =
      Sent (w.size_t + w.off_t + length buffer) path
      × (length buffer < 256 ^ w.size_t)
      × (offset < 256 ^ w.off_t)
      × (offset < 4294967296)
  Fits (Pedido.truncar_archivo path size) =
      Sent w.size_t path × (size < 256 ^ w.size_t) × (size < 18446744073709551616)
  Fits (Pedido.eliminar_archivo path) = Sent 0 path
  Fits (Pedido.crear_directorio path mode) = Sent w.mode_t path × (mode < 256 ^ w.mode_t)
  Fits (Pedido.leer_directorio path) = Sent 0 path
  Fits (Pedido.eliminar_directorio path) = Sent 0 path
  Fits (Pedido.obtener_atributos path) = Sent 0 path

  nombre-Sent :
      (tipo : ℕ) (path : List ℕ)
      → tipo < 256
      → Sent 0 path
      → (atender s w (serializar_pedido_nombre tipo path).bytes
          ≡ generar_task s w (c_string path) (length (c_string path)) tipo)
        × (deserializar_pedido_nombre (c_string path) (length (c_string path))
            ≡ some record { content = c_string path; past = 0 })
  unfolding serializar_pedido_nombre
  nombre-Sent tipo path h (text, l) = (
    atender-request tipo (c_string path) h (omega (arith, length-append path (0 ∷ []), l)),
    nombre_read tipo path h (omega (arith, l)),
  )

  -- For every request of the client within its bounds, the server reads the message and makes the task for it:
  -- the same path and arguments, the operation that was asked for, and the answer that goes with it.
  pub atender-tarea :
      (p : Pedido) → Fits p → atender s w (enviado w p).bytes ≡ some (some (tarea s p))
  unfolding enviado serializar_pedido_modo_nombre serializar_pedido_leer_archivo
      serializar_pedido_escribir_archivo serializar_pedido_truncar_archivo generar_task Fits tarea
  atender-tarea (Pedido.abrir_archivo path) f =
      let (n, e) = nombre-Sent 1 path (omega arith) f in n ∙ rw (e, c_text-c_string path f.0) refl
  atender-tarea (Pedido.eliminar_archivo path) f =
      let (n, e) = nombre-Sent 4 path (omega arith) f in n ∙ rw (e, c_text-c_string path f.0) refl
  atender-tarea (Pedido.leer_directorio path) f =
      let (n, e) = nombre-Sent 8 path (omega arith) f in n ∙ rw (e, c_text-c_string path f.0) refl
  atender-tarea (Pedido.eliminar_directorio path) f =
      let (n, e) = nombre-Sent 9 path (omega arith) f in n ∙ rw (e, c_text-c_string path f.0) refl
  atender-tarea (Pedido.obtener_atributos path) f =
      let (n, e) = nombre-Sent 10 path (omega arith) f in n ∙ rw (e, c_text-c_string path f.0) refl
  atender-tarea (Pedido.crear_archivo path mode) ((text, l), h) =
      let (n, e) = modo_read 0 mode path (omega arith) h l in
      atender-request 0 (le w.mode_t mode ++ c_string path) (omega arith) n
      ∙ rw (e, c_text-c_string path text) refl
  atender-tarea (Pedido.crear_directorio path mode) ((text, l), h) =
      let (n, e) = modo_read 7 mode path (omega arith) h l in
      atender-request 7 (le w.mode_t mode ++ c_string path) (omega arith) n
      ∙ rw (e, c_text-c_string path text) refl
  atender-tarea (Pedido.leer_archivo path size offset) ((text, l), h, k, hs, ho) =
      let (n, e) = leer_read size offset path h k l in
      let us : u32 size ≡ size = omega arith in
      let uo : u32 offset ≡ offset = omega arith in
      atender-request 2 (le w.size_t size ++ (le w.off_t offset ++ c_string path)) (omega arith) n
      ∙ rw (e, c_text-c_string path text, us, uo) refl
  atender-tarea (Pedido.escribir_archivo path buffer offset) ((text, l), h, k, ho) =
      let (n, e) = escribir_read offset path buffer h k l in
      let us : u32 (length buffer) ≡ length buffer = omega (arith, l) in
      let uo : u32 offset ≡ offset = omega arith in
      atender-request 3
        (le w.size_t (length buffer)
          ++ (le w.off_t offset ++ (take (length buffer) buffer ++ c_string path)))
        (omega arith) n
      ∙ rw (e, c_text-c_string path text, us, uo) refl
  atender-tarea (Pedido.truncar_archivo path size) ((text, l), h, hs) =
      let (n, e) = truncar_read size path h l in
      let us : u64 size ≡ size = omega arith in
      atender-request 5 (le w.size_t size ++ c_string path) (omega arith) n
      ∙ rw (e, c_text-c_string path text, us) refl
