-- ===== src/Server/Tasks.antt =====
-- From a message to a task: the `switch` of rfs/main.c and the functions `generar_task_…` of
-- rfs/source_RFS/procesador_de_pedidos.c.
pub mod Requests
use la_liga_de_la_justicia.Base.{
  ℕ, ◌%◌, Bool, true, false, Option, none, some, List, [], ◌∷◌, ◌==◌, if◌then◌else◌, take, drop,
}
use la_liga_de_la_justicia.Rfs.Geometry.{u32, u64}
use la_liga_de_la_justicia.Wire.Messages.{
  Widths, Header, Buffer, PedidoModoNombre, PedidoLeer, PedidoEscribir, PedidoTruncar,
  deserializar_header, deserializar_pedido_nombre, deserializar_pedido_modo_nombre,
  deserializar_pedido_leer_archivo, deserializar_pedido_escribir_archivo,
  deserializar_pedido_truncar_archivo,
}

-- The functions that `run` and `deliver_response` point to.
pub data Run : Type 0 where
  list_directory : Run
  read_file : Run
  getattr : Run
  create_file_dir : Run
  write_file : Run
  delete_file : Run
  delete_dir : Run
  truncate_file : Run
  open_file : Run

pub data Deliver : Type 0 where
  listar_directorio_response : Deliver
  leer_archivo_response : Deliver
  obtener_atributos_response : Deliver
  crear_archivo_response : Deliver
  escribir_archivo_response : Deliver
  crear_directorio_response : Deliver
  eliminar_archivo_response : Deliver
  eliminar_directorio_response : Deliver
  truncar_archivo_response : Deliver
  abrir_archivo_response : Deliver

-- `params_t`; `calloc` leaves 0 in what is not set, and `file` says whether a file is created or a directory.
pub record Params : Type 0 where
  pub path : List ℕ
  pub mode : ℕ
  pub write_buffer : List ℕ
  pub file : Bool
  pub offset : ℕ
  pub bytes_to_read : ℕ
  pub bytes_to_write : ℕ
  pub size : ℕ
  pub socket : ℕ

-- `task_t`.
pub record Task : Type 0 where
  pub params : Params
  pub run : Run
  pub deliver_response : Deliver

-- The characters of a C string.
unfoldable pub c_text : List ℕ → List ℕ
c_text [] = []
c_text (x ∷ xs) = let rest = c_text xs in if x == 0 then [] else x ∷ rest

abbrev pub no_params : (path : List ℕ) → (socket : ℕ) → Params
no_params path socket = record {
  path = path;
  mode = 0;
  write_buffer = [];
  file = false;
  offset = 0;
  bytes_to_read = 0;
  bytes_to_write = 0;
  size = 0;
  socket = socket;
}

abbrev pub made : Option Task → Option (Option Task)
made none = none
made (some task) = some (some task)

-- Reading through the NULL of a refused `calloc` is a crash: `none`.
module _ (cliente : ℕ) where
  abbrev pub task_nombre : Run → Deliver → Option Buffer → Option Task
  task_nombre run deliver none = none
  task_nombre run deliver (some pedido) = some record {
    params = no_params (c_text pedido.content) cliente;
    run = run;
    deliver_response = deliver;
  }

  abbrev pub task_modo_nombre : (file : Bool) → Deliver → Option PedidoModoNombre → Option Task
  task_modo_nombre file deliver none = none
  task_modo_nombre file deliver (some pedido) = some record {
    params = record (no_params (c_text pedido.modo_archivo.content) cliente) {
      mode = pedido.modo;
      file = file;
    };
    run = create_file_dir;
    deliver_response = deliver;
  }

  abbrev pub task_leer : Option PedidoLeer → Option Task
  task_leer none = none
  task_leer (some pedido) = some record {
    params = record (no_params (c_text pedido.leer_archivo.content) cliente) {
      bytes_to_read = u32 pedido.leer_size;
      offset = u32 pedido.leer_offset;
    };
    run = read_file;
    deliver_response = leer_archivo_response;
  }

  abbrev pub task_escribir : Option PedidoEscribir → Option Task
  task_escribir none = none
  task_escribir (some pedido) = some record {
    params = record (no_params (c_text pedido.escribir_archivo.content) cliente) {
      offset = u32 pedido.escribir_offset;
      bytes_to_write = u32 pedido.escribir_size;
      write_buffer = pedido.escribir_buffer.content;
    };
    run = write_file;
    deliver_response = escribir_archivo_response;
  }

  abbrev pub task_truncar : Option PedidoTruncar → Option Task
  task_truncar none = none
  task_truncar (some pedido) = some record {
    params = record (no_params (c_text pedido.truncar_archivo.content) cliente) {
      size = u64 pedido.truncar_size;
    };
    run = truncate_file;
    deliver_response = truncar_archivo_response;
  }

  module _ (w : Widths) (payload : List ℕ) (longitud : ℕ) where
    abbrev pub generar_task_crear_archivo : Option Task
    generar_task_crear_archivo =
        task_modo_nombre true crear_archivo_response
          (deserializar_pedido_modo_nombre w payload longitud)

    abbrev pub generar_task_crear_directorio : Option Task
    generar_task_crear_directorio =
        task_modo_nombre false crear_directorio_response
          (deserializar_pedido_modo_nombre w payload longitud)

    abbrev pub generar_task_abrir_archivo : Option Task
    generar_task_abrir_archivo =
        task_nombre open_file abrir_archivo_response (deserializar_pedido_nombre payload longitud)

    abbrev pub generar_task_leer_archivo : Option Task
    generar_task_leer_archivo = task_leer (deserializar_pedido_leer_archivo w payload longitud)

    abbrev pub generar_task_escribir_archivo : Option Task
    generar_task_escribir_archivo =
        task_escribir (deserializar_pedido_escribir_archivo w payload longitud)

    abbrev pub generar_task_eliminar_archivo : Option Task
    generar_task_eliminar_archivo =
        task_nombre delete_file eliminar_archivo_response
          (deserializar_pedido_nombre payload longitud)

    abbrev pub generar_task_eliminar_directorio : Option Task
    generar_task_eliminar_directorio =
        task_nombre delete_dir eliminar_directorio_response
          (deserializar_pedido_nombre payload longitud)

    abbrev pub generar_task_truncar_archivo : Option Task
    generar_task_truncar_archivo =
        task_truncar (deserializar_pedido_truncar_archivo w payload longitud)

    abbrev pub generar_task_obtener_atributos : Option Task
    generar_task_obtener_atributos =
        task_nombre getattr obtener_atributos_response (deserializar_pedido_nombre payload longitud)

    abbrev pub generar_task_listar_directorio : Option Task
    generar_task_listar_directorio =
        task_nombre list_directory listar_directorio_response
          (deserializar_pedido_nombre payload longitud)

    -- What the `switch` leaves in `tarea`: for a type without a case the pointer keeps what the stack held,
    -- which is the inner `none`.
    unfoldable pub generar_task : (tipo : ℕ) → Option (Option Task)
    generar_task tipo =
        if tipo == 0
        then made generar_task_crear_archivo
        else if tipo == 7
        then made generar_task_crear_directorio
        else if tipo == 1
        then made generar_task_abrir_archivo
        else if tipo == 2
        then made generar_task_leer_archivo
        else if tipo == 3
        then made generar_task_escribir_archivo
        else if tipo == 4
        then made generar_task_eliminar_archivo
        else if tipo == 9
        then made generar_task_eliminar_directorio
        else if tipo == 5
        then made generar_task_truncar_archivo
        else if tipo == 10
        then made generar_task_obtener_atributos
        else if tipo == 8
        then made generar_task_listar_directorio
        else some none

  -- A message from the socket: three bytes of header, then as many bytes as it says.
  unfoldable pub atender : Widths → List ℕ → Option (Option Task)
  unfolding generar_task
  atender w message =
      let header = deserializar_header message in
      generar_task w (take header.payload_longitud (drop 3 message)) header.payload_longitud
        header.tipo
