-- ===== src/Tests/Requests.antt =====
-- Requests from the client to the worker, and what the client makes of the answers.
use la_liga_de_la_justicia.Base.{ℕ, ◌≡◌, refl, none, some, List, [], ◌∷◌, arith}
use la_liga_de_la_justicia.Server.Answers.{enoent}
use la_liga_de_la_justicia.Server.Tasks.{no_params, atender, write_file, escribir_archivo_response}
use la_liga_de_la_justicia.Server.Tasks.Requests.{Fits, tarea, atender-tarea}
use la_liga_de_la_justicia.Client
use la_liga_de_la_justicia.Client.{Pedido, enviado, tipo_leer_directorio, tipo_respuesta_ok}
use la_liga_de_la_justicia.Client.Cache.{exito, memcached_library_key}
use la_liga_de_la_justicia.Client.Coherence.{deletes, failed, failed-exito}
use la_liga_de_la_justicia.Tests.CacheModel.{Table, table}
use la_liga_de_la_justicia.Tests.WireMessages.{x86_64}

-- "/d", and "/d/f".
abbrev directory : List ℕ
directory = 47 ∷ 100 ∷ []

abbrev file_path : List ℕ
file_path = 47 ∷ 100 ∷ 47 ∷ 102 ∷ []

-- Four bytes to be written at 300.
abbrev write_request : Pedido
write_request = Client.escribir_archivo file_path (1 ∷ 0 ∷ 2 ∷ 255 ∷ []) 300

atender-tarea_example :
    atender 5 x86_64 (enviado x86_64 write_request).bytes
    ≡ some (
        some record {
          params = record (no_params file_path 5) {
            offset = 300;
            bytes_to_write = 4;
            write_buffer = 1 ∷ 0 ∷ 2 ∷ 255 ∷ [];
          };
          run = write_file;
          deliver_response = escribir_archivo_response;
        })
unfolding Fits tarea
atender-tarea_example =
    atender-tarea 5 x86_64 write_request
      ((refl, omega arith), omega arith, omega arith, omega arith)

-- A client whose cache is empty.
abbrev no_values : Table (List ℕ)
no_values _ = none

failed-exito_example :
    failed table (Client.eliminar_archivo file_path) 2 no_values
    ≡ some (
      exito,
      table.memcached_delete no_values (memcached_library_key tipo_leer_directorio directory),
    )
failed-exito_example =
    failed-exito table no_values directory (102 ∷ []) refl (Client.eliminar_archivo file_path)
      enoent deletes (omega arith)
