-- ===== src/Server/Answers.antt =====
-- The answers of the workers: the functions `…_response` of rfs/source_RFS/procesador_de_pedidos.c, as far as
-- the type of the answer goes, which is a byte.
use la_liga_de_la_justicia.Base.{ℕ, Bool, true, false, ◌==◌, if◌then◌else◌, ◌-◌}
use la_liga_de_la_justicia.Server.Tasks.{
  Run, list_directory, read_file, getattr, create_file_dir, write_file, delete_file, delete_dir,
  truncate_file, open_file, Deliver, listar_directorio_response, leer_archivo_response,
  obtener_atributos_response, crear_archivo_response, escribir_archivo_response,
  crear_directorio_response, eliminar_archivo_response, eliminar_directorio_response,
  truncar_archivo_response, abrir_archivo_response,
}

abbrev pub enoent : ℕ
enoent = 2

abbrev pub eexist : ℕ
eexist = 17

abbrev pub enospc : ℕ
enospc = 28

abbrev pub enametoolong : ℕ
enametoolong = 36

abbrev pub respuesta_ok : ℕ
respuesta_ok = 14

-- `-error` as an `int8_t`.
abbrev pub negative : ℕ → ℕ
negative error = 256 - error

-- Whether an operation of rfs/source_RFS/file_operations.c sets `result->data` before it looks at the inode, so
-- that it is set also when the operation fails.
unfoldable pub sets_data : Run → Bool
sets_data list_directory = false
sets_data read_file = false
sets_data getattr = false
sets_data create_file_dir = true
sets_data write_file = false
sets_data delete_file = true
sets_data delete_dir = true
sets_data truncate_file = true
sets_data open_file = true

-- Whether the worker's result has data when the operation did not find its file or refused; a path that is too
-- long is not handed to the operation, and has none.
unfoldable pub failed_data : Run → (error : ℕ) → Bool
unfolding sets_data
failed_data run error = let set = sets_data run in if error == enametoolong then false else set

-- What happens to `respuesta`: it is sent with that type, it is made and not sent, or it was never set, so
-- that the function goes on with an arbitrary pointer.
pub data Respuesta : Type 0 where
  sent : (tipo : ℕ) → Respuesta
  withheld : Respuesta
  unset : Respuesta

-- The two errors that the answers know, with what they answer to the first.
abbrev pub on_error : (not_found : ℕ) → (error : ℕ) → Respuesta
on_error not_found error =
    if error == enoent
    then sent (negative not_found)
    else if error == enametoolong
    then sent (negative enametoolong)
    else unset

abbrev pub respuesta_listar_directorio : (has_data : Bool) → (error : ℕ) → Respuesta
respuesta_listar_directorio has_data error =
    if has_data then sent respuesta_ok else on_error enoent error

abbrev pub respuesta_leer_archivo : (has_data : Bool) → (error : ℕ) → Respuesta
respuesta_leer_archivo has_data error =
    if has_data
    then sent respuesta_ok
    else if error == enoent
    then withheld
    else if error == enametoolong
    then withheld
    else unset

abbrev pub respuesta_obtener_atributos : (has_data : Bool) → (error : ℕ) → Respuesta
respuesta_obtener_atributos has_data error =
    if has_data then sent respuesta_ok else on_error enoent error

abbrev pub respuesta_crear_archivo : (has_data : Bool) → (error : ℕ) → Respuesta
respuesta_crear_archivo has_data error =
    if has_data then sent respuesta_ok else on_error enoent error

abbrev pub respuesta_escribir_archivo : (has_data : Bool) → (error : ℕ) → Respuesta
respuesta_escribir_archivo has_data error =
    if has_data
    then sent respuesta_ok
    else if error == enospc
    then sent (negative enospc)
    else on_error enoent error

abbrev pub respuesta_crear_directorio : (has_data : Bool) → (error : ℕ) → Respuesta
respuesta_crear_directorio has_data error =
    if has_data then sent respuesta_ok else on_error eexist error

abbrev pub respuesta_eliminar_archivo : (has_data : Bool) → (error : ℕ) → Respuesta
respuesta_eliminar_archivo has_data error =
    if has_data then sent respuesta_ok else on_error eexist error

abbrev pub respuesta_eliminar_directorio : (has_data : Bool) → (error : ℕ) → Respuesta
respuesta_eliminar_directorio has_data error =
    if has_data then sent respuesta_ok else on_error eexist error

abbrev pub respuesta_truncar_archivo : (has_data : Bool) → (error : ℕ) → Respuesta
respuesta_truncar_archivo has_data error =
    if error == enoent
    then sent (negative enoent)
    else if error == enametoolong
    then sent (negative enametoolong)
    else sent respuesta_ok

abbrev pub respuesta_abrir_archivo : (has_data : Bool) → (error : ℕ) → Respuesta
respuesta_abrir_archivo has_data error =
    if error == enoent
    then sent (negative enoent)
    else if error == enametoolong
    then sent (negative enametoolong)
    else sent respuesta_ok

-- What `deliver_response` points to.
unfoldable pub respuesta : Deliver → (has_data : Bool) → (error : ℕ) → Respuesta
respuesta listar_directorio_response has_data error = respuesta_listar_directorio has_data error
respuesta leer_archivo_response has_data error = respuesta_leer_archivo has_data error
respuesta obtener_atributos_response has_data error = respuesta_obtener_atributos has_data error
respuesta crear_archivo_response has_data error = respuesta_crear_archivo has_data error
respuesta escribir_archivo_response has_data error = respuesta_escribir_archivo has_data error
respuesta crear_directorio_response has_data error = respuesta_crear_directorio has_data error
respuesta eliminar_archivo_response has_data error = respuesta_eliminar_archivo has_data error
respuesta eliminar_directorio_response has_data error = respuesta_eliminar_directorio has_data error
respuesta truncar_archivo_response has_data error = respuesta_truncar_archivo has_data error
respuesta abrir_archivo_response has_data error = respuesta_abrir_archivo has_data error
