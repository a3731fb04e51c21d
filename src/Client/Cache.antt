-- ===== src/Client/Cache.antt =====
-- The client's cache: `get_previus_path` of fsc/sources_FSC/operaciones_fuse.c and `memcached_library_key` of
-- fsc/sources_FSC/manejador_memcached.c, and what each operation does with the answer of the server.
use la_liga_de_la_justicia.Base.{
  ℕ, ◌-◌, Bool, ◌||◌, Option, none, some, List, [], ◌∷◌, ◌==◌, if◌then◌else◌,
}
use la_liga_de_la_justicia.Rfs.BlockCache.{Memcached}
use la_liga_de_la_justicia.Server.Answers.{negative, enoent, eexist, enametoolong}
use la_liga_de_la_justicia.Client
use la_liga_de_la_justicia.Client.{Pedido, tipo_leer_directorio, tipo_obtener_atributos}

-- What stands before the last '/', if there is one.
unfoldable pub before_last : List ℕ → Option (List ℕ)
before_last [] = none
before_last (x ∷ xs) = elim (before_last xs) [
  | none ↦ if x == 47 then some [] else none
  | some p ↦ some (x ∷ p)
]

-- The directory of a path. A path without '/' is read through NULL: `none`.
unfoldable pub get_previus_path : List ℕ → Option (List ℕ)
unfolding before_last
get_previus_path path = elim (before_last path) [
  | none ↦ none
  | some [] ↦ some (47 ∷ [])
  | some (x ∷ xs) ↦ some (x ∷ xs)
]

-- "dir-" and "attr-" before the path.
unfoldable pub memcached_library_key : (tipo : ℕ) → List ℕ → List ℕ
memcached_library_key tipo path =
    if tipo == tipo_leer_directorio
    then 100 ∷ 105 ∷ 114 ∷ 45 ∷ path
    else 97 ∷ 116 ∷ 116 ∷ 114 ∷ 45 ∷ path

-- What the operation returns to FUSE: 0 or a count, or the error.
pub data Resultado : Type 0 where
  exito : Resultado
  fallo : (error : ℕ) → Resultado

-- The test that each operation makes on the type of the answer.
abbrev pub checked : (first : ℕ) → (tipo : ℕ) → Bool
checked first tipo = (tipo == negative first) || (tipo == negative enametoolong)

module _ (m : Memcached (List ℕ)) where
  open m use {State, memcached_set, memcached_delete}

  -- The listing of the directory that holds the path goes from the cache.
  unfoldable pub forget_listing : List ℕ → State → Option (Resultado × State)
  unfolding get_previus_path memcached_library_key
  forget_listing path s = elim (get_previus_path path) [
    | none ↦ none
    | some previus ↦
        some (exito, memcached_delete s (memcached_library_key tipo_leer_directorio previus))
  ]

  -- Each operation from the answer on: its type and its payload.
  abbrev pub completar_crear_archivo :
      (path : List ℕ) → (tipo : ℕ) → State → Option (Resultado × State)
  completar_crear_archivo path tipo s =
      if checked eexist tipo then some (fallo (256 - tipo), s) else forget_listing path s

  abbrev pub completar_abrir_archivo :
      (path : List ℕ) → (tipo : ℕ) → State → Option (Resultado × State)
  completar_abrir_archivo path tipo s =
      if checked enoent tipo then some (fallo (256 - tipo), s) else some (exito, s)

  abbrev pub completar_leer_archivo :
      (path : List ℕ) → (tipo : ℕ) → State → Option (Resultado × State)
  completar_leer_archivo path tipo s =
      if checked enoent tipo then some (fallo (256 - tipo), s) else some (exito, s)

  abbrev pub completar_escribir_archivo :
      (path : List ℕ) → (tipo : ℕ) → State → Option (Resultado × State)
  completar_escribir_archivo path tipo s =
      if checked enoent tipo then some (fallo (256 - tipo), s) else some (exito, s)

  abbrev pub completar_truncar_archivo :
      (path : List ℕ) → (tipo : ℕ) → State → Option (Resultado × State)
  completar_truncar_archivo path tipo s =
      if checked enoent tipo
      then some (fallo (256 - tipo), s)
      else some (exito, memcached_delete s (memcached_library_key tipo_obtener_atributos path))

  abbrev pub completar_eliminar_archivo :
      (path : List ℕ) → (tipo : ℕ) → State → Option (Resultado × State)
  completar_eliminar_archivo path tipo s =
      if checked enoent tipo then some (fallo (256 - tipo), s) else forget_listing path s

  abbrev pub completar_crear_directorio :
      (path : List ℕ) → (tipo : ℕ) → State → Option (Resultado × State)
  completar_crear_directorio path tipo s =
      if checked eexist tipo then some (fallo (256 - tipo), s) else forget_listing path s

  abbrev pub completar_leer_directorio :
      (path : List ℕ) → (tipo : ℕ) → (payload : List ℕ) → State → Option (Resultado × State)
  completar_leer_directorio path tipo payload s =
      if checked enoent tipo
      then some (fallo (256 - tipo), s)
      else some (exito, memcached_set s (memcached_library_key tipo_leer_directorio path) payload)

  abbrev pub completar_eliminar_directorio :
      (path : List ℕ) → (tipo : ℕ) → State → Option (Resultado × State)
  completar_eliminar_directorio path tipo s =
      if checked enoent tipo then some (fallo (256 - tipo), s) else forget_listing path s

  abbrev pub completar_obtener_atributos :
      (path : List ℕ) → (tipo : ℕ) → (payload : List ℕ) → State → Option (Resultado × State)
  completar_obtener_atributos path tipo payload s =
      if checked enoent tipo
      then some (fallo (256 - tipo), s)
      else some (exito, memcached_set s (memcached_library_key tipo_obtener_atributos path) payload)

  unfoldable pub completar :
      Pedido → (tipo : ℕ) → (payload : List ℕ) → State → Option (Resultado × State)
  unfolding forget_listing memcached_library_key
  completar (Client.crear_archivo path mode) tipo payload s = completar_crear_archivo path tipo s
  completar (Client.abrir_archivo path) tipo payload s = completar_abrir_archivo path tipo s
  completar (Client.leer_archivo path size offset) tipo payload s =
      completar_leer_archivo path tipo s
  completar (Client.escribir_archivo path buffer offset) tipo payload s =
      completar_escribir_archivo path tipo s
  completar (Client.truncar_archivo path size) tipo payload s =
      completar_truncar_archivo path tipo s
  completar (Client.eliminar_archivo path) tipo payload s = completar_eliminar_archivo path tipo s
  completar (Client.crear_directorio path mode) tipo payload s =
      completar_crear_directorio path tipo s
  completar (Client.leer_directorio path) tipo payload s =
      completar_leer_directorio path tipo payload s
  completar (Client.eliminar_directorio path) tipo payload s =
      completar_eliminar_directorio path tipo s
  completar (Client.obtener_atributos path) tipo payload s =
      completar_obtener_atributos path tipo payload s
