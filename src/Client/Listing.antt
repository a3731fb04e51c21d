-- ===== src/Client/Listing.antt =====
-- `leer_directorio` and `obtener_atributos` of fsc/sources_FSC/operaciones_fuse.c as a whole: the look into the cache,
-- and the request where it has nothing. The text of a listing is split at "#" and handed to FUSE, and that of attributes
-- is read by `deserializar_respuesta_obtener_atributos`.
use la_liga_de_la_justicia.Base.{
  ℕ, Bool, true, false, Option, none, some, List, [], ltb, leb, length, if◌then◌else◌,
}
use la_liga_de_la_justicia.Rfs.BlockCache.{Memcached}
use la_liga_de_la_justicia.Server.Answers.{negative, enoent, enametoolong}
use la_liga_de_la_justicia.Client.{tipo_leer_directorio, tipo_obtener_atributos, tipo_respuesta_ok}
use la_liga_de_la_justicia.Client.Cache.{
  Resultado, exito, fallo, memcached_library_key, completar_leer_directorio,
  completar_obtener_atributos,
}

-- The type and the payload of the answer of the server.
abbrev pub Answer : Type 0
Answer = ℕ × List ℕ

-- What an operation returns to FUSE, what it shows if it succeeds, and whether it asked the server.
pub record Shown : Type 0 where
  pub resultado : Resultado
  pub text : List ℕ
  pub asked : Bool

unfoldable pub shown : Resultado → (payload : List ℕ) → Shown
shown exito payload = record { resultado = exito; text = payload; asked = true }
shown (fallo error) payload = record { resultado = fallo error; text = []; asked = true }

module _ (m : Memcached (List ℕ)) where
  open m use {State, memcached_get}

  -- `none` where "dir-" and the path, with the 0 behind them, overflow the 44 bytes of `clave`.
  unfoldable pub leer_directorio :
      (path : List ℕ) → (servidor : Answer) → State → Option (Shown × State)
  unfolding memcached_library_key shown
  leer_directorio path (tipo, payload) s =
      if leb 40 (length path)
      then none
      else elim (memcached_get s (memcached_library_key tipo_leer_directorio path)) [
        | some valor_obtenido ↦
            some (record { resultado = exito; text = valor_obtenido; asked = false }, s)
        | none ↦ elim (completar_leer_directorio m path tipo payload s) [
          | none ↦ none
          | some (r, s') ↦ some (shown r payload, s')
        ]
      ]

  unfoldable pub obtener_atributos :
      (path : List ℕ) → (servidor : Answer) → State → Option (Shown × State)
  unfolding memcached_library_key shown
  obtener_atributos path (tipo, payload) s =
      elim (memcached_get s (memcached_library_key tipo_obtener_atributos path)) [
        | some valor_obtenido ↦
            some (record { resultado = exito; text = valor_obtenido; asked = false }, s)
        | none ↦ elim (completar_obtener_atributos m path tipo payload s) [
          | none ↦ none
          | some (r, s') ↦ some (shown r payload, s')
        ]
      ]

-- What the server has at a path.
pub data Place : Type 0 where
  missing : Place
  file : Place
  directory : (text : List ℕ) → Place

-- The server's answer to the listing of a path, if it sends one: for a file, `respuesta` is never set. A path of more
-- than 40 bytes is not looked for.
unfoldable pub listed : (path : List ℕ) → Place → Option Answer
listed path place = if ltb 40 (length path) then some (negative enametoolong, []) else elim place [
  | missing ↦ some (negative enoent, [])
  | file ↦ none
  | directory text ↦ some (tipo_respuesta_ok, text)
]
