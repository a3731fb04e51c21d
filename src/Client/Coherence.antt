-- ===== src/Client/Coherence.antt =====
-- What the client makes of failures, and which listings it forgets.
use la_liga_de_la_justicia.Base.{
  ℕ, ◌≡◌, ◌≢◌, refl, ap, ◌∙◌, true, false, Option, none, some, List, [], ◌∷◌, ◌++◌, ◌==◌, has,
  arith,
}
use la_liga_de_la_justicia.Rfs.BlockCache.{Memcached}
use la_liga_de_la_justicia.Server.Answers.{
  Respuesta, respuesta, failed_data, sets_data, sent, withheld, unset, enametoolong,
}
use la_liga_de_la_justicia.Server.Tasks.{Run}
use la_liga_de_la_justicia.Server.Tasks.Requests.{tarea}
use la_liga_de_la_justicia.Rfs.Remove.Direct.{absent}
use la_liga_de_la_justicia.Client
use la_liga_de_la_justicia.Client.{Pedido, tipo_leer_directorio, tipo_respuesta_ok}
use la_liga_de_la_justicia.Client.Cache.{
  Resultado, exito, before_last, get_previus_path, memcached_library_key, forget_listing, completar,
}

before_last-name : (path : List ℕ) → has 47 path ≡ false → before_last path ≡ none
unfolding before_last
before_last-name [] h = refl
before_last-name (x ∷ xs) h =
    let t : (x == 47) ≡ false = ground (arith, h) in
    rw (before_last-name xs (ground (arith, h)), t) refl

before_last-append :
    (dir name : List ℕ) → has 47 name ≡ false → before_last (dir ++ 47 ∷ name) ≡ some dir
unfolding before_last
before_last-append [] name h = rw (before_last-name name h) refl
before_last-append (x ∷ dir) name h = rw (before_last-append dir name h) refl

abbrev pub parent : List ℕ → List ℕ
parent [] = 47 ∷ []
parent (x ∷ xs) = x ∷ xs

-- The directory of a path is what stands before its last component, and "/" for a component of the root.
pub get_previus_path-append :
    (dir name : List ℕ)
    → has 47 name ≡ false
    → get_previus_path (dir ++ 47 ∷ name) ≡ some (parent dir)
unfolding get_previus_path
get_previus_path-append [] name h = rw (before_last-append [] name h, get_previus_path) refl
get_previus_path-append (x ∷ dir) name h =
    rw (before_last-append (x ∷ dir) name h, get_previus_path) refl

-- The client on what the server did for its answer. `none` where the client gets no answer, or the server
-- goes on with an arbitrary pointer.
unfoldable pub answered :
    (m : Memcached (List ℕ)) → Pedido → Respuesta → m.State → Option (Resultado × m.State)
unfolding completar
answered m p (sent tipo) s = completar m p tipo [] s
answered m p withheld s = none
answered m p unset s = none

-- What the client returns when the server's operation failed with that error.
unfoldable pub failed :
    (m : Memcached (List ℕ)) → Pedido → (error : ℕ) → m.State → Option (Resultado × m.State)
unfolding answered respuesta tarea failed_data
failed m p error s =
    answered m p (respuesta (tarea 0 p).deliver_response (failed_data (tarea 0 p).run error) error)
      s

-- The operations that look for a file and do not read, create or delete it.
pub data Reports : Pedido → Type 0 where
  opens : (path : List ℕ) → Reports (Client.abrir_archivo path)
  writes :
      (path buffer : List ℕ) (offset : ℕ) → Reports (Client.escribir_archivo path buffer offset)
  truncates : (path : List ℕ) (size : ℕ) → Reports (Client.truncar_archivo path size)
  lists : (path : List ℕ) → Reports (Client.leer_directorio path)
  describes : (path : List ℕ) → Reports (Client.obtener_atributos path)

failed_data-sets_data :
    (run : Run) (error : ℕ) → error ≢ enametoolong → failed_data run error ≡ sets_data run
unfolding failed_data
failed_data-sets_data run error ne =
    let t : (error == enametoolong) ≡ false = ground arith in rw t refl

-- The operations that change what a directory lists.
pub data Changes (path : List ℕ) : Pedido → Type 0 where
  creates : (mode : ℕ) → Changes path (Client.crear_archivo path mode)
  deletes : Changes path (Client.eliminar_archivo path)
  makes : (mode : ℕ) → Changes path (Client.crear_directorio path mode)
  removes : Changes path (Client.eliminar_directorio path)

module _ (m : Memcached (List ℕ)) (s : m.State) (dir name : List ℕ) (h : has 47 name ≡ false) where
  abbrev pub forgotten : m.State
  forgotten = m.memcached_delete s (memcached_library_key tipo_leer_directorio (parent dir))

  forget_listing-append : forget_listing m (dir ++ 47 ∷ name) s ≡ some (exito, forgotten)
  unfolding forget_listing
  forget_listing-append = rw (get_previus_path-append dir name h, forget_listing) refl

  pub completar-forgotten :
      (p : Pedido) (payload : List ℕ)
      → Changes (dir ++ 47 ∷ name) p
      → completar m p tipo_respuesta_ok payload s ≡ some (exito, forgotten)
  unfolding completar
  completar-forgotten p payload (creates mode) = forget_listing-append
  completar-forgotten p payload deletes = forget_listing-append
  completar-forgotten p payload (makes mode) = forget_listing-append
  completar-forgotten p payload removes = forget_listing-append

  -- A file or directory that is created or deleted takes the listing of its directory out of the cache.
  pub completar_forgets :
      (p : Pedido) (payload : List ℕ)
      → Changes (dir ++ 47 ∷ name) p
      → (s' : m.State) × (completar m p tipo_respuesta_ok payload s ≡ some (exito, s'))
        × (m.memcached_get s' (memcached_library_key tipo_leer_directorio (parent dir)) ≡ none)
  completar_forgets p payload c =
      let key = memcached_library_key tipo_leer_directorio (parent dir) in
      (
        forgotten,
        completar-forgotten p payload c,
        absent (m.memcached_get forgotten key) (λ v e. (m.get-delete s key key v e).0 refl),
      )

  -- A creation or deletion that failed, for any reason but a path that is too long, is reported as a success:
  -- the operation has set its data, by which the server answers that all went well.
  pub failed-exito :
      (p : Pedido) (error : ℕ)
      → Changes (dir ++ 47 ∷ name) p
      → error ≢ enametoolong
      → failed m p error s
        ≡ some
            (exito, m.memcached_delete s (memcached_library_key tipo_leer_directorio (parent dir)))
  unfolding failed answered respuesta tarea sets_data
  failed-exito p error c ne = go p c
    where
      set : (run : Run) → sets_data run ≡ true → failed_data run error ≡ true
      set run e = failed_data-sets_data run error ne ∙ e

      go :
          (q : Pedido) → Changes (dir ++ 47 ∷ name) q → failed m q error s ≡ some (exito, forgotten)
      go q (creates mode) =
          ap (λ b. answered m q (respuesta (tarea 0 q).deliver_response b error) s)
            (set (tarea 0 q).run refl)
          ∙ completar-forgotten q [] (creates mode)
      go q deletes =
          ap (λ b. answered m q (respuesta (tarea 0 q).deliver_response b error) s)
            (set (tarea 0 q).run refl)
          ∙ completar-forgotten q [] deletes
      go q (makes mode) =
          ap (λ b. answered m q (respuesta (tarea 0 q).deliver_response b error) s)
            (set (tarea 0 q).run refl)
          ∙ completar-forgotten q [] (makes mode)
      go q removes =
          ap (λ b. answered m q (respuesta (tarea 0 q).deliver_response b error) s)
            (set (tarea 0 q).run refl)
          ∙ completar-forgotten q [] removes
