-- ===== src/Client/Session.antt =====
-- The client's listings over a session in which it creates and deletes files, creates directories, and lists them.
use la_liga_de_la_justicia.Base.{
  ℕ, ◌≡◌, ◌≢◌, ◌⊎◌, refl, false, Option, none, some, List, [], ◌∷◌, ◌++◌, has, arith, ◌<◌, length,
  ltb,
}
use la_liga_de_la_justicia.Rfs.BlockCache.{Memcached}
use la_liga_de_la_justicia.Client.{Pedido, tipo_leer_directorio, tipo_respuesta_ok}
use la_liga_de_la_justicia.Server.Answers.{negative, enoent}
use la_liga_de_la_justicia.Client.Cache.{exito, fallo, memcached_library_key, completar}
use la_liga_de_la_justicia.Client.Coherence.{parent, Changes}
use la_liga_de_la_justicia.Client.Listing.{
  Answer, Place, missing, file, directory, Shown, leer_directorio, obtener_atributos, listed,
}

-- What the server has at each path.
abbrev pub Listing : Type 0
Listing = List ℕ → Place

abbrev pub IsDirectory : Place → Type 0
IsDirectory place = (text : List ℕ) × (place ≡ directory text)

-- What is shown is what the server has: its listing, or that there is none.
pub data IsCurrent : Place → Shown → Type 0 where
  none_there : {v : Shown} → v.resultado ≡ fallo 2 → IsCurrent missing v
  same_text :
      {v : Shown} {text : List ℕ}
      → v.resultado ≡ exito
      → v.text ≡ text
      → IsCurrent (directory text) v

text_in : Place → List ℕ
text_in missing = []
text_in file = []
text_in (directory text) = text

pub directory≢file : (t : List ℕ) → directory t ≢ file
directory≢file t e = cc

pub missing≢directory : (t : List ℕ) → missing ≢ directory t
missing≢directory t e = cc

module _ (m : Memcached (List ℕ)) where
  open m use {State, memcached_get, memcached_set, memcached_delete, get-set, get-delete}

  -- A listing that the cache has is the server's.
  abbrev pub IsCoherent : Listing → State → Type 0
  IsCoherent l s =
      (p v : List ℕ)
      → memcached_get s (memcached_library_key tipo_leer_directorio p) ≡ some v
      → l p ≡ directory v

  -- A session that starts with an empty cache, each operation of which ends before the next one starts. A change of the component `name` of the directory `dir` changes what the
  -- server has at that directory, and at paths that were no directories.
  pub data Session : Listing → State → Type 0 where
    starts : {l : Listing} {s : State} → ((k : List ℕ) → memcached_get s k ≡ none) → Session l s
    lists :
        {l : Listing} {s s' : State} (p : List ℕ) (servidor : Answer) (v : Shown)
        → Session l s
        → listed p (l p) ≡ some servidor
        → leer_directorio m p servidor s ≡ some (v, s')
        → Session l s'
    describes :
        {l : Listing} {s s' : State} (p : List ℕ) (servidor : Answer) (v : Shown)
        → Session l s
        → obtener_atributos m p servidor s ≡ some (v, s')
        → Session l s'
    changes :
        {l l' : Listing} {s s' : State} (dir name payload : List ℕ) (pedido : Pedido)
        → Session l s
        → has 47 name ≡ false
        → Changes (dir ++ 47 ∷ name) pedido
        → ((p : List ℕ) → p ≢ parent dir → (¬ (IsDirectory (l p))) ⊎ (l' p ≡ l p))
        → completar m pedido tipo_respuesta_ok payload s ≡ some (exito, s')
        → Session l' s'

  -- What a listing does to a coherent cache, with what the server answers.
  abbrev Listed :
      (l : Listing) (s : State) (p : List ℕ) (place : Place) (servidor : Answer) → Type 0
  Listed l s p place servidor =
      (v : Shown) × (s' : State) × (leer_directorio m p servidor s ≡ some (v, s'))
      × IsCurrent place v
      × IsCoherent l s'

  answered :
      (p : List ℕ) (place : Place)
      → length p < 40
      → place ≢ file
      → (servidor : Answer) × (listed p place ≡ some servidor)
  unfolding listed
  answered p missing short h =
      let t : ltb 40 (length p) ≡ false = ground (arith, short) in
      ((negative enoent, []), rw t refl)
  answered p file short h = absurd (h refl)
  answered p (directory text) short h =
      let t : ltb 40 (length p) ≡ false = ground (arith, short) in
      ((tipo_respuesta_ok, text), rw t refl)
