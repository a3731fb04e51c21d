-- ===== src/Tests/WireMessages.antt =====
-- Messages with the widths of x86-64.
use la_liga_de_la_justicia.Base.{
  append_nil, ℕ, ◌+◌, ◌<◌, ◌≡◌, refl, ap, sym, ◌∙◌, false, ◌++◌, ◌==◌, if◌then◌else◌, has, List, [],
  ◌∷◌, some, drop, arith,
}
use mathlib.Core.List.{cons≢nil}
use la_liga_de_la_justicia.Wire.Messages.{Stream, Widths, deserializar_header}
use la_liga_de_la_justicia.Wire.Replies.{
  Atributos, serializar_respuesta_obtener_atributos, deserializar_respuesta_obtener_atributos,
  serializar_respuesta_leer_directorio, names_length,
}
use la_liga_de_la_justicia.Wire.Directory.{
  StringSplit, text_of, respuesta_leer_directorio_roundtrip,
}
use la_liga_de_la_justicia.Wire.Answers.{respuesta_obtener_atributos_roundtrip}

abbrev pub x86_64 : Widths
x86_64 = record {
  size_t = 8;
  off_t = 8;
  mode_t = 4;
  ino_t = 8;
  nlink_t = 8;
  blksize_t = 8;
  blkcnt_t = 8;
}

-- "/ab"
abbrev nombre : List ℕ
nombre = 47 ∷ 97 ∷ 98 ∷ []

abbrev datos : List ℕ
datos = 1 ∷ 0 ∷ 2 ∷ 255 ∷ []

abbrev atributos : Atributos
atributos = record {
  numero_de_inodo = 2;
  modo_de_inodo = 16877;
  numero_de_hard_links = 3;
  size = 1024;
  tamano_de_bloque = 1024;
  bloques_de_512b = 2;
}

respuesta_obtener_atributos_roundtrip_example :
    let s = serializar_respuesta_obtener_atributos x86_64 14 atributos in
    (s.beyond ≡ 0)
    × ((deserializar_header s.bytes).tipo ≡ 14)
    × (deserializar_respuesta_obtener_atributos x86_64 (drop 3 s.bytes) ≡ atributos)
respuesta_obtener_atributos_roundtrip_example =
    respuesta_obtener_atributos_roundtrip x86_64 14 atributos (omega arith) refl (omega arith)
      (omega arith) (omega arith) (omega arith) (omega arith) (omega arith) (omega arith)

-- A text taken apart at '#', with what was read of the current token.
abbrev emit : (token : List ℕ) → List (List ℕ) → List (List ℕ)
emit [] l = l
emit (x ∷ xs) l = (x ∷ xs) ∷ l

abbrev tokens_of : (token : List ℕ) → List ℕ → List (List ℕ)
tokens_of token [] = emit token []
tokens_of token (x ∷ xs) =
    if x == 35 then emit token (tokens_of [] xs) else tokens_of (token ++ x ∷ []) xs

append_snoc : (xs : List ℕ) (y : ℕ) (ys : List ℕ) → (xs ++ y ∷ []) ++ ys ≡ xs ++ y ∷ ys
append_snoc [] y ys = refl
append_snoc (x ∷ xs) y ys = ap (λ t. x ∷ t) (append_snoc xs y ys)

tokens_of-append :
    (token name rest : List ℕ)
    → has 35 name ≡ false
    → tokens_of token (name ++ rest) ≡ tokens_of (token ++ name) rest
tokens_of-append token [] rest h = ap (λ t. tokens_of t rest) (sym (append_nil token))
tokens_of-append token (x ∷ xs) rest h =
    let t : (x == 35) ≡ false = ground (arith, h) in
    rw t (
      tokens_of-append (token ++ x ∷ []) xs rest (ground (arith, h))
      ∙ ap (λ p. tokens_of p rest) (append_snoc token x xs))

abbrev at_hash : StringSplit 35
at_hash = record {
  string_split = tokens_of [];
  of_empty = refl;
  of_separator = λ rest. refl;
  of_last =
      λ x xs h. ap (tokens_of []) (sym (append_nil (x ∷ xs))) ∙ tokens_of-append [] (x ∷ xs) [] h;
  of_token = λ x xs rest h. tokens_of-append [] (x ∷ xs) (35 ∷ rest) h;
}

names_total : names_length ((97 ∷ []) ∷ (98 ∷ 99 ∷ []) ∷ []) + 1 < 65536
unfolding names_length
names_total = omega arith

respuesta_leer_directorio_roundtrip_example :
    (s : Stream) × (serializar_respuesta_leer_directorio 14 ((97 ∷ []) ∷ (98 ∷ 99 ∷ []) ∷ [])
      ≡ some s)
    × (s.beyond ≡ 0)
    × (at_hash.string_split (text_of (drop 3 s.bytes)) ≡ (97 ∷ []) ∷ (98 ∷ 99 ∷ []) ∷ [])
respuesta_leer_directorio_roundtrip_example =
    respuesta_leer_directorio_roundtrip at_hash 14 (97 ∷ []) ((98 ∷ 99 ∷ []) ∷ [])
      ((refl, refl, λ h. cons≢nil h), ((refl, refl, λ h. cons≢nil h), tt)) names_total
