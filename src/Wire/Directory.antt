-- ===== src/Wire/Directory.antt =====
-- The answer to the reading of a directory, and how the client takes it apart.
use la_liga_de_la_justicia.Base.{
  ℕ, zero, suc, ◌+◌, ◌-◌, ◌%◌, ◌<◌, ◌≡◌, ◌≢◌, refl, ap, ◌∙◌, false, List, [], ◌∷◌, ◌++◌, some, ◌==◌,
  if◌then◌else◌, has, has-append, All, length, drop, replicate, length-append, arith,
}
use la_liga_de_la_justicia.Wire.Bytes.{le}
use la_liga_de_la_justicia.Wire.Messages.{Stream, frame}
use la_liga_de_la_justicia.Wire.Replies.{
  response, joined, names_length, serializar_respuesta_leer_directorio,
}

-- A buffer as a C string.
abbrev pub text_of : List ℕ → List ℕ
text_of [] = []
text_of (x ∷ xs) = if x == 0 then [] else x ∷ text_of xs

-- `string_split` of the commons library, which takes a text apart with `strtok_r`: separators in front are passed over,
-- and a token ends at the next separator or where the text ends.
pub record StringSplit (separator : ℕ) : Type 0 where
  pub string_split : List ℕ → List (List ℕ)
  pub of_empty : string_split [] ≡ []
  pub of_separator : (rest : List ℕ) → string_split (separator ∷ rest) ≡ string_split rest
  pub of_last :
      (x : ℕ) (xs : List ℕ) → has separator (x ∷ xs) ≡ false → string_split (x ∷ xs) ≡ (x ∷ xs) ∷ []
  pub of_token :
      (x : ℕ) (xs rest : List ℕ)
      → has separator (x ∷ xs) ≡ false
      → string_split ((x ∷ xs) ++ separator ∷ rest) ≡ (x ∷ xs) ∷ string_split rest

text_of-append : (xs : List ℕ) (k : ℕ) → has 0 xs ≡ false → text_of (xs ++ replicate k 0) ≡ xs
text_of-append [] zero h = refl
text_of-append [] (suc k) h = refl
text_of-append (x ∷ xs) k h =
    let t : (x == 0) ≡ false = ground (arith, h) in
    rw (t, text_of-append xs k (ground (arith, h))) refl

-- A name as it may stand in a directory that clients list: not empty, without a 0 and without '#'.
abbrev pub IsName : List ℕ → Type 0
IsName name = (has 0 name ≡ false) × (has 35 name ≡ false) × (name ≢ [])

has-joined : (names : List (List ℕ)) → All IsName names → has 0 (joined names) ≡ false
unfolding joined
has-joined [] a = refl
has-joined (x ∷ []) (p, a) = p.0
has-joined (x ∷ y ∷ rest) (p, a) =
    has-append 0 x (35 ∷ joined (y ∷ rest)) ∙ rw (p.0) (has-joined (y ∷ rest) a)

length-joined :
    (x : List ℕ) (xs : List (List ℕ)) → length (joined (x ∷ xs)) + 1 ≡ names_length (x ∷ xs)
unfolding joined names_length
length-joined x [] = omega arith
length-joined x (y ∷ rest) =
    omega (arith, length-append x (35 ∷ joined (y ∷ rest)), length-joined y rest)

module _ (split : StringSplit 35) where
  open split use {string_split, of_last, of_token}

  string_split-joined :
      (x : List ℕ) (xs : List (List ℕ))
      → All IsName (x ∷ xs)
      → string_split (joined (x ∷ xs)) ≡ x ∷ xs
  unfolding joined
  string_split-joined [] xs ((z, h, some_byte), a) = absurd (some_byte refl)
  string_split-joined (c ∷ cs) [] ((z, h, some_byte), a) = of_last c cs h
  string_split-joined (c ∷ cs) (y ∷ rest) ((z, h, some_byte), a) =
      of_token c cs (joined (y ∷ rest)) h ∙ ap (λ t. (c ∷ cs) ∷ t) (string_split-joined y rest a)

  -- A directory with at least one entry, names that are not empty and have no 0 and no '#', and less than 2 ^ 16 bytes
  -- of payload arrives as it was sent: nothing is written behind the array, and the tokens of the payload's text between
  -- the '#' are the names, in their order.
  pub respuesta_leer_directorio_roundtrip :
      (tipo : ℕ) (x : List ℕ) (xs : List (List ℕ))
      → All IsName (x ∷ xs)
      → names_length (x ∷ xs) + length xs < 65536
      → (s : Stream) × (serializar_respuesta_leer_directorio tipo (x ∷ xs) ≡ some s)
        × (s.beyond ≡ 0)
        × (string_split (text_of (drop 3 s.bytes)) ≡ x ∷ xs)
  unfolding serializar_respuesta_leer_directorio response frame le
  respuesta_leer_directorio_roundtrip tipo x xs a l =
      let capacity = (names_length (x ∷ xs) + length xs) % 65536 in
      let k = capacity - length (joined (x ∷ xs)) in
      (
        response tipo (names_length (x ∷ xs) + length xs) (joined (x ∷ xs)),
        refl,
        omega (arith, length-joined x xs, l),
        ap string_split (text_of-append (joined (x ∷ xs)) k (has-joined (x ∷ xs) a))
            ∙ string_split-joined x xs a,
      )
