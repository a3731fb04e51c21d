-- ===== src/Wire/Frames.antt =====
-- Header and payload on both sides.
use la_liga_de_la_justicia.Base.{
  append_nil, ℕ, ◌+◌, ◌-◌, ◌*◌, ◌/◌, ◌%◌, ◌<◌, ◌≡◌, refl, sym, ap, ◌∙◌, List, [], ◌++◌, some, ltb,
  length, take, drop, arith, false, subst,
}
use la_liga_de_la_justicia.Wire.Bytes.{le, read, take-append}
use la_liga_de_la_justicia.Wire.Messages.{Stream, Header, frame, request, deserializar_header, fill}
use la_liga_de_la_justicia.Wire.Replies.{response}

module _ {ℓ} {A : Type ℓ} where
  pub take_all : (n : ℕ) (xs : List A) → length xs ≡ n → take n xs ≡ xs
  take_all n xs e = ap (take n) (sym (append_nil xs)) ∙ take-append n xs [] e

pub fill_exact :
    (longitud less n : ℕ) (xs : List ℕ)
    → less + n ≡ longitud
    → length xs ≡ n
    → fill longitud less (longitud - less) xs ≡ some record { content = xs; past = 0 }
unfolding fill
fill_exact longitud less n xs e l =
    let t : ltb longitud less ≡ false = ground (arith, e) in
    let m : longitud - less ≡ n = omega (arith, e) in
    let z : n - n ≡ 0 = omega arith in rw (t, m, z, take_all n xs l) refl

pub fill_front :
    (n : ℕ) (xs ys : List ℕ)
    → length xs ≡ n
    → fill n 0 n (xs ++ ys) ≡ some record { content = xs; past = 0 }
unfolding fill
fill_front n xs ys e =
    let t : ltb n 0 ≡ false = ground arith in
    let z : n - (n - 0) ≡ 0 = omega arith in rw (t, z, take-append n xs ys e) refl

-- What the receiver has after `deserializar_header`: the header and the payload.
pub record IsReceived (s : Stream) (tipo longitud : ℕ) (payload : List ℕ) : Type 0 where
  pub header : deserializar_header s.bytes ≡ record { tipo = tipo; payload_longitud = longitud }
  pub body : drop 3 s.bytes ≡ payload

pub read-two : (v : ℕ) (rest : List ℕ) → read 2 (le 2 v ++ rest) ≡ v % 65536
unfolding le read
read-two v rest = omega arith

pub frame-IsReceived :
    (tipo payload capacity : ℕ) (body : List ℕ)
    → tipo < 256
    → length body ≡ capacity
    → IsReceived (frame tipo payload capacity body) tipo (payload % 65536) body
unfolding frame deserializar_header le read
frame-IsReceived tipo payload capacity body h e =
    let z : capacity - length body ≡ 0 = omega (arith, e) in
    let e1 : tipo % 256 + 256 * 0 ≡ tipo = omega (arith, h) in
    let e2 : payload % 256 + 256 * (payload / 256 % 256 + 256 * 0) ≡ payload % 65536 =
      omega arith in
    record {
      header =
          ap (λ a. make a (payload % 256 + 256 * (payload / 256 % 256 + 256 * 0))) e1
          ∙ ap (make tipo) e2;
      body = rw z (append_nil body);
    }
  where
    make : ℕ → ℕ → Header
    make a b = record { tipo = a; payload_longitud = b }

pub request-IsReceived :
    (tipo : ℕ) (body : List ℕ)
    → tipo < 256
    → length body < 65536
    → IsReceived (request tipo body) tipo (length body) body
unfolding request
request-IsReceived tipo body h k =
    let e : length body % 65536 ≡ length body = omega (arith, k) in
    subst (λ n. IsReceived (frame tipo (length body) (length body) body) tipo n body) e
      (frame-IsReceived tipo (length body) (length body) body h refl)

pub response-IsReceived :
    (tipo longitud : ℕ) (body : List ℕ)
    → tipo < 256
    → longitud < 65536
    → length body ≡ longitud
    → ((response tipo longitud body).beyond ≡ 0)
      × IsReceived (response tipo longitud body) tipo longitud body
unfolding response frame
response-IsReceived tipo longitud body h k e =
    let m : longitud % 65536 ≡ longitud = omega (arith, k) in
    let c : length body ≡ longitud % 65536 = omega (arith, e, m) in
    (
      omega (arith, c),
      subst (λ n. IsReceived (frame tipo (longitud % 65536) (longitud % 65536) body) tipo n body)
          (ap (λ n. n % 65536) m ∙ m)
          (frame-IsReceived tipo (longitud % 65536) (longitud % 65536) body h c),
    )
