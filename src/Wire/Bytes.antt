-- ===== src/Wire/Bytes.antt =====
-- Integers and strings in memory, low byte first, as `memcpy` moves them.
use la_liga_de_la_justicia.Base.{
  ℕ, zero, suc, ◌+◌, ◌*◌, ◌/◌, ◌%◌, ◌^◌, ◌<◌, ◌≡◌, refl, ap, List, [], ◌∷◌, ◌++◌, take, drop,
  length, arith, div_lt,
}

-- The `n` bytes of an integer.
unfoldable pub le : ℕ → ℕ → List ℕ
le zero v = []
le (suc n) v = v % 256 ∷ le n (v / 256)

-- The integer in the first `n` bytes.
unfoldable pub read : ℕ → List ℕ → ℕ
read zero bs = 0
read (suc n) [] = 0
read (suc n) (b ∷ bs) = b + 256 * read n bs

pub length-le : (n v : ℕ) → length (le n v) ≡ n
unfolding le
length-le zero v = refl
length-le (suc n) v = ap suc (length-le n (v / 256))

pub read-le : (n v : ℕ) (rest : List ℕ) → v < 256 ^ n → read n (le n v ++ rest) ≡ v
unfolding le read
read-le zero v rest h = omega (arith, h)
read-le (suc n) v rest h =
    let ih = read-le n (v / 256) rest (div_lt v 256 (256 ^ n) (omega (arith, h))) in
    rw ih (omega arith)

pub drop-append {ℓ} :
    {A : Type ℓ} → (n : ℕ) (xs ys : List A) → length xs ≡ n → drop n (xs ++ ys) ≡ ys
drop-append zero [] ys e = refl
drop-append zero (x ∷ xs) ys e = absurd (omega (arith, e))
drop-append (suc n) [] ys e = absurd (omega (arith, e))
drop-append (suc n) (x ∷ xs) ys e = drop-append n xs ys (omega (arith, e))

pub drop-le : (n v : ℕ) (ys : List ℕ) → drop n (le n v ++ ys) ≡ ys
drop-le n v ys = drop-append n (le n v) ys (length-le n v)

pub take-append {ℓ} :
    {A : Type ℓ} → (n : ℕ) (xs ys : List A) → length xs ≡ n → take n (xs ++ ys) ≡ xs
take-append zero [] ys e = refl
take-append zero (x ∷ xs) ys e = absurd (omega (arith, e))
take-append (suc n) [] ys e = absurd (omega (arith, e))
take-append (suc n) (x ∷ xs) ys e = ap (λ t. x ∷ t) (take-append n xs ys (omega (arith, e)))
