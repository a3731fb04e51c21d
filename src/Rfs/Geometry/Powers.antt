-- ===== src/Rfs/Geometry/Powers.antt =====
-- `is_Power`, which squares its base until it reaches the number.
use mathlib.Core.Path.{subst}
use la_liga_de_la_justicia.Base.{
  ℕ, zero, suc, ◌+◌, ◌*◌, ◌≤◌, ◌<◌, ◌≡◌, ◌≢◌, refl, ◌↔◌, sym, ◌∙◌, inl, inr, true, false, arith,
  ltb, ==_iff, Bool-cases, ltb→lt, ltb→le, lt→ltb,
}
use la_liga_de_la_justicia.Rfs.Geometry.{u64, square_up, is_power}

-- The k-th value that the loop passes through: b, b², b⁴, …
unfoldable pub squares : ℕ → ℕ → ℕ
squares b zero = b
squares b (suc k) = squares (b * b) k

square_grows : (b : ℕ) → 2 ≤ b → (b < b * b) × (2 ≤ b * b)
square_grows b h = (grind arith, grind arith)

squares_ge : (k b : ℕ) → 2 ≤ b → b ≤ squares b k
unfolding squares
squares_ge zero b h = omega arith
squares_ge (suc k) b h = omega (arith, square_grows b h, squares_ge k (b * b) (square_grows b h).1)

no_overflow : (b n : ℕ) → b < n → n < 4294967296 → u64 (b * b) ≡ b * b
no_overflow b n h small = grind arith

square_up-squares :
    (fuel n b : ℕ)
    → 2 ≤ b
    → n < 4294967296
    → n ≤ b + fuel
    → (k : ℕ) × (square_up fuel n b ≡ squares b k) × (n ≤ squares b k)
unfolding square_up squares
square_up-squares zero n b h small enough = (zero, refl, omega arith)
square_up-squares (suc fuel) n b h small enough = elim (Bool-cases (ltb b n)) [
  | inl less ↦
      let lt = ltb→lt b n less in
      let (grown, ge) = square_grows b h in
      let (k, e, le) = square_up-squares fuel n (b * b) ge small (omega arith) in
      rw (less, no_overflow b n lt small) (suc k, e, le)
  | inr done ↦ rw done (zero, refl, ltb→le b n done)
]

square_up_zero : (fuel b : ℕ) → square_up fuel b b ≡ b
unfolding square_up
square_up_zero zero b = refl
square_up_zero (suc fuel) b = ground arith

square_up_step :
    (fuel n b : ℕ)
    → b < n
    → n < 4294967296
    → n ≤ b + fuel
    → 2 ≤ b
    → ((f : ℕ) → n ≤ b * b + f → square_up f n (b * b) ≡ n)
    → square_up fuel n b ≡ n
unfolding square_up
square_up_step zero n b past small enough h rest = absurd (omega arith)
square_up_step (suc fuel) n b past small enough h rest =
    rw (lt→ltb b n past, no_overflow b n past small) (rest fuel (omega (arith, square_grows b h)))

square_up_stops :
    (k fuel b : ℕ)
    → 2 ≤ b
    → squares b k < 4294967296
    → squares b k ≤ b + fuel
    → square_up fuel (squares b k) b ≡ squares b k
unfolding squares
square_up_stops zero fuel b h small enough = square_up_zero fuel b
square_up_stops (suc k) fuel b h small enough =
    let (grown, ge) = square_grows b h in
    let past : b < squares (b * b) k = omega (arith, squares_ge k (b * b) ge) in
    square_up_step fuel (squares (b * b) k) b past small enough h
      (λ f le. square_up_stops k f (b * b) ge small le)

-- What the loop decides: for a base from 2 and a number of 32 bits, `is_Power` answers true exactly
-- when the number is the base squared k times over, for some k.
pub is_power-squares :
    (n b : ℕ) → 2 ≤ b → n < 4294967296 → (is_power n b ≡ true) ↔ ((k : ℕ) × (n ≡ squares b k))
unfolding is_power
is_power-squares n b h small = (forth, back)
  where
    forth : is_power n b ≡ true → (k : ℕ) × (n ≡ squares b k)
    forth yes_ =
        let (k, e, le) = square_up-squares n n b h small (omega arith) in
        (k, sym ((==_iff (square_up n n b) n).0 yes_) ∙ e)

    back : ((k : ℕ) × (n ≡ squares b k)) → is_power n b ≡ true
    back (k, e) = (==_iff (square_up n n b) n).1 (
        subst (λ m. square_up m m b ≡ m) (sym e)
          (square_up_stops k (squares b k) b h (omega arith) (omega arith)))

mul_grows : (b c : ℕ) → 2 ≤ b → 0 < c → c < b * c
mul_grows b c h k = grind arith

cube_ne : (k b : ℕ) → 2 ≤ b → b * b * b ≢ squares b k
unfolding squares
cube_ne zero b h = grind arith
cube_ne (suc zero) b h = grind arith
cube_ne (suc (suc k)) b h =
    let (_, ge) = square_grows b h in
    let (_, ge') = square_grows (b * b) ge in
    λ e. absurd (
      omega (
        arith,
        squares_ge k (b * b * (b * b)) ge',
        mul_grows b (b * b) h (omega arith),
        mul_grows b (b * b * b) h (omega (arith, mul_grows b (b * b) h (omega arith))),
      ))

-- The cube of a base from 2 is a power of it, and `is_Power` does not recognise it.
pub is_power-cube : (b : ℕ) → 2 ≤ b → b * b * b < 4294967296 → is_power (b * b * b) b ≡ false
unfolding is_power
is_power-cube b h small = elim (Bool-cases (is_power (b * b * b) b)) [
  | inl yes_ ↦
      let (k, e) = (is_power-squares (b * b * b) b h small).0 yes_ in absurd (cube_ne k b h e)
  | inr no_ ↦ no_
]
