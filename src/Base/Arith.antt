-- ===== src/Base/Arith.antt =====
-- Division with remainder by a variable, and products.
use Prim.Native.Nat.{ℕ, ◌+◌, ◌*◌, ◌/◌, ◌%◌, ◌≤◌, ◌<◌}
use mathlib.Core.Path.{◌≡◌}
use native.Mathlib.Omega.{arith}

pub div_unique : (q r p n : ℕ) → r < p → q * p + r ≡ n → n / p ≡ q
div_unique q r p n h e = grind arith

pub mod_unique : (q r p n : ℕ) → r < p → q * p + r ≡ n → n % p ≡ r
mod_unique q r p n h e = grind arith

pub div_bounds : (n p : ℕ) → 0 < p → (n / p * p + n % p ≡ n) × (n % p < p)
div_bounds n p h = (omega arith, omega arith)

pub mul_mono_left : (a b c : ℕ) → a ≤ b → c * a ≤ c * b
mul_mono_left a b c h = grind arith

pub lt_of_mul : (a b p : ℕ) → a * p < b * p → a < b
lt_of_mul a b p h = grind arith

pub div_lt : (n p q : ℕ) → n < q * p → n / p < q
div_lt n p q h = grind arith
