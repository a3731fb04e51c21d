-- ===== src/Rfs/Bitarray.antt =====
-- What the server takes from the bit arrays of commons/bitarray.h: a bit can be tested, set and
-- cleaned, and setting or cleaning one leaves the others alone.
use la_liga_de_la_justicia.Base.{ℕ, ◌≡◌, refl, Bool, true, false, ◌==◌, if◌then◌else◌}

pub record Bitarray : Type 1 where
  pub Bits : Type 0
  pub test_bit : Bits → ℕ → Bool
  pub set_bit : Bits → ℕ → Bits
  pub clean_bit : Bits → ℕ → Bits
  pub test-set :
      (b : Bits) (i j : ℕ) → test_bit (set_bit b i) j ≡ (if i == j then true else test_bit b j)
  pub test-clean :
      (b : Bits) (i j : ℕ) → test_bit (clean_bit b i) j ≡ (if i == j then false else test_bit b j)

-- Bit arrays as functions meet the interface.
abbrev pub functions : Bitarray
functions = record {
  Bits = ℕ → Bool;
  test_bit = λ b i. b i;
  set_bit = λ b i j. if i == j then true else b j;
  clean_bit = λ b i j. if i == j then false else b j;
  test-set = λ b i j. refl;
  test-clean = λ b i j. refl;
}
