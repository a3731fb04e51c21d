-- ===== src/Base/Runs.antt =====
-- Strictly ascending lists of numbers in a range, and membership by a test.
use Prim.Native.Nat.{ℕ, zero, suc, ◌+◌, ◌≤◌, ◌<◌}
use mathlib.Core.Path.{◌≡◌, refl, subst}
use mathlib.Core.Logic.{inl, inr}
use mathlib.Core.Bool.{Bool, true, false, false≢true, ◌||◌}
use mathlib.Core.List.{List, [], ◌∷◌, ◌++◌, map}
use native.Mathlib.Omega.{arith}
use la_liga_de_la_justicia.Base.Tests.{◌==◌, ==_iff, Bool-cases}
use la_liga_de_la_justicia.Base.Lists.{length, get_or}

abbrev pub has : ℕ → List ℕ → Bool
has a [] = false
has a (x ∷ xs) = (x == a) || has a xs

abbrev pub All {ℓ κ} : {A : Type ℓ} → (A → Type κ) → List A → Type κ
All P [] = Unit
All P (x ∷ xs) = P x × All P xs

-- `Run lo hi l`: the members of `l` ascend strictly, from `lo` on and below `hi`.
abbrev pub Run : ℕ → ℕ → List ℕ → Type 0
Run lo hi [] = Unit
Run lo hi (x ∷ xs) = (lo ≤ x) × (x < hi) × Run (x + 1) hi xs

pub Run-widen : (lo lo' hi hi' : ℕ) (l : List ℕ) → lo' ≤ lo → hi ≤ hi' → Run lo hi l → Run lo' hi' l
Run-widen lo lo' hi hi' [] h k r = tt
Run-widen lo lo' hi hi' (x ∷ xs) h k (a, b, r) =
    (omega arith, omega arith, Run-widen (x + 1) (x + 1) hi hi' xs (omega arith) k r)

pub Run-append :
    (lo mid hi : ℕ) (l m : List ℕ)
    → lo ≤ mid
    → mid ≤ hi
    → Run lo mid l
    → Run mid hi m
    → Run lo hi (l ++ m)
Run-append lo mid hi [] m h k r s = Run-widen mid lo hi hi m h (omega arith) s
Run-append lo mid hi (x ∷ xs) m h k (a, b, r) s =
    (a, omega arith, Run-append (x + 1) mid hi xs m (omega arith) k r s)

pub Run-map_add :
    (c lo hi : ℕ) (l : List ℕ) → Run lo hi l → Run (c + lo) (c + hi) (map (λ x. c + x) l)
Run-map_add c lo hi [] r = tt
Run-map_add c lo hi (x ∷ xs) (a, b, r) = (
  omega arith,
  omega arith,
  Run-widen (c + (x + 1)) (c + x + 1) (c + hi) (c + hi) (map (λ x. c + x) xs) (omega arith)
      (omega arith) (Run-map_add c (x + 1) hi xs r),
)

pub has-Run_below : (a lo hi : ℕ) (l : List ℕ) → Run lo hi l → a < lo → has a l ≡ false
has-Run_below a lo hi [] r h = refl
has-Run_below a lo hi (x ∷ xs) (p, q, r) h =
    ground (arith, has-Run_below a (x + 1) hi xs r (omega arith))

pub has-Run_above : (a lo hi : ℕ) (l : List ℕ) → Run lo hi l → hi ≤ a → has a l ≡ false
has-Run_above a lo hi [] r h = refl
has-Run_above a lo hi (x ∷ xs) (p, q, r) h = ground (arith, has-Run_above a (x + 1) hi xs r h)

pub has-append : (a : ℕ) (l m : List ℕ) → has a (l ++ m) ≡ (has a l || has a m)
has-append a [] m = refl
has-append a (x ∷ xs) m = ground (arith, has-append a xs m)

pub has-map_add : (c a : ℕ) (l : List ℕ) → has (c + a) (map (λ x. c + x) l) ≡ has a l
has-map_add c a [] = refl
has-map_add c a (x ∷ xs) = ground (arith, has-map_add c a xs)

module _ {ℓ κ} {A : Type ℓ} (P : A → Type κ) where
  pub All-append : (l m : List A) → All P l → All P m → All P (l ++ m)
  All-append [] m p q = q
  All-append (x ∷ xs) m (a, p) q = (a, All-append xs m p q)

pub All-has : (P : ℕ → Type 0) (l : List ℕ) → ((a : ℕ) → has a l ≡ true → P a) → All P l
All-has P [] h = tt
All-has P (x ∷ xs) h = (h x (ground arith), All-has P xs (λ a e. h a (ground arith)))

pub All-Run :
    (P : ℕ → Type 0) (lo hi : ℕ) (l : List ℕ)
    → Run lo hi l
    → ((a : ℕ) → lo ≤ a → a < hi → P a)
    → All P l
All-Run P lo hi [] r h = tt
All-Run P lo hi (x ∷ xs) (a, b, r) h =
    (h x a b, All-Run P (x + 1) hi xs r (λ y p q. h y (omega arith) q))

module _ {ℓ κ} {A : Type ℓ} (P Q : A → Type κ) where
  pub All-implies : (l : List A) → ((a : A) → P a → Q a) → All P l → All Q l
  All-implies [] h p = tt
  All-implies (x ∷ xs) h (a, p) = (h x a, All-implies xs h p)

-- A member satisfies what all members do.
pub All-at : (P : ℕ → Type 0) (a : ℕ) (l : List ℕ) → All P l → has a l ≡ true → P a
All-at P a [] p h = absurd (false≢true h)
All-at P a (x ∷ xs) (p, ps) h = elim (Bool-cases (x == a)) [
  | inl e ↦ subst P ((==_iff x a).0 e) p
  | inr e ↦ All-at P a xs ps (rw e at h)
]

-- The members of such a list by their position.
pub Run-get_or :
    (lo hi : ℕ) (l : List ℕ) (i : ℕ)
    → Run lo hi l
    → i < length l
    → (lo ≤ get_or l i 0) × (get_or l i 0 < hi)
Run-get_or lo hi [] i r h = absurd (omega arith)
Run-get_or lo hi (x ∷ xs) zero (a, b, r) h = (a, b)
Run-get_or lo hi (x ∷ xs) (suc i) (a, b, r) h =
    let (low, high) = Run-get_or (x + 1) hi xs i r (omega arith) in (omega arith, high)

pub Run-ascending :
    (lo hi : ℕ) (l : List ℕ) (i j : ℕ)
    → Run lo hi l
    → i < j
    → j < length l
    → get_or l i 0 < get_or l j 0
Run-ascending lo hi [] i j r lt h = absurd (omega arith)
Run-ascending lo hi (x ∷ xs) i zero r lt h = absurd (omega arith)
Run-ascending lo hi (x ∷ xs) zero (suc j) (a, b, r) lt h =
    let (low, high) = Run-get_or (x + 1) hi xs j r (omega arith) in omega arith
Run-ascending lo hi (x ∷ xs) (suc i) (suc j) (a, b, r) lt h =
    Run-ascending (x + 1) hi xs i j r (omega arith) (omega arith)

pub has-get_or : (l : List ℕ) (i : ℕ) → i < length l → has (get_or l i 0) l ≡ true
has-get_or [] i h = absurd (omega arith)
has-get_or (x ∷ xs) zero h = ground arith
has-get_or (x ∷ xs) (suc i) h = ground (arith, has-get_or xs i (omega arith))
