-- ===== src/Server/Strings.antt =====
-- C strings as the lists of their characters before the `\0`, and the two tests by which
-- rfs/source_RFS/server_threading.c compares paths.
use la_liga_de_la_justicia.Base.{
  ℕ, zero, suc, ◌+◌, ◌≤◌, ◌≡◌, refl, sym, ◌≢◌, ◌∙◌, Bool-cases, inl, inr, Bool, true, false, ◌&&◌,
  List, [], ◌∷◌, ◌==◌, length, arith, false≢true, ◌↔◌,
}

-- `strncmp (a, b, n) == 0`.
unfoldable pub strncmp_equal : List ℕ → List ℕ → (n : ℕ) → Bool
strncmp_equal a b zero = true
strncmp_equal [] [] (suc n) = true
strncmp_equal [] (y ∷ b) (suc n) = false
strncmp_equal (x ∷ a) [] (suc n) = false
strncmp_equal (x ∷ a) (y ∷ b) (suc n) = (x == y) && strncmp_equal a b n

-- The condition of `active_file_list_find`.
abbrev pub same_path : (path elem : List ℕ) → Bool
same_path path elem = (length path == length elem) && strncmp_equal path elem (length path)

-- The condition of `active_file_list_remove_and_destroy_element`.
abbrev pub same_string : (path elem : List ℕ) → Bool
same_string path elem = strncmp_equal path elem (length path + 1)

equal_refl : (a : List ℕ) (n : ℕ) → strncmp_equal a a n ≡ true
unfolding strncmp_equal
equal_refl a zero = refl
equal_refl [] (suc n) = refl
equal_refl (x ∷ a) (suc n) = ground (arith, equal_refl a n)

equal_shorter : (a b : List ℕ) (n : ℕ) → suc (length a) ≤ n → strncmp_equal a b n ≡ true → a ≡ b
unfolding strncmp_equal
equal_shorter a b zero l h = absurd (omega arith)
equal_shorter [] [] (suc n) l h = refl
equal_shorter [] (y ∷ b) (suc n) l h = absurd (false≢true h)
equal_shorter (x ∷ a) [] (suc n) l h = absurd (false≢true h)
equal_shorter (x ∷ a) (y ∷ b) (suc n) l h =
    let e : x ≡ y = ground arith in
    let r = equal_shorter a b n (omega arith) (ground arith) in rw (e, r) refl

equal_long : (a b : List ℕ) → length a ≡ length b → strncmp_equal a b (length a) ≡ true → a ≡ b
unfolding strncmp_equal
equal_long [] [] l h = refl
equal_long [] (y ∷ b) l h = absurd (omega arith)
equal_long (x ∷ a) [] l h = absurd (omega arith)
equal_long (x ∷ a) (y ∷ b) l h =
    let e : x ≡ y = ground arith in
    let r = equal_long a b (omega arith) (ground arith) in rw (e, r) refl

-- Both tests say that two strings are equal exactly when they are: the first one compares the lengths
-- and as many characters, the second one the `\0` too.
pub same_path-same_string :
    (a b : List ℕ) → ((same_path a b ≡ true) ↔ (a ≡ b)) × ((same_string a b ≡ true) ↔ (a ≡ b))
same_path-same_string a b = (
  (
    λ h. equal_long a b (ground arith) (ground arith),
    λ e. rw (sym e) (ground (arith, equal_refl a (length a))),
  ),
  (
    λ h. equal_shorter a b (length a + 1) (omega arith) h,
    λ e. rw (sym e) (equal_refl a (length a + 1)),
  ),
)

pub different_path : (a b : List ℕ) → same_path a b ≡ false → a ≢ b
different_path a b h e = false≢true (sym h ∙ (same_path-same_string a b).0.1 e)

pub different_string : (a b : List ℕ) → a ≢ b → same_string a b ≡ false
different_string a b ne = elim (Bool-cases (same_string a b)) [
  | inl t ↦ absurd (ne ((same_path-same_string a b).1.0 t))
  | inr t ↦ t
]
