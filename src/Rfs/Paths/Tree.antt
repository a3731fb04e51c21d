-- ===== src/Rfs/Paths/Tree.antt =====
-- The paths that `split_path` gives for a path of names.
use la_liga_de_la_justicia.Base.{
  ℕ, suc, ◌+◌, ◌<◌, ◌≡◌, refl, ap, sym, ◌∙◌, true, false, some, List, [], ◌∷◌, ◌++◌, ◌==◌, map,
  length, take, length-append, append_nil, has, All, arith,
}
use mathlib.Core.List.{append_assoc}
use la_liga_de_la_justicia.Server.Strings.{strncmp_equal}
use la_liga_de_la_justicia.Rfs.Paths.{root, last, separators, split_at, split_path}

-- "/a/b/c" for the names "a", "b" and "c".
unfoldable pub joined : List (List ℕ) → List ℕ
joined [] = []
joined (n ∷ ns) = 47 ∷ (n ++ joined ns)

-- A name of a file has a character at least, and none is '/'.
abbrev pub IsName : List ℕ → Type 0
IsName n = (0 < length n) × (has 47 n ≡ false)

-- The path `before` with '/' behind it, and so on along the names.
unfoldable pub with_slash : (before : List ℕ) → (names : List (List ℕ)) → List (List ℕ)
with_slash before [] = []
with_slash before (n ∷ ns) = (before ++ root) ∷ with_slash (before ++ 47 ∷ n) ns

separators-append :
    (i : ℕ) (n s : List ℕ) → has 47 n ≡ false → separators i (n ++ s) ≡ separators (i + length n) s
unfolding separators
separators-append i [] s h = let e : i + 0 ≡ i = omega arith in rw e refl
separators-append i (x ∷ n) s h =
    let t : (x == 47) ≡ false = ground (arith, h) in
    let e : i + suc (length n) ≡ i + 1 + length n = omega arith in
    rw (t, e) (separators-append (i + 1) n s (ground (arith, h)))

take-length-append : (a b : List ℕ) (k : ℕ) → take (length a + k) (a ++ b) ≡ a ++ take k b
take-length-append [] b k = let e : 0 + k ≡ k = omega arith in rw e refl
take-length-append (x ∷ a) b k =
    let e : suc (length a) + k ≡ suc (length a + k) = omega arith in
    rw e (ap (λ t. x ∷ t) (take-length-append a b k))

-- The directories that are cut behind their '/'.
dirs-with_slash :
    (before path : List ℕ) (names : List (List ℕ))
    → All IsName names
    → path ≡ before ++ joined names
    → map (λ p. take (p + 1) path) (separators (length before) (joined names))
      ≡ with_slash before names
unfolding joined with_slash separators
dirs-with_slash before path [] h e = refl
dirs-with_slash before path (n ∷ ns) ((pos, clean), h) e =
    let next : path ≡ (before ++ 47 ∷ n) ++ joined ns =
      e ∙ sym (append_assoc before (47 ∷ n) (joined ns)) in
    let len : length before + 1 + length n ≡ length (before ++ 47 ∷ n) =
      omega (arith, length-append before (47 ∷ n)) in
    let here : take (length before + 1) path ≡ before ++ root =
      rw e (take-length-append before (47 ∷ (n ++ joined ns)) 1) in
    rw (separators-append (length before + 1) n (joined ns) clean, len, here)
      (ap (λ t. (before ++ root) ∷ t) (dirs-with_slash (before ++ 47 ∷ n) path ns h next))

-- The last directory is shorter than the path.
last-with_slash :
    (d before : List ℕ) (names : List (List ℕ))
    → All IsName names
    → length d < length before + length (joined names)
    → length (last d (with_slash before names)) < length before + length (joined names)
unfolding joined with_slash
last-with_slash d before [] h l = l
last-with_slash d before (n ∷ ns) ((pos, clean), h) l =
    let r =
      last-with_slash (before ++ root) (before ++ 47 ∷ n) ns h
        (omega (arith, length-append before root, length-append before (47 ∷ n), pos)) in
    omega (arith, r, length-append before (47 ∷ n), length-append n (joined ns))

shorter_differs : (a b : List ℕ) → length b < length a → strncmp_equal a b (length a) ≡ false
unfolding strncmp_equal
shorter_differs [] b h = absurd (omega arith)
shorter_differs (x ∷ a) [] h = refl
shorter_differs (x ∷ a) (y ∷ b) h = ground (arith, shorter_differs a b (omega arith))

split_at_more :
    (path first : List ℕ) (p second : ℕ) (positions : List ℕ) (dirs : List (List ℕ))
    → take second path ≡ first
    → map (λ p. take (p + 1) path) positions ≡ dirs
    → length (last first dirs) < length path
    → split_at path (p ∷ second ∷ positions) ≡ root ∷ first ∷ (dirs ++ path ∷ [])
unfolding split_at
split_at_more path first p second positions dirs e f l =
    rw (e, f, shorter_differs path (last first dirs) l) refl

split_at_one : (path : List ℕ) (p : ℕ) → 1 < length path → split_at path (p ∷ []) ≡ root ∷ path ∷ []
unfolding split_at
split_at_one path p l = let t : (length path == 1) ≡ false = ground arith in rw t refl

separators_more :
    (a b : List ℕ) (ns : List (List ℕ))
    → has 47 a ≡ false
    → has 47 b ≡ false
    → separators 0 (joined (a ∷ b ∷ ns))
      ≡ 0 ∷ (1 + length a) ∷ separators (length ((47 ∷ a) ++ 47 ∷ b)) (joined ns)
unfolding separators joined
separators_more a b ns h k =
    let e : 1 + length a + 1 + length b ≡ length ((47 ∷ a) ++ 47 ∷ b) =
      omega (arith, length-append a (47 ∷ b)) in
    rw
      (
        separators-append 1 a (47 ∷ (b ++ joined ns)) h,
        separators-append (1 + length a + 1) b (joined ns) k,
        e,
      )
      refl

separators_one : (a : List ℕ) → has 47 a ≡ false → separators 0 (joined (a ∷ [])) ≡ 0 ∷ []
unfolding separators joined
separators_one a h = rw (separators-append 1 a [] h) refl

starts_root : (a : List ℕ) (ns : List (List ℕ)) → strncmp_equal (joined (a ∷ ns)) root 1 ≡ true
unfolding strncmp_equal joined
starts_root a ns = refl

longer : (a : List ℕ) → 0 < length a → 1 < length (joined (a ∷ []))
unfolding joined
longer a h = omega (arith, h, length-append a [])

pub joined_one : (a : List ℕ) → joined (a ∷ []) ≡ 47 ∷ a
unfolding joined
joined_one a = ap (λ t. 47 ∷ t) (append_nil a)

take_first : (a : List ℕ) (ns : List (List ℕ)) → take (1 + length a) (joined (a ∷ ns)) ≡ 47 ∷ a
unfolding joined
take_first a ns =
    let e : 1 + length a ≡ length (47 ∷ a) + 0 = omega arith in
    rw e (take-length-append (47 ∷ a) (joined ns) 0 ∙ append_nil (47 ∷ a))

pub regroup :
    (a b : List ℕ) (ns : List (List ℕ)) → joined (a ∷ b ∷ ns) ≡ ((47 ∷ a) ++ 47 ∷ b) ++ joined ns
unfolding joined
regroup a b ns = sym (append_assoc (47 ∷ a) (47 ∷ b) (joined ns))

last_shorter :
    (a b : List ℕ) (ns : List (List ℕ))
    → 0 < length b
    → All IsName ns
    → length (last (47 ∷ a) (with_slash ((47 ∷ a) ++ 47 ∷ b) ns)) < length (joined (a ∷ b ∷ ns))
last_shorter a b ns pos h =
    let total = ap length (regroup a b ns) ∙ length-append ((47 ∷ a) ++ 47 ∷ b) (joined ns) in
    let r =
      last-with_slash (47 ∷ a) ((47 ∷ a) ++ 47 ∷ b) ns h
        (omega (arith, length-append (47 ∷ a) (47 ∷ b), pos)) in
    omega (arith, total, r)

-- The paths below the root, for one name at least: itself, behind the first directory without a '/' at its end and
-- the further directories each with one.
unfoldable pub tree : (first : List ℕ) → (names : List (List ℕ)) → List (List ℕ)
tree a [] = (47 ∷ a) ∷ []
tree a (b ∷ ns) = (47 ∷ a) ∷ (with_slash ((47 ∷ a) ++ 47 ∷ b) ns ++ joined (a ∷ b ∷ ns) ∷ [])

-- The path of some names, at least one, is split into the root and the paths that lead to each name in turn: the
-- first directory without a '/' at its end, the further directories each with one, and last the path itself.
pub split_path-joined :
    (a : List ℕ) (ns : List (List ℕ))
    → All IsName (a ∷ ns)
    → split_path (joined (a ∷ ns)) ≡ some (root ∷ tree a ns)
unfolding split_path tree
split_path-joined a [] ((pos, clean), h) =
    rw (starts_root a [], separators_one a clean, split_at_one (joined (a ∷ [])) 0 (longer a pos))
      (ap (λ p. some (root ∷ p ∷ [])) (joined_one a))
split_path-joined a (b ∷ ns) ((pos, clean), ((pos_b, clean_b), h)) =
    rw (starts_root a (b ∷ ns), separators_more a b ns clean clean_b)
      (ap some (
        split_at_more (joined (a ∷ b ∷ ns)) (47 ∷ a) 0 (1 + length a)
          (separators (length ((47 ∷ a) ++ 47 ∷ b)) (joined ns))
          (with_slash ((47 ∷ a) ++ 47 ∷ b) ns) (take_first a (b ∷ ns))
          (dirs-with_slash ((47 ∷ a) ++ 47 ∷ b) (joined (a ∷ b ∷ ns)) ns h (regroup a b ns))
          (last_shorter a b ns pos_b h)))
