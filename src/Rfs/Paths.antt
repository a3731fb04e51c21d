-- ===== src/Rfs/Paths.antt =====
-- `split_path` of rfs/source_RFS/file_operations.c: the paths of the directories on the way to a file, and its own.
pub mod Tree
use la_liga_de_la_justicia.Base.{
  ℕ, ◌+◌, Bool, true, false, Option, none, some, List, [], ◌∷◌, ◌++◌, ◌==◌, if◌then◌else◌, map,
  length, take,
}
use la_liga_de_la_justicia.Server.Strings.{strncmp_equal}

abbrev pub root : List ℕ
root = 47 ∷ []

-- The positions of the '/' that the calls of `strchr` find, in their order.
unfoldable pub separators : (i : ℕ) → (path : List ℕ) → List ℕ
separators i [] = []
separators i (c ∷ cs) = let rest = separators (i + 1) cs in if c == 47 then i ∷ rest else rest

abbrev pub last {ℓ} : {A : Type ℓ} → A → List A → A
last a [] = a
last a (x ∷ xs) = last x xs

-- By the number of separators. The first directory is cut before the second '/', the further ones behind their '/'.
unfoldable pub split_at : (path : List ℕ) → (positions : List ℕ) → List (List ℕ)
unfolding strncmp_equal
split_at path [] = []
split_at path (p ∷ []) = if length path == 1 then root ∷ [] else root ∷ path ∷ []
split_at path (p ∷ second ∷ positions) =
    let first_dir = take second path in
    let dirs = map (λ p. take (p + 1) path) positions in
    root
    ∷ first_dir
    ∷ (dirs ++ (if strncmp_equal path (last first_dir dirs) (length path) then [] else path ∷ []))

unfoldable pub split_path : (path : List ℕ) → Option (List (List ℕ))
unfolding separators split_at strncmp_equal
split_path path =
    if strncmp_equal path root 1 then some (split_at path (separators 0 path)) else none
