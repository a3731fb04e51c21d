-- ===== src/Tests/RfsPaths.antt =====
-- The path "/d/f" in a directory tree: "d" is in the root and "f" in "d".
use la_liga_de_la_justicia.Base.{
  ℕ, ◌+◌, ◌<◌, ◌≡◌, refl, ap, sym, ◌∙◌, false, Option, some, List, [], ◌∷◌, ◌++◌, ◌==◌,
  if◌then◌else◌, length, has, All, append_nil, arith,
}
use mathlib.Core.List.{append_assoc}
use la_liga_de_la_justicia.Rfs.Directory.{Entry}
use la_liga_de_la_justicia.Rfs.Paths.{root, split_path}
use la_liga_de_la_justicia.Rfs.Paths.Tree.{joined, IsName, with_slash, tree, split_path-joined}
use la_liga_de_la_justicia.Server.ActiveFiles.{Files}
use la_liga_de_la_justicia.Rfs.Lookup.{StringSplit}

-- A split that keeps what it read since the last '/'.
abbrev flush : List ℕ → List (List ℕ) → List (List ℕ)
flush [] rest = rest
flush (x ∷ xs) rest = (x ∷ xs) ∷ rest

parts : List ℕ → (current : List ℕ) → List (List ℕ)
parts [] current = flush current []
parts (c ∷ cs) current =
    let closed = flush current (parts cs []) in
    let longer = parts cs (current ++ c ∷ []) in if c == 47 then closed else longer

parts_name :
    (n s current : List ℕ) → has 47 n ≡ false → parts (n ++ s) current ≡ parts s (current ++ n)
unfolding parts
parts_name [] s current h = ap (parts s) (sym (append_nil current))
parts_name (c ∷ n) s current h =
    let t : (c == 47) ≡ false = ground (arith, h) in
    rw t (
      parts_name n s (current ++ c ∷ []) (ground (arith, h))
      ∙ ap (parts s) (append_assoc current (c ∷ []) n))

flush_name : (n : List ℕ) (rest : List (List ℕ)) → 0 < length n → flush n rest ≡ n ∷ rest
flush_name [] rest h = absurd (omega arith)
flush_name (x ∷ n) rest h = refl

parts-joined :
    (names : List (List ℕ)) (current : List ℕ)
    → All IsName names
    → parts (joined names) current ≡ flush current names
unfolding parts joined
parts-joined [] current h = refl
parts-joined (n ∷ ns) current ((pos, clean), h) =
    ap (flush current)
      (parts_name n (joined ns) [] clean ∙ parts-joined ns n h ∙ flush_name n ns pos)

parts_slash :
    (names : List (List ℕ)) (current : List ℕ)
    → All IsName names
    → parts (joined names ++ root) current ≡ flush current names
unfolding parts joined
parts_slash [] current h = refl
parts_slash (n ∷ ns) current ((pos, clean), h) = ap (flush current) (
    ap (λ s. parts s []) (append_assoc n (joined ns) root)
    ∙ parts_name n (joined ns ++ root) [] clean
    ∙ parts_slash ns n h
    ∙ flush_name n ns pos)

abbrev tokens : StringSplit
tokens = record {
  string_split = λ path. parts path [];
  split-joined = λ names h. parts-joined names [] h;
  split-slash = λ names h. parts_slash names [] h;
}

abbrev entry_of : (inode : ℕ) → (name : ℕ) → Entry
entry_of inode name = record {
  inode_number = inode;
  entry_len = 12;
  name_len = 1;
  file_type = 0;
  file_name = name ∷ [];
}

abbrev entries_of : ℕ → Option (List Entry)
entries_of number = if number == 2 then some (entry_of 11 100 ∷ []) else some (entry_of 12 102 ∷ [])

-- The split of "/d/f/g".
split_path-joined_example :
    split_path (joined ((100 ∷ []) ∷ (102 ∷ []) ∷ (103 ∷ []) ∷ []))
    ≡ some (root ∷ tree (100 ∷ []) ((102 ∷ []) ∷ (103 ∷ []) ∷ []))
split_path-joined_example =
    split_path-joined (100 ∷ []) ((102 ∷ []) ∷ (103 ∷ []) ∷ [])
      ((omega arith, refl), ((omega arith, refl), ((omega arith, refl), tt)))

tree_of_three :
    tree (100 ∷ []) ((102 ∷ []) ∷ (103 ∷ []) ∷ [])
    ≡ (47 ∷ 100 ∷ []) ∷ (47 ∷ 100 ∷ 47 ∷ 102 ∷ 47 ∷ []) ∷ (47 ∷ 100 ∷ 47 ∷ 102 ∷ 47 ∷ 103 ∷ []) ∷ []
unfolding tree with_slash joined
tree_of_three = refl

abbrev next_address : Files → ℕ
next_address files = 100 + length files
