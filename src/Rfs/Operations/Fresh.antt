-- ===== src/Rfs/Operations/Fresh.antt =====
-- The block of a new directory.
use la_liga_de_la_justicia.Base.{
  ℕ, suc, ◌-◌, ◌%◌, ◌<◌, ◌≡◌, refl, true, some, List, [], ◌∷◌, ltb, arith,
}
use la_liga_de_la_justicia.Rfs.Image.{update}
use la_liga_de_la_justicia.Rfs.Directory.{
  Entry, Block, get_padded_size, put_entry, has_room, attach_in_block,
}
use la_liga_de_la_justicia.Rfs.Directory.Chain.{Chain, at_end, entry}
use la_liga_de_la_justicia.Rfs.Directory.Insert.{with_len}
use la_liga_de_la_justicia.Rfs.Directory.Delete.{create_entry}
use la_liga_de_la_justicia.Rfs.Operations.{only_two}
use la_liga_de_la_justicia.Rfs.Operations.Emptiness.{only_two-Chain}
use la_liga_de_la_justicia.Rfs.Operations.Create.{with_dot}

abbrev pub dot : (number : ℕ) → Entry
dot number = create_entry (46 ∷ []) number

abbrev pub dot_dot : (parent : ℕ) → Entry
dot_dot parent = create_entry (46 ∷ 46 ∷ []) parent

module _ (bs number parent : ℕ) (b : Block) (large : 22 < bs) (small : bs < 65536) where
  -- "." in the bytes it needs, and ".." in all the others.
  abbrev pub both : List Entry
  both = with_len (dot number) 12 ∷ with_len (dot_dot parent) (bs - 12) ∷ []

  abbrev made : Block
  made =
      update (update (with_dot bs number b) 0 (with_len (dot number) 12)) 12
        (with_len (dot_dot parent) (bs - 12))

  attach_made :
      (rounds : ℕ)
      → attach_in_block bs (suc rounds) 0 (dot_dot parent) (with_dot bs number b) ≡ some (some made)
  unfolding attach_in_block has_room put_entry get_padded_size with_dot create_entry
  attach_made rounds =
      let t : ltb 0 bs ≡ true = ground (arith, large) in
      let z : bs % 65536 ≡ bs = omega (arith, small) in
      let u : ltb 12 bs ≡ true = ground (arith, large) in
      let v : ltb 10 (bs - 12) ≡ true = ground (arith, large) in rw (t, z, u, v) refl

  made-Chain : Chain bs made 0 both
  made-Chain =
      entry (omega (arith, large)) refl (omega arith)
        (entry (omega (arith, large)) refl (omega (arith, large)) (at_end (omega (arith, large))))

  -- The block of a new directory, where `create_file_dir` puts "." into all of it and `attach_entry` then "..", in a
  -- volume whose blocks take more than 22 and less than 65536 bytes: ".." goes into this block, which is then a chain of
  -- exactly "." and "..", whatever was in it, and `delete_dir` takes it for that of an empty directory.
  pub new_directory-Chain :
      (rounds : ℕ)
      → (b' : Block) × (attach_in_block bs (suc rounds) 0 (dot_dot parent) (with_dot bs number b)
          ≡ some (some b'))
        × Chain bs b' 0 both
        × (only_two bs b' ≡ true)
  unfolding get_padded_size create_entry
  new_directory-Chain rounds =
      (made, attach_made rounds, made-Chain, (only_two-Chain bs made small made-Chain refl).1 refl)
