-- ===== src/Tests/RfsOperations.antt =====
-- A volume with the directory above in block 6, which holds "a", and the directory "a" in block 7, which holds "x".
use la_liga_de_la_justicia.Base.{
  ℕ, ◌≡◌, ◌↔◌, ◌⊎◌, refl, Bool, true, none, some, List, [], ◌∷◌, ◌==◌, if◌then◌else◌, arith,
}
use la_liga_de_la_justicia.Rfs.Geometry.{size_in_blocks}
use la_liga_de_la_justicia.Rfs.Bitarray.{functions}
use la_liga_de_la_justicia.Rfs.DataBlocks.{get_data_addresses}
use la_liga_de_la_justicia.Rfs.Inode.{Inode, no_pointers, clear_inode}
use la_liga_de_la_justicia.Rfs.Directory.{Entry, Block, get_padded_size, attach_in_block}
use la_liga_de_la_justicia.Rfs.Directory.Chain.{Chain, at_end, entry}
use la_liga_de_la_justicia.Rfs.Directory.Delete.{create_entry, has_name}
use la_liga_de_la_justicia.Rfs.Operations.{
  World, enotempty, only_two, until_empty, blocks_of, delete_dir,
}
use la_liga_de_la_justicia.Rfs.Operations.Emptiness.{only_two-Chain}
use la_liga_de_la_justicia.Rfs.Operations.Unlink.{Without, delete_dir_unlinks}
use la_liga_de_la_justicia.Rfs.Operations.Create.{with_dot}
use la_liga_de_la_justicia.Rfs.Operations.Fresh.{both, dot_dot, new_directory-Chain}
use la_liga_de_la_justicia.Rfs.Alloc.{get_free_inodes, get_free_inodes_in_group, inodes_loop}
use la_liga_de_la_justicia.Rfs.Directory.Insert.{NoRoom}
use la_liga_de_la_justicia.Rfs.Operations.Lifetime.{Restored, create_file_dir-delete_file}
use la_liga_de_la_justicia.Tests.CacheModel.{Table, table}
use la_liga_de_la_justicia.Tests.RfsAlloc.{small_volume, two_groups}

abbrev named : (inode len : ℕ) → (name : List ℕ) → (name_len : ℕ) → Entry
named inode len name name_len = record {
  inode_number = inode;
  entry_len = len;
  name_len = name_len;
  file_type = 2;
  file_name = name;
}

abbrev three : (number last : ℕ) → (name : List ℕ) → List Entry
three number last name =
    named number 12 (46 ∷ []) 1 ∷ named 2 12 (46 ∷ 46 ∷ []) 2 ∷ named last 1000 name 1 ∷ []

abbrev three_block : (number last : ℕ) → (name : List ℕ) → Block
three_block number last name i =
    if i == 0
    then named number 12 (46 ∷ []) 1
    else if i == 12
    then named 2 12 (46 ∷ 46 ∷ []) 2
    else if i == 24
    then named last 1000 name 1
    else named 0 0 [] 0

three_block-Chain :
    (number last : ℕ) (name : List ℕ)
    → Chain 1024 (three_block number last name) 0 (three number last name)
three_block-Chain number last name =
    entry (omega arith) refl (omega arith) (
      entry (omega arith) refl (omega arith) (entry (omega arith) refl (omega arith) (at_end refl)))

only_two-Chain_example :
    (only_two 1024 (three_block 12 13 (120 ∷ [])) ≡ true) ↔ (named 13 1000 (120 ∷ []) 1 ∷ [] ≡ [])
unfolding get_padded_size
only_two-Chain_example =
    only_two-Chain 1024 (three_block 12 13 (120 ∷ [])) (omega arith)
      (three_block-Chain 12 13 (120 ∷ [])) refl

abbrev at_block : (place : ℕ) → Inode
at_block place = record clear_inode {
  mode = 16384;
  size = 1024;
  blocks = 2;
  pointers = record no_pointers { pointer_data_0 = λ i. if i == 0 then place else 0 };
}

abbrev world : World (ℕ → Bool)
world = record {
  fs = two_groups;
  inodes = λ n. if n == 2 then at_block 6 else at_block 7;
  dirs = λ a. if a == 6 then three_block 2 12 (97 ∷ []) else three_block 12 13 (120 ∷ []);
}

delete_dir_unlinks_example :
    (w' : World (ℕ → Bool)) × (delete_dir functions small_volume 1024 (97 ∷ []) (some 12) 2 world
      ≡ some (1, w'))
    × (w'.fs.errno ≡ enotempty)
    × Without functions small_volume 1024 (97 ∷ []) (three 2 12 (97 ∷ [])) (w'.dirs 6)
    × (w'.dirs 7 ≡ world.dirs 7)
    × (w'.inodes 12 ≡ world.inodes 12)
unfolding blocks_of get_data_addresses until_empty has_name size_in_blocks get_padded_size
delete_dir_unlinks_example =
    delete_dir_unlinks functions small_volume 1024 (97 ∷ []) (omega arith) (omega arith) world 2 6
      refl (three_block-Chain 2 12 (97 ∷ [])) refl refl 12 7 [] (omega arith) refl (omega arith)
      (three_block-Chain 12 13 (120 ∷ [])) refl

new_directory-Chain_example :
    (b' : Block) × (attach_in_block 1024 8 0
        (dot_dot 2)
        (with_dot 1024 12 (three_block 12 13 (120 ∷ [])))
      ≡ some (some b'))
    × Chain 1024 b' 0 (both 1024 12 2 (three_block 12 13 (120 ∷ [])) (omega arith) (omega arith))
    × (only_two 1024 b' ≡ true)
new_directory-Chain_example =
    new_directory-Chain 1024 12 2 (three_block 12 13 (120 ∷ [])) (omega arith) (omega arith) 7

abbrev empty_table : Table (ℕ → ℕ)
empty_table _ = none

has_name_b : has_name (98 ∷ []) (create_entry (98 ∷ []) 5) ≡ true
unfolding has_name create_entry
has_name_b = refl

first_inode : (get_free_inodes functions small_volume 1 two_groups).0 ≡ some (5 ∷ [])
unfolding get_free_inodes inodes_loop get_free_inodes_in_group
first_inode = refl

create_file_dir-delete_file_example :
    NoRoom 1024 (create_entry (98 ∷ []) 5) (three 2 12 (97 ∷ []))
    ⊎ Restored functions small_volume 1024 3
        (λ _. 0)
        (98 ∷ [])
        5
        2
        420
        world
        table
        []
        empty_table
        (three 2 12 (97 ∷ []))
unfolding has_name get_padded_size size_in_blocks
create_file_dir-delete_file_example =
    create_file_dir-delete_file functions small_volume 1024 3 (λ _. 0) (98 ∷ []) 5 2 420 world refl
      (λ h. omega (arith, h)) (λ h. omega (arith, h)) first_inode (omega arith) table [] empty_table
      (omega arith) (omega arith) has_name_b refl (three_block-Chain 2 12 (97 ∷ []))
      (refl, (refl, (refl, tt))) (omega arith, (omega arith, (omega arith, tt)))
