-- ===== src/Tests/RfsAlloc.antt =====
-- A volume of two groups of eight blocks: taking three blocks, and giving one back.
use la_liga_de_la_justicia.Base.{
  ℕ, zero, suc, ◌<◌, ◌≡◌, refl, Bool, false, ◌&&◌, some, List, [], ◌∷◌, ◌++◌, arith, ltb, ◌==◌,
  if◌then◌else◌, has,
}
use la_liga_de_la_justicia.Rfs.Geometry.{Geometry, GroupDescriptor, group_number}
use la_liga_de_la_justicia.Rfs.Bitarray.{functions}
use la_liga_de_la_justicia.Rfs.Image.{Image}
use la_liga_de_la_justicia.Rfs.Alloc.{get_free_blocks, set_free_block_bitmap, clean_blocks}
use la_liga_de_la_justicia.Rfs.Alloc.Scan.{free_count}
use la_liga_de_la_justicia.Rfs.Alloc.Takes.{status, block_at, IsLaidOut}
use la_liga_de_la_justicia.Rfs.Alloc.Obtain.{IsSound, Obtained, get_free_blocks-Obtained}
use la_liga_de_la_justicia.Rfs.Alloc.Clean.{clean_blocks_spares_last}
use la_liga_de_la_justicia.Rfs.Alloc.Release.{set_free_block_bitmap-IsSound}

abbrev pub small_volume : Geometry
small_volume = record {
  total_number_inodes_fs = 16;
  total_number_blocks_fs = 16;
  blocks_per_group = 8;
  inodes_per_group = 8;
  block_size = 1024;
  total_groups = 2;
  gdt_start = 2048;
}

-- Group 0 has its bitmap in block 3 and two free blocks, group 1 in block 11 and four.
abbrev pub descriptors : ℕ → GroupDescriptor
descriptors n = record {
  bitmap_block_address = if n == 0 then 3 else 11;
  bitmap_inode_address = if n == 0 then 4 else 12;
  start_inode_table = if n == 0 then 5 else 13;
  unallocated_blocks = if n == 0 then 2 else 4;
  unallocated_inodes = 8;
  number_directories_group = 0;
}

abbrev pub two_groups : Image (ℕ → Bool)
two_groups = record {
  super = record {
    total_number_inodes_fs = 16;
    total_number_blocks_fs = 16;
    total_unallocated_blocks = 6;
    total_unallocated_inodes = 16;
    shift_number_block_size = 0;
    blocks_per_group = 8;
    inodes_per_group = 8;
  };
  descriptor = descriptors;
  bitmap = λ a i. if a == 3 then ltb i 6 else ltb i 4;
  words = λ _ _. 7;
  errno = 0;
}

two_groups_laid : IsLaidOut functions small_volume two_groups
unfolding group_number
two_groups_laid = record { numbered = numbered; apart = apart; fits = omega arith }
  where
    numbered : (n : ℕ) → n < 2 → group_number small_volume (descriptors n) ≡ n
    numbered zero h = refl
    numbered (suc zero) h = refl
    numbered (suc (suc n)) h = absurd (omega arith)

    apart :
        (n m : ℕ)
        → n < 2
        → m < 2
        → (descriptors n).bitmap_block_address ≡ (descriptors m).bitmap_block_address
        → n ≡ m
    apart n m p q e = ground arith

pub two_groups-IsSound : IsSound functions small_volume two_groups
two_groups-IsSound = record { laid = two_groups_laid; counted = counted; total = refl }
  where
    counted :
        (n : ℕ)
        → n < 2
        → (descriptors n).unallocated_blocks
          ≡ free_count functions (two_groups.bitmap (descriptors n).bitmap_block_address) 0 8
    counted zero h = unfold free_count in refl
    counted (suc zero) h = unfold free_count in refl
    counted (suc (suc n)) h = absurd (omega arith)

three_blocks : (get_free_blocks functions small_volume 1 3 two_groups).0 ≡ some (7 ∷ 8 ∷ 13 ∷ [])
unfolding get_free_blocks group_number
three_blocks = refl

get_free_blocks-Obtained_example :
    (blocks : List ℕ) × ((get_free_blocks functions small_volume 1 3 two_groups).0 ≡ some blocks)
    × Obtained functions small_volume two_groups
        (get_free_blocks functions small_volume 1 3 two_groups).1
        3
        blocks
get_free_blocks-Obtained_example =
    get_free_blocks-Obtained functions small_volume 1 two_groups 3 two_groups-IsSound (omega arith)

clean_blocks_spares_last_example :
    clean_blocks ((7 ∷ 8 ∷ []) ++ 13 ∷ []) 0 two_groups.words 13
    ≡ (if has 13 (7 ∷ 8 ∷ []) then (λ _. 0) else two_groups.words 13)
clean_blocks_spares_last_example =
    clean_blocks_spares_last (7 ∷ 8 ∷ []) 13 two_groups.words 13 (omega arith) (omega arith)

set_free_block_bitmap-IsSound_example :
    IsSound functions small_volume (
      set_free_block_bitmap functions small_volume (block_at functions small_volume 1 2) two_groups)
    × ((j k : ℕ)
        → j < 2
        → status functions small_volume
            (set_free_block_bitmap functions small_volume
              (block_at functions small_volume 1 2)
              two_groups)
            j
            k
          ≡ (if (j == 1) && (k == 2) then false else status functions small_volume two_groups j k))
    × ((set_free_block_bitmap functions small_volume
          (block_at functions small_volume 1 2)
          two_groups).super.total_unallocated_blocks
        ≡ 7)
set_free_block_bitmap-IsSound_example =
    set_free_block_bitmap-IsSound functions small_volume two_groups two_groups-IsSound 1 2
      (omega arith) (omega arith) (omega arith) refl
