-- ===== src/Tests/RfsGeometry.antt =====
-- Volumes of 1024-byte blocks: sizes, inode numbers, groups and coordinates.
use la_liga_de_la_justicia.Base.{ℕ, ◌≤◌, ◌≡◌, refl, false, none, some, arith}
use la_liga_de_la_justicia.Rfs.Geometry.{SuperBlock, Geometry, size_in_blocks, is_sparse}
use la_liga_de_la_justicia.Rfs.Geometry.Sizes.{size_in_blocks_mono}
use la_liga_de_la_justicia.Rfs.Coordinates.{find_block_coordinates, range1, range2, range3}
use la_liga_de_la_justicia.Rfs.Coordinates.Roundtrip.{Locates, find_block_coordinates-Locates}

abbrev volume : Geometry
volume = record {
  total_number_inodes_fs = 4096;
  total_number_blocks_fs = 16384;
  blocks_per_group = 8192;
  inodes_per_group = 2048;
  block_size = 1024;
  total_groups = 2;
  gdt_start = 2048;
}

abbrev superblock : ℕ → SuperBlock
superblock blocks = record {
  total_number_inodes_fs = 4096;
  total_number_blocks_fs = blocks;
  total_unallocated_blocks = 100;
  total_unallocated_inodes = 100;
  shift_number_block_size = 0;
  blocks_per_group = 8192;
  inodes_per_group = 2048;
}

size_in_blocks_mono_example : size_in_blocks volume 1024 ≤ size_in_blocks volume 1025
size_in_blocks_mono_example = size_in_blocks_mono volume 1024 1025 (omega arith) (omega arith)

group_27_not_sparse : is_sparse 27 ≡ false
unfolding is_sparse
group_27_not_sparse = refl

find_block_coordinates-Locates_example : Locates 256 1000 (find_block_coordinates 256 1000)
find_block_coordinates-Locates_example =
    find_block_coordinates-Locates 256 (omega arith) (omega arith) 1000 (omega arith)

coordinates_of_1000 :
    find_block_coordinates 256 1000 ≡ record { c0 = some 0; c1 = some 220; c2 = some 2; c3 = none }
unfolding find_block_coordinates range1 range2 range3
coordinates_of_1000 = refl
