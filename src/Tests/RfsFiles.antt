-- ===== src/Tests/RfsFiles.antt =====
-- The blocks of small files: their addresses, their removal, and reading through the cache.
use mathlib.Core.Option.{none-ne-some}
use la_liga_de_la_justicia.Server.Strings.{strncmp_equal}
use la_liga_de_la_justicia.Base.{
  ℕ, zero, suc, ◌+◌, ◌*◌, ◌<◌, ◌≤◌, ◌≡◌, ◌≢◌, refl, inr, ◌&&◌, none, some, [], ◌∷◌, map, arith, ltb,
  leb, ◌==◌, if◌then◌else◌, range_from,
}
use la_liga_de_la_justicia.Base.{Bool}
use la_liga_de_la_justicia.Rfs.Bitarray.{functions}
use la_liga_de_la_justicia.Rfs.Image.{Image, enospc}
use la_liga_de_la_justicia.Rfs.Geometry.{size_in_blocks}
use la_liga_de_la_justicia.Rfs.Attach.{first_zero, attach_blocks}
use la_liga_de_la_justicia.Rfs.Attach.Direct.{attach_blocks_crash, attach_blocks-remove_loop}
use la_liga_de_la_justicia.Rfs.Truncate.{Truncated, resized, truncate_regular}
use la_liga_de_la_justicia.Rfs.Truncate.Holds.{Holds}
use la_liga_de_la_justicia.Rfs.Truncate.Resized.{
  Resized, truncate_regular-Resized, truncate_regular-enospc,
}
use la_liga_de_la_justicia.Rfs.Inode.{Inode, no_pointers, set_file_inode}
use la_liga_de_la_justicia.Rfs.DataBlocks.{Pointers}
use la_liga_de_la_justicia.Rfs.DataBlocks.Addresses.{data_address}
use la_liga_de_la_justicia.Rfs.Coordinates.{find_block_coordinates}
use la_liga_de_la_justicia.Rfs.Alloc.Obtain.{IsSound}
use la_liga_de_la_justicia.Rfs.BlockCache.{generate_key, IsFresh}
use la_liga_de_la_justicia.Rfs.ReadFile.{transfer}
use la_liga_de_la_justicia.Rfs.ReadFile.Content.{content, transfer-content}
use la_liga_de_la_justicia.Rfs.Remove.{Volume, block_number, remove_loop}
use la_liga_de_la_justicia.Rfs.Remove.Index.{block_number-data_address}
use la_liga_de_la_justicia.Rfs.Remove.Direct.{IsUsed, Owns, remove_loop-IsSound}
use la_liga_de_la_justicia.Tests.CacheModel.{Table, table}
use la_liga_de_la_justicia.Tests.RfsAlloc.{small_volume, two_groups, two_groups-IsSound}

-- A file with its blocks in blocks 1 and 2 of the volume.
abbrev two_blocks : Pointers
two_blocks = record no_pointers { pointer_data_0 = λ i. if i == 0 then 1 else 2 }

two_blocks-Owns : Owns functions small_volume 2 0 two_groups two_blocks
two_blocks-Owns = record { owned = owned; apart = λ i j low lt high. apart i j lt high }
  where
    owned :
        (j : ℕ)
        → 0 ≤ j
        → j < 2
        → IsUsed functions small_volume two_groups (two_blocks.pointer_data_0 j)
    owned zero low high = record {
      group = 0;
      index = 0;
      group_lt = omega arith;
      index_lt = omega arith;
      here = refl;
      used = refl;
    }
    owned (suc zero) low high = record {
      group = 0;
      index = 1;
      group_lt = omega arith;
      index_lt = omega arith;
      here = refl;
      used = refl;
    }
    owned (suc (suc j)) low high = absurd (omega arith)

    apart : (i j : ℕ) → i < j → j < 2 → two_blocks.pointer_data_0 i ≢ two_blocks.pointer_data_0 j
    apart i j lt high e = ground arith

abbrev pub empty_table : Table (ℕ → ℕ)
empty_table _ = none

remove_loop-IsSound_example :
    IsSound functions small_volume
      (remove_loop functions small_volume table [] 2 0 (two_groups, two_blocks) empty_table).0.0
    × ((remove_loop functions small_volume table [] 2 0
          (two_groups, two_blocks)
          empty_table).0.0.super.total_unallocated_blocks
        ≡ 6 + 2)
    × ((j : ℕ)
        → (remove_loop functions small_volume table [] 2 0
              (two_groups, two_blocks)
              empty_table).0.1.pointer_data_0
            j
          ≡ (if leb 0 j && ltb j (0 + 2) then 0 else two_blocks.pointer_data_0 j))
remove_loop-IsSound_example =
    remove_loop-IsSound functions small_volume (omega arith) (omega arith) (omega arith) table [] 2
      0 two_groups two_blocks empty_table (omega arith) two_groups-IsSound two_blocks-Owns

-- Block 300 of a file, behind the second entry of the double indirect block.
block_number-data_address_example :
    block_number (find_block_coordinates 256 300) two_groups two_blocks
    ≡ some (data_address 256 two_groups.words two_blocks 300)
block_number-data_address_example =
    block_number-data_address 256 (omega arith) (omega arith) two_groups two_blocks 300
      (omega arith)

-- Blocks of four bytes, whose bytes are numbered through the file.
abbrev numbered : ℕ → ℕ → ℕ
numbered b i = b * 4 + i

empty_table-IsFresh : IsFresh table [] numbered empty_table
empty_table-IsFresh b h v e = absurd (none-ne-some v e)

eleven_bytes :
    (transfer table 4 [] numbered 1 11 empty_table).0.read_data
    ≡ 1 ∷ 2 ∷ 3 ∷ 4 ∷ 5 ∷ 6 ∷ 7 ∷ 8 ∷ 9 ∷ 10 ∷ 11 ∷ []
unfolding transfer generate_key strncmp_equal
eleven_bytes = refl

transfer-content_example :
    ((transfer table 4 [] numbered 1 11 empty_table).0
      ≡ record { read_bytes = 11; read_data = map (content 4 numbered) (range_from 1 11) })
    × IsFresh table [] numbered (transfer table 4 [] numbered 1 11 empty_table).1
transfer-content_example =
    transfer-content table 4 [] numbered 1 11 empty_table (omega arith) (omega arith)
      empty_table-IsFresh (inr (omega arith))

five_bytes : (transfer table 4 [] numbered 1 5 empty_table).0.read_data ≡ 1 ∷ 2 ∷ 3 ∷ 0 ∷ 0 ∷ []
unfolding transfer generate_key
five_bytes = refl

-- A regular file of 1500 bytes in blocks 1 and 2, and nothing else.
abbrev pub small_file : Inode
small_file = record (set_file_inode 420) {
  size = 1500;
  pointers = record no_pointers {
    pointer_data_0 = λ i. if i == 0 then 1 else if i == 1 then 2 else 0;
  };
}

pub small_file-Holds : Holds functions small_volume two_groups small_file.pointers 2
small_file-Holds = record {
  few = omega arith;
  owns = record { owned = owned; apart = λ i j low lt high. apart i j lt high };
  others = λ j low high. ground arith;
}
  where
    owned :
        (j : ℕ)
        → 0 ≤ j
        → j < 2
        → IsUsed functions small_volume two_groups (small_file.pointers.pointer_data_0 j)
    owned zero low high = record {
      group = 0;
      index = 0;
      group_lt = omega arith;
      index_lt = omega arith;
      here = refl;
      used = refl;
    }
    owned (suc zero) low high = record {
      group = 0;
      index = 1;
      group_lt = omega arith;
      index_lt = omega arith;
      here = refl;
      used = refl;
    }
    owned (suc (suc j)) low high = absurd (omega arith)

    apart :
        (i j : ℕ)
        → i < j
        → j < 2
        → small_file.pointers.pointer_data_0 i ≢ small_file.pointers.pointer_data_0 j
    apart i j lt high e = ground arith

-- Grown to 4000 bytes, which need two blocks more.
truncate_regular-Resized_example :
    (t : Truncated (ℕ → Bool) (Table (ℕ → ℕ))) × (truncate_regular functions small_volume
        (λ _. 0)
        table
        []
        4000
        small_file
        two_groups
        empty_table
      ≡ some t)
    × Resized functions small_volume table [] (λ _. 0) 4000 small_file two_groups empty_table t
unfolding size_in_blocks
truncate_regular-Resized_example =
    truncate_regular-Resized functions small_volume table [] (λ _. 0) 4000 small_file two_groups
      empty_table (omega arith) (omega arith) (omega arith) two_groups-IsSound small_file-Holds
      (omega arith) (omega arith)

-- Grown to 10000 bytes, which need eight blocks more than the six that are free.
truncate_regular-enospc_example :
    truncate_regular functions small_volume
      (λ _. 0)
      table
      []
      10000
      small_file
      two_groups
      empty_table
    ≡ some (record {
      inode = resized small_volume small_file small_file.pointers 10000;
      image = record two_groups { errno = enospc };
      cache = empty_table;
      unlocks = 2;
    })
unfolding size_in_blocks
truncate_regular-enospc_example =
    truncate_regular-enospc functions small_volume table [] (λ _. 0) 10000 small_file two_groups
      empty_table small_file-Holds (omega arith) (omega arith) (omega arith)

-- Twelve direct pointers in use on a full volume.
abbrev full_pointers : Pointers
full_pointers = record no_pointers { pointer_data_0 = λ i. i + 1 }

abbrev full_volume : Image (ℕ → Bool)
full_volume = record two_groups {
  super = record (two_groups.super) { total_unallocated_blocks = 0 };
}

attach_blocks_crash_example :
    attach_blocks functions small_volume (λ _. 0) 1 (full_volume, full_pointers) ≡ none
unfolding first_zero
attach_blocks_crash_example =
    attach_blocks_crash functions small_volume (λ _. 0) full_volume full_pointers 1 refl
      (omega arith) refl refl

attach_blocks-remove_loop_example :
    (v : Volume functions small_volume) × (attach_blocks functions small_volume
        (λ _. 0)
        3
        (two_groups, no_pointers)
      ≡ some (0, v))
    × IsSound functions small_volume
        (remove_loop functions small_volume table [] 3 0 v empty_table).0.0
    × ((remove_loop functions small_volume table [] 3 0 v
          empty_table).0.0.super.total_unallocated_blocks
        ≡ 6)
    × ((j : ℕ)
        → (remove_loop functions small_volume table [] 3 0 v empty_table).0.1.pointer_data_0 j
          ≡ (if leb 0 j && ltb j (0 + 3) then 0 else 0))
unfolding first_zero
attach_blocks-remove_loop_example =
    attach_blocks-remove_loop functions small_volume (λ _. 0) two_groups no_pointers 3 (omega arith)
      (omega arith) (omega arith) table [] empty_table two_groups-IsSound (omega arith)
      (omega arith) (omega arith)
