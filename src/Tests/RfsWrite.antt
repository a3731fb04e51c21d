-- ===== src/Tests/RfsWrite.antt =====
-- Writes to a file in blocks of four bytes, and to the file of 1500 bytes on a volume with six free blocks.
use mathlib.Core.Option.{none-ne-some}
use la_liga_de_la_justicia.Base.{
  ℕ, zero, suc, ◌+◌, ◌≡◌, refl, inr, false, some, List, [], ◌∷◌, map, range_from, arith,
}
use la_liga_de_la_justicia.Rfs.Bitarray.{functions}
use la_liga_de_la_justicia.Rfs.Image.{enospc}
use la_liga_de_la_justicia.Rfs.Geometry.{size_in_blocks}
use la_liga_de_la_justicia.Rfs.BlockCache.{IsFresh}
use la_liga_de_la_justicia.Rfs.ReadFile.{on_disk, transfer}
use la_liga_de_la_justicia.Rfs.WriteFile.{Data, scatter, write_regular}
use la_liga_de_la_justicia.Rfs.WriteFile.Content.{Apart}
use la_liga_de_la_justicia.Rfs.WriteFile.Stored.{IsWritten, scatter-IsWritten, scatter-transfer}
use la_liga_de_la_justicia.Rfs.WriteFile.Full.{write_regular-enospc}
use la_liga_de_la_justicia.Tests.CacheModel.{table}
use la_liga_de_la_justicia.Tests.RfsAlloc.{small_volume, two_groups}
use la_liga_de_la_justicia.Tests.RfsFiles.{empty_table, small_file, small_file-Holds}

abbrev addresses : List ℕ
addresses = 10 ∷ 11 ∷ 12 ∷ 0 ∷ []

addresses-Apart : Apart 3 addresses
addresses-Apart zero zero l e = refl
addresses-Apart zero (suc zero) l e = absurd (omega arith)
addresses-Apart zero (suc (suc zero)) l e = absurd (omega arith)
addresses-Apart zero (suc (suc (suc zero))) l e = absurd (omega arith)
addresses-Apart zero (suc (suc (suc (suc c)))) l e = absurd (omega arith)
addresses-Apart (suc zero) zero l e = absurd (omega arith)
addresses-Apart (suc zero) (suc zero) l e = refl
addresses-Apart (suc zero) (suc (suc zero)) l e = absurd (omega arith)
addresses-Apart (suc zero) (suc (suc (suc zero))) l e = absurd (omega arith)
addresses-Apart (suc zero) (suc (suc (suc (suc c)))) l e = absurd (omega arith)
addresses-Apart (suc (suc zero)) zero l e = absurd (omega arith)
addresses-Apart (suc (suc zero)) (suc zero) l e = absurd (omega arith)
addresses-Apart (suc (suc zero)) (suc (suc zero)) l e = refl
addresses-Apart (suc (suc zero)) (suc (suc (suc zero))) l e = absurd (omega arith)
addresses-Apart (suc (suc zero)) (suc (suc (suc (suc c)))) l e = absurd (omega arith)
addresses-Apart (suc (suc (suc b))) c l e = absurd (omega arith)

abbrev letters : ℕ → ℕ
letters i = i + 65

abbrev blank : Data
blank _ _ = 0

blank-IsFresh : IsFresh table [] (on_disk blank addresses) empty_table
blank-IsFresh b h v e = absurd (none-ne-some v e)

-- Five bytes from the second one on: only the three of the first block are written.
scatter-IsWritten_example :
    IsWritten table 4 [] addresses 1 3 3 letters blank
      (scatter table 4 [] addresses letters 1 3 5 blank empty_table)
scatter-IsWritten_example =
    scatter-IsWritten table 4 [] addresses letters 3 (omega arith) (omega arith) addresses-Apart 1 5
      blank empty_table (omega arith) (omega arith) blank-IsFresh

scatter-transfer_example :
    (transfer table 4 []
      (on_disk (scatter table 4 [] addresses letters 1 3 8 blank empty_table).stored addresses)
      1
      8
      (scatter table 4 [] addresses letters 1 3 8 blank empty_table).cache).0
    ≡ record { read_bytes = 8; read_data = map letters (range_from 0 8) }
scatter-transfer_example =
    scatter-transfer table 4 [] addresses letters 3 (omega arith) (omega arith) addresses-Apart 1 8
      blank empty_table (omega arith) (omega arith) (omega arith) blank-IsFresh (inr (omega arith))

-- Eight blocks are asked for, where six are free.
write_regular-enospc_example :
    write_regular functions small_volume
      (λ _. 0)
      table
      []
      letters
      1500
      8000
      small_file
      two_groups
      empty_table
    ≡ some (record {
      inode = small_file;
      image = record two_groups { errno = enospc };
      cache = empty_table;
      bytes_written = 0;
      unlocked = false;
    })
unfolding size_in_blocks
write_regular-enospc_example =
    write_regular-enospc functions small_volume (λ _. 0) table [] letters 1500 8000 small_file
      two_groups empty_table small_file-Holds (omega arith) (omega arith) (omega arith)
      (omega arith) (omega arith)
