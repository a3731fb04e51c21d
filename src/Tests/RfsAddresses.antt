-- ===== src/Tests/RfsAddresses.antt =====
-- A file of fifteen blocks where a block holds four pointers.
use la_liga_de_la_justicia.Base.{ℕ, ◌+◌, ◌*◌, ◌≡◌, some, [], ◌∷◌, ◌++◌, map, range_from, arith}
use la_liga_de_la_justicia.Rfs.DataBlocks.{Pointers, read_addresses}
use la_liga_de_la_justicia.Rfs.DataBlocks.Addresses.{data_address, read_addresses-data_address}

abbrev fifteen : Pointers
fifteen = record {
  pointer_data_0 = λ i. 20 + i;
  pointer_data_1 = 50;
  pointer_data_2 = 60;
  pointer_data_3 = 70;
}

abbrev pointer_words : ℕ → ℕ → ℕ
pointer_words block i = block * 10 + i

read_addresses-data_address_example :
    read_addresses 4 pointer_words fifteen 15
    ≡ some (map (data_address 4 pointer_words fifteen) (range_from 0 15) ++ 0 ∷ [])
read_addresses-data_address_example =
    read_addresses-data_address 4 pointer_words fifteen 15 (omega arith) (omega arith)
