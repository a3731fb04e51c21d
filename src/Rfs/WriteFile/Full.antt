-- ===== src/Rfs/WriteFile/Full.antt =====
-- `write_file` on a volume that does not have the blocks.
use la_liga_de_la_justicia.Base.{
  ℕ, zero, suc, ◌+◌, ◌-◌, ◌/◌, ◌<◌, ◌≤◌, ◌≡◌, refl, ap, ◌∙◌, true, false, ◌||◌, some, List, [], ◌∷◌,
  ◌++◌, map, ltb, ◌==◌, if◌then◌else◌, get_or, range_from, arith,
}
use la_liga_de_la_justicia.Rfs.Geometry.{Geometry, size_in_blocks}
use la_liga_de_la_justicia.Rfs.Bitarray.{Bitarray}
use la_liga_de_la_justicia.Rfs.Image.{Image, enospc}
use la_liga_de_la_justicia.Rfs.DataBlocks.{Pointers, read_addresses, get_data_addresses}
use la_liga_de_la_justicia.Rfs.BlockCache.{Memcached}
use la_liga_de_la_justicia.Rfs.Inode.{Inode}
use la_liga_de_la_justicia.Rfs.Attach.Direct.{attach_blocks-enospc}
use la_liga_de_la_justicia.Rfs.Truncate.Holds.{Holds, Holds-first_zero}
use la_liga_de_la_justicia.Rfs.WriteFile.{fill_gap, grow, write_to, write_regular}

get_or_range :
    (f : ℕ → ℕ) (i k j : ℕ) (l : List ℕ)
    → j < k
    → get_or (map f (range_from i k) ++ l) j 0 ≡ f (i + j)
get_or_range f i zero j l h = absurd (omega arith)
get_or_range f i (suc k) zero l h = ap f (omega arith)
get_or_range f i (suc k) (suc j) l h =
    get_or_range f (i + 1) k j l (omega arith) ∙ ap f (omega arith)

-- The addresses of a file with direct pointers only.
pub get_data_addresses_direct :
    (g : Geometry) (words : ℕ → ℕ → ℕ) (ptr : Pointers) (bytes : ℕ)
    → 0 < size_in_blocks g bytes
    → size_in_blocks g bytes ≤ 12
    → get_data_addresses g words ptr bytes
      ≡ some (map ptr.pointer_data_0 (range_from 0 (size_in_blocks g bytes)) ++ 0 ∷ [])
unfolding get_data_addresses read_addresses
get_data_addresses_direct g words ptr bytes pos few =
    let k = size_in_blocks g bytes in
    let e : (if ltb 1 k then k else 1) ≡ k = ground (arith, pos) in
    let t : ltb 12 k ≡ false = ground (arith, few) in rw (e, t) refl

module _ (bits : Bitarray) (g : Geometry) (beyond : Image (bits.Bits) → ℕ) (m : Memcached (ℕ → ℕ))
    (path : List ℕ) (buffer : ℕ → ℕ) (offset n : ℕ) (inode : Inode) (fs : Image (bits.Bits))
    (s : m.State) where
  open bits use {Bits}
  open m use {State}

  abbrev old : ℕ
  old = size_in_blocks g inode.size

  abbrev new : ℕ
  new = size_in_blocks g (offset + n)

  -- The number of blocks that is asked for.
  abbrev extra : ℕ
  extra = size_in_blocks g (offset + n - inode.size)

  no_gap : offset ≤ inode.size → fill_gap bits g beyond m path buffer offset inode fs ≡ some fs
  unfolding fill_gap
  no_gap h = let t : ltb inode.size offset ≡ false = ground arith in rw t refl

  grow-enospc :
      Holds bits g fs inode.pointers old
      → old < new
      → old + extra ≤ 12
      → fs.super.total_unallocated_blocks < extra
      → grow bits g beyond m path buffer offset n inode fs
        ≡ some (record fs { errno = enospc }, inode.pointers)
  unfolding grow
  grow-enospc h more room short =
      let z = Holds-first_zero bits g fs inode.pointers old h in
      let e =
        attach_blocks-enospc bits g beyond fs inode.pointers extra (omega (arith, short))
          (omega (arith, z, room)) short in
      let t : ltb old new ≡ true = ground (arith, more) in rw (t, e, grow) refl

  write_to_missing :
      (fs' : Image Bits) (file_data : List ℕ)
      → 0 < new
      → get_or file_data (new - 1) 0 ≡ 0
      → write_to bits g beyond m path buffer offset n inode inode.pointers fs' s file_data
        ≡ some
            (record { inode = inode; image = fs'; cache = s; bytes_written = 0; unlocked = false })
  unfolding write_to
  write_to_missing fs' file_data pos missing =
      let some_count : (new == 0) ≡ false = ground (arith, pos) in
      let early : (ltb new (offset / g.block_size) || true) ≡ true = ground arith in
      rw (some_count, missing, early) refl

  -- A write that starts within a file whose blocks have direct pointers, and needs more blocks, where the volume does
  -- not have as many as are asked for: nothing is written and 0 is answered, the file stays as it was, and the lock
  -- of the file is not released.
  pub write_regular-enospc :
      Holds bits g fs inode.pointers old
      → offset ≤ inode.size
      → old < new
      → new ≤ 12
      → old + extra ≤ 12
      → fs.super.total_unallocated_blocks < extra
      → write_regular bits g beyond m path buffer offset n inode fs s
        ≡ some (record {
          inode = inode;
          image = record fs { errno = enospc };
          cache = s;
          bytes_written = 0;
          unlocked = false;
        })
  unfolding write_regular
  write_regular-enospc h within more few room short =
      let d =
        get_data_addresses_direct g fs.words inode.pointers (offset + n) (omega (arith, more))
          few in
      let missing : get_or (map inode.pointers.pointer_data_0 (range_from 0 new) ++ 0 ∷ [])
            (new - 1) 0
          ≡ 0 =
        get_or_range inode.pointers.pointer_data_0 0 new (new - 1) (0 ∷ []) (omega (arith, more))
        ∙ h.others (0 + (new - 1)) (omega (arith, more)) (omega (arith, more, few)) in
      rw (no_gap within, write_regular)
        (rw (grow-enospc h more room short, write_regular)
          (rw (d, write_regular)
            (write_to_missing (record fs { errno = enospc })
              (map inode.pointers.pointer_data_0 (range_from 0 new) ++ 0 ∷ []) (omega (arith, more))
              missing)))
