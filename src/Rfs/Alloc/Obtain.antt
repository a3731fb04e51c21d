-- ===== src/Rfs/Alloc/Obtain.antt =====
-- What `Get_Free_Blocks` promises its callers.
use mathlib.Core.Path.{subst}
use native.Mathlib.Nat.{zero-add}
use la_liga_de_la_justicia.Base.{
  ℕ, ◌+◌, ◌-◌, ◌≤◌, ◌<◌, ◌≡◌, refl, ap, true, false, ◌||◌, none, some, List, arith, length, has,
  Run, le→ltb, lt→ltb,
}
use la_liga_de_la_justicia.Rfs.Geometry.{Geometry}
use la_liga_de_la_justicia.Rfs.Bitarray.{Bitarray}
use la_liga_de_la_justicia.Rfs.Image.{Image, enospc}
use la_liga_de_la_justicia.Rfs.Alloc.{blocks_loop, get_free_blocks, clean_blocks}
use la_liga_de_la_justicia.Rfs.Alloc.Takes.{
  status, block_at, sum_free, IsLaidOut, IsCounted, Takes, Takes-IsLaidOut,
}
use la_liga_de_la_justicia.Rfs.Alloc.Blocks.{blocks_loop-Takes}

module _ (bits : Bitarray) (g : Geometry) where
  open bits use {Bits}

  -- The books of a volume: each descriptor counts its bitmap, and the superblock the descriptors.
  pub record IsSound (fs : Image Bits) : Type 0 where
    pub laid : IsLaidOut bits g fs
    pub counted : IsCounted bits g fs
    pub total : fs.super.total_unallocated_blocks ≡ sum_free bits g fs 0 g.total_groups

  -- `fs'` is `fs` after `how_many` blocks, those of `blocks`, were handed out.
  pub record Obtained (fs fs' : Image Bits) (how_many : ℕ) (blocks : List ℕ) : Type 0 where
    pub count : length blocks ≡ how_many
    pub ascending : Run (block_at bits g 0 0) (block_at bits g g.total_groups 0) blocks
    pub free :
        (n i : ℕ)
        → n < g.total_groups
        → i < g.blocks_per_group
        → has (block_at bits g n i) blocks ≡ true
        → status bits g fs n i ≡ false
    pub marked :
        (n i : ℕ)
        → n < g.total_groups
        → i < g.blocks_per_group
        → status bits g fs' n i ≡ (has (block_at bits g n i) blocks || status bits g fs n i)
    pub sound : IsSound fs'
    pub less : fs'.super.total_unallocated_blocks + how_many ≡ fs.super.total_unallocated_blocks
    pub same_errno : fs'.errno ≡ fs.errno

  module _ (beyond : ℕ) (fs : Image Bits) (how_many : ℕ) where
    -- On a volume whose books are right and that has the blocks, where behind the array that is returned at most one word
    -- stands before the next word that is 0, the call succeeds: it returns as
    -- many block numbers as were asked for, in strictly ascending order and within the volume, each
    -- of a block that was free; exactly those blocks are marked and no other bit changes; and the
    -- books are right again, with that many free blocks less.
    pub get_free_blocks-Obtained :
        IsSound fs
        → how_many ≤ fs.super.total_unallocated_blocks
        → (blocks : List ℕ) × ((get_free_blocks bits g beyond how_many fs).0 ≡ some blocks)
          × Obtained fs (get_free_blocks bits g beyond how_many fs).1 how_many blocks
    unfolding get_free_blocks
    get_free_blocks-Obtained sound h = rw (le→ltb fs.super.total_unallocated_blocks how_many h) (
      taken.0,
      refl,
      record {
        count = t.len;
        ascending = run;
        free = t.free;
        marked = t.marks;
        sound = sound';
        less = omega (arith, total_left);
        same_errno = t.same_errno;
      },
    )
      where
        fs1 : Image Bits
        fs1 =
            let total = fs.super.total_unallocated_blocks - how_many in
            record fs { super = record (fs.super) { total_unallocated_blocks = total } }

        taken : List ℕ × Image Bits
        taken = blocks_loop bits g g.total_groups 0 how_many fs1

        laid1 : IsLaidOut bits g fs1
        laid1 = record {
          numbered = sound.laid.numbered;
          apart = sound.laid.apart;
          fits = sound.laid.fits;
        }

        same_sum : sum_free bits g fs1 0 g.total_groups ≡ sum_free bits g fs 0 g.total_groups
        same_sum = refl

        t : Takes bits g fs1 taken.1 0 g.total_groups how_many taken.0
        t =
            blocks_loop-Takes bits g g.total_groups 0 how_many fs1 laid1 sound.counted (omega arith)
              (omega (arith, sound.total, same_sum))

        run : Run (block_at bits g 0 0) (block_at bits g g.total_groups 0) taken.0
        run =
            subst (λ k. Run (block_at bits g 0 0) (block_at bits g k 0) taken.0)
              (zero-add g.total_groups) t.run

        total_left :
            taken.1.super.total_unallocated_blocks ≡ fs.super.total_unallocated_blocks - how_many
        total_left = ap (λ s. s.total_unallocated_blocks) t.same_super

        laid' : IsLaidOut bits g taken.1
        laid' = Takes-IsLaidOut bits g t laid1

        sound' : IsSound (record (taken.1) { words = clean_blocks taken.0 beyond taken.1.words })
        sound' = record {
          laid = record { numbered = laid'.numbered; apart = laid'.apart; fits = laid'.fits };
          counted = t.counted sound.counted;
          total = omega (arith, total_left, t.sums, sound.total, same_sum);
        }

    -- Asked for more blocks than the superblock counts, it returns NULL with errno ENOSPC and
    -- changes nothing else.
    pub get_free_blocks-enospc :
        fs.super.total_unallocated_blocks < how_many
        → get_free_blocks bits g beyond how_many fs ≡ (none, record fs { errno = enospc })
    unfolding get_free_blocks
    get_free_blocks-enospc h = rw (lt→ltb fs.super.total_unallocated_blocks how_many h) refl
