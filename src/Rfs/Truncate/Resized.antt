-- ===== src/Rfs/Truncate/Resized.antt =====
-- `truncate_file`: a file whose blocks all have direct pointers keeps its blocks and the volume its books when
-- its size changes.
use la_liga_de_la_justicia.Base.{
  ℕ, ◌+◌, ◌-◌, ◌/◌, ◌≤◌, ◌<◌, ◌≡◌, refl, sym, subst, inl, inr, true, false, some, List, arith, ltb,
  Bool-cases,
}
use la_liga_de_la_justicia.Rfs.Geometry.{Geometry, size_in_blocks}
use la_liga_de_la_justicia.Rfs.Bitarray.{Bitarray}
use la_liga_de_la_justicia.Rfs.Image.{Image, enospc}
use la_liga_de_la_justicia.Rfs.Alloc.Obtain.{IsSound}
use la_liga_de_la_justicia.Rfs.Inode.{Inode}
use la_liga_de_la_justicia.Rfs.BlockCache.{Memcached}
use la_liga_de_la_justicia.Rfs.Remove.{Volume, remove_loop, remove_blocks}
use la_liga_de_la_justicia.Rfs.Truncate.{Truncated, resized, truncate_regular}
use la_liga_de_la_justicia.Rfs.Attach.{first_zero, placed, attach_blocks}
use la_liga_de_la_justicia.Rfs.Attach.Direct.{attach_blocks-Obtained, attach_blocks-enospc}
use la_liga_de_la_justicia.Rfs.Truncate.Holds.{Holds, Holds-first_zero, Holds-more, Holds-less}

module _ (bits : Bitarray) (g : Geometry) where
  open bits use {Bits}

  module _ (m : Memcached (ℕ → ℕ)) (path : List ℕ) where
    open m use {State}

    module _ (beyond : Image Bits → ℕ) (new_size : ℕ) (inode : Inode) (fs : Image Bits)
        (s : State) where
      abbrev old : ℕ
      old = size_in_blocks g inode.size

      abbrev new : ℕ
      new = size_in_blocks g new_size

      -- The call did its work: the size is the new one, the lock was released once, the books of the volume are
      -- right, the file has as many blocks as the size needs, and no block was lost or made up.
      pub record Resized (t : Truncated Bits State) : Type 0 where
        pub sized : t.inode.size ≡ new_size
        pub unlocked : t.unlocks ≡ 1
        pub sound : IsSound bits g t.image
        pub holds : Holds bits g t.image t.inode.pointers (size_in_blocks g new_size)
        pub kept :
            t.image.super.total_unallocated_blocks + size_in_blocks g new_size
            ≡ fs.super.total_unallocated_blocks + size_in_blocks g inode.size

      grow-some :
          (v : Volume bits g)
          → old < new
          → attach_blocks bits g beyond (new - old) (fs, inode.pointers) ≡ some (0, v)
          → truncate_regular bits g beyond m path new_size inode fs s
            ≡ some (record {
              inode = resized g inode v.1 new_size;
              image = v.0;
              cache = s;
              unlocks = 1;
            })
      unfolding truncate_regular
      grow-some v more e =
          let t : ltb old new ≡ true = ground arith in rw (t, e, truncate_regular) refl

      shrink-some :
          (v : Volume bits g) (s' : State)
          → new < old
          → remove_loop bits g m path (old - new) (old - (old - new)) (fs, inode.pointers) s
            ≡ (v, s')
          → truncate_regular bits g beyond m path new_size inode fs s
            ≡ some (record {
              inode = resized g inode v.1 new_size;
              image = v.0;
              cache = s';
              unlocks = 1;
            })
      unfolding truncate_regular remove_blocks
      shrink-some v s' less e =
          let f : ltb old new ≡ false = ground arith in
          let t : ltb new old ≡ true = ground arith in rw (f, t, e, truncate_regular) refl

      same-some :
          old ≡ new
          → truncate_regular bits g beyond m path new_size inode fs s
            ≡ some (record {
              inode = resized g inode inode.pointers new_size;
              image = fs;
              cache = s;
              unlocks = 1;
            })
      unfolding truncate_regular
      same-some e =
          let f : ltb old new ≡ false = ground arith in
          let t : ltb new old ≡ false = ground arith in rw (f, t, truncate_regular) refl

      abbrev Done : Type 0
      Done =
          (t : Truncated Bits State) × (truncate_regular bits g beyond m path new_size inode fs s
            ≡ some t)
          × Resized t

      module _ (p : 0 < g.block_size / 4) (small : g.block_size / 4 ≤ 1024)
          (below : g.blocks_per_group < 65536) (sound : IsSound bits g fs)
          (h : Holds bits g fs inode.pointers old) (few : new ≤ 12)
          (have : new ≤ old + fs.super.total_unallocated_blocks) where
        grow : old < new → Done
        grow more =
            let z = Holds-first_zero bits g fs inode.pointers old h in
            let (blocks, (fs', e, o)) =
              attach_blocks-Obtained bits g beyond fs inode.pointers (new - old) sound (omega arith)
                (omega (arith, z, few)) (omega (arith, have)) in
            let up : old + (new - old) ≡ new = omega arith in
            let held =
              Holds-more bits g fs fs' inode.pointers old (new - old) blocks h (omega arith) o in
            (
              _,
              grow-some _ more e,
              record {
                sized = refl;
                unlocked = refl;
                sound = o.sound;
                holds =
                    subst
                      (λ k.
                        Holds bits g fs'
                          (record (inode.pointers) {
                            pointer_data_0 = placed inode.pointers.pointer_data_0 k blocks;
                          })
                          new)
                      (sym z)
                      (subst
                        (Holds bits g fs' (record (inode.pointers) {
                          pointer_data_0 = placed inode.pointers.pointer_data_0 old blocks;
                        }))
                        up held);
                kept = omega (arith, o.less);
              },
            )

        shrink : new < old → Done
        shrink less =
            let down : old - (old - new) ≡ new = omega arith in
            let (sound', held, total) =
              Holds-less bits g m path fs inode.pointers s old (old - new) p small below sound h
                (omega arith) in
            let r =
              remove_loop bits g m path (old - new) (old - (old - new)) (fs, inode.pointers) s in
            (
              _,
              shrink-some r.0 r.1 less refl,
              record {
                sized = refl;
                unlocked = refl;
                sound = sound';
                holds = subst (Holds bits g r.0.0 r.0.1) down held;
                kept = omega (arith, total);
              },
            )

        same : old ≡ new → Done
        same e = (
          _,
          same-some e,
          record {
            sized = refl;
            unlocked = refl;
            sound = sound;
            holds = subst (Holds bits g fs inode.pointers) e h;
            kept = omega arith;
          },
        )

        -- A file whose blocks have direct pointers, on a volume whose books are right, can be given any size for
        -- which direct pointers and the free blocks suffice, with groups of fewer than 65536 blocks of at most
        -- 4096 bytes, where behind the array of new blocks at most one word stands before the next word that is 0.
        -- The books stay right, the file has the blocks that its new size needs, each of its own,
        -- the free blocks and the blocks of the file are as many as before, and the lock is released once.
        pub truncate_regular-Resized :
            (t : Truncated Bits State) × (truncate_regular bits g beyond m path new_size inode fs s
              ≡ some t)
            × Resized t
        truncate_regular-Resized = elim (Bool-cases (ltb old new)) [
          | inl t ↦ grow (ground arith)
          | inr t ↦ elim (Bool-cases (ltb new old)) [
            | inl t' ↦ shrink (ground arith)
            | inr t' ↦ same (ground arith)
          ]
        ]

      -- Where the volume does not have the blocks, the file gets the new size all the same, without one block
      -- more, and the lock of the file is released twice.
      pub truncate_regular-enospc :
          Holds bits g fs inode.pointers old
          → old < new
          → new ≤ 12
          → old + fs.super.total_unallocated_blocks < new
          → truncate_regular bits g beyond m path new_size inode fs s
            ≡ some (record {
              inode = resized g inode inode.pointers new_size;
              image = record fs { errno = enospc };
              cache = s;
              unlocks = 2;
            })
      unfolding truncate_regular
      truncate_regular-enospc h more few short =
          let z = Holds-first_zero bits g fs inode.pointers old h in
          let e =
            attach_blocks-enospc bits g beyond fs inode.pointers (new - old) (omega arith)
              (omega (arith, z, few)) (omega (arith, short)) in
          let t : ltb old new ≡ true = ground arith in
          let u : ltb 0 (12 - first_zero inode.pointers.pointer_data_0 12 0) ≡ true =
            ground (arith, z, more, few) in
          rw (t, e, truncate_regular) (rw u refl)
