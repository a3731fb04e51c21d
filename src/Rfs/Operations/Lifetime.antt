-- ===== src/Rfs/Operations/Lifetime.antt =====
-- A file that is created and deleted again, in a directory of one block.
use la_liga_de_la_justicia.Base.{
  ℕ, zero, suc, ◌+◌, ◌-◌, ◌*◌, ◌<◌, ◌≤◌, ◌≡◌, ◌≢◌, ◌⊎◌, inl, inr, refl, ap, sym, ◌∙◌, true, false,
  Bool-cases, none, some, List, [], ◌∷◌, ◌==◌, ltb, leb, map, arith,
}
use mathlib.Core.Option.{none-ne-some}
use la_liga_de_la_justicia.Rfs.Geometry.{Geometry, size_in_blocks}
use la_liga_de_la_justicia.Rfs.Bitarray.{Bitarray}
use la_liga_de_la_justicia.Rfs.Image.{Image, update, update_here, update_other}
use la_liga_de_la_justicia.Rfs.DataBlocks.{Pointers}
use la_liga_de_la_justicia.Rfs.Alloc.{
  get_free_inodes, get_free_inodes_in_group, inodes_loop, set_free_inode_bitmap,
}
use la_liga_de_la_justicia.Rfs.BlockCache.{Memcached}
use la_liga_de_la_justicia.Rfs.Inode.{Inode, set_file_inode, clear_inode}
use la_liga_de_la_justicia.Rfs.Remove.{remove_blocks}
use la_liga_de_la_justicia.Rfs.Directory.{Entry, Block, attach_in_block}
use la_liga_de_la_justicia.Rfs.Directory.Chain.{Chain}
use la_liga_de_la_justicia.Rfs.Directory.Insert.{NoRoom}
use la_liga_de_la_justicia.Rfs.Directory.Delete.{
  create_entry, has_name, changed, delete_in_block, delete_in_blocks, delete_entry,
}
use la_liga_de_la_justicia.Rfs.Directory.Erase.{bare, NotNamed}
use la_liga_de_la_justicia.Rfs.Directory.Undo.{AllNamed, Undone, attach_in_block-delete_in_block}
use la_liga_de_la_justicia.Rfs.WriteFile.Full.{get_data_addresses_direct}
use la_liga_de_la_justicia.Rfs.Operations.{
  World, until_empty, blocks_of, remove_name, delete_file, stored_back,
}
use la_liga_de_la_justicia.Rfs.Operations.Unlink.{update_self}
use la_liga_de_la_justicia.Rfs.Operations.Create.{attach_in_blocks, attach_entry, create_file_dir}

-- `Get_Free_Inodes` takes what it hands out off the total.
module _ (bits : Bitarray) (g : Geometry) where
  open bits use {Bits}

  inodes_loop-super :
      (k n how_many : ℕ) (fs : Image Bits) → (inodes_loop bits g k n how_many fs).1.super ≡ fs.super
  unfolding inodes_loop get_free_inodes_in_group
  inodes_loop-super zero n how_many fs = refl
  inodes_loop-super (suc k) n zero fs = refl
  inodes_loop-super (suc k) n (suc m) fs =
      let free = (fs.descriptor n).unallocated_inodes in
      elim (Bool-cases (leb (suc m) free)) [
        | inl t ↦ rw (t, inodes_loop) refl
        | inr t ↦ elim (Bool-cases (free == 0)) [
          | inl z ↦ rw (t, z, inodes_loop) (inodes_loop-super k (n + 1) (suc m) fs)
          | inr z ↦ rw (t, z, inodes_loop) (inodes_loop-super k (n + 1) (suc m - free) _)
        ]
      ]

  refused :
      (fs : Image Bits)
      → ltb fs.super.total_unallocated_inodes 1 ≡ true
      → (get_free_inodes bits g 1 fs).0 ≡ none
  unfolding get_free_inodes
  refused fs t = rw (t, get_free_inodes) refl

  get_free_inodes-total :
      (fs : Image Bits) {numbers : List ℕ}
      → (get_free_inodes bits g 1 fs).0 ≡ some numbers
      → (get_free_inodes bits g 1 fs).1.super.total_unallocated_inodes + 1
        ≡ fs.super.total_unallocated_inodes
  unfolding get_free_inodes
  get_free_inodes-total fs taken = elim (Bool-cases (ltb fs.super.total_unallocated_inodes 1)) [
    | inl t ↦ absurd (none-ne-some _ (sym (refused fs t) ∙ taken))
    | inr t ↦
        rw (t, get_free_inodes)
          (ap (λ k. k.total_unallocated_inodes + 1) (inodes_loop-super g.total_groups 0 1 _)
            ∙ ground (arith, t))
  ]

-- The addresses of a directory of one block.
module _ (bits : Bitarray) (g : Geometry) (rounds : ℕ) where
  open bits use {Bits}

  blocks_of-direct :
      (inode : Inode) (bytes : ℕ) (w : World Bits)
      → size_in_blocks g bytes ≡ 1
      → inode.pointers.pointer_data_0 0 ≢ 0
      → blocks_of bits g rounds inode bytes w ≡ some (inode.pointers.pointer_data_0 0 ∷ [])
  unfolding blocks_of until_empty
  blocks_of-direct inode bytes w one there =
      let place = inode.pointers.pointer_data_0 0 in
      let t : (place == 0) ≡ false = ground (arith, there) in
      rw
        (
          blocks_of,
          get_data_addresses_direct g w.fs.words inode.pointers bytes (omega (arith, one))
              (omega (arith, one)),
          one,
        )
        (rw t refl)

module _ (bits : Bitarray) (g : Geometry) (rounds tries : ℕ) (beyond : Image (bits.Bits) → ℕ)
    (name : List ℕ) (number parent mode : ℕ) (w : World (bits.Bits)) where
  open bits use {Bits}

  -- The volume after the inode was taken, and the block of the directory.
  abbrev start : Image Bits
  start = record (w.fs) { errno = 0 }

  abbrev took : Image Bits
  took = (get_free_inodes bits g 1 start).1

  abbrev place : ℕ
  place = (w.inodes parent).pointers.pointer_data_0 0

  abbrev created : Block → World Bits
  created b = record {
    fs = record took { errno = 0 };
    inodes = update w.inodes number (set_file_inode mode);
    dirs = update w.dirs place b;
  }

  module _ (one : size_in_blocks g ((w.inodes parent).blocks * 512) ≡ 1) (there : place ≢ 0) where
    attach_entry-direct :
        (b' : Block)
        → attach_in_block g.block_size rounds 0 (create_entry name number) (w.dirs place)
          ≡ some (some b')
        → attach_entry bits g rounds beyond
            (suc tries)
            (create_entry name number)
            parent
            (record w { fs = took })
          ≡ some (true, record { fs = took; inodes = w.inodes; dirs = update w.dirs place b' })
    unfolding attach_entry attach_in_blocks stored_back
    attach_entry-direct b' added =
        rw
          (
            attach_entry,
            blocks_of-direct bits g rounds (w.inodes parent) ((w.inodes parent).blocks * 512)
                (record w { fs = took }) one there,
          )
          (rw (attach_in_blocks, added) refl)

    create_file_dir-created :
        (b' : Block)
        → (get_free_inodes bits g 1 start).0 ≡ some (number ∷ [])
        → attach_in_block g.block_size rounds 0 (create_entry name number) (w.dirs place)
          ≡ some (some b')
        → create_file_dir bits g rounds beyond (suc tries) name none parent true mode w
          ≡ some (0, created b')
    unfolding create_file_dir
    create_file_dir-created b' taken added =
        rw (create_file_dir, taken) (rw (attach_entry-direct b' added) refl)

    module _ (differ : number ≢ parent) (a d : Block)
        (gone : delete_in_block g.block_size rounds name a ≡ some (changed d)) where
      abbrev unlinked : World Bits
      unlinked = record {
        fs = record took { errno = 0 };
        inodes = update (created a).inodes parent ((created a).inodes parent);
        dirs = update (update w.dirs place a) place d;
      }

      still_one :
          blocks_of bits g rounds
            ((created a).inodes parent)
            (((created a).inodes parent).blocks * 512)
            (created a)
          ≡ some (place ∷ [])
      still_one = rw (update_other w.inodes number (set_file_inode mode) parent differ) (
          blocks_of-direct bits g rounds (w.inodes parent) ((w.inodes parent).blocks * 512)
            (created a) one there)

      remove_name-created : remove_name bits g rounds name parent (created a) ≡ some unlinked
      unfolding remove_name delete_entry delete_in_blocks stored_back
      remove_name-created =
          rw (remove_name, still_one)
            (rw (update_here w.dirs place a, delete_entry) (rw (delete_in_blocks, gone) refl))

      module _ (m : Memcached (ℕ → ℕ)) (path : List ℕ) (s : m.State) where
        open m use {State}

        abbrev deleted : World Bits
        deleted = record unlinked {
          fs = set_free_inode_bitmap bits g number unlinked.fs;
          inodes = update unlinked.inodes number clear_inode;
        }

        nothing : size_in_blocks g 0 ≡ 0
        unfolding size_in_blocks
        nothing = ground arith

        no_blocks :
            (fs : Image Bits) (ptr : Pointers)
            → remove_blocks bits g m path 0 (size_in_blocks g 0) (fs, ptr) s ≡ ((fs, ptr), s)
        unfolding remove_blocks
        no_blocks fs ptr = rw nothing refl

        empty_file : unlinked.inodes number ≡ set_file_inode mode
        empty_file =
            update_other (created a).inodes parent ((created a).inodes parent) number
              (λ h. differ (sym h))
            ∙ update_here w.inodes number (set_file_inode mode)

        delete_file-created :
            delete_file bits g rounds m path name (some number) parent (created a) s
            ≡ some ((0, deleted), s)
        unfolding delete_file
        delete_file-created =
            rw (delete_file, remove_name-created)
              (rw (empty_file, no_blocks unlinked.fs (set_file_inode mode).pointers) refl)

  -- The file was created and deleted: both calls answer 0 and the cache is as it was. Behind them the directory is a
  -- chain of the entries of `l`, but for their lengths; the inode is clear; no other directory or inode is changed; and
  -- as many inodes are free.
  pub record Restored (m : Memcached (ℕ → ℕ)) (path : List ℕ) (s : m.State) (l : List Entry)
      : Type 0 where
    pub between : World Bits
    pub after : World Bits
    pub entries : List Entry
    pub creation :
        create_file_dir bits g rounds beyond (suc tries) name none parent true mode w
        ≡ some (0, between)
    pub deletion :
        delete_file bits g rounds m path name (some number) parent between s ≡ some ((0, after), s)
    pub made : between.inodes number ≡ set_file_inode mode
    pub chain : Chain g.block_size (after.dirs place) 0 entries
    pub same : map bare entries ≡ map bare l
    pub other_dirs : (i : ℕ) → place ≢ i → after.dirs i ≡ w.dirs i
    pub cleared : after.inodes number ≡ clear_inode
    pub other_inodes : (i : ℕ) → number ≢ i → after.inodes i ≡ w.inodes i
    pub total : after.fs.super.total_unallocated_inodes ≡ w.fs.super.total_unallocated_inodes

  module _ (one : size_in_blocks g ((w.inodes parent).blocks * 512) ≡ 1) (there : place ≢ 0)
      (differ : number ≢ parent) (taken : (get_free_inodes bits g 1 start).0 ≡ some (number ∷ []))
      (fits : w.fs.super.total_unallocated_inodes < 4294967296) (m : Memcached (ℕ → ℕ))
      (path : List ℕ) (s : m.State) where
    same_total :
        (fs : Image Bits)
        → fs.super.total_unallocated_inodes + 1 ≡ w.fs.super.total_unallocated_inodes
        → (set_free_inode_bitmap bits g number fs).super.total_unallocated_inodes
          ≡ w.fs.super.total_unallocated_inodes
    unfolding set_free_inode_bitmap
    same_total fs h = omega (arith, h, fits)

    Undone-Restored :
        {l : List Entry}
        → Undone g.block_size name (create_entry name number) (w.dirs place) l rounds
        → Restored m path s l
    Undone-Restored u =
        let a = u.attached in
        let d = u.deleted in
        record {
          between = created a;
          after = deleted one there differ a d u.removed m path s;
          entries = u.entries;
          creation = create_file_dir-created one there a taken u.added;
          deletion = delete_file-created one there differ a d u.removed m path s;
          made = update_here w.inodes number (set_file_inode mode);
          chain = rw (update_here (update w.dirs place a) place d) u.chain;
          same = u.same;
          other_dirs = λ i h.
              update_other (update w.dirs place a) place d i h ∙ update_other w.dirs place a i h;
          cleared = update_here (unlinked one there differ a d u.removed).inodes number clear_inode;
          other_inodes = λ i h.
              update_other (unlinked one there differ a d u.removed).inodes number clear_inode i h
              ∙ update_self (created a).inodes parent i
              ∙ update_other w.inodes number (set_file_inode mode) i h;
          total = same_total (created a).fs (get_free_inodes-total bits g start taken);
        }

    -- `create_file_dir` for a file and then `delete_file`, in a directory that has one block, a chain of at least one
    -- entry, all with names and none with this one, with nothing of that name right behind the block, where
    -- `Get_Free_Inodes` finds an inode that is not the directory's, and blocks have less than 65536 bytes: either no
    -- entry of the directory leaves room for the name; or both calls answer 0, the entries are as they were but for
    -- their lengths, the inode is clear, every other inode and directory is untouched, as many inodes are free as
    -- before, and the cache is as it was.
    pub create_file_dir-delete_file :
        {e : Entry} {l : List Entry}
        → g.block_size < 65536
        → g.block_size ≤ rounds
        → has_name name (create_entry name number) ≡ true
        → has_name name (w.dirs place g.block_size) ≡ false
        → Chain g.block_size (w.dirs place) 0 (e ∷ l)
        → NotNamed g.block_size name (e ∷ l)
        → AllNamed (e ∷ l)
        → NoRoom g.block_size (create_entry name number) (e ∷ l) ⊎ Restored m path s (e ∷ l)
    create_file_dir-delete_file small enough named out c hs ns =
        elim (attach_in_block-delete_in_block g.block_size name (create_entry name number) named
          rounds (w.dirs place) small enough out c hs ns) [
            | inl x ↦ inl x.1
            | inr u ↦ inr (Undone-Restored u)
          ]
