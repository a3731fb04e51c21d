-- ===== src/Rfs/Operations/Unlink.antt =====
-- What `delete_dir` does to the directory above one that is not empty.
use la_liga_de_la_justicia.Base.{
  ℕ, ◌*◌, ◌/◌, ◌<◌, ◌≤◌, ◌≡◌, ◌≢◌, inl, inr, refl, ap, sym, subst, false, Bool-cases, none, some,
  List, [], ◌∷◌, ◌==◌, ==_iff, ltb, map, arith,
}
use mathlib.Core.List.{cons≢nil}
use la_liga_de_la_justicia.Rfs.Geometry.{Geometry}
use la_liga_de_la_justicia.Rfs.Bitarray.{Bitarray}
use la_liga_de_la_justicia.Rfs.Image.{update, update_here, update_other}
use la_liga_de_la_justicia.Rfs.Directory.{Entry, Block, get_padded_size}
use la_liga_de_la_justicia.Rfs.Directory.Chain.{Chain}
use la_liga_de_la_justicia.Rfs.Directory.Delete.{has_name, delete_in_blocks, delete_entry}
use la_liga_de_la_justicia.Rfs.Directory.Erase.{
  bare, erase, has_name-bare, NotNamed, delete_in_block-Erased,
}
use la_liga_de_la_justicia.Rfs.Operations.{
  World, enotempty, only_two, blocks_of, remove_name, delete_dir, stored_back,
}
use la_liga_de_la_justicia.Rfs.Operations.Emptiness.{only_two-Chain}

pub update_self {ℓ} : {A : Type ℓ} (f : ℕ → A) (i j : ℕ) → update f i (f i) j ≡ f j
update_self f i j = elim (Bool-cases (i == j)) [
  | inl t ↦ rw t (ap f ((==_iff i j).0 t))
  | inr t ↦ rw t refl
]

erase-NotNamed :
    (bs : ℕ) (name : List ℕ) (l : List Entry)
    → NotNamed bs name l
    → map bare l ≡ erase name (map bare l)
unfolding erase
erase-NotNamed bs name [] h = refl
erase-NotNamed bs name (e ∷ l) (h, hs) =
    rw (has_name-bare name e, h) (ap (λ k. bare e ∷ k) (erase-NotNamed bs name l hs))

module _ (bits : Bitarray) (g : Geometry) (rounds : ℕ) (name : List ℕ) where
  open bits use {Bits}

  -- The block is a chain of the entries of `l` without the first one of that name.
  pub record Without (l : List Entry) (block : Block) : Type 0 where
    pub entries : List Entry
    pub chain : Chain g.block_size block 0 entries
    pub others : map bare entries ≡ erase name (map bare l)

  module _ (small : g.block_size < 65536) (enough : g.block_size ≤ rounds) where
    delete_in_block-Without :
        (b : Block) {e : Entry} {l : List Entry}
        → Chain g.block_size b 0 (e ∷ l)
        → has_name name (b g.block_size) ≡ false
        → has_name name e ≡ false
        → (b' : Block) × (delete_in_blocks g.block_size rounds 0 name (b ∷ [])
            ≡ some (b' ∷ [], none))
          × Without (e ∷ l) b'
    unfolding delete_in_blocks
    delete_in_block-Without b {e} {l} c out first =
        elim (delete_in_block-Erased g.block_size name rounds b small out c first enough) [
          | inl (same, missing) ↦ (
            b,
            rw (same, delete_in_blocks) refl,
            record {
              entries = e ∷ l;
              chain = c;
              others = erase-NotNamed g.block_size name (e ∷ l) missing;
            },
          )
          | inr x ↦ (
            x.block,
            rw (x.returned, delete_in_blocks) refl,
            record { entries = x.entries; chain = x.chain; others = x.others },
          )
        ]

    not_two :
        (b : Block) {e d x : Entry} {l : List Entry}
        → Chain g.block_size b 0 (e ∷ d ∷ x ∷ l)
        → e.entry_len ≡ get_padded_size e
        → only_two g.block_size b ≡ false
    not_two b c tight = elim (Bool-cases (only_two g.block_size b)) [
      | inl t ↦ absurd (cons≢nil ((only_two-Chain g.block_size b small c tight).0 t))
      | inr t ↦ t
    ]

    module _ (w : World Bits) (parent place : ℕ) {e : Entry} {l : List Entry}
        (one : blocks_of bits g rounds (w.inodes parent) ((w.inodes parent).blocks * 512) w
          ≡ some (place ∷ []))
        (c : Chain g.block_size (w.dirs place) 0 (e ∷ l))
        (out : has_name name (w.dirs place g.block_size) ≡ false)
        (first : has_name name e ≡ false) where
      remove_name-Without :
          (b' : Block) × (remove_name bits g rounds name parent w
            ≡ some (record {
              fs = w.fs;
              inodes = update w.inodes parent (w.inodes parent);
              dirs = update w.dirs place b';
            }))
          × Without (e ∷ l) b'
      unfolding remove_name delete_entry stored_back
      remove_name-Without =
          let (b', eq, x) = delete_in_block-Without (w.dirs place) c out first in
          (b', rw (one, remove_name) (rw (eq, remove_name) refl), x)

      -- `delete_dir` on a directory that is not empty: its first block, another one than that of the directory above,
      -- is a chain of more than two entries, the first of which takes no more bytes than it needs. The directory above
      -- has one block, a chain of entries of which the first does not have the name, with nothing of that name right
      -- behind the block. The call answers that it failed, with ENOTEMPTY; yet the directory above comes out without
      -- the entry, and the inode and the entries of the directory itself stay.
      pub delete_dir_unlinks :
          (dir place_dir : ℕ) (rest : List ℕ) {e' d' x' : Entry} {l' : List Entry}
          → (w.inodes dir).blocks ≤ g.block_size / 512
          → blocks_of bits g rounds (w.inodes dir) (w.inodes dir).size w ≡ some (place_dir ∷ rest)
          → place ≢ place_dir
          → Chain g.block_size (w.dirs place_dir) 0 (e' ∷ d' ∷ x' ∷ l')
          → e'.entry_len ≡ get_padded_size e'
          → (w' : World Bits) × (delete_dir bits g rounds name (some dir) parent w ≡ some (1, w'))
            × (w'.fs.errno ≡ enotempty)
            × Without (e ∷ l) (w'.dirs place)
            × (w'.dirs place_dir ≡ w.dirs place_dir)
            × (w'.inodes dir ≡ w.inodes dir)
      unfolding delete_dir
      delete_dir_unlinks dir place_dir rest {e'} {d'} {x'} {l'} few found differ c' tight =
          let (b', eq, x) = remove_name-Without in
          let t : ltb (g.block_size / 512) (w.inodes dir).blocks ≡ false = ground (arith, few) in
          let there : update w.dirs place b' place_dir ≡ w.dirs place_dir =
            update_other w.dirs place b' place_dir differ in
          let full : only_two g.block_size (update w.dirs place b' place_dir) ≡ false =
            not_two (update w.dirs place b' place_dir)
              (subst (λ k. Chain g.block_size k 0 (e' ∷ d' ∷ x' ∷ l')) (sym there) c') tight in
          (
            record w {
              fs = record (w.fs) { errno = enotempty };
              inodes = update w.inodes parent (w.inodes parent);
              dirs = update w.dirs place b';
            },
            rw (t, found, delete_dir) (rw (eq, delete_dir) (rw full refl)),
            refl,
            rw (update_here w.dirs place b') x,
            there,
            update_self w.inodes parent dir,
          )
