-- ===== src/Rfs/Truncate/Holds.antt =====
-- The blocks of a file that all have direct pointers, as more are attached or the last ones removed.
use la_liga_de_la_justicia.Base.{
  ℕ, zero, suc, ◌+◌, ◌-◌, ◌/◌, ◌≤◌, ◌<◌, ◌≡◌, ◌≢◌, sym, ◌∙◌, inl, inr, false, ◌&&◌, List, arith,
  ◌==◌, leb, ltb, if◌then◌else◌, Bool-cases, length, get_or,
}
use la_liga_de_la_justicia.Rfs.Geometry.{Geometry}
use la_liga_de_la_justicia.Rfs.Bitarray.{Bitarray}
use la_liga_de_la_justicia.Rfs.Image.{Image}
use la_liga_de_la_justicia.Rfs.Alloc.Obtain.{IsSound, Obtained}
use la_liga_de_la_justicia.Rfs.DataBlocks.{Pointers}
use la_liga_de_la_justicia.Rfs.BlockCache.{Memcached}
use la_liga_de_la_justicia.Rfs.Remove.{remove_loop}
use la_liga_de_la_justicia.Rfs.Remove.Direct.{IsUsed, Owns, remove_loop-IsSound, remove_loop-IsUsed}
use la_liga_de_la_justicia.Rfs.Attach.{first_zero, placed}
use la_liga_de_la_justicia.Rfs.Attach.Direct.{
  Obtained-IsUsed, Obtained-apart, Obtained-kept, Obtained-new, placed-get_or,
}

first_zero_at :
    (entry : ℕ → ℕ) (rounds i k : ℕ)
    → k ≤ rounds
    → ((j : ℕ) → i ≤ j → j < i + k → entry j ≢ 0)
    → ((j : ℕ) → i + k ≤ j → j < i + rounds → entry j ≡ 0)
    → first_zero entry rounds i ≡ i + k
unfolding first_zero
first_zero_at entry zero i k h used empty = omega arith
first_zero_at entry (suc r) i zero h used empty =
    let e = empty i (omega arith) (omega arith) in rw e (omega arith)
first_zero_at entry (suc r) i (suc k) h used empty =
    let ne = used i (omega arith) (omega arith) in
    let t : (entry i == 0) ≡ false = ground arith in
    let rest =
      first_zero_at entry r (i + 1) k (omega arith) (λ j a b. used j (omega arith) (omega arith))
        (λ j a b. empty j (omega arith) (omega arith)) in
    rw t (omega (arith, rest))

module _ (bits : Bitarray) (g : Geometry) where
  open bits use {Bits}

  -- The file has `count` blocks, all with direct pointers, and no other pointer is set.
  pub record Holds (fs : Image Bits) (ptr : Pointers) (count : ℕ) : Type 0 where
    pub few : count ≤ 12
    pub owns : Owns bits g count 0 fs ptr
    pub others : (j : ℕ) → count ≤ j → j < 12 → ptr.pointer_data_0 j ≡ 0

  pub Holds-first_zero :
      (fs : Image Bits) (ptr : Pointers) (count : ℕ)
      → Holds fs ptr count
      → first_zero ptr.pointer_data_0 12 0 ≡ count
  Holds-first_zero fs ptr count h =
      first_zero_at ptr.pointer_data_0 12 0 count h.few
        (λ j low high. let u = h.owns.owned j (omega arith) (omega arith) in omega (arith, u.here))
        (λ j low high. h.others j (omega arith) (omega arith))
      ∙ omega arith

  -- Blocks that were handed out, behind the ones that a file has.
  pub Holds-more :
      (fs fs' : Image Bits) (ptr : Pointers) (count n : ℕ) (blocks : List ℕ)
      → Holds fs ptr count
      → count + n ≤ 12
      → Obtained bits g fs fs' n blocks
      → Holds fs'
          (record ptr { pointer_data_0 = placed ptr.pointer_data_0 count blocks })
          (count + n)
  Holds-more fs fs' ptr count n blocks h room o = record {
    few = room;
    owns = record { owned = owned; apart = λ i j low lt high. apart i j lt high };
    others = λ j low high. new j ∙ ground (arith, o.count, h.others j (omega arith) high);
  }
    where
      new :
          (j : ℕ)
          → placed ptr.pointer_data_0 count blocks j ≡ (
              if leb count j && ltb j (count + length blocks)
              then get_or blocks (j - count) 0
              else ptr.pointer_data_0 j)
      new j = placed-get_or ptr.pointer_data_0 count blocks j

      before : (j : ℕ) → j < count → placed ptr.pointer_data_0 count blocks j ≡ ptr.pointer_data_0 j
      before j lt = new j ∙ ground arith

      behind :
          (j : ℕ)
          → count ≤ j
          → j < count + n
          → placed ptr.pointer_data_0 count blocks j ≡ get_or blocks (j - count) 0
      behind j low high = new j ∙ ground (arith, o.count)

      owned :
          (j : ℕ)
          → 0 ≤ j
          → j < 0 + (count + n)
          → IsUsed bits g fs' (placed ptr.pointer_data_0 count blocks j)
      owned j low high = elim (Bool-cases (ltb j count)) [
        | inl t ↦
            rw (before j (ground arith))
              (Obtained-kept bits g o (ptr.pointer_data_0 j) (h.owns.owned j low (ground arith)))
        | inr t ↦
            rw (behind j (ground arith) (omega arith))
              (Obtained-IsUsed bits g o (j - count) (ground arith))
      ]

      apart :
          (i j : ℕ)
          → i < j
          → j < 0 + (count + n)
          → placed ptr.pointer_data_0 count blocks i ≢ placed ptr.pointer_data_0 count blocks j
      apart i j lt high = elim (Bool-cases (ltb j count)) [
        | inl t ↦
            rw (before i (ground arith), before j (ground arith))
              (h.owns.apart i j (omega arith) lt (ground arith))
        | inr t ↦ elim (Bool-cases (ltb i count)) [
          | inl t' ↦
              rw (before i (ground arith), behind j (ground arith) (omega arith))
                (Obtained-new bits g o (ptr.pointer_data_0 i) (j - count)
                  (h.owns.owned i (omega arith) (ground arith)) (ground arith))
          | inr t' ↦
              rw (behind i (ground arith) (omega arith), behind j (ground arith) (omega arith))
                (Obtained-apart bits g o (i - count) (j - count) (ground arith) (ground arith))
        ]
      ]

  module _ (m : Memcached (ℕ → ℕ)) (path : List ℕ) where
    open m use {State}

    -- Without its last `n` blocks.
    pub Holds-less :
        (fs : Image Bits) (ptr : Pointers) (s : State) (count n : ℕ)
        → 0 < g.block_size / 4
        → g.block_size / 4 ≤ 1024
        → g.blocks_per_group < 65536
        → IsSound bits g fs
        → Holds fs ptr count
        → n ≤ count
        → IsSound bits g (remove_loop bits g m path n (count - n) (fs, ptr) s).0.0
          × Holds
              (remove_loop bits g m path n (count - n) (fs, ptr) s).0.0
              (remove_loop bits g m path n (count - n) (fs, ptr) s).0.1
              (count - n)
          × ((remove_loop bits g m path n
                (count - n)
                (fs, ptr)
                s).0.0.super.total_unallocated_blocks
              ≡ fs.super.total_unallocated_blocks + n)
    Holds-less fs ptr s count n p small below sound h le =
        let index = count - n in
        let last : Owns bits g n index fs ptr = record {
          owned = λ j low high. h.owns.owned j (omega arith) (omega arith);
          apart = λ i j low lt high. h.owns.apart i j (omega arith) lt (omega arith);
        } in
        let (sound', total, left) =
          remove_loop-IsSound bits g p small below m path n index fs ptr s (omega (arith, h.few))
            sound last in
        let same : (j : ℕ)
            → j < index
            → (remove_loop bits g m path n index (fs, ptr) s).0.1.pointer_data_0 j
              ≡ ptr.pointer_data_0 j =
          λ j lt. left j ∙ ground arith in
        (
          sound',
          record {
            few = omega (arith, h.few);
            owns = record {
              owned = λ j low high. rw (same j (omega arith)) (
                  remove_loop-IsUsed bits g p small below m path n index fs ptr s
                    (ptr.pointer_data_0 j) (omega (arith, h.few)) sound last
                    (h.owns.owned j low (omega arith))
                    (λ k low' high' e.
                      h.owns.apart j k (omega arith) (omega arith) (omega arith) (sym e)));
              apart = λ i j low lt high.
                  rw (same i (omega arith), same j (omega arith))
                    (h.owns.apart i j low lt (omega arith));
            };
            others = λ j low high. left j ∙ ground (arith, le, h.others j);
          },
          total,
        )
