-- ===== src/Rc/Tiles.antt =====
-- The elements as a doubly linked list that tiles the memory, and the cut of an element in two.
use la_liga_de_la_justicia.Base.{
  ℕ, ◌+◌, ◌-◌, ◌≤◌, ◌≡◌, ◌≢◌, ◌⊎◌, refl, sym, ap, ◌∙◌, subst, true, false, List, [], ◌∷◌, ◌==◌,
  if◌then◌else◌, has, arith, inl, inr, Bool-cases, ==_iff, false≢true,
}
use la_liga_de_la_justicia.Rc.Store.{Ptr, null, Element}

-- From `p` stand the elements `l`: each points back to the one before it (`before` for the first), and
-- the bytes of each begin where those of the one before it end, from `base` to `limit`.
abbrev pub Tiles : (Ptr → Element) → (before p : Ptr) → (base limit : ℕ) → List Ptr → Type 0
Tiles heap before p base limit [] = (p ≡ null) × (base ≡ limit)
Tiles heap before p base limit (q ∷ qs) =
    (p ≡ q)
    × (q ≢ null)
    × ((heap q).prev ≡ before)
    × ((heap q).address ≡ base)
    × Tiles heap q ((heap q).next) (base + (heap q).chunk_size) limit qs

-- The list without repetitions.
abbrev pub Distinct : List Ptr → Type 0
Distinct [] = Unit
Distinct (q ∷ qs) = (has q qs ≡ false) × Distinct qs

-- Elements outside the list may change.
pub Tiles-frame :
    (heap heap' : Ptr → Element) (before p : Ptr) (base limit : ℕ) (l : List Ptr)
    → ((q : Ptr) → has q l ≡ true → heap' q ≡ heap q)
    → Tiles heap before p base limit l
    → Tiles heap' before p base limit l
Tiles-frame heap heap' before p base limit [] same t = t
Tiles-frame heap heap' before p base limit (q ∷ qs) same (e, ne, b, a, t) =
    let s = same q (ground arith) in
    (
      e,
      ne,
      rw s b,
      rw s a,
      rw s (
          Tiles-frame heap heap' q ((heap q).next) (base + (heap q).chunk_size) limit qs
            (λ r h. same r (ground (arith, h))) t),
    )

abbrev pub insert_after : Ptr → Ptr → List Ptr → List Ptr
insert_after item n [] = []
insert_after item n (q ∷ qs) = if q == item then q ∷ n ∷ qs else q ∷ insert_after item n qs

-- What the cut does to the nodes: `item` keeps `size` bytes, `n` takes the others behind it.
pub record Cut (heap heap' : Ptr → Element) (item n size : ℕ) : Type 0 where
  pub item_prev : (heap' item).prev ≡ (heap item).prev
  pub item_address : (heap' item).address ≡ (heap item).address
  pub item_next : (heap' item).next ≡ n
  pub item_chunk : (heap' item).chunk_size ≡ size
  pub new_prev : (heap' n).prev ≡ item
  pub new_address : (heap' n).address ≡ (heap item).address + size
  pub new_next : (heap' n).next ≡ (heap item).next
  pub new_chunk : (heap' n).chunk_size ≡ (heap item).chunk_size - size
  pub after :
      (heap item).next ≢ null
      → heap' ((heap item).next) ≡ record (heap ((heap item).next)) { prev = n }

-- The element behind a listed one is listed behind it, or there is none.
pub next_listed :
    (heap : Ptr → Element) (before p : Ptr) (base limit : ℕ) (l : List Ptr) (item : Ptr)
    → Tiles heap before p base limit l
    → has item l ≡ true
    → ((heap item).next ≡ null) ⊎ (has ((heap item).next) l ≡ true)
next_listed heap before p base limit [] item t h = absurd (false≢true h)
next_listed heap before p base limit (q ∷ []) item (e, ne, b, a, t) h =
    let s : q ≡ item = (==_iff q item).0 (ground (arith, h)) in
    inl (ap (λ x. (heap x).next) (sym s) ∙ t.0)
next_listed heap before p base limit (q ∷ r ∷ rs) item (e, ne, b, a, t) h =
    elim (Bool-cases (q == item)) [
      | inl s ↦
          let m : (heap item).next ≡ r =
            ap (λ x. (heap x).next) (sym ((==_iff q item).0 s)) ∙ t.0 in
          inr (ground (arith, m))
      | inr s ↦
          elim (next_listed heap q ((heap q).next) (base + (heap q).chunk_size) limit (r ∷ rs) item
            t (ground (arith, s, h))) [ inl z ↦ inl z | inr y ↦ inr (ground (arith, y)) ]
    ]

pub Tiles-nonnull :
    (heap : Ptr → Element) (before p : Ptr) (base limit : ℕ) (l : List Ptr) (item : Ptr)
    → Tiles heap before p base limit l
    → has item l ≡ true
    → item ≢ null
Tiles-nonnull heap before p base limit [] item t h = absurd (false≢true h)
Tiles-nonnull heap before p base limit (q ∷ qs) item (e, ne, b, a, t) h =
    elim (Bool-cases (q == item)) [
      | inl s ↦ λ z. ne ((==_iff q item).0 s ∙ z)
      | inr s ↦
          Tiles-nonnull heap q ((heap q).next) (base + (heap q).chunk_size) limit qs item t
            (ground (arith, s, h))
    ]

pub has-apart : (a b : Ptr) (l : List Ptr) → has a l ≡ true → has b l ≡ false → a ≢ b
has-apart a b l h k e = false≢true (sym k ∙ subst (λ x. has x l ≡ true) e h)

-- No element is its own successor.
pub next_apart_lem :
    (heap : Ptr → Element) (before p : Ptr) (base limit : ℕ) (l : List Ptr) (item : Ptr)
    → Tiles heap before p base limit l
    → Distinct l
    → has item l ≡ true
    → (heap item).next ≢ item
next_apart_lem heap before p base limit [] item t di h = absurd (false≢true h)
next_apart_lem heap before p base limit (q ∷ []) item (e, ne, b, a, t) di h =
    let s : q ≡ item = (==_iff q item).0 (ground (arith, h)) in
    λ z. ne (s ∙ sym z ∙ ap (λ x. (heap x).next) (sym s) ∙ t.0)
next_apart_lem heap before p base limit (q ∷ r ∷ rs) item (e, ne, b, a, t) (fresh, di) h =
    elim (Bool-cases (q == item)) [
      | inl s ↦
          let m : q ≡ item = (==_iff q item).0 s in
          let u : (heap item).next ≡ r = ap (λ x. (heap x).next) (sym m) ∙ t.0 in
          λ z. has-apart r q (r ∷ rs) (ground arith) fresh (sym u ∙ z ∙ sym m)
      | inr s ↦
          next_apart_lem heap q ((heap q).next) (base + (heap q).chunk_size) limit (r ∷ rs) item t
            di (ground (arith, s, h))
    ]

module _ (heap heap' : Ptr → Element) (item n size : ℕ) (c : Cut heap heap' item n size) where
  -- What stands behind the cut element.
  cut_behind :
      (base limit : ℕ) (qs : List Ptr)
      → Distinct qs
      → ((q : Ptr) → has q qs ≡ true → q ≢ (heap item).next → heap' q ≡ heap q)
      → Tiles heap item ((heap item).next) base limit qs
      → Tiles heap' n ((heap item).next) base limit qs
  cut_behind base limit [] di same t = t
  cut_behind base limit (r ∷ rs) (fresh, di) same (e, ne, b, a, t) =
      let h : heap' r ≡ record (heap r) { prev = n } =
        subst (λ x. heap' x ≡ record (heap x) { prev = n }) e (c.after (λ z. ne (sym e ∙ z))) in
      (
        e,
        ne,
        rw h refl,
        rw h a,
        rw h (
            Tiles-frame heap heap' r ((heap r).next) (base + (heap r).chunk_size) limit rs
              (λ q k.
                same q (ground (arith, k))
                  (λ z. absurd (false≢true (sym fresh ∙ subst (λ x. has x rs ≡ true) (z ∙ e) k))))
              t),
      )

  -- The cut of the first element.
  cut_first :
      (before p : Ptr) (base limit : ℕ) (qs : List Ptr)
      → n ≢ null
      → size ≤ (heap item).chunk_size
      → Distinct (item ∷ qs)
      → ((q : Ptr) → has q qs ≡ true → q ≢ (heap item).next → heap' q ≡ heap q)
      → Tiles heap before p base limit (item ∷ qs)
      → Tiles heap' before p base limit (item ∷ n ∷ qs)
  cut_first before p base limit qs nn le di same (e, ne, b, a, t) =
      let sum : base + size + ((heap item).chunk_size - size) ≡ base + (heap item).chunk_size =
        omega (arith, le) in
      (
        e,
        ne,
        c.item_prev ∙ b,
        c.item_address ∙ a,
        (
          c.item_next,
          nn,
          c.new_prev,
          c.new_address ∙ rw (a, c.item_chunk) refl,
          rw (c.new_next, c.item_chunk, c.new_chunk, sum)
              (cut_behind (base + (heap item).chunk_size) limit qs (di.1) same t),
        ),
      )

  -- The cut of an element of the list.
  pub Cut-Tiles :
      (before p : Ptr) (base limit : ℕ) (l : List Ptr)
      → n ≢ null
      → size ≤ (heap item).chunk_size
      → Distinct l
      → has item l ≡ true
      → ((q : Ptr) → has q l ≡ true → q ≢ item → q ≢ (heap item).next → heap' q ≡ heap q)
      → Tiles heap before p base limit l
      → Tiles heap' before p base limit (insert_after item n l)
  Cut-Tiles before p base limit [] nn le di h same t = absurd (false≢true h)
  Cut-Tiles before p base limit (q ∷ qs) nn le (fresh, di) h same (e, ne, b, a, t) =
      elim (Bool-cases (q == item)) [
        | inl s ↦
            let m : q ≡ item = (==_iff q item).0 s in
            let fresh' : has item qs ≡ false = subst (λ x. has x qs ≡ false) m fresh in
            rw (s, m)
              (cut_first before p base limit qs nn le (fresh', di)
                (λ r k z.
                  same r (ground (arith, k))
                    (λ y. false≢true (sym fresh' ∙ subst (λ x. has x qs ≡ true) y k)) z)
                (subst (λ x. Tiles heap before p base limit (x ∷ qs)) m (e, ne, b, a, t)))
        | inr s ↦
            let k : has item qs ≡ true = ground (arith, s, h) in
            let away : q ≢ (heap item).next =
              elim (next_listed heap q ((heap q).next) (base + (heap q).chunk_size) limit qs item t
                k) [
                  | inl z ↦ λ y. ne (y ∙ z)
                  | inr z ↦ λ y. false≢true (sym fresh ∙ subst (λ x. has x qs ≡ true) (sym y) z)
                ] in
            let u : heap' q ≡ heap q = same q (ground arith) (ground (arith, s)) away in
            let rest =
              Cut-Tiles q ((heap q).next) (base + (heap q).chunk_size) limit qs nn le di k
                (λ r j. same r (ground (arith, j))) t in
            rw s (e, ne, rw u b, rw u a, rw u rest)
      ]
