-- ===== src/Rc/Steps.antt =====
-- `dividir`, the cut of an element, step by step.
use la_liga_de_la_justicia.Base.{
  ℕ, ◌+◌, ◌-◌, ◌≤◌, ◌≡◌, ◌≢◌, ◌⊎◌, refl, sym, ap, ◌∙◌, false, ltb, ◌==◌, if◌then◌else◌, arith, inl,
  inr, Bool-cases,
}
use la_liga_de_la_justicia.Rc.Store.{Ptr, null, Element, Dictionary, done, store, modify}
use la_liga_de_la_justicia.Rfs.Image.{update, update_here, update_other}
use la_liga_de_la_justicia.Rc.Dictionary.{set_prev}
use la_liga_de_la_justicia.Rc.Dynamic.{dividir}
use la_liga_de_la_justicia.Rc.Chain.{load_element}

abbrev pub with_prev : (Ptr → Element) → Ptr → Ptr → Ptr → Element
with_prev heap p q = if p == null then heap else update heap p (record (heap p) { prev = q })

pub modify_element :
    (p : Ptr) (f : Element → Element) (d : Dictionary)
    → p ≢ null
    → modify p f d ≡ done tt (record d { heap = update d.heap p (f (d.heap p)) })
unfolding modify store
modify_element p f d ne =
    let e : (p == null) ≡ false = ground arith in rw (load_element p d ne, e) refl

pub set_prev-with_prev :
    (p q : Ptr) (d : Dictionary)
    → set_prev p q d ≡ done tt (record d { heap = with_prev d.heap p q })
unfolding set_prev
set_prev-with_prev p q d = elim (Bool-cases (p == null)) [
  | inl t ↦ rw t refl
  | inr t ↦ rw (t, modify_element p (λ e. record e { prev = q }) d (ground (arith, t))) refl
]

pub with_prev_other :
    (heap : Ptr → Element) (p q r : Ptr) → (p ≡ null) ⊎ (p ≢ r) → with_prev heap p q r ≡ heap r
with_prev_other heap p q r h = elim (Bool-cases (p == null)) [
  | inl t ↦ rw t refl
  | inr t ↦ rw t (
      update_other heap p (record (heap p) { prev = q }) r
        (elim h [ inl z ↦ absurd (ground (arith, t, z)) | inr z ↦ z ]))
]

pub with_prev_here :
    (heap : Ptr → Element) (p q : Ptr)
    → p ≢ null
    → with_prev heap p q p ≡ record (heap p) { prev = q }
with_prev_here heap p q ne =
    let t : (p == null) ≡ false = ground arith in
    rw t (update_here heap p (record (heap p) { prev = q }))

-- The nodes after the cut of `item`, whose free node is `n`, in the four steps of the code.
head_freed : (Ptr → Element) → (n : Ptr) → Ptr → Element
head_freed heap n = with_prev heap ((heap n).next) null

-- What the free node becomes.
abbrev filled_node : (heap : Ptr → Element) → (item size : ℕ) → Element → Element
filled_node heap item size x = record x {
  next = (heap item).next;
  prev = item;
  chunk_size = x.chunk_size + ((heap item).chunk_size - size);
  address = (heap item).address + size;
}

node_filled : (Ptr → Element) → (item n size : ℕ) → Ptr → Element
unfolding head_freed
node_filled heap item n size =
    update (head_freed heap n) n (filled_node heap item size (head_freed heap n n))

next_linked : (Ptr → Element) → (item n size : ℕ) → Ptr → Element
unfolding node_filled
next_linked heap item n size = with_prev (node_filled heap item n size) ((heap item).next) n

pub divided : (Ptr → Element) → (item n size : ℕ) → Ptr → Element
unfolding next_linked
divided heap item n size =
    update (next_linked heap item n size) item
      (record (next_linked heap item n size item) { next = n; chunk_size = size })

pub dividir-divided :
    (size item : ℕ) (d : Dictionary)
    → item ≢ null
    → d.nodes ≢ null
    → d.slab_min_size ≤ (d.heap item).chunk_size - size
    → dividir size item d
      ≡ done tt
          (record d { heap = divided d.heap item d.nodes size; nodes = (d.heap d.nodes).next })
unfolding dividir divided next_linked node_filled head_freed
dividir-divided size item d ni nn room =
    let t1 : (d.nodes == null) ≡ false = ground arith in
    let t2 : ltb ((d.heap item).chunk_size - size) d.slab_min_size ≡ false = ground arith in
    let e = d.heap item in
    let f : Element → Element = λ x. record x {
      next = e.next;
      prev = item;
      chunk_size = x.chunk_size + (e.chunk_size - size);
      address = e.address + size;
    } in
    let d1 = record d { nodes = (d.heap d.nodes).next } in
    let d2 = record d1 { heap = with_prev d.heap ((d.heap d.nodes).next) null } in
    let d3 = record d2 { heap = update d2.heap d.nodes (f (d2.heap d.nodes)) } in
    let d4 = record d3 { heap = with_prev d3.heap e.next d.nodes } in
    rw
      (
        load_element item d ni,
        t1,
        t2,
        load_element d.nodes d nn,
        set_prev-with_prev ((d.heap d.nodes).next) null d1,
        modify_element d.nodes f d2 nn,
        set_prev-with_prev e.next d.nodes d3,
        modify_element item (λ x. record x { next = d.nodes; chunk_size = size }) d4 ni,
      )
      refl

module _ (heap : Ptr → Element) (item n size : ℕ) where
  head_freed_other : (q : Ptr) → (heap n).next ≢ q → head_freed heap n q ≡ heap q
  unfolding head_freed
  head_freed_other q a = with_prev_other heap ((heap n).next) null q (inr a)

  node_filled_other :
      (q : Ptr) → (heap n).next ≢ q → n ≢ q → node_filled heap item n size q ≡ heap q
  unfolding node_filled
  node_filled_other q a b =
      update_other (head_freed heap n) n (filled_node heap item size (head_freed heap n n)) q b
      ∙ head_freed_other q a

  next_linked_other :
      (q : Ptr)
      → (heap item).next ≢ q
      → next_linked heap item n size q ≡ node_filled heap item n size q
  unfolding next_linked
  next_linked_other q c =
      with_prev_other (node_filled heap item n size) ((heap item).next) n q (inr c)

  divided_apart : (q : Ptr) → item ≢ q → divided heap item n size q ≡ next_linked heap item n size q
  unfolding divided
  divided_apart q e =
      update_other (next_linked heap item n size) item
        (record (next_linked heap item n size item) { next = n; chunk_size = size }) q e

  pub divided_item :
      (heap n).next ≢ item
      → n ≢ item
      → (heap item).next ≢ item
      → divided heap item n size item ≡ record (heap item) { next = n; chunk_size = size }
  unfolding divided
  divided_item a b c =
      update_here (next_linked heap item n size) item
        (record (next_linked heap item n size item) { next = n; chunk_size = size })
      ∙ ap {A = Element} {B = Element} (λ x. record x { next = n; chunk_size = size })
          (next_linked_other item c ∙ node_filled_other item a b)

  pub divided_new :
      (heap n).next ≢ n
      → n ≢ item
      → (heap item).next ≢ n
      → divided heap item n size n ≡ filled_node heap item size (heap n)
  unfolding node_filled
  divided_new a b c =
      divided_apart n (λ z. b (sym z))
      ∙ next_linked_other n c
      ∙ update_here (head_freed heap n) n (filled_node heap item size (head_freed heap n n))
      ∙ ap (filled_node heap item size) (head_freed_other n a)

  pub divided_next :
      (heap item).next ≢ null
      → (heap n).next ≢ (heap item).next
      → n ≢ (heap item).next
      → (heap item).next ≢ item
      → divided heap item n size ((heap item).next) ≡ record (heap ((heap item).next)) { prev = n }
  unfolding next_linked
  divided_next z a b c =
      divided_apart ((heap item).next) (λ y. c (sym y))
      ∙ with_prev_here (node_filled heap item n size) ((heap item).next) n z
      ∙ ap {A = Element} {B = Element} (λ x. record x { prev = n })
          (node_filled_other ((heap item).next) a b)

  pub divided_other :
      (q : Ptr)
      → (heap n).next ≢ q
      → n ≢ q
      → (heap item).next ≢ q
      → item ≢ q
      → divided heap item n size q ≡ heap q
  divided_other q a b c e = divided_apart q e ∙ next_linked_other q c ∙ node_filled_other q a b
