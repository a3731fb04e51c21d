-- ===== src/Rc/Halving.antt =====
-- `agregar_hijos` of the buddy system: the halving of an element, step by step.
use la_liga_de_la_justicia.Base.{
  ℕ, ◌+◌, ◌*◌, ◌/◌, ◌≡◌, ◌≢◌, ◌⊎◌, refl, sym, ap, ◌∙◌, true, List, has, arith, inl, inr,
}
use la_liga_de_la_justicia.Rc.Store.{Ptr, null, Element, Dictionary, done}
use la_liga_de_la_justicia.Rfs.Image.{update, update_here, update_other}
use la_liga_de_la_justicia.Rc.Buddy.{agregar_hijos}
use la_liga_de_la_justicia.Rc.Chain.{load_element}
use la_liga_de_la_justicia.Rc.Tiles.{
  Tiles, Distinct, insert_after, Cut, Cut-Tiles, next_listed, next_apart_lem, has-apart,
  Tiles-nonnull,
}
use la_liga_de_la_justicia.Rc.Steps.{
  with_prev, with_prev_here, with_prev_other, modify_element, set_prev-with_prev,
}
use la_liga_de_la_justicia.Rc.Split.{IsPool}

-- What the new brother and the element become.
abbrev brother : Element → Ptr → Element → Element
brother e padre x = record x {
  next = e.next;
  prev = padre;
  chunk_size = e.chunk_size / 2;
  address = e.address + e.chunk_size / 2;
}

abbrev half : Element → Ptr → Element → Element
half e n x = record x { next = n; chunk_size = e.chunk_size / 2 }

freed : (Ptr → Element) → Ptr → Ptr → Element
freed heap n = with_prev heap ((heap n).next) null

linked : (Ptr → Element) → (padre n : ℕ) → Ptr → Element
unfolding freed
linked heap padre n = with_prev (freed heap n) ((heap padre).next) n

joined_in : (Ptr → Element) → (padre n : ℕ) → Ptr → Element
unfolding linked
joined_in heap padre n =
    update (linked heap padre n) n (brother (heap padre) padre (linked heap padre n n))

halved : (Ptr → Element) → (padre n : ℕ) → Ptr → Element
unfolding joined_in
halved heap padre n =
    update (joined_in heap padre n) padre (half (heap padre) n (joined_in heap padre n padre))

agregar_hijos-halved :
    (padre : ℕ) (d : Dictionary)
    → padre ≢ null
    → d.nodes ≢ null
    → (d.heap d.nodes).next ≢ padre
    → agregar_hijos padre d
      ≡ done tt (record d { heap = halved d.heap padre d.nodes; nodes = (d.heap d.nodes).next })
unfolding agregar_hijos halved joined_in linked freed
agregar_hijos-halved padre d np nn apart =
    let n = d.nodes in
    let e = d.heap padre in
    let d1 = record d { heap = with_prev d.heap ((d.heap n).next) null } in
    let d2 = record d1 { nodes = (d.heap n).next } in
    let d3 = record d2 { heap = with_prev d2.heap e.next n } in
    let d4 = record d3 { heap = update d3.heap n (brother e padre (d3.heap n)) } in
    let same : d2.heap padre ≡ e =
      with_prev_other d.heap ((d.heap n).next) null padre (inr apart) in
    rw
      (
        load_element n d nn,
        set_prev-with_prev ((d.heap n).next) null d,
        load_element padre d2 np,
        same,
        set_prev-with_prev e.next n d2,
        modify_element n (brother e padre) d3 nn,
        modify_element padre (half e n) d4 np,
      )
      refl

module _ (heap : Ptr → Element) (padre n : ℕ) where
  linked_other :
      (q : Ptr) → (heap n).next ≢ q → (heap padre).next ≢ q → linked heap padre n q ≡ heap q
  unfolding linked freed
  linked_other q a b =
      with_prev_other (freed heap n) ((heap padre).next) n q (inr b)
      ∙ with_prev_other heap ((heap n).next) null q (inr a)

  joined_in_other : (q : Ptr) → n ≢ q → joined_in heap padre n q ≡ linked heap padre n q
  unfolding joined_in
  joined_in_other q a =
      update_other (linked heap padre n) n (brother (heap padre) padre (linked heap padre n n)) q a

  halved_other : (q : Ptr) → padre ≢ q → halved heap padre n q ≡ joined_in heap padre n q
  unfolding halved
  halved_other q a =
      update_other (joined_in heap padre n) padre
        (half (heap padre) n (joined_in heap padre n padre)) q a

  -- What the steps come to, for an element of even size.
  halved-Cut :
      (heap n).next ≢ padre
      → (heap n).next ≢ n
      → (heap n).next ≢ (heap padre).next ⊎ ((heap padre).next ≡ null)
      → n ≢ padre
      → (heap padre).next ≢ n
      → (heap padre).next ≢ padre
      → (heap padre).chunk_size / 2 * 2 ≡ (heap padre).chunk_size
      → Cut heap (halved heap padre n) padre n ((heap padre).chunk_size / 2)
  unfolding halved joined_in linked freed
  halved-Cut a b c e f g even =
      let i : halved heap padre n padre ≡ half (heap padre) n (heap padre) =
        update_here (joined_in heap padre n) padre
          (half (heap padre) n (joined_in heap padre n padre))
        ∙ ap (half (heap padre) n) (joined_in_other padre e ∙ linked_other padre a g) in
      let k : halved heap padre n n ≡ brother (heap padre) padre (heap n) =
        halved_other n (λ y. e (sym y))
        ∙ update_here (linked heap padre n) n (brother (heap padre) padre (linked heap padre n n))
        ∙ ap (brother (heap padre) padre) (linked_other n b f) in
      record {
        item_prev = ap (λ x. x.prev) i;
        item_address = ap (λ x. x.address) i;
        item_next = ap (λ x. x.next) i;
        item_chunk = ap (λ x. x.chunk_size) i;
        new_prev = ap (λ x. x.prev) k;
        new_address = ap (λ x. x.address) k;
        new_next = ap (λ x. x.next) k;
        new_chunk = ap (λ x. x.chunk_size) k ∙ omega (arith, even);
        after = λ nz. elim c [
          | inl apart ↦
              halved_other ((heap padre).next) (λ y. g (sym y))
              ∙ joined_in_other ((heap padre).next) (λ y. f (sym y))
              ∙ with_prev_here (freed heap n) ((heap padre).next) n nz
              ∙ ap {A = Element} {B = Element} (λ x. record x { prev = n })
                  (with_prev_other heap ((heap n).next) null ((heap padre).next) (inr apart))
          | inr y ↦ absurd (nz y)
        ];
      }

-- Halving an element of even size in the buddy system succeeds: the elements still tile the same memory
-- as a doubly linked list, the first node of the pool stands behind the element, and each of the two
-- has half of its bytes. Before it, the list has no repetitions and the pool's first two nodes are not
-- listed.
pub agregar_hijos-Tiles :
    (d : Dictionary) (l : List Ptr) (padre base limit : ℕ)
    → Tiles d.heap null d.elements base limit l
    → Distinct l
    → IsPool d l
    → has padre l ≡ true
    → (d.heap padre).chunk_size / 2 * 2 ≡ (d.heap padre).chunk_size
    → (d' : Dictionary) × (agregar_hijos padre d ≡ done tt d')
      × Tiles d'.heap null d'.elements base limit (insert_after padre d.nodes l)
      × ((d'.heap padre).chunk_size ≡ (d.heap padre).chunk_size / 2)
      × ((d'.heap d.nodes).chunk_size ≡ (d.heap padre).chunk_size / 2)
agregar_hijos-Tiles d l padre base limit t di pool h even =
    let n = d.nodes in
    let n2 = (d.heap n).next in
    let nx = (d.heap padre).next in
    let a : n2 ≢ padre = λ z. has-apart padre n2 l h pool.next_unlisted (sym z) in
    let e : n ≢ padre = λ z. has-apart padre n l h pool.head_unlisted (sym z) in
    let g : nx ≢ padre = next_apart_lem d.heap null d.elements base limit l padre t di h in
    let listed = next_listed d.heap null d.elements base limit l padre t h in
    let f : nx ≢ n = elim listed [
      | inl z ↦ λ y. pool.head_nonnull (sym y ∙ z)
      | inr z ↦ has-apart nx n l z pool.head_unlisted
    ] in
    let c : (n2 ≢ nx) ⊎ (nx ≡ null) = elim listed [
      | inl z ↦ inr z
      | inr z ↦ inl (λ y. has-apart nx n2 l z pool.next_unlisted (sym y))
    ] in
    let cut = halved-Cut d.heap padre n a pool.next_apart c e f g even in
    (
      record d { heap = halved d.heap padre n; nodes = n2 },
      agregar_hijos-halved padre d (Tiles-nonnull d.heap null d.elements base limit l padre t h)
          pool.head_nonnull a,
      Cut-Tiles d.heap (halved d.heap padre n) padre n ((d.heap padre).chunk_size / 2) cut null
          d.elements base limit l pool.head_nonnull (omega arith) di h
          (λ q k x y.
            halved_other d.heap padre n q (λ z. x (sym z))
            ∙ joined_in_other d.heap padre n q (λ z. has-apart q n l k pool.head_unlisted (sym z))
            ∙ linked_other d.heap padre n q (λ z. has-apart q n2 l k pool.next_unlisted (sym z))
                (λ z. y (sym z)))
          t,
      cut.item_chunk,
      cut.new_chunk ∙ omega (arith, even),
    )
