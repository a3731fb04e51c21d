-- ===== src/Rc/Split.antt =====
-- After the cut of an element the elements still tile the memory.
use la_liga_de_la_justicia.Base.{
  ℕ, ◌-◌, ◌≤◌, ◌≡◌, ◌≢◌, ◌⊎◌, refl, sym, ap, ◌∙◌, true, false, List, has, arith, inl, inr,
}
use la_liga_de_la_justicia.Rc.Store.{Ptr, null, Element, Dictionary, done}
use la_liga_de_la_justicia.Rc.Dynamic.{dividir}
use la_liga_de_la_justicia.Rc.Tiles.{
  Tiles, Distinct, insert_after, Cut, Cut-Tiles, next_listed, next_apart_lem, has-apart,
  Tiles-nonnull,
}
use la_liga_de_la_justicia.Rc.Steps.{
  divided, dividir-divided, divided_item, divided_new, divided_next, divided_other,
}

-- The free node and the one behind it are no elements of the list, and the free node is empty.
pub record IsPool (d : Dictionary) (l : List Ptr) : Type 0 where
  pub head_nonnull : d.nodes ≢ null
  pub head_unlisted : has d.nodes l ≡ false
  pub head_empty : (d.heap d.nodes).chunk_size ≡ 0
  pub next_apart : (d.heap d.nodes).next ≢ d.nodes
  pub next_unlisted : has ((d.heap d.nodes).next) l ≡ false

module _ (heap : Ptr → Element) (item n size : ℕ) where
  -- What the steps come to.
  divided-Cut :
      (heap n).next ≢ item
      → (heap n).next ≢ n
      → (heap n).next ≢ (heap item).next ⊎ ((heap item).next ≡ null)
      → n ≢ item
      → (heap item).next ≢ n
      → (heap item).next ≢ item
      → (heap n).chunk_size ≡ 0
      → Cut heap (divided heap item n size) item n size
  divided-Cut a b c e f g z =
      let i = divided_item heap item n size a e g in
      let k = divided_new heap item n size b e f in
      record {
        item_prev = ap (λ x. x.prev) i;
        item_address = ap (λ x. x.address) i;
        item_next = ap (λ x. x.next) i;
        item_chunk = ap (λ x. x.chunk_size) i;
        new_prev = ap (λ x. x.prev) k;
        new_address = ap (λ x. x.address) k;
        new_next = ap (λ x. x.next) k;
        new_chunk = omega (arith, ap (λ x. x.chunk_size) k, z);
        after = λ nz. elim c [
          | inl apart ↦ divided_next heap item n size nz apart (λ y. f (sym y)) g
          | inr y ↦ absurd (nz y)
        ];
      }

-- The cut of an element that has `size` bytes and the least size more: it succeeds, the elements still
-- tile the same memory as a doubly linked list, `item` keeps `size` bytes, and the first node of the
-- pool stands behind it with the others. Before it, the list has no repetitions and the pool's first
-- two nodes are not listed.
pub dividir-Tiles :
    (d : Dictionary) (l : List Ptr) (item size base limit : ℕ)
    → Tiles d.heap null d.elements base limit l
    → Distinct l
    → IsPool d l
    → has item l ≡ true
    → size ≤ (d.heap item).chunk_size
    → d.slab_min_size ≤ (d.heap item).chunk_size - size
    → (d' : Dictionary) × (dividir size item d ≡ done tt d')
      × Tiles d'.heap null d'.elements base limit (insert_after item d.nodes l)
      × ((d'.heap item).chunk_size ≡ size)
      × (d'.nodes ≡ (d.heap d.nodes).next)
dividir-Tiles d l item size base limit t di pool h le room =
    let n = d.nodes in
    let n2 = (d.heap n).next in
    let nx = (d.heap item).next in
    let nonnull : item ≢ null = Tiles-nonnull d.heap null d.elements base limit l item t h in
    let a : n2 ≢ item = λ z. has-apart item n2 l h pool.next_unlisted (sym z) in
    let e : n ≢ item = λ z. has-apart item n l h pool.head_unlisted (sym z) in
    let g : nx ≢ item = next_apart_lem d.heap null d.elements base limit l item t di h in
    let listed = next_listed d.heap null d.elements base limit l item t h in
    let f : nx ≢ n = elim listed [
      | inl z ↦ λ y. pool.head_nonnull (sym y ∙ z)
      | inr z ↦ has-apart nx n l z pool.head_unlisted
    ] in
    let c : (n2 ≢ nx) ⊎ (nx ≡ null) = elim listed [
      | inl z ↦ inr z
      | inr z ↦ inl (λ y. has-apart nx n2 l z pool.next_unlisted (sym y))
    ] in
    let cut = divided-Cut d.heap item n size a pool.next_apart c e f g pool.head_empty in
    (
      record d { heap = divided d.heap item n size; nodes = n2 },
      dividir-divided size item d nonnull pool.head_nonnull room,
      Cut-Tiles d.heap (divided d.heap item n size) item n size cut null d.elements base limit l
          pool.head_nonnull le di h
          (λ q k x y.
            divided_other d.heap item n size q (λ z. has-apart q n2 l k pool.next_unlisted (sym z))
              (λ z. has-apart q n l k pool.head_unlisted (sym z)) (λ z. y (sym z)) (λ z. x (sym z)))
          t,
      cut.item_chunk,
      refl,
    )
