-- ===== src/Rc/Victim.antt =====
-- The victim that the cache gives up: `diccionario_elegirVictima`.
use la_liga_de_la_justicia.Base.{
  ℕ, zero, suc, ◌<◌, ◌≤◌, ◌≡◌, ◌≢◌, refl, sym, ap, ◌∙◌, true, false, List, [], ◌∷◌, ◌==◌,
  if◌then◌else◌, length, has, All, ◌⊎◌, arith, inl, inr, Bool-cases, false≢true, subst, ==_iff,
  All-at,
}
use la_liga_de_la_justicia.Rc.Store.{Ptr, null, Element, Dictionary, done, null_deref, load}
use la_liga_de_la_justicia.Rc.Dictionary.{first_used, oldest, elegir_victima}
use la_liga_de_la_justicia.Rc.Chain.{Linked, load_element}
use la_liga_de_la_justicia.Rc.Oldest.{oldest_of, oldest_of-Oldest, oldest-oldest_of, oldest-null}

-- A listed element in use (its hour is not 0) that no other element in use is older than.
pub record IsVictim (heap : Ptr → Element) (l : List Ptr) (v : Ptr) : Type 0 where
  pub listed : has v l ≡ true
  pub used : (heap v).hour ≢ 0
  pub least : (q : Ptr) → has q l ≡ true → (heap q).hour ≢ 0 → (heap v).hour ≤ (heap q).hour

-- The list from its first element in use on.
from_used : (Ptr → Element) → List Ptr → List Ptr
from_used heap [] = []
from_used heap (q ∷ qs) = if (heap q).hour == 0 then from_used heap qs else q ∷ qs

abbrev head : List Ptr → Ptr
head [] = null
head (q ∷ qs) = q

first_used-from_used :
    (d : Dictionary) (l : List Ptr) (fuel : ℕ) (p : Ptr)
    → Linked d.heap p l
    → length l < fuel
    → first_used fuel p d ≡ done (head (from_used d.heap l)) d
unfolding first_used from_used
first_used-from_used d l zero p k h = absurd (omega arith)
first_used-from_used d [] (suc f) p k h = rw k refl
first_used-from_used d (q ∷ qs) (suc f) p (e, ne, k) h =
    let n : (q == null) ≡ false = ground arith in
    let ih = first_used-from_used d qs f ((d.heap q).next) k (omega arith) in
    rw (e, n, load_element q d ne)
      elim (Bool-cases ((d.heap q).hour == 0)) [ inl t ↦ rw (t, ih) refl | inr t ↦ rw t refl ]

-- What stays of the list: its elements in use are all there.
record Rest (heap : Ptr → Element) (l m : List Ptr) : Type 0 where
  linked : (p : Ptr) → Linked heap p l → Linked heap (head m) m
  no_longer : length m ≤ length l
  inside : (q : Ptr) → has q m ≡ true → has q l ≡ true
  kept : (q : Ptr) → has q l ≡ true → (heap q).hour ≢ 0 → has q m ≡ true

from_used-Rest : (heap : Ptr → Element) (l : List Ptr) → Rest heap l (from_used heap l)
unfolding from_used
from_used-Rest heap [] = record {
  linked = λ p k. refl;
  no_longer = omega arith;
  inside = λ q e. e;
  kept = λ q e u. e;
}
from_used-Rest heap (q ∷ qs) =
    let ih = from_used-Rest heap qs in
    elim (Bool-cases ((heap q).hour == 0)) [
      | inl t ↦ rw t record {
        linked = λ p (e, ne, k). ih.linked ((heap q).next) k;
        no_longer = omega (arith, ih.no_longer);
        inside = λ r e. let m = ih.inside r e in ground (arith, m);
        kept = λ r e u. elim (Bool-cases (q == r)) [
          | inl s ↦ absurd (
              u (ap (λ x. (heap x).hour) (sym ((==_iff q r).0 s)) ∙ (==_iff ((heap q).hour) 0).0 t))
          | inr s ↦ ih.kept r (ground (arith, s, e)) u
        ];
      }
      | inr t ↦ rw t record {
        linked = λ p (e, ne, k). (refl, ne, k);
        no_longer = omega arith;
        inside = λ r e. e;
        kept = λ r e u. e;
      }
    ]

from_used_cases :
    (heap : Ptr → Element) (l : List Ptr)
    → (from_used heap l ≡ [])
      ⊎ ((v : Ptr) × (qs : List Ptr) × (from_used heap l ≡ v ∷ qs) × ((heap v).hour ≢ 0))
unfolding from_used
from_used_cases heap [] = inl refl
from_used_cases heap (q ∷ qs) = elim (Bool-cases ((heap q).hour == 0)) [
  | inl t ↦ rw t (from_used_cases heap qs)
  | inr t ↦ rw t (inr (q, qs, refl, ground (arith, t)))
]

Linked-nonnull :
    (heap : Ptr → Element) (l : List Ptr) (p : Ptr)
    → Linked heap p l
    → (q : Ptr) → has q l ≡ true
    → q ≢ null
Linked-nonnull heap [] p k q e = absurd (false≢true e)
Linked-nonnull heap (r ∷ rs) p (_, ne, k) q e = elim (Bool-cases (r == q)) [
  | inl t ↦ λ z. ne ((==_iff r q).0 t ∙ z)
  | inr t ↦ Linked-nonnull heap rs ((heap r).next) k q (ground (arith, t, e))
]

-- The choice once the list from its first element in use on is known.
elegir_victima-chosen :
    (d : Dictionary) (l : List Ptr) (fuel : ℕ) (v : Ptr) (qs : List Ptr)
    → Linked d.heap d.elements l
    → length l < fuel
    → from_used d.heap l ≡ v ∷ qs
    → (d.heap v).hour ≢ 0
    → (r : Ptr) × (elegir_victima fuel d ≡ done r d) × IsVictim d.heap l r
unfolding elegir_victima
elegir_victima-chosen d l fuel v qs k h e u =
    let rest : Rest d.heap l (v ∷ qs) = subst (Rest d.heap l) e (from_used-Rest d.heap l) in
    let (_, nv, k') = rest.linked d.elements k in
    let r = oldest_of d.heap (v ∷ qs) v in
    let o = oldest_of-Oldest d.heap (v ∷ qs) v u in
    let r_has : has r (v ∷ qs) ≡ true = ground (arith, o.among) in
    let nr = Linked-nonnull d.heap (v ∷ qs) v (refl, nv, k') r r_has in
    let s1 : first_used fuel d.elements d ≡ done v d =
      first_used-from_used d l fuel d.elements k h ∙ ap (λ m. done (head m) d) e in
    let s2 : oldest fuel v v d ≡ done r d =
      oldest-oldest_of d (v ∷ qs) fuel v v (refl, nv, k') (omega (arith, rest.no_longer, h)) nv in
    (
      r,
      rw (s1, s2, load_element r d nr) refl,
      record {
        listed = rest.inside r r_has;
        used = o.in_use;
        least = λ q e' u'. o.not_after_listed q (rest.kept q e' u') u';
      },
    )

-- Where some element is in use, the victim is one, listed, and no element in use has a smaller hour:
-- with hours of the last use this is LRU, with hours of the store FIFO. The choice ends when the fuel
-- exceeds the number of elements and changes nothing.
pub elegir_victima-IsVictim :
    (d : Dictionary) (l : List Ptr) (fuel : ℕ)
    → Linked d.heap d.elements l
    → length l < fuel
    → (q : Ptr) → has q l ≡ true
    → (d.heap q).hour ≢ 0
    → (v : Ptr) × (elegir_victima fuel d ≡ done v d) × IsVictim d.heap l v
unfolding elegir_victima
elegir_victima-IsVictim d l fuel k h q e u = elim (from_used_cases d.heap l) [
  | inl n ↦
      let none_kept : has q [] ≡ true =
        subst (λ m. has q m ≡ true) n ((from_used-Rest d.heap l).kept q e u) in
      absurd (false≢true none_kept)
  | inr (v, qs, s, w) ↦ elegir_victima-chosen d l fuel v qs k h s w
]

-- Where no element is in use (each is free, or allocated and not stored yet), the choice dereferences
-- NULL.
pub elegir_victima_unused :
    (d : Dictionary) (l : List Ptr) (fuel : ℕ)
    → Linked d.heap d.elements l
    → length l < fuel
    → All (λ q. (d.heap q).hour ≡ 0) l
    → elegir_victima fuel d ≡ null_deref
unfolding elegir_victima load
elegir_victima_unused d l fuel k h z =
    let rest = from_used-Rest d.heap l in
    elim (from_used_cases d.heap l) [
      | inl e ↦
          let s1 : first_used fuel d.elements d ≡ done null d =
            first_used-from_used d l fuel d.elements k h ∙ ap (λ m. done (head m) d) e in
          let s2 : oldest fuel null null d ≡ done null d = oldest-null fuel d (omega (arith, h)) in
          rw (s1, s2) refl
      | inr (v, qs, e, u) ↦
          let v_has : has v l ≡ true =
            rest.inside v (subst (λ m. has v m ≡ true) (sym e) (ground arith)) in
          absurd (u (All-at (λ q. (d.heap q).hour ≡ 0) v l z v_has))
    ]
