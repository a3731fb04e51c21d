-- ===== src/Rc/Oldest.antt =====
-- The second loop of `diccionario_elegirVictima`: the least hour along the list.
use la_liga_de_la_justicia.Base.{
  ℕ, zero, suc, ◌<◌, ◌≤◌, ◌≡◌, ◌≢◌, refl, ap, true, false, not, ◌&&◌, List, [], ◌∷◌, ltb, ◌==◌,
  if◌then◌else◌, length, has, arith, inl, inr, Bool-cases, false≢true, subst, ==_iff,
}
use la_liga_de_la_justicia.Rc.Store.{Ptr, null, Element, Dictionary, done}
use la_liga_de_la_justicia.Rc.Dictionary.{oldest}
use la_liga_de_la_justicia.Rc.Chain.{Linked, load_element}

unfoldable pub oldest_of : (Ptr → Element) → List Ptr → Ptr → Ptr
oldest_of heap [] v = v
oldest_of heap (q ∷ qs) v =
    oldest_of heap qs
      (if not ((heap q).hour == 0) && ltb ((heap q).hour) ((heap v).hour) then q else v)

-- What `oldest_of` gives: one of the candidates, in use, and as old as any.
pub record Oldest (heap : Ptr → Element) (l : List Ptr) (v r : Ptr) : Type 0 where
  pub among : has r (v ∷ l) ≡ true
  pub in_use : (heap r).hour ≢ 0
  pub not_after : (heap r).hour ≤ (heap v).hour
  pub not_after_listed :
      (q : Ptr) → has q l ≡ true → (heap q).hour ≢ 0 → (heap r).hour ≤ (heap q).hour

at_head :
    (heap : Ptr → Element) (q : Ptr) (qs : List Ptr) (r : Ptr)
    → (heap r).hour ≤ (heap q).hour
    → ((s : Ptr) → has s qs ≡ true → (heap s).hour ≢ 0 → (heap r).hour ≤ (heap s).hour)
    → (s : Ptr) → has s (q ∷ qs) ≡ true
    → (heap s).hour ≢ 0
    → (heap r).hour ≤ (heap s).hour
at_head heap q qs r h k s e z = elim (Bool-cases (q == s)) [
  | inl t ↦ subst (λ x. (heap r).hour ≤ (heap x).hour) ((==_iff q s).0 t) h
  | inr t ↦ k s (ground (arith, t, e)) z
]

older :
    (heap : Ptr → Element) (q v s r : Ptr)
    → (not ((heap q).hour == 0) && ltb ((heap q).hour) ((heap v).hour)) ≡ false
    → (q == s) ≡ true
    → (heap s).hour ≢ 0
    → (heap r).hour ≤ (heap v).hour
    → (heap r).hour ≤ (heap s).hour
older heap q v s r t e z h =
    let p : (heap q).hour ≡ (heap s).hour = ap (λ x. (heap x).hour) ((==_iff q s).0 e) in
    ground (arith, t, p, z, h)

pub oldest_of-Oldest :
    (heap : Ptr → Element) (l : List Ptr) (v : Ptr)
    → (heap v).hour ≢ 0
    → Oldest heap l v (oldest_of heap l v)
unfolding oldest_of
oldest_of-Oldest heap [] v u = record {
  among = ground arith;
  in_use = u;
  not_after = omega arith;
  not_after_listed = λ q e. absurd (false≢true e);
}
oldest_of-Oldest heap (q ∷ qs) v u =
    elim (Bool-cases (not ((heap q).hour == 0) && ltb ((heap q).hour) ((heap v).hour))) [
      | inl t ↦ rw t (
          let ih = oldest_of-Oldest heap qs q (ground (arith, t)) in
          let younger : (heap q).hour < (heap v).hour = ground (arith, t) in
          record {
            among = ground (arith, ih.among);
            in_use = ih.in_use;
            not_after = omega (arith, ih.not_after, younger);
            not_after_listed =
                at_head heap q qs (oldest_of heap qs q) ih.not_after ih.not_after_listed;
          })
      | inr t ↦ rw t (
          let ih = oldest_of-Oldest heap qs v u in
          record {
            among = ground (arith, ih.among);
            in_use = ih.in_use;
            not_after = ih.not_after;
            not_after_listed = λ r e z. elim (Bool-cases (q == r)) [
              | inl s ↦ older heap q v r (oldest_of heap qs v) t s z ih.not_after
              | inr s ↦ ih.not_after_listed r (ground (arith, s, e)) z
            ];
          })
    ]

pub oldest-oldest_of :
    (d : Dictionary) (l : List Ptr) (fuel : ℕ) (p v : Ptr)
    → Linked d.heap p l
    → length l < fuel
    → v ≢ null
    → oldest fuel p v d ≡ done (oldest_of d.heap l v) d
unfolding oldest oldest_of
oldest-oldest_of d l zero p v k h nv = absurd (omega arith)
oldest-oldest_of d [] (suc f) p v k h nv = rw k refl
oldest-oldest_of d (q ∷ qs) (suc f) p v (e, ne, k) h nv =
    let n : (q == null) ≡ false = ground arith in
    rw (e, n, load_element q d ne, load_element v d nv)
      elim (Bool-cases (not ((d.heap q).hour == 0) && ltb ((d.heap q).hour) ((d.heap v).hour))) [
        | inl t ↦ rw t (oldest-oldest_of d qs f ((d.heap q).next) q k (omega arith) ne)
        | inr t ↦ rw t (oldest-oldest_of d qs f ((d.heap q).next) v k (omega arith) nv)
      ]

pub oldest-null : (fuel : ℕ) (d : Dictionary) → 0 < fuel → oldest fuel null null d ≡ done null d
unfolding oldest
oldest-null zero d h = absurd (omega arith)
oldest-null (suc f) d h = refl
