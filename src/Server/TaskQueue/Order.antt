-- ===== src/Server/TaskQueue/Order.antt =====
-- What the queue promises its producers and workers, however their steps are interleaved.
use mathlib.Core.List.{append_assoc, map-append}
use la_liga_de_la_justicia.Base.{
  ℕ, zero, suc, ◌+◌, ◌<◌, ◌≡◌, refl, sym, ap, ◌∙◌, ◌⊎◌, inl, inr, some, List, [], ◌∷◌, ◌++◌, map,
  length, length-append, arith,
}
use la_liga_de_la_justicia.Server.TaskQueue.{
  TaskQueue, push_element, post, call_pop, end_wait, pop_element, posts, wakes, pops, Step, pushes,
  calls, proceeds, Reach, starts, goes, Proceeds, stays, then_on,
}

zero_or_pos : (n : ℕ) → (n ≡ 0) ⊎ (0 < n)
zero_or_pos zero = inl refl
zero_or_pos (suc n) = inr (omega arith)

module _ {T : Type 0} where
  -- The elements that no worker has taken are those announced, those being announced and those claimed.
  record Inv (s : TaskQueue T) : Type 0 where
    counted : length s.queue ≡ s.available_elements + s.posting + s.taking
    ordered : map some s.pushed ≡ s.popped ++ map some s.queue

  pop_element-Inv : (s : TaskQueue T) → 0 < s.taking → Inv s → Inv (pop_element s)
  unfolding pop_element
  pop_element-Inv s h inv = go s.queue refl
    where
      go : (q : List T) → s.queue ≡ q → Inv (pop_element s)
      go [] e = absurd (omega (arith, ap length e, inv.counted))
      go (x ∷ q) e =
          let n : s.available_elements + s.posting + s.taking ≡ suc (length q) =
            sym inv.counted ∙ ap length e in
          let o : map some s.pushed ≡ s.popped ++ some x ∷ map some q =
            inv.ordered ∙ ap (λ l. s.popped ++ map some l) e in
          rw (e, pop_element)
            (record {
              counted = omega (arith, n, h);
              ordered = o ∙ sym (append_assoc s.popped (some x ∷ []) (map some q));
            })

  Step-Inv : {s t : TaskQueue T} → Step s t → Inv s → Inv t
  unfolding push_element post call_pop end_wait
  Step-Inv {s} (pushes x) inv = record {
    counted = omega (arith, inv.counted, length-append s.queue (x ∷ []));
    ordered =
        map-append some s.pushed (x ∷ [])
        ∙ ap (λ l. l ++ some x ∷ []) inv.ordered
        ∙ append_assoc s.popped (map some s.queue) (some x ∷ [])
        ∙ ap (λ l. s.popped ++ l) (sym (map-append some s.queue (x ∷ [])));
  }
  Step-Inv calls inv = record { counted = inv.counted; ordered = inv.ordered }
  Step-Inv (proceeds (posts h)) inv = record {
    counted = omega (arith, inv.counted, h);
    ordered = inv.ordered;
  }
  Step-Inv (proceeds (wakes h h')) inv = record {
    counted = omega (arith, inv.counted, h');
    ordered = inv.ordered;
  }
  Step-Inv (proceeds (pops h)) inv = pop_element-Inv _ h inv

  Reach-Inv : {s : TaskQueue T} → Reach s → Inv s
  Reach-Inv starts = record { counted = refl; ordered = refl }
  Reach-Inv (goes r step) = Step-Inv step (Reach-Inv r)

  -- However the calls are interleaved, what the workers have got and then what is in the queue is what was
  -- pushed, in that order: nothing is lost, doubled or overtaken, and no worker gets NULL.
  pub popped_in_order :
      {s : TaskQueue T} → Reach s → map some s.pushed ≡ s.popped ++ map some s.queue
  popped_in_order r = (Reach-Inv r).ordered

  pop_element-first :
      (s : TaskQueue T) (x : T) (q : List T)
      → s.queue ≡ x ∷ q
      → (pop_element s).popped ≡ s.popped ++ some x ∷ []
  unfolding pop_element
  pop_element-first s x q e = rw e refl

  abbrev Served : TaskQueue T → T → Type 0
  Served s x = (t : TaskQueue T) × Proceeds s t × (t.popped ≡ s.popped ++ some x ∷ [])

  taking-Served :
      (s : TaskQueue T) (x : T) (q : List T) → s.queue ≡ x ∷ q → 0 < s.taking → Served s x
  taking-Served s x q e h = (pop_element s, then_on (pops h) stays, pop_element-first s x q e)

  available-Served :
      (s : TaskQueue T) (x : T) (q : List T)
      → s.queue ≡ x ∷ q
      → 0 < s.waiting
      → 0 < s.available_elements
      → Served s x
  unfolding end_wait
  available-Served s x q e h h' =
      let (t, go, got) = taking-Served (end_wait s) x q e (omega arith) in
      (t, then_on (wakes h h') go, got)

  posting-Served :
      (s : TaskQueue T) (x : T) (q : List T)
      → s.queue ≡ x ∷ q
      → 0 < s.waiting
      → 0 < s.posting
      → Served s x
  unfolding post
  posting-Served s x q e h h' =
      let (t, go, got) = available-Served (post s) x q e h (omega arith) in
      (t, then_on (posts h') go, got)

  -- No lost wake-up: whenever an element is in the queue and a worker has called `s_queue_pop`, the calls that
  -- have begun can go on until the first element is taken.
  pub first_is_served :
      {s : TaskQueue T}
      → Reach s
      → (x : T) (q : List T) → s.queue ≡ x ∷ q
      → 0 < s.waiting + s.taking
      → (t : TaskQueue T) × Proceeds s t × (t.popped ≡ s.popped ++ some x ∷ [])
  first_is_served {s} r x q e h = elim (zero_or_pos s.taking) [
    | inr claimed ↦ taking-Served s x q e claimed
    | inl unclaimed ↦ elim (zero_or_pos s.available_elements) [
      | inr announced ↦ available-Served s x q e (omega (arith, unclaimed)) announced
      | inl unannounced ↦
          posting-Served s x q e (omega (arith, unclaimed))
            (omega (arith, (Reach-Inv r).counted, ap length e, unclaimed, unannounced))
    ]
  ]
