-- ===== src/Tests/RcSearch.antt =====
-- A cache of three elements at 1, 2 and 3: the first and the last are stored, the second is free.
use la_liga_de_la_justicia.Base.{
  ℕ, ◌+◌, ◌*◌, ◌≡◌, refl, true, false, not, List, [], ◌∷◌, ◌==◌, if◌then◌else◌, pos, arith,
}
use la_liga_de_la_justicia.Rc.Store.{load, Ptr, null, Dictionary, done, null_deref}
use la_liga_de_la_justicia.Rc.Dictionary.{obtener, elegir_victima}
use la_liga_de_la_justicia.Rc.Chain.{Linked, HasKey, First, obtener-First}
use la_liga_de_la_justicia.Rc.Victim.{IsVictim, elegir_victima-IsVictim, elegir_victima_unused}

-- The hour of the elements 1, 2 and 3, and whether they are stored.
abbrev three : (ℕ → ℕ) → Dictionary
three hours = record {
  heap = λ p. record {
    prev = if p == 1 then null else 1;
    key = (96 + p) ∷ 0 ∷ [];
    nkey = if p == 2 then 0 else 1;
    address = 64 * p;
    hour = hours p;
    chunk_size = 64;
    data_size = 40;
    ocupado = not (p == 2);
    flags = 0;
    next = if p == 3 then null else p + 1;
  };
  memory = λ _. 0;
  nodes = 0;
  elements = 1;
  table_max_size = 192;
  table_current_size = 80;
  slab_min_size = 16;
  lru = true;
  bestfit = false;
  compactar_memoria = pos 0;
  frecuencia_compactacion = pos 3;
}

abbrev used_hours : ℕ → ℕ
used_hours p = if p == 1 then 5 else (if p == 2 then 0 else 3)

abbrev all_three : List Ptr
all_three = 1 ∷ 2 ∷ 3 ∷ []

three-Linked : (hours : ℕ → ℕ) → Linked (three hours).heap 1 all_three
three-Linked hours = (refl, omega arith, (refl, omega arith, (refl, omega arith, refl)))

obtener-First_example :
    (p : Ptr) × (obtener 4 (99 ∷ 0 ∷ []) 1 (three used_hours) ≡ done p (three used_hours))
    × First (λ q. HasKey (99 ∷ 0 ∷ []) 1 ((three used_hours).heap q)) all_three p
obtener-First_example =
    obtener-First (99 ∷ 0 ∷ []) 1 (three used_hours) all_three 4 (three-Linked used_hours)
      (omega arith)

-- The key "c" is the third's.
obtener_third : obtener 4 (99 ∷ 0 ∷ []) 1 (three used_hours) ≡ done 3 (three used_hours)
unfolding obtener load
obtener_third = refl

elegir_victima-IsVictim_example :
    (v : Ptr) × (elegir_victima 4 (three used_hours) ≡ done v (three used_hours))
    × IsVictim (three used_hours).heap all_three v
elegir_victima-IsVictim_example =
    elegir_victima-IsVictim (three used_hours) all_three 4 (three-Linked used_hours) (omega arith) 3
      refl (omega arith)

elegir_victima_unused_example : elegir_victima 4 (three (λ _. 0)) ≡ null_deref
elegir_victima_unused_example =
    elegir_victima_unused (three (λ _. 0)) all_three 4 (three-Linked (λ _. 0)) (omega arith)
      (refl, (refl, (refl, tt)))
