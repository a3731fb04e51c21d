-- ===== src/Tests/RcSplit.antt =====
-- A fresh cache of 192 bytes at 64: the element is cut, 64 bytes stay.
use la_liga_de_la_justicia.Base.{
  ◌+◌, ◌-◌, ◌≡◌, refl, true, false, [], ◌∷◌, ◌==◌, if◌then◌else◌, pos, arith,
}
use la_liga_de_la_justicia.Rc.Store.{
  Ptr, null, Element, Dictionary, Outcome, done, null_deref, out_of_fuel,
}
use la_liga_de_la_justicia.Rc.Dynamic.{dividir, obtener_direccion}
use la_liga_de_la_justicia.Rc.Tiles.{Tiles, insert_after}
use la_liga_de_la_justicia.Rc.Buddy.{agregar_hijos}
use la_liga_de_la_justicia.Rc.Halving.{agregar_hijos-Tiles}
use la_liga_de_la_justicia.Rc.Split.{dividir-Tiles}

abbrev no_element : Element
no_element = record {
  prev = null;
  key = [];
  nkey = 0;
  address = 0;
  hour = 0;
  chunk_size = 0;
  data_size = 0;
  ocupado = false;
  flags = 0;
  next = null;
}

-- One element at 1 and the nodes 2, 3 and 4.
abbrev fresh : Dictionary
fresh = record {
  heap = λ p.
      if p == 1 then record no_element { address = 64; chunk_size = 192 } else record no_element {
        prev = if p == 2 then null else p - 1;
        next = if p == 4 then null else p + 1;
      };
  memory = λ _. 0;
  nodes = 2;
  elements = 1;
  table_max_size = 192;
  table_current_size = 0;
  slab_min_size = 16;
  lru = true;
  bestfit = false;
  compactar_memoria = pos 0;
  frecuencia_compactacion = pos 3;
}

dividir-Tiles_example :
    (d' : Dictionary) × (dividir 64 1 fresh ≡ done tt d')
    × Tiles d'.heap null d'.elements 64 256 (insert_after 1 2 (1 ∷ []))
    × ((d'.heap 1).chunk_size ≡ 64)
    × (d'.nodes ≡ 3)
dividir-Tiles_example =
    dividir-Tiles fresh (1 ∷ []) 1 64 64 256 (refl, omega arith, refl, refl, (refl, refl))
      (refl, tt)
      (record {
        head_nonnull = omega arith;
        head_unlisted = refl;
        head_empty = refl;
        next_apart = omega arith;
        next_unlisted = refl;
      })
      refl (omega arith) (omega arith)

agregar_hijos-Tiles_example :
    (d' : Dictionary) × (agregar_hijos 1 fresh ≡ done tt d')
    × Tiles d'.heap null d'.elements 64 256 (insert_after 1 2 (1 ∷ []))
    × ((d'.heap 1).chunk_size ≡ 96)
    × ((d'.heap 2).chunk_size ≡ 96)
agregar_hijos-Tiles_example =
    agregar_hijos-Tiles fresh (1 ∷ []) 1 64 256 (refl, omega arith, refl, refl, (refl, refl))
      (refl, tt)
      (record {
        head_nonnull = omega arith;
        head_unlisted = refl;
        head_empty = refl;
        next_apart = omega arith;
        next_unlisted = refl;
      })
      refl refl

-- The item that a run gives; 0 if the run fails.
abbrev item_of : Outcome Ptr → Ptr
item_of (done p d) = p
item_of null_deref = 0
item_of out_of_fuel = 0

-- The first item gets the first element.
first_item : item_of (obtener_direccion 6 40 fresh) ≡ 1
unfolding obtener_direccion
first_item = refl

-- What does not fit into the memory gets nothing.
too_big : item_of (obtener_direccion 6 200 fresh) ≡ 0
unfolding obtener_direccion
too_big = refl
