-- ===== src/Rc/Store.antt =====
-- The state of the cache: `t_dict_element` nodes on a heap, the dictionary `t_diccionario` of
-- rc/headers/diccionario.h that points into them, and the bytes of the cached data. Commands read and
-- write it; dereferencing NULL and running out of fuel are outcomes of their own.
use la_liga_de_la_justicia.Base.{
  ℕ, ◌+◌, ◌-◌, Bool, List, [], ◌∷◌, ◌++◌, ◌&&◌, ltb, leb, ◌==◌, if◌then◌else◌, take, drop, ℤ,
}
use la_liga_de_la_justicia.Rfs.Image.{update}

abbrev pub Ptr : Type 0
Ptr = ℕ

abbrev pub null : Ptr
null = 0

pub record Element : Type 0 where
  pub prev : Ptr
  pub key : List ℕ
  pub nkey : ℕ
  pub address : ℕ  -- `data`
  pub hour : ℕ
  pub chunk_size : ℕ
  pub data_size : ℕ
  pub ocupado : Bool
  pub flags : ℕ
  pub next : Ptr

pub record Dictionary : Type 0 where
  pub heap : Ptr → Element
  pub memory : ℕ → ℕ
  pub nodes : Ptr
  pub elements : Ptr
  pub table_max_size : ℕ
  pub table_current_size : ℕ  -- an `int`, modulo 2 ^ 32
  pub slab_min_size : ℕ
  pub lru : Bool
  pub bestfit : Bool
  pub compactar_memoria : ℤ
  pub frecuencia_compactacion : ℤ

pub data Outcome (A : Type 0) : Type 0 where
  done : A → Dictionary → Outcome A
  null_deref : Outcome A
  out_of_fuel : Outcome A

abbrev pub Cmd : Type 0 → Type 0
Cmd A = Dictionary → Outcome A

abbrev pub pure : {A : Type 0} → A → Cmd A
pure = done

module _ {A B : Type 0} where
  abbrev pub and_then : Outcome A → (A → Cmd B) → Outcome B
  and_then (done a d) k = k a d
  and_then null_deref k = null_deref
  and_then out_of_fuel k = out_of_fuel

  infixl 5 ◌>>=◌ ◌>>◌
  abbrev pub ◌>>=◌ : Cmd A → (A → Cmd B) → Cmd B
  m >>= k = λ d. and_then (m d) k

  abbrev pub ◌>>◌ : Cmd A → Cmd B → Cmd B
  m >> n = m >>= λ _. n

abbrev pub self : Cmd Dictionary
self d = done d d

abbrev pub set_self : Dictionary → Cmd (Unit {0})
set_self d _ = done tt d

abbrev pub nothing : Cmd (Unit {0})
nothing = done tt

-- `*p`.
unfoldable pub load : Ptr → Cmd Element
load p d = if p == null then null_deref else done (d.heap p) d

-- `*p = e`.
unfoldable pub store : Ptr → Element → Cmd (Unit {0})
store p e d = if p == null then null_deref else done tt (record d { heap = update d.heap p e })

unfoldable pub modify : Ptr → (Element → Element) → Cmd (Unit {0})
unfolding load store
modify p f = do e ← load p; store p (f e)

-- `memcpy (to, from, n)` on key buffers.
abbrev pub copy_bytes : ℕ → List ℕ → List ℕ → List ℕ
copy_bytes n from to = take n from ++ drop n to

-- `memcpy (key, "", 1)`.
abbrev pub clear_key : List ℕ → List ℕ
clear_key key = copy_bytes 1 (0 ∷ []) key

-- `memcpy (to, from, n)` on the cached data; overlapping areas are copied as `memmove` does.
abbrev pub move_bytes : (to from n : ℕ) → (ℕ → ℕ) → ℕ → ℕ
move_bytes to from n memory a =
    if leb to a && ltb a (to + n) then memory (a - to + from) else memory a
