-- ===== src/Server/TaskQueue.antt =====
-- The queue between the threads, `s_queue_t` of rfs/source_RFS/server_threading.c, as a step relation. The
-- steps are the calls that other threads can come between: `queue_push` and `queue_pop`, each under the
-- lock `access`, `sem_post` and `sem_wait` on `available_elements`. By their documentation `queue_push` adds at
-- the end, `queue_pop` takes the first element and is NULL on an empty queue, and `sem_wait` waits for a
-- positive count and takes one off it.
pub mod Order
use la_liga_de_la_justicia.Base.{
  ℕ, zero, suc, ◌+◌, ◌-◌, ◌<◌, ◌≡◌, Option, none, some, List, [], ◌∷◌, ◌++◌,
}

-- `s_queue_t`; the numbers of producers between the two calls of `s_queue_push`, of workers in `sem_wait` and
-- of workers behind it; and what was pushed and popped so far.
pub record TaskQueue (T : Type 0) : Type 0 where
  pub queue : List T
  pub available_elements : ℕ
  pub posting : ℕ
  pub waiting : ℕ
  pub taking : ℕ
  pub pushed : List T
  pub popped : List (Option T)

module _ {T : Type 0} where
  abbrev pub s_queue_create : TaskQueue T
  s_queue_create = record {
    queue = [];
    available_elements = 0;
    posting = 0;
    waiting = 0;
    taking = 0;
    pushed = [];
    popped = [];
  }

  -- `s_queue_push`: the element first, the semaphore behind it.
  unfoldable pub push_element : T → TaskQueue T → TaskQueue T
  push_element x s = record s {
    queue = s.queue ++ x ∷ [];
    posting = s.posting + 1;
    pushed = s.pushed ++ x ∷ [];
  }

  unfoldable pub post : TaskQueue T → TaskQueue T
  post s = record s { available_elements = s.available_elements + 1; posting = s.posting - 1 }

  -- `s_queue_pop`: the call, the end of `sem_wait`, and the element.
  unfoldable pub call_pop : TaskQueue T → TaskQueue T
  call_pop s = record s { waiting = s.waiting + 1 }

  unfoldable pub end_wait : TaskQueue T → TaskQueue T
  end_wait s = record s {
    available_elements = s.available_elements - 1;
    waiting = s.waiting - 1;
    taking = s.taking + 1;
  }

  abbrev queue_pop : List T → Option T × List T
  queue_pop [] = (none, [])
  queue_pop (x ∷ q) = (some x, q)

  unfoldable pub pop_element : TaskQueue T → TaskQueue T
  pop_element s =
      let (x, q) = queue_pop s.queue in
      record s { queue = q; taking = s.taking - 1; popped = s.popped ++ x ∷ [] }

  -- The steps by which a call that has begun goes on.
  pub data Proceed : TaskQueue T → TaskQueue T → Type 0 where
    posts : {s : TaskQueue T} → 0 < s.posting → Proceed s (post s)
    wakes : {s : TaskQueue T} → 0 < s.waiting → 0 < s.available_elements → Proceed s (end_wait s)
    pops : {s : TaskQueue T} → 0 < s.taking → Proceed s (pop_element s)

  pub data Step : TaskQueue T → TaskQueue T → Type 0 where
    pushes : {s : TaskQueue T} (x : T) → Step s (push_element x s)
    calls : {s : TaskQueue T} → Step s (call_pop s)
    proceeds : {s t : TaskQueue T} → Proceed s t → Step s t

  pub data Reach : TaskQueue T → Type 0 where
    starts : Reach s_queue_create
    goes : {s t : TaskQueue T} → Reach s → Step s t → Reach t

  -- Calls that have begun go on, and no new one begins.
  pub data Proceeds : TaskQueue T → TaskQueue T → Type 0 where
    stays : {s : TaskQueue T} → Proceeds s s
    then_on : {s t u : TaskQueue T} → Proceed s t → Proceeds t u → Proceeds s u
