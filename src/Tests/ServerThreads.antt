-- ===== src/Tests/ServerThreads.antt =====
-- Two operations on one path and one on another, and a queue with two producers and one worker.
use la_liga_de_la_justicia.Base.{ℕ, ◌≡◌, refl, some, List, [], ◌∷◌, ◌++◌, map, arith}
use la_liga_de_la_justicia.Server.Strings.{strncmp_equal}
use la_liga_de_la_justicia.Server.ActiveFiles.{
  Files, handle, ServerFiles, initial, begin_use, begins, ends, Reach, starts, goes,
  active_file_list_find, active_file_finished_using, path_of, working_of,
}
use la_liga_de_la_justicia.Server.ActiveFiles.Safety.{held_file_listed, one_file_per_path}
use la_liga_de_la_justicia.Server.TaskQueue
use la_liga_de_la_justicia.Server.TaskQueue.{
  TaskQueue, s_queue_create, push_element, post, call_pop, end_wait, pop_element, Proceeds, posts,
  wakes, pops, pushes, calls, proceeds,
}
use la_liga_de_la_justicia.Server.TaskQueue.Order.{popped_in_order, first_is_served}

-- "/a" and "/b".
abbrev path_a : List ℕ
path_a = 47 ∷ 97 ∷ []

abbrev path_b : List ℕ
path_b = 47 ∷ 98 ∷ []

-- Two operations on "/a", then one on "/b".
abbrev busy : ServerFiles
unfolding begin_use
busy = begin_use 30 path_b (begin_use 20 path_a (begin_use 10 path_a initial))

busy-Reach : Reach busy
unfolding begin_use active_file_list_find strncmp_equal path_of
busy-Reach =
    goes
      (goes (goes starts (begins 10 path_a refl (omega arith)))
        (begins 20 path_a refl (omega arith)))
      (begins 30 path_b refl (omega arith))

held_file_listed_example :
    (path_of 10 busy.files ≡ some path_a)
    × ((files' : Files) × (active_file_finished_using 10 busy.files ≡ some files'))
unfolding begin_use active_file_list_find strncmp_equal
held_file_listed_example =
    held_file_listed busy-Reach (handle 30 path_b ∷ []) (handle 10 path_a ∷ []) (handle 10 path_a)
      refl

one_file_per_path_example : ◌≡◌ {A = ℕ} 10 10
unfolding begin_use active_file_list_find strncmp_equal
one_file_per_path_example =
    one_file_per_path busy-Reach (handle 30 path_b ∷ []) (handle 10 path_a ∷ [])
      (handle 30 path_b ∷ handle 10 path_a ∷ []) [] (handle 10 path_a) (handle 10 path_a) refl refl
      refl

-- One operation on "/a" that has ended.
abbrev idle : ServerFiles
idle = record { files = []; handles = [] }

idle-Reach : Reach idle
unfolding begin_use active_file_list_find active_file_finished_using strncmp_equal path_of
    working_of
idle-Reach =
    goes (goes starts (begins 10 path_a refl (omega arith)))
      (ends {s = begin_use 10 path_a initial} [] [] (handle 10 path_a) [] refl refl)

-- Two producers, the second of which has announced its element, and a worker that waits.
abbrev two_tasks : TaskQueue ℕ
two_tasks = call_pop (post (push_element 8 (push_element 7 s_queue_create)))

two_tasks-Reach : TaskQueue.Reach two_tasks
unfolding push_element
two_tasks-Reach =
    TaskQueue.goes
      (TaskQueue.goes (TaskQueue.goes (TaskQueue.goes TaskQueue.starts (pushes 7)) (pushes 8))
        (proceeds (posts (omega arith))))
      calls

popped_in_order_example : map some (7 ∷ 8 ∷ []) ≡ two_tasks.popped ++ map some two_tasks.queue
unfolding push_element post call_pop
popped_in_order_example = popped_in_order two_tasks-Reach

first_is_served_example :
    (t : TaskQueue ℕ) × Proceeds two_tasks t × (t.popped ≡ two_tasks.popped ++ some 7 ∷ [])
unfolding push_element post call_pop
first_is_served_example = first_is_served two_tasks-Reach 7 (8 ∷ []) refl (omega arith)
