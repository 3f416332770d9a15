-- ===== src/Executor/Tests.antt =====
-- Two processors, the second of which is free.
use dvida_oxide.Prelude.{ℕ, zero, suc, ◌≡◌, refl, some, List, [], ◌∷◌, replicate, arith}
use dvida_oxide.Prelude.Results.{◌>>=◌}
use dvida_oxide.Executor.Futures.{wait_int, await_wait, wait-ends}
use dvida_oxide.Executor.{
  run_round, run_task, push_task, insert_task, Poll, ready, pending, TaskWaker, ExecutorContext,
  no_tasks, Spawner,
}
use dvida_oxide.Executor.Fairness.{Event, round, woken, pushed}

-- A future that is done at its last poll.
abbrev count_down : ℕ → TaskWaker → Poll ℕ
count_down zero waker = ready
count_down (suc n) waker = pending n

abbrev busy : ExecutorContext ℕ
busy = record no_tasks { tasks = 4 ∷ 5 ∷ [] }

abbrev spawner : Spawner ℕ
spawner = record { counter = 6; contexts = (0, busy) ∷ (1, no_tasks) ∷ [] }

-- Between the two locks a waker comes, and a round that takes the number of that waker's task.
abbrev early : List (Event ℕ)
early = woken (record { id = 9 }) ∷ []

abbrev gap : List (Event ℕ)
gap = woken (record { id = 9 }) ∷ round ∷ []

abbrev later : List (Event ℕ)
later = pushed 7 ∷ round ∷ []

-- `run` on another processor takes the number of a new task before `spawn` has put the task into the
-- map: the task stays in the map and is not in the queue.
lost_task : ExecutorContext ℕ
unfolding run_round run_task push_task insert_task
lost_task =
    insert_task (record { id = 6; queue_id = 1; future = 3 })
      (run_round count_down (push_task 6 no_tasks)).1

lost_task_unqueued :
    (lost_task.tasks ≡ [])
    × (lost_task.tasks_map 6 ≡ some (record { id = 6; queue_id = 1; future = 3 }))
unfolding lost_task insert_task run_round run_task push_task
lost_task_unqueued = (refl, refl)

wait-ends_example : (wait_int 3 >>= λ wait. await_wait 4 7 wait []) ≡ some (replicate 3 7)
wait-ends_example = wait-ends 3 7 (omega arith)
