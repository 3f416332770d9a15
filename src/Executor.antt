-- ===== src/Executor.antt =====
-- kernel/src/ejcineque/executor.rs: the tasks of one processor, and the spawner that gives each new
-- task to a processor. What a future does when it is polled is a parameter.
pub mod Balance
pub mod Fairness
pub mod Keys
pub mod Futures
mod Tests
use package.dvida_oxide.Prelude.{
  ℕ, ◌+◌, ◌-◌, ◌^◌, ◌==◌, ltb, Bool, true, false, if◌then◌else◌, Option, none, some, List, [], ◌∷◌,
  ◌++◌, length,
}
use package.dvida_oxide.Prelude.Results.{◌>>=◌}

abbrev pub TaskId : Type 0
TaskId = ℕ

pub data Poll {ℓ} (F : Type ℓ) : Type ℓ where
  ready : Poll F
  pending : F → Poll F

pub record Task {ℓ} (F : Type ℓ) : Type ℓ where
  pub id : TaskId
  pub queue_id : ℕ
  pub future : F

pub record TaskWaker : Type 0 where
  pub id : TaskId

pub record ExecutorContext {ℓ} (F : Type ℓ) : Type ℓ where
  pub tasks : List TaskId
  pub tasks_map : TaskId → Option (Task F)
  pub wakers : TaskId → Option TaskWaker

-- `BTreeMap::insert` and `remove`.
abbrev pub put {ℓ} : {A : Type ℓ} → TaskId → Option A → (TaskId → Option A) → TaskId → Option A
put id value map key = if key == id then value else map key

module _ {ℓ} {F : Type ℓ} where
  abbrev pub no_tasks : ExecutorContext F
  no_tasks = record { tasks = []; tasks_map = λ _. none; wakers = λ _. none }

  pub wake : TaskWaker → ExecutorContext F → ExecutorContext F
  wake waker ctx = record ctx { tasks = ctx.tasks ++ (waker.id ∷ []) }

  -- `entry(id).or_insert_with`
  pub waker_of : TaskId → ExecutorContext F → TaskWaker × ExecutorContext F
  waker_of id ctx = elim (ctx.wakers id) [
    | some waker ↦ (waker, ctx)
    | none ↦
        let waker : TaskWaker = record { id = id } in
        (waker, record ctx { wakers = put id (some waker) ctx.wakers })
  ]

  -- The two locks of `spawn` are taken one after the other.
  pub push_task : TaskId → ExecutorContext F → ExecutorContext F
  push_task id ctx = record ctx { tasks = ctx.tasks ++ (id ∷ []) }

  pub insert_task : Task F → ExecutorContext F → ExecutorContext F
  insert_task task ctx = record ctx { tasks_map = put task.id (some task) ctx.tasks_map }

  -- Both, with nothing in between; `Executor.Fairness` has what other processors do between them.
  pub add_task : Task F → ExecutorContext F → ExecutorContext F
  unfolding push_task insert_task
  add_task task ctx = insert_task task (push_task task.id ctx)

  pub finish : TaskId → ExecutorContext F → ExecutorContext F
  finish id ctx = record ctx {
    tasks_map = put id none ctx.tasks_map;
    wakers = put id none ctx.wakers;
  }

  module _ (poll : F → TaskWaker → Poll F) where
    -- One poll; what it changes in a future that is not done stays in the task.
    pub poll_task : TaskId → Task F → ExecutorContext F → ExecutorContext F
    unfolding waker_of finish
    poll_task id task ctx =
        let (waker, ctx1) = waker_of id ctx in
        elim (poll task.future waker) [
          | ready ↦ finish id ctx1
          | pending future ↦ record ctx1 {
            tasks_map = put id (some (record task { future = future })) ctx1.tasks_map;
          }
        ]

    -- The task that the queue names, if it is still there.
    pub run_task : TaskId → ExecutorContext F → Option TaskId × ExecutorContext F
    unfolding poll_task
    run_task id ctx = elim (ctx.tasks_map id) [
      | none ↦ (none, ctx)
      | some task ↦ (some id, poll_task id task ctx)
    ]

    -- One round of `run`, with the task that is polled; it halts while there is none.
    pub run_round : ExecutorContext F → Option TaskId × ExecutorContext F
    unfolding run_task
    run_round ctx = elim ctx.tasks [
      | [] ↦ (none, ctx)
      | id ∷ rest ↦ run_task id (record ctx { tasks = rest })
    ]

abbrev pub u64_max : ℕ
u64_max = 2 ^ 64 - 1

-- The number of a new task, and the counter after it.
pub next_id : ℕ → TaskId × ℕ
next_id counter = (counter, if counter == u64_max then 0 else counter + 1)

-- The contexts by the numbers of their processors.
abbrev pub Contexts {ℓ} : Type ℓ → Type ℓ
Contexts F = List (ℕ × ExecutorContext F)

module _ {ℓ} {F : Type ℓ} where
  -- `min_by` keeps the first of the shortest queues.
  pub min_from : ℕ → ℕ → Contexts F → ℕ
  min_from best len [] = best
  min_from best len ((cpu, ctx) ∷ contexts) =
      if ltb (length ctx.tasks) len
      then min_from cpu (length ctx.tasks) contexts
      else min_from best len contexts

  pub min_queue : Contexts F → Option ℕ
  unfolding min_from
  min_queue [] = none
  min_queue ((cpu, ctx) ∷ contexts) = some (min_from cpu (length ctx.tasks) contexts)

  pub change_context :
      ℕ → (ExecutorContext F → ExecutorContext F) → Contexts F → Option (Contexts F)
  change_context queue_id change [] = none
  change_context queue_id change ((cpu, ctx) ∷ contexts) =
      let rest = change_context queue_id change contexts in
      if cpu == queue_id
      then some ((cpu, change ctx) ∷ contexts)
      else rest >>= λ others. some ((cpu, ctx) ∷ others)

-- `BTreeMap::insert` keeps the contexts in the order of their numbers.
pub insert_context {ℓ} : {F : Type ℓ} → ℕ → ExecutorContext F → Contexts F → Contexts F
insert_context cpu ctx [] = (cpu, ctx) ∷ []
insert_context cpu ctx ((key, other) ∷ contexts) =
    let rest = insert_context cpu ctx contexts in
    if ltb cpu key
    then (cpu, ctx) ∷ (key, other) ∷ contexts
    else (if key == cpu then (key, ctx) ∷ contexts else (key, other) ∷ rest)

-- `Executor::new`, for the processors by their numbers.
pub insert_cpus {ℓ} : {F : Type ℓ} → List ℕ → Contexts F → Contexts F
unfolding insert_context
insert_cpus [] contexts = contexts
insert_cpus (cpu ∷ cpus) contexts = insert_cpus cpus (insert_context cpu no_tasks contexts)

pub record Spawner {ℓ} (F : Type ℓ) : Type ℓ where
  pub counter : ℕ
  pub contexts : Contexts F

pub new {ℓ} : {F : Type ℓ} → List ℕ → Spawner F
unfolding insert_cpus
new cpus = record { counter = 0; contexts = insert_cpus cpus [] }

-- It panics if there is no context. The call runs here with nothing in between.
pub spawn {ℓ} : {F : Type ℓ} → F → Spawner F → Option (Spawner F)
unfolding next_id min_queue change_context add_task
spawn future spawner =
    let (id, counter) = next_id spawner.counter in
    min_queue spawner.contexts >>= λ queue_id.
    change_context queue_id (add_task (record { id = id; queue_id = queue_id; future = future }))
      spawner.contexts
    >>= λ contexts. some (record { counter = counter; contexts = contexts })
