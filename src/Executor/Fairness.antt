-- ===== src/Executor/Fairness.antt =====
-- Rounds of `run` with the wake-ups and the parts of other calls of `spawn` that come between them, in any
-- order.
use dvida_oxide.Prelude.{
  ℕ, suc, ◌+◌, ◌≤◌, ◌<◌, ◌≡◌, refl, ap, ◌∙◌, ◌≢◌, ◌⊎◌, inl, inr, true, Bool-cases, ◌==◌, ==→eq,
  ==→ne, Option, none, some, List, [], ◌∷◌, ◌++◌, length, arith,
}
use dvida_oxide.Prelude.Results.{is_some}
use dvida_oxide.Executor.{
  TaskId, Poll, Task, TaskWaker, ExecutorContext, wake, waker_of, push_task, insert_task, finish,
  poll_task, run_task, run_round,
}

pub data Event {ℓ} (F : Type ℓ) : Type ℓ where
  round : Event F
  woken : TaskWaker → Event F
  pushed : TaskId → Event F
  inserted : Task F → Event F

abbrev pub rounds {ℓ} : {F : Type ℓ} → List (Event F) → ℕ
rounds [] = 0
rounds (round ∷ events) = suc (rounds events)
rounds (woken waker ∷ events) = rounds events
rounds (pushed id ∷ events) = rounds events
rounds (inserted task ∷ events) = rounds events

abbrev pub Has : TaskId → List TaskId → Type 0
Has id [] = ⊥
Has id (x ∷ xs) = (x ≡ id) ⊎ Has id xs

abbrev log : Option TaskId → List TaskId → List TaskId
log none ids = ids
log (some id) ids = id ∷ ids

module _ {ℓ} {F : Type ℓ} (poll : F → TaskWaker → Poll F) where
  -- The tasks that are polled, in order.
  pub polled : List (Event F) → ExecutorContext F → List TaskId
  polled [] ctx = []
  polled (round ∷ events) ctx = let (id, ctx1) = run_round poll ctx in log id (polled events ctx1)
  polled (woken waker ∷ events) ctx = polled events (wake waker ctx)
  polled (pushed id ∷ events) ctx = polled events (push_task id ctx)
  polled (inserted task ∷ events) ctx = polled events (insert_task task ctx)

  -- The context behind the events.
  pub after : List (Event F) → ExecutorContext F → ExecutorContext F
  after [] ctx = ctx
  after (round ∷ events) ctx = after events (run_round poll ctx).1
  after (woken waker ∷ events) ctx = after events (wake waker ctx)
  after (pushed id ∷ events) ctx = after events (push_task id ctx)
  after (inserted task ∷ events) ctx = after events (insert_task task ctx)

  run_round-cons :
      (ctx : ExecutorContext F) (id : TaskId) (rest : List TaskId)
      → ctx.tasks ≡ id ∷ rest
      → run_round poll ctx ≡ run_task poll id (record ctx { tasks = rest })
  unfolding run_round
  run_round-cons ctx id rest e = rw e refl

  run_task-tasks :
      (id : TaskId) (ctx : ExecutorContext F) → (run_task poll id ctx).1.tasks ≡ ctx.tasks
  unfolding run_task poll_task waker_of finish
  run_task-tasks id ctx = ground arith

  run_task-other :
      (id : TaskId) (ctx : ExecutorContext F) (key : TaskId)
      → key ≢ id
      → (run_task poll id ctx).1.tasks_map key ≡ ctx.tasks_map key
  unfolding run_task poll_task waker_of finish
  run_task-other id ctx key h = ground arith

  run_task-some :
      (id : TaskId) (ctx : ExecutorContext F)
      → is_some (ctx.tasks_map id) ≡ true
      → (run_task poll id ctx).0 ≡ some id
  unfolding run_task
  run_task-some id ctx h = ground arith

  log-Has : (id : TaskId) (o : Option TaskId) (ids : List TaskId) → Has id ids → Has id (log o ids)
  log-Has id none ids h = h
  log-Has id (some x) ids h = inr h

  snoc-middle :
      (before after : List TaskId) (id x : TaskId)
      → (before ++ (id ∷ after)) ++ (x ∷ []) ≡ before ++ (id ∷ (after ++ (x ∷ [])))
  snoc-middle [] after id x = refl
  snoc-middle (b ∷ before) after id x = ap (λ t. b ∷ t) (snoc-middle before after id x)

  wake-tasks :
      (waker : TaskWaker) (ctx : ExecutorContext F)
      → (wake waker ctx).tasks ≡ ctx.tasks ++ (waker.id ∷ [])
  unfolding wake
  wake-tasks waker ctx = refl

  push_task-tasks :
      (id : TaskId) (ctx : ExecutorContext F) → (push_task id ctx).tasks ≡ ctx.tasks ++ (id ∷ [])
  unfolding push_task
  push_task-tasks id ctx = refl

  insert_task-tasks :
      (task : Task F) (ctx : ExecutorContext F) → (insert_task task ctx).tasks ≡ ctx.tasks
  unfolding insert_task
  insert_task-tasks task ctx = refl

  wake-map :
      (waker : TaskWaker) (ctx : ExecutorContext F) (id : TaskId)
      → is_some (ctx.tasks_map id) ≡ true
      → is_some ((wake waker ctx).tasks_map id) ≡ true
  unfolding wake
  wake-map waker ctx id m = m

  push_task-map :
      (pushed_id : TaskId) (ctx : ExecutorContext F) (id : TaskId)
      → is_some (ctx.tasks_map id) ≡ true
      → is_some ((push_task pushed_id ctx).tasks_map id) ≡ true
  unfolding push_task
  push_task-map pushed_id ctx id m = m

  insert_task-map :
      (task : Task F) (ctx : ExecutorContext F) (id : TaskId)
      → is_some (ctx.tasks_map id) ≡ true
      → is_some ((insert_task task ctx).tasks_map id) ≡ true
  unfolding insert_task
  insert_task-map task ctx id m = ground arith

  insert_task-own :
      (task : Task F) (ctx : ExecutorContext F)
      → is_some ((insert_task task ctx).tasks_map task.id) ≡ true
  unfolding insert_task
  insert_task-own task ctx = ground arith

  -- Whatever happens in between, a task of the map that stands in the queue is polled once as many
  -- rounds have been made as there are tasks before it, and one more.
  pub polled-in_turn :
      (events : List (Event F)) (ctx : ExecutorContext F) (before : List TaskId) (id : TaskId)
      (after : List TaskId)
      → ctx.tasks ≡ before ++ (id ∷ after)
      → is_some (ctx.tasks_map id) ≡ true
      → length before < rounds events
      → Has id (polled events ctx)
  unfolding polled
  polled-in_turn [] ctx before id after q m h = absurd (omega arith)
  polled-in_turn (woken waker ∷ events) ctx before id after q m h =
      polled-in_turn events (wake waker ctx) before id (after ++ (waker.id ∷ []))
        (wake-tasks waker ctx ∙ rw q (snoc-middle before after id waker.id))
        (wake-map waker ctx id m) h
  polled-in_turn (pushed other ∷ events) ctx before id after q m h =
      polled-in_turn events (push_task other ctx) before id (after ++ (other ∷ []))
        (push_task-tasks other ctx ∙ rw q (snoc-middle before after id other))
        (push_task-map other ctx id m) h
  polled-in_turn (inserted task ∷ events) ctx before id after q m h =
      polled-in_turn events (insert_task task ctx) before id after (insert_task-tasks task ctx ∙ q)
        (insert_task-map task ctx id m) h
  polled-in_turn (round ∷ events) ctx [] id after q m h =
      rw (run_round-cons ctx id after q)
        (rw (run_task-some id (record ctx { tasks = after }) m) (inl refl))
  polled-in_turn (round ∷ events) ctx (b ∷ before) id after q m h =
      let c : ExecutorContext F = record ctx { tasks = before ++ (id ∷ after) } in
      rw (run_round-cons ctx b (before ++ (id ∷ after)) q) (elim (Bool-cases (id == b)) [
        | inl e ↦ rw (← ==→eq id b e) (rw (run_task-some id c m) (inl refl))
        | inr e ↦ log-Has id (run_task poll b c).0 _ (
            polled-in_turn events (run_task poll b c).1 before id after (run_task-tasks b c)
              (rw (run_task-other b c id (==→ne id b e)) m) (omega arith))
      ])

  -- A number in the queue is still there after as many rounds as there are numbers before it, which
  -- become fewer by one with every round.
  after-tasks :
      (events : List (Event F)) (ctx : ExecutorContext F) (before : List TaskId) (id : TaskId)
      (behind : List TaskId)
      → ctx.tasks ≡ before ++ (id ∷ behind)
      → rounds events ≤ length before
      → (before' : List TaskId) × (behind' : List TaskId) × ((after events ctx).tasks
          ≡ before' ++ (id ∷ behind'))
        × (length before' + rounds events ≡ length before)
  unfolding after
  after-tasks [] ctx before id behind q h = (before, behind, q, omega arith)
  after-tasks (woken waker ∷ events) ctx before id behind q h =
      after-tasks events (wake waker ctx) before id (behind ++ (waker.id ∷ []))
        (wake-tasks waker ctx ∙ rw q (snoc-middle before behind id waker.id)) h
  after-tasks (pushed other ∷ events) ctx before id behind q h =
      after-tasks events (push_task other ctx) before id (behind ++ (other ∷ []))
        (push_task-tasks other ctx ∙ rw q (snoc-middle before behind id other)) h
  after-tasks (inserted task ∷ events) ctx before id behind q h =
      after-tasks events (insert_task task ctx) before id behind (insert_task-tasks task ctx ∙ q) h
  after-tasks (round ∷ events) ctx [] id behind q h = absurd (omega arith)
  after-tasks (round ∷ events) ctx (b ∷ before) id behind q h =
      let c : ExecutorContext F = record ctx { tasks = before ++ (id ∷ behind) } in
      let step : (run_round poll ctx).1 ≡ (run_task poll b c).1 =
        ap (λ r. r.1) (run_round-cons ctx b (before ++ (id ∷ behind)) q) in
      let (before', behind', q', n) =
        after-tasks events (run_round poll ctx).1 before id behind
          (ap (λ x. x.tasks) step ∙ run_task-tasks b c) (omega arith) in
      (before', behind', q', omega (arith, n))

  -- Where the rounds between the two locks do not reach the new number, its task is polled in turn.
  pub insert_task-in_turn :
      (task : Task F) (ctx : ExecutorContext F) (gap later : List (Event F))
      → rounds gap ≤ length ctx.tasks
      → length ctx.tasks < rounds gap + rounds later
      → Has task.id (polled later (insert_task task (after gap (push_task task.id ctx))))
  insert_task-in_turn task ctx gap later short enough =
      let (before, behind, q, n) =
        after-tasks gap (push_task task.id ctx) ctx.tasks task.id [] (push_task-tasks task.id ctx)
          short in
      let ctx1 : ExecutorContext F = after gap (push_task task.id ctx) in
      polled-in_turn later (insert_task task ctx1) before task.id behind
        (insert_task-tasks task ctx1 ∙ q) (insert_task-own task ctx1) (omega (arith, n))
