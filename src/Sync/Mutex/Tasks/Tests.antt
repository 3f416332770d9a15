-- ===== src/Sync/Mutex/Tasks/Tests.antt =====
-- A run of four tasks: 0 holds the mutex while 1 and 3 come to wait, drops its guard and wakes 1; but
-- 2 takes the mutex first, and 1 misses it once more.
use dvida_oxide.Prelude.{ℕ, ◌≡◌, refl, ◌≢◌, inl, inr, [], ◌∷◌, arith}
use dvida_oxide.Sync.Mutex.{
  Memory, new, try_lock, register, enqueue, unlock, wake_tail, store, store_next, store_prev,
}
use dvida_oxide.Sync.Mutex.Tasks.{holding, System, Step, start, Reach}
use dvida_oxide.Sync.Mutex.Tasks.Exclusion.{mutual_exclusion}
use dvida_oxide.Sync.Mutex.Tasks.Starvation.{IsWaiting, starves}

abbrev no_nodes : Memory
no_nodes p = record { next = 0; prev = 0; waker = 0 }

reached : (s : System) × Reach (start no_nodes) s
unfolding new try_lock register enqueue unlock wake_tail store store_next store_prev
reached = (
  _,
  Reach.later
      (Reach.later
        (Reach.later
          (Reach.later
            (Reach.later
              (Reach.later
                (Reach.later
                  (Reach.later (Reach.later Reach.here (Step.acquire 0 (inl refl) refl))
                    (Step.miss 1 (inl refl) refl))
                  (Step.enter 1 refl))
                (Step.miss 3 (inl refl) refl))
              (Step.enter 3 refl))
            (Step.release 0 refl))
          (Step.wake 0 refl))
        (Step.acquire 2 (inl refl) refl))
      (Step.miss 1 (inr (refl, refl)) refl),
)

mutual_exclusion_example : ◌≡◌ {A = ℕ} 2 2
unfolding reached
mutual_exclusion_example = mutual_exclusion no_nodes reached.1 2 2 refl refl

reached-IsWaiting : IsWaiting reached.0 (4 ∷ [])
unfolding reached new try_lock register enqueue unlock wake_tail store store_next store_prev
reached-IsWaiting = record {
  listed = (refl, refl, (refl, refl), (tt, tt), (omega arith, tt));
  owned = (refl, tt);
  unlisted = λ j h. (λ e. ground arith, tt);
}

-- Task 2 drops its guard and wakes 3, and 1 is still without the mutex.
dropped : (t : System) × Reach reached.0 t
unfolding reached new try_lock register enqueue unlock wake_tail store store_next store_prev
dropped = (_, Reach.later (Reach.later Reach.here (Step.release 2 refl)) (Step.wake 2 refl))

starves_example : dropped.0.pc 1 ≢ holding
unfolding reached
starves_example = starves (4 ∷ []) reached-IsWaiting 1 refl refl refl (omega arith, tt) dropped.1
