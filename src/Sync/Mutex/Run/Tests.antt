-- ===== src/Sync/Mutex/Run/Tests.antt =====
-- Three tasks wait, two before a guard is dropped and one after it.
use dvida_oxide.Prelude.{◌≡◌, refl, none, some, List, [], ◌∷◌, arith}
use dvida_oxide.Sync.Mutex.{Memory, new, enqueue, wake_tail, store, store_next, store_prev}
use dvida_oxide.Sync.Mutex.Run.{Call, wait, drop_guard, run, queue_run, run-in_order}

abbrev no_nodes : Memory
no_nodes p = record { next = 0; prev = 0; waker = 0 }

abbrev calls : List Call
calls = wait 8 1 ∷ wait 16 2 ∷ drop_guard ∷ wait 24 3 ∷ drop_guard ∷ drop_guard ∷ drop_guard ∷ []

run_woken : run calls (new no_nodes) ≡ some 1 ∷ some 2 ∷ some 3 ∷ none ∷ []
unfolding run new enqueue wake_tail store store_next store_prev
run_woken = refl

run-in_order_example : run calls (new no_nodes) ≡ queue_run calls []
run-in_order_example =
    run-in_order calls no_nodes ((omega arith, (omega arith, tt)), ((omega arith, tt), (tt, tt)))
      (omega arith, (omega arith, (omega arith, tt)))
