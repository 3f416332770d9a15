-- ===== src/Sync/Mutex/Tasks/Exclusion.antt =====
-- Two tasks never hold the mutex together.
use dvida_oxide.Prelude.{ℕ, ◌≡◌, ◌∙◌, ◌≢◌, Bool, true, arith}
use dvida_oxide.Sync.{Waker}
use dvida_oxide.Sync.Mutex.{Memory, unlocked, locked, Mutex, try_lock, register, enqueue, wake_tail}
use dvida_oxide.Sync.Mutex.Tasks.{
  Pc, missed, pending, holding, leaving, finished, System, update, node, Step, start, Reach,
}

-- A task that holds the mutex has locked it, and is alone.
record IsExclusive (s : System) : Type 0 where
  taken : (i : ℕ) → s.pc i ≡ holding → s.mutex.state ≡ locked
  alone : (i j : ℕ) → s.pc i ≡ holding → s.pc j ≡ holding → i ≡ j

try_lock-unlocked : (m : Mutex) → (try_lock m).0 ≡ true → m.state ≡ unlocked
unfolding try_lock
try_lock-unlocked m h = ground arith

try_lock-state : (m : Mutex) → (try_lock m).1.state ≡ locked
unfolding try_lock
try_lock-state m = ground arith

register-state :
    (p : ℕ) (waker : Waker) (queued : Bool) (m : Mutex)
    → (register p waker queued m).state ≡ m.state
unfolding register enqueue
register-state p waker queued m = ground arith

wake_tail-state : (m : Mutex) → (wake_tail m).1.state ≡ m.state
unfolding wake_tail
wake_tail-state m = ground arith

unlocked≢locked : unlocked ≢ locked
unlocked≢locked e = cc e

-- A step after which its task does not hold the mutex.
still : (pc : ℕ → Pc) (i j : ℕ) (p : Pc) → p ≢ holding → update pc i p j ≡ holding → pc j ≡ holding
still pc i j p h e = ground arith

still_alone :
    {s : System} (i : ℕ) (p : Pc)
    → p ≢ holding
    → IsExclusive s
    → (j k : ℕ) → update s.pc i p j ≡ holding
    → update s.pc i p k ≡ holding
    → j ≡ k
still_alone {s} i p h v j k hj hk = v.alone j k (still s.pc i j p h hj) (still s.pc i k p h hk)

Step-IsExclusive : {s t : System} → Step s t → IsExclusive s → IsExclusive t
Step-IsExclusive {s} (Step.acquire i p e) v = record {
  taken = λ j h. try_lock-state s.mutex;
  alone = λ j k hj hk. ground (arith, v.taken j, v.taken k, try_lock-unlocked s.mutex e);
}
Step-IsExclusive {s} (Step.miss i p e) v = record {
  taken = λ j h. v.taken j (still s.pc i j missed (λ k. cc k) h);
  alone = still_alone i missed (λ k. cc k) v;
}
Step-IsExclusive {s} (Step.enter i e) v = record {
  taken = λ j h.
      register-state (node i) i (s.queued i) s.mutex
      ∙ v.taken j (still s.pc i j pending (λ k. cc k) h);
  alone = still_alone i pending (λ k. cc k) v;
}
Step-IsExclusive {s} (Step.release i e) v = record {
  taken = λ j h. ground (arith, v.alone i j e (still s.pc i j leaving (λ k. cc k) h));
  alone = still_alone i leaving (λ k. cc k) v;
}
Step-IsExclusive {s} (Step.wake i e) v = record {
  taken = λ j h. wake_tail-state s.mutex ∙ v.taken j (still s.pc i j finished (λ k. cc k) h);
  alone = still_alone i finished (λ k. cc k) v;
}

Reach-IsExclusive : {s t : System} → Reach s t → IsExclusive s → IsExclusive t
Reach-IsExclusive Reach.here v = v
Reach-IsExclusive (Reach.later r st) v = Step-IsExclusive st (Reach-IsExclusive r v)

start-IsExclusive : (memory : Memory) → IsExclusive (start memory)
start-IsExclusive memory = record { taken = λ i h. cc h; alone = λ i j h k. cc h }

-- However the tasks are scheduled, two of them never hold the mutex together.
pub mutual_exclusion :
    (memory : Memory) {s : System}
    → Reach (start memory) s
    → (i j : ℕ) → s.pc i ≡ holding
    → s.pc j ≡ holding
    → i ≡ j
mutual_exclusion memory r = (Reach-IsExclusive r (start-IsExclusive memory)).alone
