-- ===== src/Sync/Mutex/Run.antt =====
-- Calls of kernel/src/ejcineque/sync/mutex.rs on its list of wakers, one after the other, beside a
-- queue of the wakers that wait.
mod Tests
use dvida_oxide.Prelude.{
  ℕ, ◌≡◌, refl, ◌≢◌, List, [], ◌∷◌, ◌++◌, Option, none, some, All, ap, ap₂, sym, ◌∙◌, arith,
}
use dvida_oxide.Sync.{Waker}
use dvida_oxide.Sync.Mutex.{
  MutexWakerNode, Memory, Mutex, null, new, store, store_next, store_prev, enqueue, wake_tail,
}
use dvida_oxide.Sync.Mutex.Ring.{
  Apart, Distinct, IsRing, enqueue-IsRing, wake_tail-IsRing, wake_tail-empty,
}

-- A future whose node stands at `p` waits, or a guard is dropped.
pub data Call : Type 0 where
  wait : (p : ℕ) → Waker → Call
  drop_guard : Call

pub run : List Call → Mutex → List (Option Waker)
run [] mutex = []
run (wait p waker ∷ calls) mutex = run calls (enqueue p waker mutex)
run (drop_guard ∷ calls) mutex = let (woken, rest) = wake_tail mutex in woken ∷ run calls rest

-- The same with a queue; the waker that has waited longest is in front.
abbrev pub queue_run : List Call → List Waker → List (Option Waker)
queue_run [] queue = []
queue_run (wait p waker ∷ calls) queue = queue_run calls (queue ++ (waker ∷ []))
queue_run (drop_guard ∷ calls) [] = none ∷ queue_run calls []
queue_run (drop_guard ∷ calls) (waker ∷ queue) = some waker ∷ queue_run calls queue

abbrev pub nodes : List Call → List ℕ
nodes [] = []
nodes (wait p waker ∷ calls) = p ∷ nodes calls
nodes (drop_guard ∷ calls) = nodes calls

-- The nodes that wait, with their wakers, the oldest first.
abbrev Waiting : Type 0
Waiting = List (ℕ × Waker)

abbrev ring : Waiting → List ℕ
ring [] = []
ring (e ∷ es) = ring es ++ (e.0 ∷ [])

abbrev wakers : Waiting → List Waker
wakers [] = []
wakers (e ∷ es) = e.1 ∷ wakers es

abbrev Fresh : ℕ → Waiting → Type 0
Fresh p = All (λ e. e.0 ≢ p)

abbrev Holds : Memory → Waiting → Type 0
Holds memory = All (λ e. (memory e.0).waker ≡ e.1)

ring-append : (es : Waiting) (e : ℕ × Waker) → ring (es ++ (e ∷ [])) ≡ e.0 ∷ ring es
ring-append [] e = refl
ring-append (f ∷ es) e = ap (λ xs. xs ++ (f.0 ∷ [])) (ring-append es e)

wakers-append : (es : Waiting) (e : ℕ × Waker) → wakers (es ++ (e ∷ [])) ≡ wakers es ++ (e.1 ∷ [])
wakers-append [] e = refl
wakers-append (f ∷ es) e = ap (λ xs. f.1 ∷ xs) (wakers-append es e)

pub All-snoc {ℓ κ} :
    {A : Type ℓ} (P : A → Type κ) (xs : List A) (x : A) → All P xs → P x → All P (xs ++ (x ∷ []))
All-snoc P [] x h k = (k, tt)
All-snoc P (y ∷ xs) x h k = (h.0, All-snoc P xs x h.1 k)

ring-Apart : (p : ℕ) (es : Waiting) → Fresh p es → Apart p (ring es)
ring-Apart p [] h = tt
ring-Apart p (e ∷ es) h = All-snoc (λ x. x ≢ p) (ring es) e.0 (ring-Apart p es h.1) h.0

pub enqueue-waker :
    (mutex : Mutex) (p : ℕ) (waker : Waker) → ((enqueue p waker mutex).memory p).waker ≡ waker
unfolding enqueue store store_next store_prev
enqueue-waker mutex p waker = ground arith

pub enqueue-waker_other :
    (mutex : Mutex) (p q : ℕ) (waker : Waker)
    → q ≢ p
    → ((enqueue p waker mutex).memory q).waker ≡ (mutex.memory q).waker
unfolding enqueue store store_next store_prev
enqueue-waker_other mutex p q waker h = ground arith

pub wake_tail-waker :
    (mutex : Mutex) (q : ℕ) → ((wake_tail mutex).1.memory q).waker ≡ (mutex.memory q).waker
unfolding wake_tail store store_next store_prev
wake_tail-waker mutex q = ground arith

enqueue-Holds :
    (mutex : Mutex) (p : ℕ) (waker : Waker) (es : Waiting)
    → Fresh p es
    → Holds mutex.memory es
    → Holds (enqueue p waker mutex).memory es
enqueue-Holds mutex p waker [] f h = tt
enqueue-Holds mutex p waker (e ∷ es) f h =
    (enqueue-waker_other mutex p e.0 waker f.0 ∙ h.0, enqueue-Holds mutex p waker es f.1 h.1)

wake_tail-Holds :
    (mutex : Mutex) (es : Waiting) → Holds mutex.memory es → Holds (wake_tail mutex).1.memory es
wake_tail-Holds mutex [] h = tt
wake_tail-Holds mutex (e ∷ es) h = (wake_tail-waker mutex e.0 ∙ h.0, wake_tail-Holds mutex es h.1)

-- The nodes that are still to enter are in no way in the list.
abbrev AllFresh : List ℕ → Waiting → Type 0
AllFresh ps es = All (λ p. Fresh p es) ps

AllFresh-enter :
    (ps : List ℕ) (es : Waiting) (e : ℕ × Waker)
    → Apart e.0 ps
    → AllFresh ps es
    → AllFresh ps (es ++ (e ∷ []))
AllFresh-enter [] es e a f = tt
AllFresh-enter (p ∷ ps) es e a f =
    (All-snoc (λ x. x.0 ≢ p) es e f.0 (λ k. a.0 (sym k)), AllFresh-enter ps es e a.1 f.1)

AllFresh-tail : (ps : List ℕ) (e : ℕ × Waker) (es : Waiting) → AllFresh ps (e ∷ es) → AllFresh ps es
AllFresh-tail [] e es f = tt
AllFresh-tail (p ∷ ps) e es f = (f.0.1, AllFresh-tail ps e es f.1)

run-eq :
    (calls : List Call) (mutex : Mutex) (es : Waiting)
    → Distinct (nodes calls)
    → Apart null (nodes calls)
    → AllFresh (nodes calls) es
    → IsRing mutex (ring es)
    → Holds mutex.memory es
    → run calls mutex ≡ queue_run calls (wakers es)
unfolding run
run-eq [] mutex es d n f r h = refl
run-eq (wait p waker ∷ calls) mutex es d n f r h =
    let e : ℕ × Waker = (p, waker) in
    run-eq calls (enqueue p waker mutex) (es ++ (e ∷ [])) d.1 n.1
      (AllFresh-enter (nodes calls) es e d.0 f.1)
      (rw (ring-append es e) (enqueue-IsRing mutex (ring es) p waker n.0 (ring-Apart p es f.0) r))
      (All-snoc (λ x. ((enqueue p waker mutex).memory x.0).waker ≡ x.1) es e
        (enqueue-Holds mutex p waker es f.0 h) (enqueue-waker mutex p waker))
    ∙ ap (queue_run calls) (wakers-append es e)
run-eq (drop_guard ∷ calls) mutex [] d n f r h =
    rw (wake_tail-empty mutex r) (ap (λ t. none ∷ t) (run-eq calls mutex [] d n f r h))
run-eq (drop_guard ∷ calls) mutex (e ∷ es) d n f r h =
    let (w, r') = wake_tail-IsRing mutex (ring es) e.0 r in
    ap₂ (λ a b. a ∷ b) (w ∙ ap some h.0)
      (run-eq calls (wake_tail mutex).1 es d n (AllFresh-tail (nodes calls) e es f) r'
        (wake_tail-Holds mutex es h.1))

-- Over any sequence of calls on a new mutex in which each node enters once, the dropped guards wake
-- the tasks in the order in which they came to wait, each once, and none while none waits.
pub run-in_order :
    (calls : List Call) (memory : Memory)
    → Distinct (nodes calls)
    → Apart null (nodes calls)
    → run calls (new memory) ≡ queue_run calls []
unfolding new
run-in_order calls memory d n =
    run-eq calls (new memory) [] d n (none_listed (nodes calls)) (refl, refl) tt
  where
    none_listed : (ps : List ℕ) → AllFresh ps []
    none_listed [] = tt
    none_listed (p ∷ ps) = (tt, none_listed ps)
