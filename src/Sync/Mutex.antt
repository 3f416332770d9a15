-- ===== src/Sync/Mutex.antt =====
-- kernel/src/ejcineque/sync/mutex.rs: the asynchronous mutex. Its wakers are nodes that stand in the
-- futures that wait, in a circular list; `memory` holds the nodes by their addresses.
pub mod Ring
pub mod Run
pub mod Tasks
use package.dvida_oxide.Prelude.{
  ℕ, Bool, true, false, Option, none, some, if◌then◌else◌, ◌||◌, ◌==◌,
}
use package.dvida_oxide.Sync.{Waker}

pub record MutexWakerNode : Type 0 where
  pub next : ℕ
  pub prev : ℕ
  pub waker : Waker

abbrev pub null : ℕ
null = 0

abbrev pub Memory : Type 0
Memory = ℕ → MutexWakerNode

-- One store through a pointer.
unfoldable pub store : Memory → ℕ → MutexWakerNode → Memory
store memory p node q = if q == p then node else memory q

unfoldable pub store_next : Memory → ℕ → ℕ → Memory
unfolding store
store_next memory p next = store memory p (record (memory p) { next = next })

unfoldable pub store_prev : Memory → ℕ → ℕ → Memory
unfolding store
store_prev memory p prev = store memory p (record (memory p) { prev = prev })

pub data MutexState : Type 0 where
  unlocked : MutexState
  locked : MutexState

-- The list of wakers is locked through each use, so that a use is one step.
pub record Mutex : Type 0 where
  pub state : MutexState
  pub wakers_list_head : ℕ
  pub wakers_list_tail : ℕ
  pub memory : Memory

pub new : Memory → Mutex
new memory = record {
  state = unlocked;
  wakers_list_head = null;
  wakers_list_tail = null;
  memory = memory;
}

-- The compare-exchange, and whether it gives a guard.
pub try_lock : Mutex → Bool × Mutex
try_lock mutex = elim mutex.state [
  | unlocked ↦ (true, record mutex { state = locked })
  | locked ↦ (false, mutex)
]

-- The node of the future at `p` enters the list.
pub enqueue : ℕ → Waker → Mutex → Mutex
enqueue p waker mutex =
    let head = mutex.wakers_list_head in
    let tail = mutex.wakers_list_tail in
    let memory = mutex.memory in
    if (head == null) || (tail == null)
    then record mutex {
      wakers_list_head = p;
      wakers_list_tail = p;
      memory = store memory p (record { next = p; prev = p; waker = waker });
    }
    else record mutex {
      wakers_list_head = p;
      memory =
          store_next
            (store_prev (store memory p (record { next = head; prev = tail; waker = waker })) head
              p)
            tail p;
    }

-- The part of `poll` after `try_lock` has failed; `queued` says that the future has its node.
pub register : ℕ → Waker → Bool → Mutex → Mutex
register p waker queued mutex = if queued then mutex else enqueue p waker mutex

-- The first part of the guard's `drop`.
pub unlock : Mutex → Mutex
unlock mutex = record mutex { state = unlocked }

-- The second part: it takes the node at the tail out, and says whom it wakes.
pub wake_tail : Mutex → Option Waker × Mutex
wake_tail mutex =
    let head = mutex.wakers_list_head in
    let tail = mutex.wakers_list_tail in
    let memory = mutex.memory in
    let before = (memory tail).prev in
    let rest : Mutex =
      if before == tail
      then record mutex { wakers_list_head = null; wakers_list_tail = null }
      else record mutex {
        wakers_list_tail = before;
        memory = store_prev (store_next memory before head) head before;
      } in
    if (head == null) || (tail == null) then (none, mutex) else (some (memory tail).waker, rest)
