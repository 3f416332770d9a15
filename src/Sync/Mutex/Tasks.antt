-- ===== src/Sync/Mutex/Tasks.antt =====
-- Tasks that share a mutex of kernel/src/ejcineque/sync/mutex.rs, in any order of their atomic steps:
-- the compare-exchange, the store that unlocks, and each use of the list of wakers under its lock.
pub mod Exclusion
pub mod Starvation
mod Tests
use dvida_oxide.Prelude.{
  ℕ, ◌+◌, ◌≡◌, ◌⊎◌, Bool, true, false, Option, none, some, if◌then◌else◌, ◌==◌,
}
use dvida_oxide.Sync.{Waker}
use dvida_oxide.Sync.Mutex.{Memory, MutexState, Mutex, new, try_lock, register, unlock, wake_tail}

-- Where a task stands.
pub data Pc : Type 0 where
  idle : Pc  -- before the first poll
  missed : Pc  -- in `poll`, after `try_lock` has failed
  pending : Pc
  holding : Pc
  leaving : Pc  -- in the guard's `drop`, after the store
  finished : Pc

-- `queued i` says that the future of task `i` has its node, `woken i` that it will be polled again.
pub record System : Type 0 where
  pub mutex : Mutex
  pub pc : ℕ → Pc
  pub queued : ℕ → Bool
  pub woken : ℕ → Bool

abbrev pub update {ℓ} : {A : Type ℓ} → (ℕ → A) → ℕ → A → ℕ → A
update f i a j = if j == i then a else f j

abbrev pub mark : Option Waker → (ℕ → Bool) → ℕ → Bool
mark none woken = woken
mark (some waker) woken = update woken waker true

-- The address of the node of task `i`.
abbrev pub node : ℕ → ℕ
node i = i + 1

-- The executor polls a new task, and one that was woken.
abbrev pub MayPoll : System → ℕ → Type 0
MayPoll s i = (s.pc i ≡ idle) ⊎ ((s.pc i ≡ pending) × (s.woken i ≡ true))

pub data Step (s : System) : System → Type 0 where
  acquire :
      (i : ℕ)
      → MayPoll s i
      → (try_lock s.mutex).0 ≡ true
      → Step s (record s {
        mutex = (try_lock s.mutex).1;
        pc = update s.pc i holding;
        woken = update s.woken i false;
      })
  miss :
      (i : ℕ)
      → MayPoll s i
      → (try_lock s.mutex).0 ≡ false
      → Step s (record s { pc = update s.pc i missed; woken = update s.woken i false })
  enter :
      (i : ℕ)
      → s.pc i ≡ missed
      → Step s (record s {
        mutex = register (node i) i (s.queued i) s.mutex;
        pc = update s.pc i pending;
        queued = update s.queued i true;
      })
  release :
      (i : ℕ)
      → s.pc i ≡ holding
      → Step s (record s { mutex = unlock s.mutex; pc = update s.pc i leaving })
  wake :
      (i : ℕ)
      → s.pc i ≡ leaving
      → Step s (record s {
        mutex = (wake_tail s.mutex).1;
        pc = update s.pc i finished;
        woken = mark (wake_tail s.mutex).0 s.woken;
      })

abbrev pub start : Memory → System
start memory = record {
  mutex = new memory;
  pc = λ _. idle;
  queued = λ _. false;
  woken = λ _. false;
}

pub data Reach (s : System) : System → Type 0 where
  here : Reach s s
  later : {t u : System} → Reach s t → Step t u → Reach s u
