-- ===== src/Sync.antt =====
-- kernel/src/ejcineque/sync: the channels between tasks. A waker stands for the task it wakes and
-- is its number; the wakers that a call wakes are returned by it, in order.
pub mod Bounded
pub mod Unbounded
pub mod Cell
pub mod Mutex
use package.dvida_oxide.Prelude.{ℕ, ◌+◌, ◌-◌, ◌%◌, ◌^◌, leb, if◌then◌else◌}

abbrev pub Waker : Type 0
Waker = ℕ

-- `usize` arithmetic.
abbrev pub word : ℕ
word = 2 ^ 64

abbrev pub wrapping_sub : ℕ → ℕ → ℕ
wrapping_sub a b = if leb b a then a - b else a + word - b

abbrev pub fetch_add : ℕ → ℕ
fetch_add a = (a + 1) % word
