-- ===== src/Executor/Futures.antt =====
-- kernel/src/ejcineque/time/mod.rs and futures: the future that waits for ticks of the timer, and the
-- races of futures.
use dvida_oxide.Prelude.{
  ℕ, zero, suc, ◌+◌, ◌-◌, ◌^◌, ◌<◌, ◌≡◌, refl, ◌==◌, ne→==, if◌then◌else◌, Option, none, some, List,
  false, [], ◌∷◌, ◌++◌, replicate, arith,
}
use dvida_oxide.Prelude.Results.{◌>>=◌}
use dvida_oxide.Sync.{Waker}
use dvida_oxide.Executor.{Poll, ready, pending}

pub record WaitFuture : Type 0 where
  pub tick_count : ℕ

abbrev u32_max : ℕ
u32_max = 2 ^ 32 - 1

-- The additions and subtractions of an `u32` panic out of its range.
pub wait_int : ℕ → Option WaitFuture
wait_int tick_count =
    if tick_count == u32_max then none else some (record { tick_count = tick_count + 1 })

-- With the wakers that wait for the next tick.
pub poll_wait : Waker → WaitFuture → List Waker → Option (Poll WaitFuture × List Waker)
poll_wait waker wait timer_wakers =
    let tick_count = wait.tick_count - 1 in
    if wait.tick_count == 0
    then none
    else (if tick_count == 0
        then some (ready, timer_wakers)
        else some (pending (record { tick_count = tick_count }), timer_wakers ++ (waker ∷ [])))

-- The timer's interrupt wakes all of them, and leaves none.
pub drain_wakers : List Waker → List Waker × List Waker
drain_wakers timer_wakers = (timer_wakers, [])

-- Polls of one task, each after a tick, with the wakers that the ticks wake: `none` if one panics, or if
-- the future is not ready after them.
pub await_wait : ℕ → Waker → WaitFuture → List Waker → Option (List Waker)
unfolding poll_wait drain_wakers
await_wait zero waker wait timer_wakers = none
await_wait (suc n) waker wait timer_wakers =
    poll_wait waker wait timer_wakers >>= λ (polled, timer_wakers).
    let (woken, left) = drain_wakers timer_wakers in
    elim polled [
      | ready ↦ some woken
      | pending wait' ↦ await_wait n waker wait' left >>= λ rest. some (woken ++ rest)
    ]

wait-pending :
    (n : ℕ) (waker : Waker)
    → await_wait (suc n) waker (record { tick_count = n + 1 }) [] ≡ some (replicate n waker)
unfolding await_wait poll_wait drain_wakers
wait-pending zero waker = refl
wait-pending (suc n) waker =
    let e : (suc n + 1 == 0) ≡ false = ground arith in
    let e' : (suc n + 1 - 1 == 0) ≡ false = ground arith in
    let k : suc n + 1 - 1 ≡ n + 1 = omega arith in
    rw (e, e') (rw k (rw (wait-pending n waker) refl))

-- A wait of `n` ticks ends: it is pending for `n` polls, at each of which the task's waker is left for
-- the next tick, and ready at the one after them, with no waker left.
pub wait-ends :
    (n : ℕ) (waker : Waker)
    → n < u32_max
    → (wait_int n >>= λ wait. await_wait (suc n) waker wait []) ≡ some (replicate n waker)
unfolding wait_int
wait-ends n waker h = rw (ne→== n u32_max (λ e. omega arith)) (wait-pending n waker)
