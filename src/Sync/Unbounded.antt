-- ===== src/Sync/Unbounded.antt =====
-- kernel/src/ejcineque/sync/mpsc/unbounded.rs: the unbounded channel. Its lock is held through each
-- call, so a call is one step.
pub mod Runs
mod Tests
use package.dvida_oxide.Prelude.{
  ℕ, ◌+◌, ◌%◌, ◌^◌, Option, none, some, List, [], ◌∷◌, ◌++◌, ◌==◌, if◌then◌else◌,
}
use package.dvida_oxide.Sync.{Waker, wrapping_sub, fetch_add}

pub record UnboundedChannel {ℓ} (A : Type ℓ) : Type ℓ where
  pub buffer : List A
  pub rx_wakers : List Waker
  pub sender_count : ℕ

pub data PollResult {ℓ} (A : Type ℓ) : Type ℓ where
  ready : Option A → PollResult A
  pending : PollResult A

module _ {ℓ} {A : Type ℓ} where
  pub unbounded_channel : UnboundedChannel A
  unbounded_channel = record { buffer = []; rx_wakers = []; sender_count = 1 }

  pub clone : UnboundedChannel A → UnboundedChannel A
  clone ch = record ch { sender_count = fetch_add ch.sender_count }

  pub drop_sender : UnboundedChannel A → UnboundedChannel A
  drop_sender ch = record ch { sender_count = wrapping_sub ch.sender_count 1 }

  -- With the wakers that are woken.
  pub send : A → UnboundedChannel A → List Waker × UnboundedChannel A
  send msg ch =
      let ch' = record ch { buffer = ch.buffer ++ (msg ∷ []) } in
      elim ch.rx_wakers [
        | [] ↦ ([], ch')
        | waker ∷ rest ↦ (waker ∷ [], record ch' { rx_wakers = rest })
      ]

  -- `pop_front` of the buffer.
  pub try_recv : UnboundedChannel A → Option A × UnboundedChannel A
  try_recv ch = elim ch.buffer [
    | [] ↦ (none, ch)
    | msg ∷ rest ↦ (some msg, record ch { buffer = rest })
  ]

  pub poll : Waker → UnboundedChannel A → PollResult A × UnboundedChannel A
  unfolding try_recv
  poll waker ch =
      let (front, ch') = try_recv ch in
      let waiting = record ch { rx_wakers = ch.rx_wakers ++ (waker ∷ []) } in
      elim front [
        | some msg ↦ (ready (some msg), ch')
        | none ↦ if ch.sender_count == 0 then (ready none, ch) else (pending, waiting)
      ]
