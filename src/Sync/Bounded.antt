-- ===== src/Sync/Bounded.antt =====
-- kernel/src/ejcineque/sync/mpsc/bounded.rs: the bounded channel, two rings of slots, one for the
-- messages and one for the wakers of receivers. Each call runs here without another call between
-- its atomic steps; a compare-exchange then succeeds just if the state is the one expected. A loop
-- has fuel and returns `none` only if it runs out.
pub mod Slots
pub mod Queue
pub mod Wakers
pub mod Polling
mod Tests
use package.dvida_oxide.Prelude.{
  ℕ, zero, suc, ◌+◌, ◌-◌, ◌%◌, Bool, true, false, ◌&&◌, Option, none, some, List, [], ◌∷◌, ◌++◌,
  length, get_or, set, replicate, leb, ◌==◌, if◌then◌else◌,
}
use package.dvida_oxide.Prelude.Results.{◌>>=◌}
use package.dvida_oxide.Sync.{Waker, wrapping_sub, fetch_add}

-- The state: 0 empty, 1 writing, 2 ready, 3 reading.
pub record Slot {ℓ} (A : Type ℓ) : Type ℓ where
  pub value : Option A
  pub state : ℕ

abbrev pub empty_slot {ℓ} : {A : Type ℓ} → Slot A
empty_slot = record { value = none; state = 0 }

-- `write`, then the state 2.
abbrev pub ready {ℓ} : {A : Type ℓ} → A → Slot A
ready a = record { value = some a; state = 2 }

-- `assume_init_read` leaves the bytes where they are; then the state is 0.
abbrev pub taken {ℓ} : {A : Type ℓ} → Slot A → Slot A
taken slot = record slot { state = 0 }

pub record Channel {ℓ} (A : Type ℓ) : Type ℓ where
  pub buffer : List (Slot A)
  pub wakers : List (Slot Waker)
  pub write_pos : ℕ
  pub read_pos : ℕ
  pub waker_write_pos : ℕ
  pub waker_read_pos : ℕ
  pub sender_count : ℕ
  pub closed : Bool

pub data Sent {ℓ} (A : Type ℓ) : Type ℓ where
  ok : Sent A
  err : A → Sent A

pub data Poll {ℓ} (A : Type ℓ) : Type ℓ where
  ready_with : Option A → Poll A
  pending : Poll A

module _ {ℓ} {A : Type ℓ} (capacity : ℕ) where
  pub new : Channel A
  new = record {
    buffer = replicate capacity empty_slot;
    wakers = replicate capacity empty_slot;
    write_pos = 0;
    read_pos = 0;
    waker_write_pos = 0;
    waker_read_pos = 0;
    sender_count = 1;
    closed = false;
  }

  wake_loop : ℕ → Channel A → Option (Channel A × List Waker)
  wake_loop zero ch = none
  wake_loop (suc fuel) ch =
      let at = ch.waker_read_pos % capacity in
      let slot = get_or ch.wakers at empty_slot in
      let rest = wake_loop fuel (record ch { waker_read_pos = fetch_add ch.waker_read_pos }) in
      let ch' = record ch {
        wakers = set ch.wakers at (taken slot);
        waker_read_pos = fetch_add ch.waker_read_pos;
      } in
      let woken : List Waker = elim slot.value [ some waker ↦ waker ∷ [] | none ↦ [] ] in
      if ch.waker_read_pos == ch.waker_write_pos
      then some (ch, [])
      else (if slot.state == 2 then some (ch', woken) else rest)

  pub try_wake_receiver : Channel A → Option (Channel A × List Waker)
  unfolding wake_loop
  try_wake_receiver ch = wake_loop (wrapping_sub ch.waker_write_pos ch.waker_read_pos + 1) ch

  send_loop : ℕ → A → Channel A → Option (Sent A × Channel A × List Waker)
  send_loop zero msg ch = none
  send_loop (suc fuel) msg ch =
      let at = ch.write_pos % capacity in
      let slot = get_or ch.buffer at empty_slot in
      let rest = send_loop fuel msg (record ch { write_pos = fetch_add ch.write_pos }) in
      let ch' = record ch {
        buffer = set ch.buffer at (ready msg);
        write_pos = fetch_add ch.write_pos;
      } in
      let woken = try_wake_receiver ch' >>= (λ r. some (ok, r.0, r.1)) in
      if leb capacity (wrapping_sub ch.write_pos ch.read_pos)
      then some (err msg, ch, [])
      else (if slot.state == 0 then woken else rest)

  pub try_send : A → Channel A → Option (Sent A × Channel A × List Waker)
  unfolding send_loop
  try_send msg ch = if ch.closed then some (err msg, ch, []) else send_loop (capacity + 1) msg ch

  recv_loop : ℕ → Channel A → Option (Option A × Channel A)
  recv_loop zero ch = none
  recv_loop (suc fuel) ch =
      let at = ch.read_pos % capacity in
      let slot = get_or ch.buffer at empty_slot in
      let rest = recv_loop fuel (record ch { read_pos = fetch_add ch.read_pos }) in
      let ch' = record ch {
        buffer = set ch.buffer at (taken slot);
        read_pos = fetch_add ch.read_pos;
      } in
      if ch.read_pos == ch.write_pos
      then some (none, ch)
      else (if slot.state == 2 then some (slot.value, ch') else rest)

  pub try_recv : Channel A → Option (Option A × Channel A)
  unfolding recv_loop
  try_recv ch = recv_loop (wrapping_sub ch.write_pos ch.read_pos + 1) ch

  -- The number counts the attempts that are left.
  register_loop : ℕ → Waker → Channel A → Channel A
  register_loop zero waker ch = ch
  register_loop (suc attempts) waker ch =
      let at = ch.waker_write_pos % capacity in
      let slot = get_or ch.wakers at empty_slot in
      let further = record ch { waker_write_pos = fetch_add ch.waker_write_pos } in
      let rest = register_loop attempts waker further in
      if slot.state == 0 then record further { wakers = set ch.wakers at (ready waker) } else rest

  pub register_waker : Waker → Channel A → Channel A
  unfolding register_loop
  register_waker waker ch = register_loop capacity waker ch

pub is_closed {ℓ} : {A : Type ℓ} → Channel A → Bool
is_closed ch = ch.closed && ch.sender_count == 0

pub clone_sender {ℓ} : {A : Type ℓ} → Channel A → Channel A
clone_sender ch = record ch { sender_count = fetch_add ch.sender_count }

module _ {ℓ} {A : Type ℓ} (capacity : ℕ) where
  -- The loop of the last sender's drop, which wakes every receiver.
  wake_all : ℕ → Channel A → Option (Channel A × List Waker)
  wake_all zero ch = none
  wake_all (suc fuel) ch =
      let rest = try_wake_receiver capacity ch >>= λ r.
      wake_all fuel r.0 >>= λ r'. some (r'.0, r.1 ++ r'.1) in
      if ch.waker_read_pos == ch.waker_write_pos then some (ch, []) else rest

  pub drop_sender : Channel A → Option (Channel A × List Waker)
  unfolding wake_all
  drop_sender ch =
      let ch' = record ch { sender_count = wrapping_sub ch.sender_count 1 } in
      let closing = record ch' { closed = true } in
      let all = wake_all (wrapping_sub ch.waker_write_pos ch.waker_read_pos + 1) closing in
      if ch.sender_count == 1 then all else some (ch', [])

  pub poll : Waker → Channel A → Option (Poll A × Channel A)
  poll waker ch = try_recv capacity ch >>= λ first.
      let (msg, ch1) = first in
      let ch2 = register_waker capacity waker ch1 in
      let again = try_recv capacity ch2 >>= λ second.
      let (msg2, ch3) = second in
      elim msg2 [
        | some m ↦ some (ready_with (some m), ch3)
        | none ↦ if is_closed ch3 then some (ready_with none, ch3) else some (pending, ch3)
      ] in
      elim msg [
        | some m ↦ some (ready_with (some m), ch1)
        | none ↦ if is_closed ch1 then some (ready_with none, ch1) else again
      ]
