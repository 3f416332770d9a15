-- ===== src/Sync/Bounded/Tests.antt =====
-- Runs of the bounded channel, and its theorems at concrete inputs.
use dvida_oxide.Prelude.{ℕ, ◌≡◌, refl, some, true, false, [], ◌∷◌, arith}
use dvida_oxide.Sync.Bounded.{
  Channel, empty_slot, ready, ok, try_send, try_wake_receiver, register_waker, drop_sender,
}
use dvida_oxide.Sync.Bounded.Slots.{new-Represents, put-Represents}
use dvida_oxide.Sync.Bounded.Queue.{
  Spec, Refines, spec_send, spec_recv, SendAgrees, RecvAgrees, try_send-SendAgrees,
  try_recv-RecvAgrees,
}
use dvida_oxide.Sync.Bounded.Wakers.{
  spec_drop, DropAgrees, register_waker-Refines, register_waker-full, drop_sender-DropAgrees,
}
use dvida_oxide.Sync.Bounded.Polling.{spec_poll, PollAgrees, poll-PollAgrees}

-- A channel of capacity 2 with one message, and receivers 7 and 8 registered or not.
abbrev none_waiting : Spec ℕ
none_waiting = record { queue = 5 ∷ []; waiting = []; senders = 1; closed = false }

abbrev both_waiting : Spec ℕ
both_waiting = record { queue = 5 ∷ []; waiting = 7 ∷ 8 ∷ []; senders = 1; closed = false }

abbrev one_message : Channel ℕ
one_message = record {
  buffer = ready 5 ∷ empty_slot ∷ [];
  wakers = empty_slot ∷ empty_slot ∷ [];
  write_pos = 1;
  read_pos = 0;
  waker_write_pos = 0;
  waker_read_pos = 0;
  sender_count = 1;
  closed = false;
}

abbrev waiting : Channel ℕ
waiting = record one_message { wakers = ready 7 ∷ ready 8 ∷ []; waker_write_pos = 2 }

one_message-Refines : Refines 2 one_message none_waiting
one_message-Refines = record {
  messages =
      put-Represents 2 (empty_slot ∷ empty_slot ∷ []) 0 0 [] 5 (new-Represents 2) (omega arith)
        (omega arith);
  receivers = new-Represents 2;
  counts = refl;
  closes = refl;
}

waiting-Refines : Refines 2 waiting both_waiting
waiting-Refines = record {
  messages = one_message-Refines.messages;
  receivers =
      put-Represents 2 (ready 7 ∷ empty_slot ∷ []) 0 1 (7 ∷ []) 8
        (put-Represents 2 (empty_slot ∷ empty_slot ∷ []) 0 0 [] 7 (new-Represents 2) (omega arith)
          (omega arith))
        (omega arith) (omega arith);
  counts = refl;
  closes = refl;
}

try_send_runs :
    try_send 2 6 waiting
    ≡ some (
      ok,
      record one_message {
        buffer = ready 5 ∷ ready 6 ∷ [];
        write_pos = 2;
        wakers = record { value = some 7; state = 0 } ∷ ready 8 ∷ [];
        waker_read_pos = 1;
        waker_write_pos = 2;
      },
      7 ∷ [],
    )
unfolding try_send try_wake_receiver
try_send_runs = refl

drop_sender_runs :
    drop_sender 2 waiting
    ≡ some (
      record waiting {
        wakers = record { value = some 7; state = 0 } ∷ record { value = some 8; state = 0 } ∷ [];
        waker_read_pos = 2;
        sender_count = 0;
        closed = true;
      },
      7 ∷ 8 ∷ [],
    )
unfolding drop_sender try_wake_receiver
drop_sender_runs = refl

try_send-SendAgrees_example : SendAgrees 2 6 waiting (spec_send 2 6 both_waiting)
try_send-SendAgrees_example =
    try_send-SendAgrees 2 6 waiting both_waiting waiting-Refines (omega arith)

try_recv-RecvAgrees_example : RecvAgrees 2 one_message (spec_recv none_waiting)
try_recv-RecvAgrees_example = try_recv-RecvAgrees 2 one_message none_waiting one_message-Refines

register_waker-Refines_example :
    Refines 2 (register_waker 2 9 one_message) (record none_waiting { waiting = 9 ∷ [] })
register_waker-Refines_example =
    register_waker-Refines 2 9 one_message none_waiting one_message-Refines (omega arith)
      (omega arith)

register_waker-full_example : register_waker 2 9 waiting ≡ record waiting { waker_write_pos = 4 }
register_waker-full_example =
    register_waker-full 2 9 waiting both_waiting waiting-Refines refl (omega arith)

drop_sender-DropAgrees_example : DropAgrees 2 waiting (spec_drop 2 both_waiting)
drop_sender-DropAgrees_example = drop_sender-DropAgrees 2 waiting both_waiting waiting-Refines

poll-PollAgrees_example : PollAgrees 2 9 one_message (spec_poll 2 9 none_waiting)
poll-PollAgrees_example =
    poll-PollAgrees 2 9 one_message none_waiting one_message-Refines (omega arith) (omega arith)
