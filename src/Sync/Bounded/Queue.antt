-- ===== src/Sync/Bounded/Queue.antt =====
-- The bounded channel as a queue of messages and a queue of waiting receivers.
use dvida_oxide.Prelude.{
  ℕ, suc, ◌+◌, ◌%◌, ◌<◌, ◌≡◌, refl, ◌∙◌, sym, ap, ap₂, subst, Bool, true, false, ◌||◌, Option, none,
  some, List, [], ◌∷◌, ◌++◌, length, take, drop, get_or, set, Bool-cases, inl, inr, leb, ◌==◌,
  if◌then◌else◌, leb→gt, ==_refl, ne→==, arith,
}
use dvida_oxide.Prelude.Results.{◌>>=◌}
use dvida_oxide.Sync.{Waker, word, fetch_add, wrapping_sub}
use dvida_oxide.Sync.Bounded.{
  Slot, empty_slot, ready, taken, Channel, Sent, ok, err, new, wake_loop, try_wake_receiver,
  send_loop, try_send, recv_loop, try_recv,
}
use dvida_oxide.Sync.Bounded.Slots.{
  Represents, new-Represents, put-Represents, next-IsFree, first-ready, take-Represents,
}

-- What a channel promises: messages in the order of their sends, receivers woken in the order in
-- which they registered.
pub record Spec {ℓ} (A : Type ℓ) : Type ℓ where
  pub queue : List A
  pub waiting : List Waker
  pub senders : ℕ
  pub closed : Bool

module _ {ℓ} {A : Type ℓ} (capacity : ℕ) where
  abbrev pub spec_send : A → Spec A → Sent A × Spec A × List Waker
  spec_send msg a =
      let sent = record a { queue = a.queue ++ (msg ∷ []); waiting = drop 1 a.waiting } in
      if a.closed || leb capacity (length a.queue)
      then (err msg, a, [])
      else (ok, sent, take 1 a.waiting)

abbrev pub spec_recv {ℓ} : {A : Type ℓ} → Spec A → Option A × Spec A
spec_recv a = elim a.queue [ [] ↦ (none, a) | x ∷ q ↦ (some x, record a { queue = q }) ]

pub record Refines {ℓ} {A : Type ℓ} (capacity : ℕ) (ch : Channel A) (a : Spec A) : Type ℓ where
  pub messages : Represents capacity ch.buffer ch.read_pos ch.write_pos a.queue
  pub receivers : Represents capacity ch.wakers ch.waker_read_pos ch.waker_write_pos a.waiting
  pub counts : ch.sender_count ≡ a.senders
  pub closes : ch.closed ≡ a.closed

-- The number of elements, by the positions.
pub in_use {ℓ} :
    {B : Type ℓ} (capacity : ℕ) (slots : List (Slot B)) (read write : ℕ) (q : List B)
    → Represents capacity slots read write q
    → wrapping_sub write read ≡ length q
in_use capacity slots read write q R = ground (arith, R.span)

differ {ℓ} :
    {B : Type ℓ} (capacity : ℕ) (slots : List (Slot B)) (read write : ℕ) (x : B) (q : List B)
    → Represents capacity slots read write (x ∷ q)
    → (read == write) ≡ false
differ capacity slots read write x q R = ne→== read write (λ e. omega (arith, R.span, e))

module _ {ℓ} {A : Type ℓ} (capacity : ℕ) where
  -- A new channel is empty.
  pub new-Refines :
      Refines {A = A} capacity
        (new capacity)
        (record { queue = []; waiting = []; senders = 1; closed = false })
  unfolding new
  new-Refines = record {
    messages = new-Represents capacity;
    receivers = new-Represents capacity;
    counts = refl;
    closes = refl;
  }

  wake_loop-none :
      (fuel : ℕ) (ch : Channel A)
      → ch.waker_read_pos ≡ ch.waker_write_pos
      → wake_loop capacity (suc fuel) ch ≡ some (ch, [])
  unfolding wake_loop
  wake_loop-none fuel ch e = rw (e, ==_refl ch.waker_write_pos) refl

  wake_loop-some :
      (fuel : ℕ) (ch : Channel A) (w : Waker)
      → (ch.waker_read_pos == ch.waker_write_pos) ≡ false
      → get_or ch.wakers (ch.waker_read_pos % capacity) empty_slot ≡ ready w
      → wake_loop capacity (suc fuel) ch
        ≡ some (
          record ch {
            wakers = set ch.wakers (ch.waker_read_pos % capacity) (taken (ready w));
            waker_read_pos = fetch_add ch.waker_read_pos;
          },
          w ∷ [],
        )
  unfolding wake_loop
  wake_loop-some fuel ch w e slot = rw (e, slot) refl

  wakes :
      (ch : Channel A) (a : Spec A) (ws : List Waker)
      → Refines capacity ch a
      → Represents capacity ch.wakers ch.waker_read_pos ch.waker_write_pos ws
      → (ch' : Channel A) × (try_wake_receiver capacity ch ≡ some (ch', take 1 ws))
        × Refines capacity ch' (record a { waiting = drop 1 ws })
  unfolding try_wake_receiver
  wakes ch a [] R W =
      let same : ch.waker_read_pos ≡ ch.waker_write_pos = omega (arith, W.span) in
      let fuel : wrapping_sub ch.waker_write_pos ch.waker_read_pos + 1 ≡ suc 0 =
        omega (arith, in_use capacity _ _ _ [] W) in
      (
        ch,
        rw fuel (wake_loop-none 0 ch same),
        record { messages = R.messages; receivers = W; counts = R.counts; closes = R.closes },
      )
  wakes ch a (w ∷ ws) R W =
      let n = length ws in
      let fuel : wrapping_sub ch.waker_write_pos ch.waker_read_pos + 1 ≡ suc (suc n) =
        omega (arith, in_use capacity _ _ _ (w ∷ ws) W) in
      let at = ch.waker_read_pos % capacity in
      (
        record ch {
          wakers = set ch.wakers at (taken (ready w));
          waker_read_pos = fetch_add ch.waker_read_pos;
        },
        rw fuel (
            wake_loop-some (suc n) ch w (differ capacity _ _ _ w ws W)
              (first-ready capacity _ _ _ w ws W)),
        record {
          messages = R.messages;
          receivers = take-Represents capacity _ _ _ w ws W;
          counts = R.counts;
          closes = R.closes;
        },
      )

  -- `try_wake_receiver` wakes the first receiver that waits, if there is one, and returns.
  pub try_wake_receiver-Refines :
      (ch : Channel A) (a : Spec A)
      → Refines capacity ch a
      → (ch' : Channel A) × (try_wake_receiver capacity ch ≡ some (ch', take 1 a.waiting))
        × Refines capacity ch' (record a { waiting = drop 1 a.waiting })
  try_wake_receiver-Refines ch a R = wakes ch a a.waiting R R.receivers

  send_loop-full :
      (fuel : ℕ) (msg : A) (ch : Channel A)
      → leb capacity (wrapping_sub ch.write_pos ch.read_pos) ≡ true
      → send_loop capacity (suc fuel) msg ch ≡ some (err msg, ch, [])
  unfolding send_loop
  send_loop-full fuel msg ch e = rw e refl

  send_loop-room :
      (fuel : ℕ) (msg : A) (ch : Channel A)
      → leb capacity (wrapping_sub ch.write_pos ch.read_pos) ≡ false
      → (get_or ch.buffer (ch.write_pos % capacity) empty_slot).state ≡ 0
      → send_loop capacity (suc fuel) msg ch ≡ (
          try_wake_receiver capacity (record ch {
            buffer = set ch.buffer (ch.write_pos % capacity) (ready msg);
            write_pos = fetch_add ch.write_pos;
          })
          >>= (λ r. some (ok, r.0, r.1)))
  unfolding send_loop
  send_loop-room fuel msg ch e free = rw (e, free) refl

  try_send-closes :
      (msg : A) (ch : Channel A) (b : Bool)
      → ch.closed ≡ b
      → try_send capacity msg ch
        ≡ (if b then some (err msg, ch, []) else send_loop capacity (suc capacity) msg ch)
  unfolding try_send
  try_send-closes msg ch b e =
      let fuel : capacity + 1 ≡ suc capacity = omega arith in
      ap₂ (λ c n. if c then some (err msg, ch, []) else send_loop capacity n msg ch) e fuel

  -- A run of `try_send` that agrees with what the queue promises.
  abbrev pub SendAgrees : A → Channel A → Sent A × Spec A × List Waker → Type ℓ
  SendAgrees msg ch s =
      (ch' : Channel A) × (try_send capacity msg ch ≡ some (s.0, ch', s.2))
      × Refines capacity ch' s.1

  refused :
      (msg : A) (a : Spec A)
      → (a.closed || leb capacity (length a.queue)) ≡ true
      → spec_send capacity msg a ≡ (err msg, a, [])
  refused msg a e = rw e refl

  accepted :
      (msg : A) (a : Spec A)
      → (a.closed || leb capacity (length a.queue)) ≡ false
      → spec_send capacity msg a ≡ (
        ok,
        record a { queue = a.queue ++ (msg ∷ []); waiting = drop 1 a.waiting },
        take 1 a.waiting,
      )
  accepted msg a e = rw e refl

  -- A send returns, refuses the message just if the channel is closed or full and changes nothing
  -- then; otherwise the message joins the queue and the first receiver that waits is woken. The
  -- write position is below its last value, from which it would wrap around.
  pub try_send-SendAgrees :
      (msg : A) (ch : Channel A) (a : Spec A)
      → Refines capacity ch a
      → ch.write_pos + 1 < word
      → SendAgrees msg ch (spec_send capacity msg a)
  try_send-SendAgrees msg ch a R small =
      let in_queue : wrapping_sub ch.write_pos ch.read_pos ≡ length a.queue =
        in_use capacity _ _ _ a.queue R.messages in
      elim (Bool-cases a.closed) [
        | inl shut ↦
            let shut_channel : ch.closed ≡ true = R.closes ∙ shut in
            subst (SendAgrees msg ch) (sym (refused msg a (ground arith)))
              (ch, try_send-closes msg ch true shut_channel, R)
        | inr unshut ↦
            let open_channel : ch.closed ≡ false = R.closes ∙ unshut in
            elim (Bool-cases (leb capacity (length a.queue))) [
              | inl full ↦ subst (SendAgrees msg ch) (sym (refused msg a (ground arith))) (
                ch,
                try_send-closes msg ch false open_channel
                    ∙ (send_loop-full capacity msg ch (ap (leb capacity) in_queue ∙ full)),
                R,
              )
              | inr room ↦
                  let ch1 : Channel A = record ch {
                    buffer = set ch.buffer (ch.write_pos % capacity) (ready msg);
                    write_pos = fetch_add ch.write_pos;
                  } in
                  let less = leb→gt capacity (length a.queue) room in
                  let R1 : Refines capacity ch1 (record a { queue = a.queue ++ (msg ∷ []) }) =
                    record {
                      messages = put-Represents capacity _ _ _ a.queue msg R.messages less small;
                      receivers = R.receivers;
                      counts = R.counts;
                      closes = R.closes;
                    } in
                  let (ch2, runs, R2) = try_wake_receiver-Refines ch1 _ R1 in
                  subst (SendAgrees msg ch) (sym (accepted msg a (ground arith))) (
                    ch2,
                    try_send-closes msg ch false open_channel
                        ∙ (send_loop-room capacity msg ch (ap (leb capacity) in_queue ∙ room)
                              (next-IsFree capacity _ _ _ a.queue R.messages less)
                            ∙ ap (λ r. r >>= λ r. some (ok, r.0, r.1)) runs),
                    R2,
                  )
            ]
      ]

  recv_loop-none :
      (fuel : ℕ) (ch : Channel A)
      → ch.read_pos ≡ ch.write_pos
      → recv_loop capacity (suc fuel) ch ≡ some (none, ch)
  unfolding recv_loop
  recv_loop-none fuel ch e = rw (e, ==_refl ch.write_pos) refl

  recv_loop-some :
      (fuel : ℕ) (ch : Channel A) (x : A)
      → (ch.read_pos == ch.write_pos) ≡ false
      → get_or ch.buffer (ch.read_pos % capacity) empty_slot ≡ ready x
      → recv_loop capacity (suc fuel) ch
        ≡ some (
          some x,
          record ch {
            buffer = set ch.buffer (ch.read_pos % capacity) (taken (ready x));
            read_pos = fetch_add ch.read_pos;
          },
        )
  unfolding recv_loop
  recv_loop-some fuel ch x e slot = rw (e, slot) refl

  abbrev pub RecvAgrees : Channel A → Option A × Spec A → Type ℓ
  RecvAgrees ch s =
      (ch' : Channel A) × (try_recv capacity ch ≡ some (s.0, ch')) × Refines capacity ch' s.1

  pub try_recv-empty :
      (ch : Channel A)
      → Represents capacity ch.buffer ch.read_pos ch.write_pos []
      → try_recv capacity ch ≡ some (none, ch)
  unfolding try_recv
  try_recv-empty ch M =
      let same : ch.read_pos ≡ ch.write_pos = omega (arith, M.span) in
      let fuel : wrapping_sub ch.write_pos ch.read_pos + 1 ≡ suc 0 =
        omega (arith, in_use capacity _ _ _ [] M) in
      rw fuel (recv_loop-none 0 ch same)

  receives :
      (ch : Channel A) (a : Spec A) (q : List A)
      → Refines capacity ch a
      → Represents capacity ch.buffer ch.read_pos ch.write_pos q
      → RecvAgrees ch (spec_recv (record a { queue = q }))
  unfolding try_recv
  receives ch a [] R M = (
    ch,
    try_recv-empty ch M,
    record { messages = M; receivers = R.receivers; counts = R.counts; closes = R.closes },
  )
  receives ch a (x ∷ q) R M =
      let n = length q in
      let fuel : wrapping_sub ch.write_pos ch.read_pos + 1 ≡ suc (suc n) =
        omega (arith, in_use capacity _ _ _ (x ∷ q) M) in
      (
        record ch {
          buffer = set ch.buffer (ch.read_pos % capacity) (taken (ready x));
          read_pos = fetch_add ch.read_pos;
        },
        rw fuel (
            recv_loop-some (suc n) ch x (differ capacity _ _ _ x q M)
              (first-ready capacity _ _ _ x q M)),
        record {
          messages = take-Represents capacity _ _ _ x q M;
          receivers = R.receivers;
          counts = R.counts;
          closes = R.closes;
        },
      )

  -- A receive returns the oldest message and takes it out of the queue, or finds the queue empty.
  pub try_recv-RecvAgrees :
      (ch : Channel A) (a : Spec A) → Refines capacity ch a → RecvAgrees ch (spec_recv a)
  try_recv-RecvAgrees ch a R = receives ch a a.queue R R.messages
