-- ===== src/Sync/Unbounded/Runs.antt =====
-- Whole runs of the unbounded channel, by calls in any order.
use dvida_oxide.Prelude.{
  ℕ, ◌≡◌, refl, ◌∙◌, sym, ap, subst, Option, none, some, List, [], ◌∷◌, ◌++◌, append-nil,
  append_assoc, ◌==◌, if◌then◌else◌, Bool-cases, inl, inr,
}
use dvida_oxide.Sync.{Waker, wrapping_sub, fetch_add}
use dvida_oxide.Sync.Unbounded.{
  UnboundedChannel, PollResult, ready, pending, clone, drop_sender, send, try_recv, poll,
}

pub data Call {ℓ} (A : Type ℓ) : Type ℓ where
  sends : A → Call A
  polls : Waker → Call A
  tries : Call A
  clones : Call A
  drops : Call A

-- What a call hands to the receiver, what it wakes, and which waker it stores.
pub record Effect {ℓ} (A : Type ℓ) : Type ℓ where
  pub sent : List A
  pub received : List A
  pub stored : List Waker
  pub woken : List Waker
  pub after : UnboundedChannel A

abbrev message {ℓ} : {A : Type ℓ} → Option A → List A
message none = []
message (some a) = a ∷ []

-- A queue's history: what left it and what is left, over one call and the run behind it.
chain {κ} :
    {B : Type κ} (r1 r2 q q1 q2 s1 s2 : List B)
    → r1 ++ q1 ≡ q ++ s1
    → r2 ++ q2 ≡ q1 ++ s2
    → (r1 ++ r2) ++ q2 ≡ q ++ (s1 ++ s2)
chain r1 r2 q q1 q2 s1 s2 e f =
    append_assoc r1 r2 q2
    ∙ ap (λ t. r1 ++ t) f
    ∙ sym (append_assoc r1 q1 s2)
    ∙ ap (λ t. t ++ s2) e
    ∙ append_assoc q s1 s2

module _ {ℓ} {A : Type ℓ} where
  abbrev poll_effect : Waker → PollResult A × UnboundedChannel A → Effect A
  poll_effect waker (ready m, after) = record {
    sent = [];
    received = message m;
    stored = [];
    woken = [];
    after = after;
  }
  poll_effect waker (pending, after) = record {
    sent = [];
    received = [];
    stored = waker ∷ [];
    woken = [];
    after = after;
  }

  unfoldable pub effect : Call A → UnboundedChannel A → Effect A
  unfolding send poll try_recv clone drop_sender
  effect (sends msg) ch =
      let (woken, after) = send msg ch in
      record { sent = msg ∷ []; received = []; stored = []; woken = woken; after = after }
  effect (polls waker) ch = poll_effect waker (poll waker ch)
  effect tries ch =
      let (m, after) = try_recv ch in
      record { sent = []; received = message m; stored = []; woken = []; after = after }
  effect clones ch = record { sent = []; received = []; stored = []; woken = []; after = clone ch }
  effect drops ch = record {
    sent = [];
    received = [];
    stored = [];
    woken = [];
    after = drop_sender ch;
  }

  -- Nothing is lost, made up or reordered by one call.
  pub record Balanced (ch : UnboundedChannel A) (e : Effect A) : Type ℓ where
    pub messages : e.received ++ e.after.buffer ≡ ch.buffer ++ e.sent
    pub wakers : e.woken ++ e.after.rx_wakers ≡ ch.rx_wakers ++ e.stored

  quiet :
      (ch : UnboundedChannel A) (n : ℕ)
      → Balanced ch (record {
        sent = [];
        received = [];
        stored = [];
        woken = [];
        after = record ch { sender_count = n };
      })
  quiet ch n = record {
    messages = sym (append-nil ch.buffer);
    wakers = sym (append-nil ch.rx_wakers);
  }

  send-Balanced :
      (msg : A) (buffer : List A) (wakers : List Waker) (n : ℕ)
      → Balanced
          (record { buffer = buffer; rx_wakers = wakers; sender_count = n })
          (effect (sends msg) (record { buffer = buffer; rx_wakers = wakers; sender_count = n }))
  unfolding effect send
  send-Balanced msg buffer [] n = record { messages = refl; wakers = refl }
  send-Balanced msg buffer (w ∷ ws) n = record {
    messages = refl;
    wakers = sym (append-nil (w ∷ ws));
  }

  try_recv-Balanced :
      (buffer : List A) (wakers : List Waker) (n : ℕ)
      → Balanced
          (record { buffer = buffer; rx_wakers = wakers; sender_count = n })
          (effect tries (record { buffer = buffer; rx_wakers = wakers; sender_count = n }))
  unfolding effect try_recv
  try_recv-Balanced [] wakers n = record { messages = refl; wakers = sym (append-nil wakers) }
  try_recv-Balanced (m ∷ ms) wakers n = record {
    messages = sym (append-nil (m ∷ ms));
    wakers = sym (append-nil wakers);
  }

  poll-Balanced :
      (w : Waker) (buffer : List A) (wakers : List Waker) (n : ℕ)
      → Balanced
          (record { buffer = buffer; rx_wakers = wakers; sender_count = n })
          (effect (polls w) (record { buffer = buffer; rx_wakers = wakers; sender_count = n }))
  unfolding effect poll try_recv
  poll-Balanced w (m ∷ ms) wakers n = record {
    messages = sym (append-nil (m ∷ ms));
    wakers = sym (append-nil wakers);
  }
  poll-Balanced w [] wakers n =
      let ch : UnboundedChannel A = record { buffer = []; rx_wakers = wakers; sender_count = n } in
      let waiting = record ch { rx_wakers = wakers ++ (w ∷ []) } in
      let polled : poll w ch ≡ (if n == 0 then (ready none, ch) else (pending, waiting)) = refl in
      elim (Bool-cases (n == 0)) [
        | inl e ↦
            subst (λ r. Balanced ch (poll_effect w r))
              (sym (polled ∙ ap (λ b. if b then (ready none, ch) else (pending, waiting)) e))
              (record { messages = refl; wakers = sym (append-nil wakers) })
        | inr e ↦
            subst (λ r. Balanced ch (poll_effect w r))
              (sym (polled ∙ ap (λ b. if b then (ready none, ch) else (pending, waiting)) e))
              (record { messages = refl; wakers = refl })
      ]

  effect-Balanced : (c : Call A) (ch : UnboundedChannel A) → Balanced ch (effect c ch)
  unfolding effect clone drop_sender
  effect-Balanced (sends msg) ch = send-Balanced msg ch.buffer ch.rx_wakers ch.sender_count
  effect-Balanced (polls w) ch = poll-Balanced w ch.buffer ch.rx_wakers ch.sender_count
  effect-Balanced tries ch = try_recv-Balanced ch.buffer ch.rx_wakers ch.sender_count
  effect-Balanced clones ch = quiet ch (fetch_add ch.sender_count)
  effect-Balanced drops ch = quiet ch (wrapping_sub ch.sender_count 1)

  -- A run of calls, one after the other.
  unfoldable pub run : List (Call A) → UnboundedChannel A → Effect A
  unfolding effect
  run [] ch = record { sent = []; received = []; stored = []; woken = []; after = ch }
  run (c ∷ calls) ch =
      let first = effect c ch in
      let rest = run calls first.after in
      record {
        sent = first.sent ++ rest.sent;
        received = first.received ++ rest.received;
        stored = first.stored ++ rest.stored;
        woken = first.woken ++ rest.woken;
        after = rest.after;
      }

  -- Over any run of sends, polls, receives, clones and drops the messages received, followed by
  -- those left in the channel, are those that were in it, followed by those sent, in this order; and
  -- so are the wakers woken and left, and those that waited and were stored.
  pub run-Balanced : (calls : List (Call A)) (ch : UnboundedChannel A) → Balanced ch (run calls ch)
  unfolding run
  run-Balanced [] ch = quiet ch ch.sender_count
  run-Balanced (c ∷ calls) ch =
      let first = effect c ch in
      let rest = run calls first.after in
      let B = effect-Balanced c ch in
      let C = run-Balanced calls first.after in
      record {
        messages =
            chain first.received rest.received ch.buffer first.after.buffer rest.after.buffer
              first.sent rest.sent B.messages C.messages;
        wakers =
            chain first.woken rest.woken ch.rx_wakers first.after.rx_wakers rest.after.rx_wakers
              first.stored rest.stored B.wakers C.wakers;
      }
