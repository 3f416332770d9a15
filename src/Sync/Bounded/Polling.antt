-- ===== src/Sync/Bounded/Polling.antt =====
-- Polling the receiver of the bounded channel.
use dvida_oxide.Prelude.{
  ℕ, ◌+◌, ◌<◌, ◌≡◌, refl, ◌∙◌, sym, ap, ap₂, subst, Bool, true, false, ◌&&◌, none, some, List, [],
  ◌∷◌, ◌++◌, length, Bool-cases, inl, inr, ◌==◌, if◌then◌else◌,
}
use dvida_oxide.Sync.{Waker, word}
use dvida_oxide.Sync.Bounded.{
  Channel, Poll, ready_with, pending, register_waker, try_recv, is_closed, poll,
}
use dvida_oxide.Sync.Bounded.Queue.{Spec, Refines, try_recv-RecvAgrees, try_recv-empty}
use dvida_oxide.Sync.Bounded.Wakers.{register_waker-Refines}

module _ {ℓ} {A : Type ℓ} (capacity : ℕ) where
  -- What a poll promises: the oldest message, the end once every sender is gone, or a wait.
  abbrev pub spec_poll : Waker → Spec A → Poll A × Spec A
  spec_poll w a = elim a.queue [
    | x ∷ q ↦ (ready_with (some x), record a { queue = q })
    | [] ↦
        if a.closed && a.senders == 0
        then (ready_with none, a)
        else (pending, record a { waiting = a.waiting ++ (w ∷ []) })
  ]

  abbrev pub PollAgrees : Waker → Channel A → Poll A × Spec A → Type ℓ
  PollAgrees w ch s =
      (ch' : Channel A) × (poll capacity w ch ≡ some (s.0, ch')) × Refines capacity ch' s.1

  is_closed-Refines :
      (ch : Channel A) (a : Spec A)
      → Refines capacity ch a
      → is_closed ch ≡ (a.closed && a.senders == 0)
  unfolding is_closed
  is_closed-Refines ch a R = ap₂ (λ b n. b && n == 0) R.closes R.counts

  poll-over :
      (w : Waker) (ch : Channel A)
      → try_recv capacity ch ≡ some (none, ch)
      → is_closed ch ≡ true
      → poll capacity w ch ≡ some (ready_with none, ch)
  unfolding poll
  poll-over w ch runs over = rw (runs, over) refl

  poll-waits :
      (w : Waker) (ch : Channel A)
      → try_recv capacity ch ≡ some (none, ch)
      → is_closed ch ≡ false
      → try_recv capacity (register_waker capacity w ch) ≡ some (none, register_waker capacity w ch)
      → is_closed (register_waker capacity w ch) ≡ false
      → poll capacity w ch ≡ some (pending, register_waker capacity w ch)
  unfolding poll
  poll-waits w ch runs e again e' = rw (runs, e, again, e') refl

  polls :
      (w : Waker) (ch : Channel A) (a : Spec A) (q : List A)
      → Refines capacity ch (record a { queue = q })
      → length a.waiting < capacity
      → ch.waker_write_pos + 1 < word
      → PollAgrees w ch (spec_poll w (record a { queue = q }))
  unfolding poll
  polls w ch a (x ∷ q) R room small =
      let (ch1, runs, R1) = try_recv-RecvAgrees capacity ch (record a { queue = x ∷ q }) R in
      (ch1, rw (runs, poll) refl, R1)
  polls w ch a [] R room small = elim (Bool-cases (a.closed && a.senders == 0)) [
    | inl over ↦ subst (PollAgrees w ch) (sym (ap choose over)) (
      ch,
      poll-over w ch (try_recv-empty capacity ch R.messages) (is_closed-Refines ch a' R ∙ over),
      R,
    )
    | inr not_over ↦
        let R2 = register_waker-Refines capacity w ch a' R room small in
        subst (PollAgrees w ch) (sym (ap choose not_over)) (
          register_waker capacity w ch,
          poll-waits w ch (try_recv-empty capacity ch R.messages)
              (is_closed-Refines ch a' R ∙ not_over)
              (try_recv-empty capacity (register_waker capacity w ch) R2.messages)
              (is_closed-Refines (register_waker capacity w ch) _ R2 ∙ not_over),
          R2,
        )
  ]
    where
      a' : Spec A
      a' = record a { queue = [] }

      choose : Bool → Poll A × Spec A
      choose b =
          if b
          then (ready_with none, a')
          else (pending, record a' { waiting = a.waiting ++ (w ∷ []) })

  -- With room for its waker, a poll returns: the oldest message, or the end of the channel once it
  -- is closed, empty and without a sender, or it waits behind the receivers that wait already.
  pub poll-PollAgrees :
      (w : Waker) (ch : Channel A) (a : Spec A)
      → Refines capacity ch a
      → length a.waiting < capacity
      → ch.waker_write_pos + 1 < word
      → PollAgrees w ch (spec_poll w a)
  poll-PollAgrees w ch a R room small = polls w ch a a.queue R room small
