-- ===== src/Sync/Bounded/Wakers.antt =====
-- Receivers of the bounded channel: registering, and the end of the last sender.
use dvida_oxide.Prelude.{
  ℕ, zero, suc, ◌+◌, ◌-◌, ◌%◌, ◌<◌, ◌≡◌, refl, ◌∙◌, sym, ap, ap₂, subst, Bool, true, false, some,
  List, [], ◌∷◌, ◌++◌, length, get_or, set, get_elem?-eq-get_or, Bool-cases, inl, inr, ◌==◌,
  if◌then◌else◌, ==_refl, ne→==, arith,
}
use dvida_oxide.Prelude.Results.{◌>>=◌}
use native.Mathlib.Nat.{mod-eq_of_lt, add-mod_right}
use dvida_oxide.Sync.{Waker, word, fetch_add, wrapping_sub}
use dvida_oxide.Sync.Bounded.{
  empty_slot, ready, Channel, register_loop, register_waker, wake_all, drop_sender,
  try_wake_receiver,
}
use dvida_oxide.Sync.Bounded.Slots.{put-Represents, next-IsFree}
use dvida_oxide.Sync.Bounded.Queue.{Spec, Refines, in_use, try_wake_receiver-Refines}

module _ {ℓ} {A : Type ℓ} (capacity : ℕ) where
  register_loop-free :
      (n : ℕ) (w : Waker) (ch : Channel A)
      → (get_or ch.wakers (ch.waker_write_pos % capacity) empty_slot).state ≡ 0
      → register_loop capacity (suc n) w ch ≡ record ch {
        wakers = set ch.wakers (ch.waker_write_pos % capacity) (ready w);
        waker_write_pos = fetch_add ch.waker_write_pos;
      }
  unfolding register_loop
  register_loop-free n w ch e = rw e refl

  register_loop-skip :
      (n : ℕ) (w : Waker) (ch : Channel A)
      → (get_or ch.wakers (ch.waker_write_pos % capacity) empty_slot).state ≡ 2
      → register_loop capacity (suc n) w ch
        ≡ register_loop capacity n w (record ch { waker_write_pos = fetch_add ch.waker_write_pos })
  unfolding register_loop
  register_loop-skip n w ch e = rw e refl

  -- With room a receiver that registers waits behind the others.
  pub register_waker-Refines :
      (w : Waker) (ch : Channel A) (a : Spec A)
      → Refines capacity ch a
      → length a.waiting < capacity
      → ch.waker_write_pos + 1 < word
      → Refines capacity
          (register_waker capacity w ch)
          (record a { waiting = a.waiting ++ (w ∷ []) })
  unfolding register_waker
  register_waker-Refines w ch a R room small =
      let positive : capacity ≡ suc (capacity - 1) = omega arith in
      let stored : register_loop capacity capacity w ch ≡ record ch {
        wakers = set ch.wakers (ch.waker_write_pos % capacity) (ready w);
        waker_write_pos = fetch_add ch.waker_write_pos;
      } =
        ap (λ n. register_loop capacity n w ch) positive
        ∙ register_loop-free (capacity - 1) w ch
            (next-IsFree capacity _ _ _ a.waiting R.receivers room) in
      rw stored (record {
        messages = R.messages;
        receivers = put-Represents capacity _ _ _ a.waiting w R.receivers room small;
        counts = R.counts;
        closes = R.closes;
      })

  skips :
      (n : ℕ) (w : Waker) (ch : Channel A)
      → ((k : ℕ)
          → k < n
          → (get_or ch.wakers ((ch.waker_write_pos + k) % capacity) empty_slot).state ≡ 2)
      → ch.waker_write_pos + n < word
      → register_loop capacity n w ch ≡ record ch { waker_write_pos = ch.waker_write_pos + n }
  unfolding register_loop
  skips zero w ch full small =
      let e : ch.waker_write_pos + 0 ≡ ch.waker_write_pos = omega arith in rw e refl
  skips (suc n) w ch full small =
      let p = ch.waker_write_pos in
      let e : p + 0 ≡ p = omega arith in
      let next_pos : fetch_add p ≡ p + 1 = mod-eq_of_lt (omega arith) in
      let more : p + 1 + n ≡ p + suc n = omega arith in
      let at : (k : ℕ) → p + suc k ≡ p + 1 + k = λ k. omega arith in
      register_loop-skip n w ch (
        subst (λ t. (get_or ch.wakers (t % capacity) empty_slot).state ≡ 2) e
          (full 0 (omega arith)))
      ∙ ap (λ t. register_loop capacity n w (record ch { waker_write_pos = t })) next_pos
      ∙ skips n w (record ch { waker_write_pos = p + 1 })
          (λ k h.
            subst (λ t. (get_or ch.wakers (t % capacity) empty_slot).state ≡ 2) (at k)
              (full (suc k) (omega arith)))
          (omega arith)
      ∙ ap (λ t. record ch { waker_write_pos = t }) more

  -- Without room the waker is dropped, and the write position of the wakers still moves on by the
  -- whole capacity, past the receivers that wait.
  pub register_waker-full :
      (w : Waker) (ch : Channel A) (a : Spec A)
      → Refines capacity ch a
      → length a.waiting ≡ capacity
      → ch.waker_write_pos + capacity < word
      → register_waker capacity w ch ≡ record ch { waker_write_pos = ch.waker_write_pos + capacity }
  unfolding register_waker
  register_waker-full w ch a R full small = skips capacity w ch slots_full small
    where
      slots_full :
          (k : ℕ)
          → k < capacity
          → (get_or ch.wakers ((ch.waker_write_pos + k) % capacity) empty_slot).state ≡ 2
      slots_full k h =
          let r = ch.waker_read_pos in
          let at : ch.waker_write_pos + k ≡ r + k + capacity = omega (arith, R.receivers.span) in
          let x = get_or a.waiting k 0 in
          let held = R.receivers.held k x (get_elem?-eq-get_or a.waiting k 0 (omega arith)) in
          ap (λ t. (get_or ch.wakers t empty_slot).state)
            (ap (λ t. t % capacity) at ∙ add-mod_right (r + k) capacity)
          ∙ ap (λ s. s.state) held

  wake_all-none :
      (fuel : ℕ) (ch : Channel A)
      → ch.waker_read_pos ≡ ch.waker_write_pos
      → wake_all capacity (suc fuel) ch ≡ some (ch, [])
  unfolding wake_all
  wake_all-none fuel ch e = rw (e, ==_refl ch.waker_write_pos) refl

  wake_all-some :
      (fuel : ℕ) (ch : Channel A)
      → (ch.waker_read_pos == ch.waker_write_pos) ≡ false
      → wake_all capacity (suc fuel) ch ≡ (
          try_wake_receiver capacity ch >>= λ r.
          wake_all capacity fuel r.0 >>= λ r'. some (r'.0, r.1 ++ r'.1))
  unfolding wake_all
  wake_all-some fuel ch e = rw e refl

  wakes_all :
      (ws : List Waker) (ch : Channel A) (a : Spec A)
      → Refines capacity ch (record a { waiting = ws })
      → (ch' : Channel A) × (wake_all capacity (suc (length ws)) ch ≡ some (ch', ws))
        × Refines capacity ch' (record a { waiting = [] })
  wakes_all [] ch a R = (ch, wake_all-none 0 ch (omega (arith, R.receivers.span)), R)
  wakes_all (w ∷ ws) ch a R =
      let (ch1, runs, R1) =
        try_wake_receiver-Refines capacity ch (record a { waiting = w ∷ ws }) R in
      let (ch2, runs', R2) = wakes_all ws ch1 a R1 in
      (
        ch2,
        wake_all-some (suc (length ws)) ch (ne→== _ _ (λ e. omega (arith, R.receivers.span, e)))
            ∙ ap
                (λ r. r >>= λ r.
                  wake_all capacity (suc (length ws)) r.0 >>= λ r'. some (r'.0, r.1 ++ r'.1))
                runs
            ∙ ap (λ r. r >>= λ r'. some (r'.0, (w ∷ []) ++ r'.1)) runs',
        R2,
      )

  abbrev pub spec_drop : Spec A → Spec A × List Waker
  spec_drop a =
      let a' = record a { senders = wrapping_sub a.senders 1 } in
      if a.senders == 1 then (record a' { waiting = []; closed = true }, a.waiting) else (a', [])

  abbrev pub DropAgrees : Channel A → Spec A × List Waker → Type ℓ
  DropAgrees ch s =
      (ch' : Channel A) × (drop_sender capacity ch ≡ some (ch', s.1)) × Refines capacity ch' s.0

  drop_sender-counts :
      (ch : Channel A) (n : ℕ) (b : Bool)
      → wrapping_sub ch.waker_write_pos ch.waker_read_pos ≡ n
      → (ch.sender_count == 1) ≡ b
      → drop_sender capacity ch ≡ (
          if b
          then wake_all capacity
              (suc n)
              (record ch { sender_count = wrapping_sub ch.sender_count 1; closed = true })
          else some (record ch { sender_count = wrapping_sub ch.sender_count 1 }, []))
  unfolding drop_sender
  drop_sender-counts ch n b fuel e =
      let one_more : wrapping_sub ch.waker_write_pos ch.waker_read_pos + 1 ≡ suc n = omega arith in
      ap₂
        (λ c k.
          if c
          then wake_all capacity k
              (record ch { sender_count = wrapping_sub ch.sender_count 1; closed = true })
          else some (record ch { sender_count = wrapping_sub ch.sender_count 1 }, []))
        e one_more

  -- The drop of a sender returns; that of the last one closes the channel and wakes every receiver
  -- that waits, in order.
  pub drop_sender-DropAgrees :
      (ch : Channel A) (a : Spec A) → Refines capacity ch a → DropAgrees ch (spec_drop a)
  drop_sender-DropAgrees ch a R =
      let fuel = in_use capacity _ _ _ a.waiting R.receivers in
      let fewer = ap (λ n. wrapping_sub n 1) R.counts in
      let counted = ap (λ n. n == 1) R.counts in
      let a' : Spec A = record a { senders = wrapping_sub a.senders 1 } in
      elim (Bool-cases (a.senders == 1)) [
        | inl last ↦
            let closing : Channel A = record ch {
              sender_count = wrapping_sub ch.sender_count 1;
              closed = true;
            } in
            let (ch', runs, R') =
              wakes_all a.waiting closing (record a' { closed = true })
                (record {
                  messages = R.messages;
                  receivers = R.receivers;
                  counts = fewer;
                  closes = refl;
                }) in
            let agreed : spec_drop a ≡ (record a' { waiting = []; closed = true }, a.waiting) =
              ap
                (λ b.
                  if b then (record a' { waiting = []; closed = true }, a.waiting) else (a', []))
                last in
            subst (DropAgrees ch) (sym agreed)
              (ch', drop_sender-counts ch _ true fuel (counted ∙ last) ∙ runs, R')
        | inr others ↦
            let agreed : spec_drop a ≡ (a', []) =
              ap
                (λ b.
                  if b then (record a' { waiting = []; closed = true }, a.waiting) else (a', []))
                others in
            subst (DropAgrees ch) (sym agreed) (
              _,
              drop_sender-counts ch _ false fuel (counted ∙ others),
              record {
                messages = R.messages;
                receivers = R.receivers;
                counts = fewer;
                closes = R.closes;
              },
            )
      ]
