-- ===== src/Sync/Bounded/Slots.antt =====
-- A ring of slots and the queue it holds, from the read position up to the write position.
use dvida_oxide.Prelude.{
  ℕ, zero, suc, ◌+◌, ◌-◌, ◌%◌, ◌≤◌, ◌<◌, ◌≡◌, ◌≢◌, ◌⊎◌, refl, ◌∙◌, sym, ap, subst, some, List, [],
  ◌∷◌, ◌++◌, length, length-append, length-set, length-replicate, get_elem?, get_elem?-lt,
  get_elem?-append_one, get_or, get_or-set_self, get_or-set_ne, set, replicate, Bool-cases, inl,
  inr, ltb, ltb→lt, ltb→le, arith,
}
use dvida_oxide.Prelude.Results.{some≢none}
use native.Mathlib.Nat.{mod-lt, mod-eq_of_lt, mod-eq-sub-mod, mod-add-mod, add-mod_right}
use dvida_oxide.Sync.{word, fetch_add}
use dvida_oxide.Sync.Bounded.{Slot, empty_slot, ready, taken}

-- The slot of a position, from that of the read position.
wrap :
    (r i capacity : ℕ)
    → i < capacity
    → ((r + i) % capacity ≡ r % capacity + i) ⊎ ((r + i) % capacity + capacity ≡ r % capacity + i)
wrap r i capacity h = elim (Bool-cases (ltb (r % capacity + i) capacity)) [
  | inl below ↦
      inl (sym (mod-add-mod r capacity i) ∙ mod-eq_of_lt (ltb→lt (r % capacity + i) capacity below))
  | inr above ↦
      let le = ltb→le (r % capacity + i) capacity above in
      let base = mod-lt r {m = capacity} (omega arith) in
      let round : (r + i) % capacity ≡ r % capacity + i - capacity =
        sym (mod-add-mod r capacity i)
        ∙ mod-eq-sub-mod {n = r % capacity + i} {m = capacity} le
        ∙ mod-eq_of_lt {n = r % capacity + i - capacity} (omega (arith, base)) in
      inr (omega (arith, round, le))
]

-- Two positions less than the capacity apart are different slots.
apart :
    (r i j capacity : ℕ)
    → i < capacity
    → j < capacity
    → i ≢ j
    → (r + i) % capacity ≢ (r + j) % capacity
apart r i j capacity hi hj ne e = omega (arith, wrap r i capacity hi, wrap r j capacity hj, e, ne)

pub record Represents {ℓ} {A : Type ℓ} (capacity : ℕ) (slots : List (Slot A)) (read write : ℕ)
    (q : List A) : Type ℓ where
  pub size : length slots ≡ capacity
  pub span : write ≡ read + length q
  pub room : length q ≤ capacity
  pub low : write < word
  pub held :
      (k : ℕ) (x : A)
      → get_elem? q k ≡ some x
      → get_or slots ((read + k) % capacity) empty_slot ≡ ready x
  pub free :
      (k : ℕ)
      → length q ≤ k
      → k < capacity
      → (get_or slots ((read + k) % capacity) empty_slot).state ≡ 0

module _ {ℓ} {A : Type ℓ} (capacity : ℕ) where
  get_or-replicate : (n i : ℕ) → get_or (replicate n (empty_slot {A = A})) i empty_slot ≡ empty_slot
  get_or-replicate zero i = refl
  get_or-replicate (suc n) zero = refl
  get_or-replicate (suc n) (suc i) = get_or-replicate n i

  pub new-Represents : Represents {A = A} capacity (replicate capacity empty_slot) 0 0 []
  new-Represents = record {
    size = length-replicate capacity empty_slot;
    span = refl;
    room = omega arith;
    low = omega arith;
    held = λ k x e. absurd (some≢none (sym e));
    free = λ k lo hi. rw (get_or-replicate capacity ((0 + k) % capacity)) refl;
  }

  -- A write to the slot of one position leaves that of another.
  kept :
      (slots : List (Slot A)) (read i k : ℕ) (v : Slot A)
      → i < capacity
      → k < capacity
      → i ≢ k
      → get_or (set slots ((read + i) % capacity) v) ((read + k) % capacity) empty_slot
        ≡ get_or slots ((read + k) % capacity) empty_slot
  kept slots read i k v hi hk ne =
      get_or-set_ne slots _ _ v empty_slot (apart read i k capacity hi hk ne)

  written :
      (slots : List (Slot A)) (position : ℕ) (v : Slot A)
      → length slots ≡ capacity
      → 0 < capacity
      → get_or (set slots (position % capacity) v) (position % capacity) empty_slot ≡ v
  written slots position v size lt =
      get_or-set_self slots _ v empty_slot (omega (arith, size, mod-lt position {m = capacity} lt))

  -- A message written to the next slot joins the queue at its end.
  pub put-Represents :
      (slots : List (Slot A)) (read write : ℕ) (q : List A) (x : A)
      → Represents capacity slots read write q
      → length q < capacity
      → write + 1 < word
      → Represents capacity
          (set slots (write % capacity) (ready x))
          read
          (fetch_add write)
          (q ++ (x ∷ []))
  put-Represents slots read write q x R lt small =
      let n = length q in
      rw R.span (record {
        size = length-set slots ((read + n) % capacity) (ready x) ∙ R.size;
        span = omega (arith, R.span, length-append q (x ∷ []), mod-eq_of_lt small);
        room = omega (arith, length-append q (x ∷ []));
        low = omega (arith, R.span, mod-eq_of_lt small);
        held = λ k y e. elim (get_elem?-append_one q x k y e) [
          | inl old ↦
              let less = get_elem?-lt q k y old in
              kept slots read n k (ready x) lt (omega arith) (λ same. omega arith) ∙ R.held k y old
          | inr (at, same) ↦ rw (at, same) (written slots (read + n) (ready x) R.size (omega arith))
        ];
        free = λ k lo hi.
            let more : n + 1 ≤ k = omega (arith, length-append q (x ∷ [])) in
            ap (λ s. s.state) (kept slots read n k (ready x) lt hi (λ same. omega arith))
            ∙ R.free k (omega arith) hi;
      })

  -- The next slot of a ring with room is empty, and that of a ring in use is ready.
  pub next-IsFree :
      (slots : List (Slot A)) (read write : ℕ) (q : List A)
      → Represents capacity slots read write q
      → length q < capacity
      → (get_or slots (write % capacity) empty_slot).state ≡ 0
  next-IsFree slots read write q R lt = rw R.span (R.free (length q) (omega arith) lt)

  pub first-ready :
      (slots : List (Slot A)) (read write : ℕ) (x : A) (q : List A)
      → Represents capacity slots read write (x ∷ q)
      → get_or slots (read % capacity) empty_slot ≡ ready x
  first-ready slots read write x q R =
      let e : read + 0 ≡ read = omega arith in
      subst (λ r. get_or slots (r % capacity) empty_slot ≡ ready x) e (R.held 0 x refl)

  -- A message taken out of its slot leaves the queue at its front.
  pub take-Represents :
      (slots : List (Slot A)) (read write : ℕ) (x : A) (q : List A)
      → Represents capacity slots read write (x ∷ q)
      → Represents capacity (set slots (read % capacity) (taken (ready x))) (fetch_add read) write q
  take-Represents slots read write x q R =
      let zero_off : read + 0 ≡ read = omega arith in
      let next_read : fetch_add read ≡ read + 1 = mod-eq_of_lt (omega (arith, R.span, R.low)) in
      let step : (k : ℕ) → read + 1 + k ≡ read + suc k = λ k. omega arith in
      let room' : suc (length q) ≤ capacity = R.room in
      subst
        (λ r.
          Represents capacity (set slots (r % capacity) (taken (ready x))) (fetch_add read) write q)
        zero_off
        (rw next_read (record {
          size = length-set slots ((read + 0) % capacity) (taken (ready x)) ∙ R.size;
          span = omega (arith, R.span);
          room = omega arith;
          low = R.low;
          held = λ k y e.
              let less = get_elem?-lt q k y e in
              rw (step k) (
                kept slots read 0 (suc k) (taken (ready x)) (omega arith) (omega arith)
                  (λ same. omega arith)
                ∙ R.held (suc k) y e);
          free = λ k lo hi. elim (Bool-cases (ltb (suc k) capacity)) [
            | inl inside ↦
                let less = ltb→lt (suc k) capacity inside in
                rw (step k) (
                  ap (λ s. s.state)
                    (kept slots read 0 (suc k) (taken (ready x)) (omega arith) less
                      (λ same. omega arith))
                  ∙ R.free (suc k) (omega arith) less)
            | inr last ↦
                let at : suc k ≡ capacity = omega (arith, ltb→le (suc k) capacity last) in
                let round : (read + 1 + k) % capacity ≡ (read + 0) % capacity =
                  ap (λ t. t % capacity) (step k ∙ ap (λ t. read + t) at)
                  ∙ add-mod_right read capacity
                  ∙ ap (λ t. t % capacity) (sym zero_off) in
                rw round (
                  ap (λ s. s.state)
                    (written slots (read + 0) (taken (ready x)) R.size (omega arith)))
          ];
        }))
