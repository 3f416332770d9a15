-- ===== src/Sync/Mutex/Tasks/Starvation.antt =====
-- A task whose node has left the list is not put back into it.
use dvida_oxide.Prelude.{
  ℕ, ◌≡◌, refl, sym, ap, subst, ◌∙◌, ◌≢◌, ◌⊎◌, inl, inr, Bool, true, false, Bool-cases, List, [],
  ◌∷◌, ◌++◌, Option, some, All, ◌==◌, arith,
}
use dvida_oxide.Sync.{Waker}
use dvida_oxide.Sync.Mutex.{Memory, Mutex, try_lock, register, enqueue, unlock, wake_tail}
use dvida_oxide.Sync.Mutex.Ring.{
  Apart, IsRing, enqueue-IsRing, wake_tail-IsRing, All-split, wake_tail-empty,
}
use dvida_oxide.Sync.Mutex.Run.{enqueue-waker, enqueue-waker_other, wake_tail-waker}
use dvida_oxide.Sync.Mutex.Tasks.{
  Pc, missed, pending, holding, leaving, finished, System, update, mark, node, MayPoll, Step, Reach,
}

-- Each node in the list holds the waker of its own task.
abbrev Owned : Memory → List ℕ → Type 0
Owned memory xs = All (λ p. node (memory p).waker ≡ p) xs

-- The list in memory is `xs`, and a task that has no node is not in it.
pub record IsWaiting (s : System) (xs : List ℕ) : Type 0 where
  pub listed : IsRing s.mutex xs
  pub owned : Owned s.mutex.memory xs
  pub unlisted : (j : ℕ) → s.queued j ≡ false → Apart (node j) xs

-- Only the lock's state has changed.
record SameList (m m' : Mutex) : Type 0 where
  head : m'.wakers_list_head ≡ m.wakers_list_head
  tail : m'.wakers_list_tail ≡ m.wakers_list_tail
  memory : m'.memory ≡ m.memory

try_lock-SameList : (m : Mutex) → SameList m (try_lock m).1
unfolding try_lock
try_lock-SameList m = record { head = ground arith; tail = ground arith; memory = ground arith }

unlock-SameList : (m : Mutex) → SameList m (unlock m)
unfolding unlock
unlock-SameList m = record { head = refl; tail = refl; memory = refl }

SameList-IsRing : (m m' : Mutex) (xs : List ℕ) → SameList m m' → IsRing m xs → IsRing m' xs
SameList-IsRing m m' [] e r = (e.head ∙ r.0, e.tail ∙ r.1)
SameList-IsRing m m' (x ∷ xs) e (rh, rt, rl, rd, rn) =
    (e.head ∙ rh, e.tail ∙ rt, rw e.memory rl, rd, rn)

same-IsWaiting :
    {s : System} {xs : List ℕ} (m : Mutex) (pc : ℕ → Pc) (woken : ℕ → Bool)
    → SameList s.mutex m
    → IsWaiting s xs
    → IsWaiting (record s { mutex = m; pc = pc; woken = woken }) xs
same-IsWaiting {s} {xs} m pc woken e v = record {
  listed = SameList-IsRing s.mutex m xs e v.listed;
  owned = rw e.memory v.owned;
  unlisted = v.unlisted;
}

enqueue-Owned :
    (m : Mutex) (p : ℕ) (waker : Waker) (xs : List ℕ)
    → Apart p xs
    → Owned m.memory xs
    → Owned (enqueue p waker m).memory xs
enqueue-Owned m p waker [] a o = tt
enqueue-Owned m p waker (x ∷ xs) a o =
    (ap node (enqueue-waker_other m p x waker a.0) ∙ o.0, enqueue-Owned m p waker xs a.1 o.1)

wake_tail-Owned : (m : Mutex) (xs : List ℕ) → Owned m.memory xs → Owned (wake_tail m).1.memory xs
wake_tail-Owned m [] o = tt
wake_tail-Owned m (x ∷ xs) o = (ap node (wake_tail-waker m x) ∙ o.0, wake_tail-Owned m xs o.1)

abbrev Stands : Pc → Type 0
Stands p = (p ≡ missed) ⊎ (p ≡ pending)

-- Task `i` has its node, which is not in the list, and it is not to be polled again.
record IsLeftOut (i : ℕ) (s : System) (xs : List ℕ) : Type 0 where
  waiting : IsWaiting s xs
  apart : Apart (node i) xs
  queued : s.queued i ≡ true
  asleep : s.woken i ≡ false
  stands : Stands (s.pc i)

snoc_cases {ℓ} :
    {A : Type ℓ} (xs : List A) → (xs ≡ []) ⊎ ((ys : List A) × (y : A) × (xs ≡ ys ++ (y ∷ [])))
snoc_cases [] = inl refl
snoc_cases (x ∷ xs) = elim (snoc_cases xs) [
  | inl e ↦ inr ([], x, ap (λ t. x ∷ t) e)
  | inr (ys, y, e) ↦ inr (x ∷ ys, y, ap (λ t. x ∷ t) e)
]

Stands-pending : (pc : ℕ → Pc) (i j : ℕ) → Stands (pc i) → Stands (update pc j pending i)
Stands-pending pc i j (inl e) = elim (Bool-cases (i == j)) [
  | inl h ↦ rw h (inr refl)
  | inr h ↦ rw h (inl e)
]
Stands-pending pc i j (inr e) = inr (ground arith)

Stands-other : (pc : ℕ → Pc) (i j : ℕ) (p : Pc) → i ≢ j → Stands (pc i) → Stands (update pc j p i)
Stands-other pc i j p n (inl e) = inl (ground arith)
Stands-other pc i j p n (inr e) = inr (ground arith)

unqueued_other : (queued : ℕ → Bool) (j k : ℕ) → update queued j true k ≡ false → j ≡ k → ⊥
unqueued_other queued j k h e = ground arith

queued_other : (queued : ℕ → Bool) (j i : ℕ) → queued j ≡ false → queued i ≡ true → j ≡ i → ⊥
queued_other queued j i q h e = cc (q, h, e)

-- A step in which the list and the nodes stay, of a task that does not stand as `i` does.
same-IsLeftOut :
    (i : ℕ) {s : System} {xs : List ℕ} (m : Mutex) (j : ℕ) (p : Pc) (woken : ℕ → Bool)
    → SameList s.mutex m
    → i ≢ j
    → woken i ≡ false
    → IsLeftOut i s xs
    → IsLeftOut i (record s { mutex = m; pc = update s.pc j p; woken = woken }) xs
same-IsLeftOut i {s} m j p woken e n w v = record {
  waiting = same-IsWaiting m (update s.pc j p) woken e v.waiting;
  apart = v.apart;
  queued = v.queued;
  asleep = w;
  stands = Stands-other s.pc i j p n v.stands;
}

-- The task left out does not move by a poll, nor by a drop.
not_polled : (i j : ℕ) (s : System) {xs : List ℕ} → IsLeftOut i s xs → MayPoll s j → i ≢ j
not_polled i j s v (inl idle_j) e = elim v.stands [
  | inl h ↦ cc (h, idle_j, e)
  | inr h ↦ cc (h, idle_j, e)
]
not_polled i j s v (inr (h, w)) e = cc (v.asleep, w, e)

not_dropping :
    (i j : ℕ) (s : System) {xs : List ℕ} (p : Pc)
    → IsLeftOut i s xs
    → s.pc j ≡ p
    → p ≢ missed
    → p ≢ pending
    → i ≢ j
not_dropping i j s p v h m n e = elim v.stands [
  | inl k ↦ m (cc (h, k, e))
  | inr k ↦ n (cc (h, k, e))
]

asleep-mark :
    (w : Option Waker) (waker i : ℕ) (woken : ℕ → Bool)
    → w ≡ some waker
    → i ≢ waker
    → woken i ≡ false
    → mark w woken i ≡ false
asleep-mark w waker i woken e n h = rw e (ground arith)

wake_some :
    (i j : ℕ) (s : System) (ys : List ℕ) (y : ℕ)
    → s.pc j ≡ leaving
    → IsLeftOut i s (ys ++ (y ∷ []))
    → IsLeftOut i
        (record s {
          mutex = (wake_tail s.mutex).1;
          pc = update s.pc j finished;
          woken = mark (wake_tail s.mutex).0 s.woken;
        })
        ys
wake_some i j s ys y e v =
    let (w, r) = wake_tail-IsRing s.mutex ys y v.waiting.listed in
    let (oys, oy) = All-split (λ p. node (s.mutex.memory p).waker ≡ p) ys y v.waiting.owned in
    let (ays, ay) = All-split (λ p. p ≢ node i) ys y v.apart in
    record {
      waiting = record {
        listed = r;
        owned = wake_tail-Owned s.mutex ys oys;
        unlisted = λ k h. (All-split (λ p. p ≢ node k) ys y (v.waiting.unlisted k h)).0;
      };
      apart = ays;
      queued = v.queued;
      asleep =
          asleep-mark (wake_tail s.mutex).0 (s.mutex.memory y).waker i s.woken w
            (λ k. ay (sym oy ∙ ap node (sym k))) v.asleep;
      stands =
          Stands-other s.pc i j finished (not_dropping i j s leaving v e (λ k. cc k) (λ k. cc k))
            v.stands;
    }

wake-IsLeftOut :
    (i j : ℕ) (s : System) (xs : List ℕ)
    → s.pc j ≡ leaving
    → IsLeftOut i s xs
    → (ys : List ℕ) × IsLeftOut i
        (record s {
          mutex = (wake_tail s.mutex).1;
          pc = update s.pc j finished;
          woken = mark (wake_tail s.mutex).0 s.woken;
        })
        ys
wake-IsLeftOut i j s xs e v = elim (snoc_cases xs) [
  | inl h ↦
      let u : IsLeftOut i s [] = subst (λ zs. IsLeftOut i s zs) h v in
      let n : i ≢ j = not_dropping i j s leaving v e (λ k. cc k) (λ k. cc k) in
      (
        [],
        rw (wake_tail-empty s.mutex u.waiting.listed) (
            same-IsLeftOut i s.mutex j finished s.woken
              (record { head = refl; tail = refl; memory = refl }) n v.asleep u),
      )
  | inr (ys, y, h) ↦ (ys, wake_some i j s ys y e (subst (λ zs. IsLeftOut i s zs) h v))
]

-- The state of the list after `enter`.
enter-IsLeftOut :
    (i j : ℕ) (queued : Bool) (s : System) (xs : List ℕ)
    → s.queued j ≡ queued
    → s.pc j ≡ missed
    → IsLeftOut i s xs
    → (ys : List ℕ) × IsLeftOut i
        (record s {
          mutex = register (node j) j queued s.mutex;
          pc = update s.pc j pending;
          queued = update s.queued j true;
        })
        ys
unfolding register
enter-IsLeftOut i j true s xs q e v = (
  xs,
  record {
    waiting = record {
      listed = v.waiting.listed;
      owned = v.waiting.owned;
      unlisted = λ k h. v.waiting.unlisted k (ground arith);
    };
    apart = v.apart;
    queued = ground (arith, v.queued);
    asleep = v.asleep;
    stands = Stands-pending s.pc i j v.stands;
  },
)
enter-IsLeftOut i j false s xs q e v = (
  node j ∷ xs,
  record {
    waiting = record {
      listed =
          enqueue-IsRing s.mutex xs (node j) j (λ h. omega arith) (v.waiting.unlisted j q)
            v.waiting.listed;
      owned = (
        ap node (enqueue-waker s.mutex (node j) j),
        enqueue-Owned s.mutex (node j) j xs (v.waiting.unlisted j q) v.waiting.owned,
      );
      unlisted = λ k h.
          (λ h'. unqueued_other s.queued j k h (omega arith), v.waiting.unlisted k (ground arith));
    };
    apart = (λ h. queued_other s.queued j i q v.queued (omega arith), v.apart);
    queued = ground (arith, v.queued);
    asleep = v.asleep;
    stands = Stands-pending s.pc i j v.stands;
  },
)

asleep-update : (woken : ℕ → Bool) (i j : ℕ) → woken i ≡ false → update woken j false i ≡ false
asleep-update woken i j h = ground arith

Step-IsLeftOut :
    (i : ℕ) {s t : System} (xs : List ℕ)
    → Step s t
    → IsLeftOut i s xs
    → (ys : List ℕ) × IsLeftOut i t ys
Step-IsLeftOut i {s} xs (Step.acquire j p e) v = (
  xs,
  same-IsLeftOut i (try_lock s.mutex).1 j holding (update s.woken j false)
      (try_lock-SameList s.mutex) (not_polled i j s v p) (asleep-update s.woken i j v.asleep) v,
)
Step-IsLeftOut i {s} xs (Step.miss j p e) v = (
  xs,
  same-IsLeftOut i s.mutex j missed (update s.woken j false)
      (record { head = refl; tail = refl; memory = refl }) (not_polled i j s v p)
      (asleep-update s.woken i j v.asleep) v,
)
Step-IsLeftOut i {s} xs (Step.enter j e) v = enter-IsLeftOut i j (s.queued j) s xs refl e v
Step-IsLeftOut i {s} xs (Step.release j e) v = (
  xs,
  same-IsLeftOut i (unlock s.mutex) j leaving s.woken (unlock-SameList s.mutex)
      (not_dropping i j s holding v e (λ k. cc k) (λ k. cc k)) v.asleep v,
)
Step-IsLeftOut i {s} xs (Step.wake j e) v = wake-IsLeftOut i j s xs e v

Reach-IsLeftOut :
    (i : ℕ) {s t : System} (xs : List ℕ)
    → Reach s t
    → IsLeftOut i s xs
    → (ys : List ℕ) × IsLeftOut i t ys
Reach-IsLeftOut i xs Reach.here v = (xs, v)
Reach-IsLeftOut i xs (Reach.later r st) v =
    let (ys, u) = Reach-IsLeftOut i xs r v in Step-IsLeftOut i ys st u

-- A woken task that misses the mutex once more, when its node has left the list, never holds the
-- mutex again, whatever the tasks do from there: `poll` does not put a node that it has back.
pub starves :
    {s : System} (xs : List ℕ)
    → IsWaiting s xs
    → (i : ℕ) → s.pc i ≡ missed
    → s.queued i ≡ true
    → s.woken i ≡ false
    → Apart (node i) xs
    → {t : System} → Reach s t
    → t.pc i ≢ holding
starves xs w i p q a n r e =
    let v =
      (Reach-IsLeftOut i xs r
        (record { waiting = w; apart = n; queued = q; asleep = a; stands = inl p })).1 in
    elim v.stands [ inl h ↦ cc (h, e) | inr h ↦ cc (h, e) ]
