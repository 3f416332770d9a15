-- ===== src/Sync/Mutex/Ring.antt =====
-- The circular list of wakers of kernel/src/ejcineque/sync/mutex.rs as a list of addresses, from the
-- head to the tail, and what the two operations do to it.
use dvida_oxide.Prelude.{
  ℕ, ◌≡◌, refl, sym, ◌≢◌, List, [], ◌∷◌, ◌++◌, none, some, All, arith, subst, ◌==◌, ◌||◌, true,
  false, ne→==, ==_refl, ap₂, ◌∙◌,
}
use dvida_oxide.Sync.{Waker}
use dvida_oxide.Sync.Mutex.{Memory, Mutex, null, store, store_next, store_prev, enqueue, wake_tail}

abbrev pub Joined : Memory → ℕ → ℕ → Type 0
Joined memory a b = ((memory a).next ≡ b) × ((memory b).prev ≡ a)

-- From `a` through `xs` to `z`, forth and back.
abbrev pub Linked : Memory → ℕ → List ℕ → ℕ → Type 0
Linked memory a [] z = Joined memory a z
Linked memory a (x ∷ xs) z = Joined memory a x × Linked memory x xs z

abbrev pub last : ℕ → List ℕ → ℕ
last a [] = a
last a (x ∷ xs) = last x xs

abbrev pub Apart : ℕ → List ℕ → Type 0
Apart p xs = All (λ x. x ≢ p) xs

abbrev pub Distinct : List ℕ → Type 0
Distinct [] = Unit
Distinct (x ∷ xs) = Apart x xs × Distinct xs

-- The nodes in the list are `xs`.
abbrev pub IsRing : Mutex → List ℕ → Type 0
IsRing mutex [] = (mutex.wakers_list_head ≡ null) × (mutex.wakers_list_tail ≡ null)
IsRing mutex (x ∷ xs) =
    (mutex.wakers_list_head ≡ x)
    × (mutex.wakers_list_tail ≡ last x xs)
    × Linked mutex.memory x xs x
    × Distinct (x ∷ xs)
    × Apart null (x ∷ xs)

last-Apart : (p a : ℕ) (xs : List ℕ) → a ≢ p → Apart p xs → last a xs ≢ p
last-Apart p a [] h k = h
last-Apart p a (x ∷ xs) h k = last-Apart p x xs k.0 k.1

-- Stores that keep the links inside the ring, all but those of `p`, and close it at `z'`.
relink :
    (m m' : Memory) (p h a : ℕ) (xs : List ℕ) (z z' : ℕ)
    → Distinct (a ∷ xs)
    → Apart p (a ∷ xs)
    → Apart h xs
    → ((y : ℕ) → y ≢ last a xs → y ≢ p → (m' y).next ≡ (m y).next)
    → ((y : ℕ) → y ≢ h → y ≢ p → (m' y).prev ≡ (m y).prev)
    → Joined m' (last a xs) z'
    → Linked m a xs z
    → Linked m' a xs z'
relink m m' p h a [] z z' d ap ah f g j l = j
relink m m' p h a (x ∷ xs) z z' d ap ah f g j l = (
  (f a (λ e. last-Apart a x xs d.0.0 d.0.1 (sym e)) ap.0 ∙ l.0.0, g x ah.0 ap.1.0 ∙ l.0.1),
  relink m m' p h x xs z z' d.1 ap.1 ah.1 f g j l.1,
)

-- The memory after a node has entered a ring that is not empty, or has left one of two or more.
entered : Memory → ℕ → ℕ → ℕ → Waker → Memory
unfolding store store_next store_prev
entered m head tail p waker =
    store_next (store_prev (store m p (record { next = head; prev = tail; waker = waker })) head p)
      tail p

left : Memory → ℕ → ℕ → Memory
unfolding store_next store_prev
left m head before = store_prev (store_next m before head) head before

entered-Linked :
    (m : Memory) (x : ℕ) (xs : List ℕ) (p : ℕ) (waker : Waker)
    → Distinct (x ∷ xs)
    → Apart p (x ∷ xs)
    → Linked m x xs x
    → Linked (entered m x (last x xs) p waker) p (x ∷ xs) p
unfolding entered store store_next store_prev
entered-Linked m x xs p waker d a l =
    let other : last x xs ≢ p = last-Apart p x xs a.0 a.1 in
    let m' : Memory = entered m x (last x xs) p waker in
    (
      (ground (arith, a.0), ground (arith, a.0)),
      relink m m' p x x xs x p d a d.0 (λ y h k. ground arith) (λ y h k. ground arith)
          (ground arith, ground arith) l,
    )

left-Linked :
    (m : Memory) (x : ℕ) (xs : List ℕ) (t : ℕ)
    → Distinct (x ∷ xs)
    → Apart t (x ∷ xs)
    → Linked m x xs t
    → Linked (left m x (last x xs)) x xs x
unfolding left store store_next store_prev
left-Linked m x xs t d a l =
    relink m (left m x (last x xs)) t x x xs t x d a d.0 (λ y h k. ground arith)
      (λ y h k. ground arith) (ground arith, ground arith) l

some_pointers :
    (mutex : Mutex) (h t : ℕ)
    → mutex.wakers_list_head ≡ h
    → mutex.wakers_list_tail ≡ t
    → h ≢ null
    → t ≢ null
    → ((mutex.wakers_list_head == null) || (mutex.wakers_list_tail == null)) ≡ false
some_pointers mutex h t eh et nh nt = ground arith

enqueue-some_pointers :
    (mutex : Mutex) (p : ℕ) (waker : Waker)
    → ((mutex.wakers_list_head == null) || (mutex.wakers_list_tail == null)) ≡ false
    → enqueue p waker mutex ≡ record mutex {
      wakers_list_head = p;
      memory = entered mutex.memory mutex.wakers_list_head mutex.wakers_list_tail p waker;
    }
unfolding enqueue entered
enqueue-some_pointers mutex p waker e = rw e refl

-- `enqueue` puts its node in front.
pub enqueue-IsRing :
    (mutex : Mutex) (xs : List ℕ) (p : ℕ) (waker : Waker)
    → p ≢ null
    → Apart p xs
    → IsRing mutex xs
    → IsRing (enqueue p waker mutex) (p ∷ xs)
unfolding enqueue store
enqueue-IsRing mutex [] p waker n a r =
    rw r.0 (refl, refl, (ground arith, ground arith), (tt, tt), (n, tt))
enqueue-IsRing mutex (x ∷ xs) p waker n a (rh, rt, rl, rd, rn) =
    subst (λ m. IsRing m (p ∷ x ∷ xs))
      (sym (
        enqueue-some_pointers mutex p waker
          (some_pointers mutex x (last x xs) rh rt rn.0 (last-Apart null x xs rn.0 rn.1))))
      (
        refl,
        rt,
        subst (λ m. Linked m p (x ∷ xs) p)
            (ap₂ (λ h t. entered mutex.memory h t p waker) (sym rh) (sym rt))
            (entered-Linked mutex.memory x xs p waker rd a rl),
        (a, rd),
        (n, rn),
      )

-- The last node of a ring of two or more is not its own predecessor, and leaves.
wake_tail-other :
    (mutex : Mutex)
    → ((mutex.wakers_list_head == null) || (mutex.wakers_list_tail == null)) ≡ false
    → ((mutex.memory mutex.wakers_list_tail).prev == mutex.wakers_list_tail) ≡ false
    → wake_tail mutex ≡ (
      some (mutex.memory mutex.wakers_list_tail).waker,
      record mutex {
        wakers_list_tail = (mutex.memory mutex.wakers_list_tail).prev;
        memory =
            left mutex.memory mutex.wakers_list_head (mutex.memory mutex.wakers_list_tail).prev;
      },
    )
unfolding wake_tail left
wake_tail-other mutex e k = rw (e, k) refl

wake_tail-itself :
    (mutex : Mutex)
    → ((mutex.wakers_list_head == null) || (mutex.wakers_list_tail == null)) ≡ false
    → ((mutex.memory mutex.wakers_list_tail).prev == mutex.wakers_list_tail) ≡ true
    → wake_tail mutex ≡ (
      some (mutex.memory mutex.wakers_list_tail).waker,
      record mutex { wakers_list_head = null; wakers_list_tail = null },
    )
unfolding wake_tail
wake_tail-itself mutex e k = rw (e, k) refl

last-append : (a : ℕ) (xs : List ℕ) (t : ℕ) → last a (xs ++ (t ∷ [])) ≡ t
last-append a [] t = refl
last-append a (x ∷ xs) t = last-append x xs t

Linked-split :
    (m : Memory) (a : ℕ) (xs : List ℕ) (t z : ℕ)
    → Linked m a (xs ++ (t ∷ [])) z
    → Linked m a xs t × Joined m t z
Linked-split m a [] t z l = l
Linked-split m a (x ∷ xs) t z l = let (p, q) = Linked-split m x xs t z l.1 in ((l.0, p), q)

Linked-prev : (m : Memory) (a : ℕ) (xs : List ℕ) (z : ℕ) → Linked m a xs z → (m z).prev ≡ last a xs
Linked-prev m a [] z l = l.1
Linked-prev m a (x ∷ xs) z l = Linked-prev m x xs z l.1

pub All-split {κ} : (P : ℕ → Type κ) (xs : List ℕ) (t : ℕ) → All P (xs ++ (t ∷ [])) → All P xs × P t
All-split P [] t h = (tt, h.0)
All-split P (x ∷ xs) t h = let (p, q) = All-split P xs t h.1 in ((h.0, p), q)

Distinct-split : (xs : List ℕ) (t : ℕ) → Distinct (xs ++ (t ∷ [])) → Distinct xs × Apart t xs
Distinct-split [] t h = (tt, tt)
Distinct-split (x ∷ xs) t h =
    let (p, q) = Distinct-split xs t h.1 in
    let (a, b) = All-split (λ y. y ≢ x) xs t h.0 in ((a, p), (λ e. b (sym e), q))

-- The node at the tail is the one that `wake_tail` wakes and takes out.
pub wake_tail-IsRing :
    (mutex : Mutex) (xs : List ℕ) (t : ℕ)
    → IsRing mutex (xs ++ (t ∷ []))
    → ((wake_tail mutex).0 ≡ some (mutex.memory t).waker) × IsRing (wake_tail mutex).1 xs
wake_tail-IsRing mutex [] t (rh, rt, rl, rd, rn) =
    let e =
      wake_tail-itself mutex (some_pointers mutex t t rh rt rn.0 rn.0)
        (rw rt (rw rl.1 (==_refl t))) in
    rw e (rw rt refl, (refl, refl))
wake_tail-IsRing mutex (x ∷ xs) t (rh, rt, rl, rd, rn) =
    let m : Memory = mutex.memory in
    let (l, j) = Linked-split m x xs t x rl in
    let (d, a) = Distinct-split (x ∷ xs) t rd in
    let (n, nt) = All-split (λ y. y ≢ null) (x ∷ xs) t rn in
    let rt' : mutex.wakers_list_tail ≡ t = rt ∙ last-append x xs t in
    let rp : (m mutex.wakers_list_tail).prev ≡ last x xs = rw rt' (Linked-prev m x xs t l) in
    let e =
      wake_tail-other mutex (some_pointers mutex x t rh rt' rn.0 nt)
        (rw rt' (rw (Linked-prev m x xs t l) (ne→== _ _ (last-Apart t x xs a.0 a.1)))) in
    rw e (
      rw rt' refl,
      (
        rh,
        rp,
        subst (λ m'. Linked m' x xs x) (ap₂ (λ h b. left m h b) (sym rh) (sym rp))
            (left-Linked m x xs t d a l),
        d,
        n,
      ),
    )

pub wake_tail-empty : (mutex : Mutex) → IsRing mutex [] → wake_tail mutex ≡ (none, mutex)
unfolding wake_tail
wake_tail-empty mutex r = rw r.0 refl
