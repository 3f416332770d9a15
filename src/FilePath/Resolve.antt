-- ===== src/FilePath/Resolve.antt =====
-- What `.` and `..` do to the words of a path, read from the last word to the first.
use mathlib.Core.List.{reverse-reverse, reverse-cons, reverse-append}
use dvida_oxide.Prelude.{
  ℕ, zero, suc, ◌≡◌, refl, ◌∙◌, sym, ap, ap₂, true, false, List, [], ◌∷◌, ◌++◌, All, All-append,
  reverse, append-nil, append_assoc, if◌then◌else◌, inl, inr, Bool-cases,
}
use dvida_oxide.FilePath.{Bytes, dot, bytes_eq, pop, normalize_stack}
use dvida_oxide.FilePath.Words.{IsWord}

-- A word that is neither `.` nor `..`.
abbrev pub IsNormal : Bytes → Type 0
IsNormal w = IsWord w × (bytes_eq w (dot ∷ []) ≡ false) × (bytes_eq w (dot ∷ dot ∷ []) ≡ false)

-- The words that stay, from the last on, where so many `..` stand behind them that have taken nothing away
-- yet: each takes the nearest word before it that is left, and those at the root take nothing.
unfoldable pub stays : ℕ → List Bytes → List Bytes
stays ups [] = []
stays zero (w ∷ earlier) =
    let without = stays zero earlier in
    let up = stays 1 earlier in
    if bytes_eq w (dot ∷ [])
    then without
    else (if bytes_eq w (dot ∷ dot ∷ []) then up else w ∷ without)
stays (suc fewer) (w ∷ earlier) =
    let without = stays (suc fewer) earlier in
    let up = stays (suc (suc fewer)) earlier in
    let taken = stays fewer earlier in
    if bytes_eq w (dot ∷ []) then without else (if bytes_eq w (dot ∷ dot ∷ []) then up else taken)

unfoldable pub resolve : List Bytes → List Bytes
resolve words = reverse (stays 0 (reverse words))

pub All-pop : (stack : List Bytes) → All IsNormal stack → All IsNormal (pop stack)
All-pop [] h = h
All-pop (x ∷ []) h = tt
All-pop (x ∷ y ∷ ys) (hx, hs) = (hx, All-pop (y ∷ ys) hs)

-- One step of the loop, on the stack.
abbrev step : Bytes → List Bytes → List Bytes
step w stack =
    if bytes_eq w (dot ∷ [])
    then stack
    else (if bytes_eq w (dot ∷ dot ∷ []) then pop stack else stack ++ (w ∷ []))

pub step-IsNormal :
    (w : Bytes) (stack : List Bytes) → IsWord w → All IsNormal stack → All IsNormal (step w stack)
step-IsNormal w stack hw hs = elim (Bool-cases (bytes_eq w (dot ∷ []))) [
  | inl here ↦ rw here hs
  | inr not_here ↦ elim (Bool-cases (bytes_eq w (dot ∷ dot ∷ []))) [
    | inl up ↦ rw (not_here, up) (All-pop stack hs)
    | inr not_up ↦
        rw (not_here, not_up) (All-append IsNormal stack (w ∷ []) hs ((hw, not_here, not_up), tt))
  ]
]

All-reverse : (stack : List Bytes) → All IsNormal stack → All IsNormal (reverse stack)
All-reverse [] h = tt
All-reverse (x ∷ xs) (hx, hs) =
    rw (reverse-cons x xs) (All-append IsNormal (reverse xs) (x ∷ []) (All-reverse xs hs) (hx, tt))

pop-append : (xs : List Bytes) (x : Bytes) → pop (xs ++ (x ∷ [])) ≡ xs
pop-append [] x = refl
pop-append (y ∷ []) x = refl
pop-append (y ∷ z ∷ zs) x = ap (λ l. y ∷ l) (pop-append (z ∷ zs) x)

stays-kept :
    (w : Bytes) (earlier : List Bytes) → IsNormal w → stays 0 (w ∷ earlier) ≡ w ∷ stays 0 earlier
unfolding stays
stays-kept w earlier (h, not_here, not_up) = rw (not_here, not_up, stays) refl

stays-taken :
    (ups : ℕ) (w : Bytes) (earlier : List Bytes)
    → IsNormal w
    → stays (suc ups) (w ∷ earlier) ≡ stays ups earlier
unfolding stays
stays-taken ups w earlier (h, not_here, not_up) = rw (not_here, not_up, stays) refl

-- Normal words all stay.
stays-all : (ws : List Bytes) → All IsNormal ws → stays 0 ws ≡ ws
unfolding stays
stays-all [] h = refl
stays-all (w ∷ ws) (hw, hs) = stays-kept w ws hw ∙ ap (λ l. w ∷ l) (stays-all ws hs)

-- The stack, reversed, does for the words behind it what the word and the stack before it did.
stays-pop :
    (ups : ℕ) (back : List Bytes)
    → All IsNormal back
    → stays ups (reverse (pop (reverse back))) ≡ stays (suc ups) back
unfolding stays
stays-pop ups [] h = refl
stays-pop ups (w ∷ back) (hw, hs) =
    ap (λ l. stays ups (reverse l)) (ap pop (reverse-cons w back) ∙ pop-append (reverse back) w)
    ∙ ap (stays ups) (reverse-reverse back)
    ∙ sym (stays-taken ups w back hw)

stays-here :
    (ups : ℕ) (w : Bytes) (earlier : List Bytes)
    → bytes_eq w (dot ∷ []) ≡ true
    → stays ups (w ∷ earlier) ≡ stays ups earlier
unfolding stays
stays-here zero w earlier h = rw (h, stays) refl
stays-here (suc ups) w earlier h = rw (h, stays) refl

stays-up :
    (ups : ℕ) (w : Bytes) (earlier : List Bytes)
    → bytes_eq w (dot ∷ []) ≡ false
    → bytes_eq w (dot ∷ dot ∷ []) ≡ true
    → stays ups (w ∷ earlier) ≡ stays (suc ups) earlier
unfolding stays
stays-up zero w earlier h g = rw (h, g, stays) refl
stays-up (suc ups) w earlier h g = rw (h, g, stays) refl

stays-step_last :
    (ups : ℕ) (w : Bytes) (stack : List Bytes)
    → All IsNormal stack
    → stays ups (reverse (step w stack)) ≡ stays ups (w ∷ reverse stack)
stays-step_last ups w stack hs = elim (Bool-cases (bytes_eq w (dot ∷ []))) [
  | inl here ↦
      ap
        (λ q. stays ups (
          reverse (
            if q
            then stack
            else (if bytes_eq w (dot ∷ dot ∷ []) then pop stack else stack ++ (w ∷ [])))))
        here
      ∙ sym (stays-here ups w (reverse stack) here)
  | inr not_here ↦ elim (Bool-cases (bytes_eq w (dot ∷ dot ∷ []))) [
    | inl up ↦
        ap₂
          (λ q r.
            stays ups (reverse (if q then stack else (if r then pop stack else stack ++ (w ∷ [])))))
          not_here up
        ∙ ap (λ l. stays ups (reverse (pop l))) (sym (reverse-reverse stack))
        ∙ stays-pop ups (reverse stack) (All-reverse stack hs)
        ∙ sym (stays-up ups w (reverse stack) not_here up)
    | inr not_up ↦
        ap₂
          (λ q r.
            stays ups (reverse (if q then stack else (if r then pop stack else stack ++ (w ∷ [])))))
          not_here not_up
        ∙ ap (stays ups) (reverse-append stack (w ∷ []))
  ]
]

stays-step :
    (later : List Bytes) (ups : ℕ) (w : Bytes) (stack : List Bytes)
    → All IsNormal stack
    → stays ups (later ++ reverse (step w stack)) ≡ stays ups (later ++ (w ∷ reverse stack))
unfolding stays
stays-step [] ups w stack hs = stays-step_last ups w stack hs
stays-step (x ∷ later) zero w stack hs =
    rw (stays-step later 0 w stack hs, stays-step later 1 w stack hs, stays) refl
stays-step (x ∷ later) (suc ups) w stack hs =
    rw
      (
        stays-step later (suc ups) w stack hs,
        stays-step later (suc (suc ups)) w stack hs,
        stays-step later ups w stack hs,
        stays,
      )
      refl

normalize_stack-stays :
    (comps stack : List Bytes)
    → All IsWord comps
    → All IsNormal stack
    → normalize_stack comps stack ≡ reverse (stays 0 (reverse comps ++ reverse stack))
unfolding normalize_stack
normalize_stack-stays [] stack hc hs =
    sym (ap reverse (stays-all (reverse stack) (All-reverse stack hs)) ∙ reverse-reverse stack)
normalize_stack-stays (w ∷ comps) stack (hw, hc) hs =
    normalize_stack-stays comps (step w stack) hc (step-IsNormal w stack hw hs)
    ∙ ap reverse (
        stays-step (reverse comps) 0 w stack hs
        ∙ ap (stays 0) (
            sym (append_assoc (reverse comps) (w ∷ []) (reverse stack))
            ∙ ap (λ l. l ++ reverse stack) (sym (reverse-cons w comps))))

pub normalize_stack-resolve :
    (comps : List Bytes) → All IsWord comps → normalize_stack comps [] ≡ resolve comps
unfolding resolve
normalize_stack-resolve comps hc =
    normalize_stack-stays comps [] hc tt
    ∙ ap (λ l. reverse (stays 0 l)) (append-nil (reverse comps))
