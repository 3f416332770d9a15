-- ===== src/FilePath/Iterate.antt =====
-- The iterator over the components of a path.
use dvida_oxide.Prelude.{
  ℕ, zero, suc, ◌+◌, ◌-◌, ◌≤◌, ◌<◌, ◌≡◌, refl, ◌∙◌, sym, ap, ap₂, true, Option, none, some, [], ◌∷◌,
  ◌++◌, length, take, drop, take-all, drop-all, drop-drop, length-drop, ltb, if◌then◌else◌, inl,
  inr, Bool-cases, Option-cases, ltb→le, ltb→lt, arith,
}
use dvida_oxide.FilePath.{
  Bytes, FilePath, Components, slash, is_empty, find, remaining, next_loop, next, collect, iterate,
  components,
}
use dvida_oxide.FilePath.Words.{
  words, words_from, flush, words_from-find-none, words_from-find-some,
}

abbrev pub rest : Components → Bytes
rest c = drop c.front c.path

-- What `next` returns on a state, in words still to come.
abbrev Yields : Components → Option Bytes × Components → Type 0
Yields c (none, c') = words (rest c) ≡ []
Yields c (some w, c') =
    (words (rest c) ≡ w ∷ words (rest c'))
    × (c'.path ≡ c.path)
    × (c'.back ≡ c.back)
    × (c.front < c'.front)

remaining-rest : (c : Components) → c.back ≡ length c.path → remaining c ≡ rest c
remaining-rest c h =
    take-all (c.back - c.front) (rest c) (omega (arith, length-drop c.front c.path))

next_loop-end :
    (fuel : ℕ) (c : Components)
    → ltb c.front c.back ≡ true
    → find slash (remaining c) ≡ none
    → next_loop (suc fuel) c ≡ (
        if is_empty (remaining c)
        then (none, record c { front = c.back })
        else (some (remaining c), record c { front = c.back }))
unfolding next_loop
next_loop-end fuel c h e = rw (h, e) refl

next_loop-found :
    (fuel : ℕ) (c : Components) (pos : ℕ)
    → ltb c.front c.back ≡ true
    → find slash (remaining c) ≡ some pos
    → next_loop (suc fuel) c ≡ (
        if is_empty (take pos (remaining c))
        then next_loop fuel (record c { front = c.front + (pos + 1) })
        else (some (take pos (remaining c)), record c { front = c.front + (pos + 1) }))
unfolding next_loop
next_loop-found fuel c pos h e = rw (h, e) refl

nothing_left : (c : Components) → c.back ≡ length c.path → c.back ≤ c.front → words (rest c) ≡ []
unfolding words_from
nothing_left c h above = rw (drop-all c.front c.path (omega arith)) refl

ends :
    (c : Components)
    → c.back ≡ length c.path
    → c.front < c.back
    → (s : Bytes) → s ≡ rest c
    → find slash s ≡ none
    → Yields c (
        if is_empty s
        then (none, record c { front = c.back })
        else (some s, record c { front = c.back }))
ends c h lt [] at e = rw (sym at, words_from-find-none [] [] e) refl
ends c h lt (x ∷ xs) at e = (
  rw
      (
        sym at,
        words_from-find-none (x ∷ xs) [] e,
        nothing_left (record c { front = c.back }) h (omega arith),
      )
      refl,
  refl,
  refl,
  lt,
)

skip :
    (c : Components) (front : ℕ)
    → c.front < front
    → words (rest c) ≡ words (drop front c.path)
    → (r : Option Bytes × Components) → Yields (record c { front = front }) r
    → Yields c r
skip c front lt e (none, c') y = e ∙ y
skip c front lt e (some w, c') (y, same, back, further) = (e ∙ y, same, back, omega arith)

split_at :
    (c : Components) (pos : ℕ)
    → c.back ≡ length c.path
    → find slash (remaining c) ≡ some pos
    → words (rest c) ≡ flush (take pos (remaining c)) ++ words (drop (c.front + (pos + 1)) c.path)
split_at c pos h e =
    let r = remaining-rest c h in
    let found = ap (find slash) (sym r) ∙ e in
    words_from-find-some (rest c) [] pos found
    ∙ ap₂ (λ s t. flush (take pos s) ++ words t) (sym r) (drop-drop (pos + 1) c.front c.path)

next_loop-Yields :
    (fuel : ℕ) (c : Components)
    → c.back ≡ length c.path
    → c.back - c.front ≤ fuel
    → Yields c (next_loop fuel c)
unfolding next_loop
next_loop-Yields zero c h enough = nothing_left c h (omega arith)
next_loop-Yields (suc fuel) c h enough = elim (Bool-cases (ltb c.front c.back)) [
  | inr above ↦
      let stop : next_loop (suc fuel) c ≡ (none, c) = rw (above, next_loop) refl in
      rw stop (nothing_left c h (ltb→le c.front c.back above))
  | inl below ↦ elim (Option-cases (find slash (remaining c))) [
    | inl e ↦
        rw (next_loop-end fuel c below e)
          (ends c h (ltb→lt c.front c.back below) (remaining c) (remaining-rest c h) e)
    | inr (pos, e) ↦
        let c' : Components = record c { front = c.front + (pos + 1) } in
        rw (next_loop-found fuel c pos below e)
          (elim (Bool-cases (is_empty (take pos (remaining c)))) [
            | inl empty ↦ rw empty (
                skip c c'.front (omega arith)
                  (split_at c pos h e
                    ∙ ap (λ b. (if b then [] else take pos (remaining c) ∷ []) ++ words (rest c'))
                        empty)
                  _ (next_loop-Yields fuel c' h (omega arith)))
            | inr full ↦ rw full (
              split_at c pos h e
                  ∙ ap (λ b. (if b then [] else take pos (remaining c) ∷ []) ++ words (rest c'))
                      full,
              refl,
              refl,
              omega arith,
            )
          ])
  ]
]

collected :
    (fuel : ℕ) (c : Components) (r : Option Bytes × Components)
    → Yields c r
    → ((c' : Components)
        → c'.back ≡ length c'.path
        → length c'.path ≡ length c.path
        → c.front < c'.front
        → collect fuel c' ≡ words (rest c'))
    → c.back ≡ length c.path
    → (elim r.0 [ none ↦ [] | some component ↦ component ∷ collect fuel r.1 ]) ≡ words (rest c)
collected fuel c (none, c') y later h = sym y
collected fuel c (some w, c') (y, same, back, further) later h =
    ap (λ t. w ∷ t) (later c' (back ∙ h ∙ ap length (sym same)) (ap length same) further) ∙ sym y

-- What the iterator yields, as a list, is the words from `front` on.
collect-words :
    (fuel : ℕ) (c : Components)
    → c.back ≡ length c.path
    → length c.path - c.front ≤ fuel
    → collect fuel c ≡ words (rest c)
unfolding collect next next_loop
collect-words zero c h enough = sym (nothing_left c h (omega arith))
collect-words (suc fuel) c h enough =
    collected fuel c (next c) (next_loop-Yields (c.back - c.front) c h (omega arith))
      (λ c' e hp less. collect-words fuel c' e (omega (arith, hp))) h

-- The components of a path, in the order of iteration, are its words: the parts between slashes
-- that are not empty, from behind the first byte.
pub iterate-components : (p : FilePath) → iterate (components p) ≡ words (drop 1 p.raw)
unfolding iterate components
iterate-components p = collect-words (length p.raw) (components p) refl (omega arith)
