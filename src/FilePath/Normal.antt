-- ===== src/FilePath/Normal.antt =====
-- `normalize` and `join`, in words.
use dvida_oxide.Prelude.{
  ℕ, ◌+◌, ◌<◌, ◌≡◌, refl, ◌∙◌, sym, ap, Bool, true, false, List, [], ◌∷◌, ◌++◌, All, drop,
  append-nil, append_assoc, if◌then◌else◌, inl, inr, lt→ltb, Bool-cases, subst, ==→eq, arith,
}
use dvida_oxide.FilePath.{
  Bytes, FilePath, slash, starts_with, ends_with, iterate, components, normalize_stack, write_stack,
  normalize, join,
}
use dvida_oxide.FilePath.Words.{
  words, words_from, words_from-find-none, words_from-append_slash, IsWord, words-IsWord,
}
use dvida_oxide.FilePath.Iterate.{iterate-components}
use dvida_oxide.FilePath.Resolve.{IsNormal, resolve, step-IsNormal, normalize_stack-resolve}

normalize_stack-IsNormal :
    (comps stack : List Bytes)
    → All IsWord comps
    → All IsNormal stack
    → All IsNormal (normalize_stack comps stack)
unfolding normalize_stack
normalize_stack-IsNormal [] stack hc hs = hs
normalize_stack-IsNormal (w ∷ comps) stack (hw, hc) hs =
    normalize_stack-IsNormal comps _ hc (step-IsNormal w stack hw hs)

-- Normal words are all kept.
normalize_stack_kept :
    (comps stack : List Bytes) → All IsNormal comps → normalize_stack comps stack ≡ stack ++ comps
unfolding normalize_stack
normalize_stack_kept [] stack h = sym (append-nil stack)
normalize_stack_kept (w ∷ comps) stack ((hw, not_here, not_up), h) =
    rw (not_here, not_up, normalize_stack)
      (normalize_stack_kept comps (stack ++ (w ∷ [])) h ∙ append_assoc stack (w ∷ []) comps)

words_word : (w : Bytes) → IsWord w → words w ≡ w ∷ []
words_word w (full, whole) =
    words_from-find-none w [] whole ∙ ap (λ b. if b then [] else w ∷ []) full

-- The words of the string that the stack is written to.
words-write_stack :
    (stack : List Bytes) (i : ℕ) (r : Bytes)
    → 0 < i
    → All IsWord stack
    → words (drop 1 (write_stack i stack (slash ∷ r))) ≡ words r ++ stack
unfolding write_stack
words-write_stack [] i r lt h = sym (append-nil (words r))
words-write_stack (w ∷ stack) i r lt (hw, h) =
    let grown = (r ++ (slash ∷ [])) ++ w in
    let new_words : words grown ≡ words r ++ (w ∷ []) =
      ap words (append_assoc r (slash ∷ []) w)
      ∙ words_from-append_slash r [] w
      ∙ ap (λ t. words r ++ t) (words_word w hw) in
    rw (lt→ltb 0 i lt, write_stack)
      (words-write_stack stack (i + 1) grown (omega arith) h
        ∙ ap (λ t. t ++ stack) new_words
        ∙ append_assoc (words r) (w ∷ []) stack)

words-written :
    (stack : List Bytes)
    → All IsWord stack
    → words (drop 1 (write_stack 0 stack (slash ∷ []))) ≡ stack
unfolding write_stack words_from
words-written [] h = refl
words-written (w ∷ stack) (hw, h) =
    words-write_stack stack 1 w (omega arith) h ∙ ap (λ t. t ++ stack) (words_word w hw)

All-map : (comps : List Bytes) → All IsNormal comps → All IsWord comps
All-map [] h = tt
All-map (w ∷ comps) (h, hs) = (h.0, All-map comps hs)

IsNormal-words : (p : FilePath) → All IsNormal (normalize_stack (words (drop 1 p.raw)) [])
IsNormal-words p =
    normalize_stack-IsNormal (words (drop 1 p.raw)) [] (words-IsWord (drop 1 p.raw)) tt

iterate-normalize_stack :
    (p : FilePath)
    → (iterate (components (normalize p)) ≡ normalize_stack (iterate (components p)) [])
      × All IsNormal (iterate (components (normalize p)))
unfolding normalize
iterate-normalize_stack p =
    let stack = normalize_stack (words (drop 1 p.raw)) [] in
    let from = ap (λ t. normalize_stack t []) (iterate-components p) in
    let to : iterate (components (normalize p)) ≡ stack =
      iterate-components (normalize p)
      ∙ ap (λ t. words (drop 1 (write_stack 0 t (slash ∷ [])))) from
      ∙ words-written stack (All-map stack (IsNormal-words p)) in
    (to ∙ sym from, subst (All IsNormal) (sym to) (IsNormal-words p))

-- The components of a normalized path are those of the path, read from the last to the first, after each
-- `.` is dropped, and each `..` with the nearest component before it that is left, where there is one;
-- none of them is `.`, `..`, empty or has a slash in it.
pub iterate-normalize :
    (p : FilePath)
    → (iterate (components (normalize p)) ≡ resolve (iterate (components p)))
      × All IsNormal (iterate (components (normalize p)))
iterate-normalize p =
    let (same, normal) = iterate-normalize_stack p in
    let whole : All IsWord (iterate (components p)) =
      subst (All IsWord) (sym (iterate-components p)) (words-IsWord (drop 1 p.raw)) in
    (same ∙ normalize_stack-resolve (iterate (components p)) whole, normal)

-- Normalizing a second time changes nothing.
normalize-normalize : (p : FilePath) → normalize (normalize p) ≡ normalize p
unfolding normalize
normalize-normalize p =
    let (same, normal) = iterate-normalize_stack p in
    ap (λ t. record { raw = write_stack 0 t (slash ∷ []) })
      (normalize_stack_kept (iterate (components (normalize p))) [] normal ∙ same)

ends_with_split : (s : Bytes) → ends_with slash s ≡ true → (t : Bytes) × (s ≡ t ++ (slash ∷ []))
ends_with_split [] h = absurd (cc h)
ends_with_split (d ∷ []) h = ([], ap (λ x. x ∷ []) (==→eq d slash h))
ends_with_split (d ∷ e ∷ es) h =
    let (t, eq) = ends_with_split (e ∷ es) h in (d ∷ t, ap (λ l. d ∷ l) eq)

words-append :
    (s other : Bytes)
    → words ((if ends_with slash s then s else s ++ (slash ∷ [])) ++ other) ≡ words s ++ words other
unfolding words_from
words-append s other = elim (Bool-cases (ends_with slash s)) [
  | inl e ↦
      let (t, eq) = ends_with_split s e in
      rw e (
        ap (λ l. words (l ++ other)) eq
        ∙ ap words (append_assoc t (slash ∷ []) other)
        ∙ words_from-append_slash t [] other
        ∙ ap (λ l. l ++ words other)
            (sym (ap words eq ∙ words_from-append_slash t [] [] ∙ append-nil (words t))))
  | inr e ↦ rw e (ap words (append_assoc s (slash ∷ []) other) ∙ words_from-append_slash s [] other)
]

under_slash :
    (b : Bool) (s other : Bytes)
    → drop 1 ((if b then slash ∷ s else slash ∷ (s ++ (slash ∷ []))) ++ other)
      ≡ (if b then s else s ++ (slash ∷ [])) ++ other
under_slash true s other = refl
under_slash false s other = refl

join_words :
    (raw other : Bytes)
    → starts_with slash raw ≡ true
    → words (drop 1 ((if ends_with slash raw then raw else raw ++ (slash ∷ [])) ++ other))
      ≡ words (drop 1 raw) ++ words other
unfolding words_from
join_words [] other h = absurd (cc h)
join_words (c ∷ []) other h = rw h refl
join_words (c ∷ x ∷ xs) other h =
    let same : c ≡ slash = ==→eq c slash h in
    rw same (
      ap words (under_slash (ends_with slash (x ∷ xs)) (x ∷ xs) other)
      ∙ words-append (x ∷ xs) other)

-- Joining a relative string to an absolute path appends its words to the components of the path.
pub iterate-join :
    (p : FilePath) (other : Bytes)
    → starts_with slash p.raw ≡ true
    → starts_with slash other ≡ false
    → iterate (components (join p other)) ≡ iterate (components p) ++ words other
unfolding join
iterate-join p other absolute relative =
    let joined = join_words p.raw other absolute in
    rw (iterate-components (join p other), iterate-components p, relative, join) joined
