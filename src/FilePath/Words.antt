-- ===== src/FilePath/Words.antt =====
-- What a path denotes: its words, the parts between slashes that are not empty. This is the
-- description that the iterator, `normalize` and `join` are held against.
use dvida_oxide.Prelude.{
  ℕ, suc, ◌+◌, ◌≡◌, refl, ◌∙◌, sym, ap, true, false, none, some, List, [], ◌∷◌, ◌++◌, All,
  All-append, take, drop, append-nil, append_assoc, ◌==◌, if◌then◌else◌, inl, inr, Bool-cases,
  Option-cases, arith,
}
use dvida_oxide.Prelude.Results.{◌>>=◌, some_inj, some≢none}
use dvida_oxide.FilePath.{Bytes, slash, is_empty, find}

abbrev pub flush : Bytes → List Bytes
flush w = if is_empty w then [] else w ∷ []

-- With `w` the part read since the last slash.
unfoldable pub words_from : Bytes → Bytes → List Bytes
words_from w [] = flush w
words_from w (c ∷ cs) =
    let closed = words_from [] cs in
    let open_word = words_from (w ++ (c ∷ [])) cs in
    if c == slash then flush w ++ closed else open_word

abbrev pub words : Bytes → List Bytes
words s = words_from [] s

find-slash_cons : (c : ℕ) (cs : Bytes) → (c == slash) ≡ true → find slash (c ∷ cs) ≡ some 0
find-slash_cons c cs e = rw e refl

find-other_cons :
    (c : ℕ) (cs : Bytes)
    → (c == slash) ≡ false
    → find slash (c ∷ cs) ≡ (find slash cs >>= λ i. some (i + 1))
find-other_cons c cs e = rw e refl

words_from-slash :
    (c : ℕ) (cs w : Bytes) → (c == slash) ≡ true → words_from w (c ∷ cs) ≡ flush w ++ words cs
unfolding words_from
words_from-slash c cs w e = rw e refl

words_from-other :
    (c : ℕ) (cs w : Bytes)
    → (c == slash) ≡ false
    → words_from w (c ∷ cs) ≡ words_from (w ++ (c ∷ [])) cs
unfolding words_from
words_from-other c cs w e = rw e refl

pub words_from-find-none : (s w : Bytes) → find slash s ≡ none → words_from w s ≡ flush (w ++ s)
unfolding words_from
words_from-find-none [] w h = rw (append-nil w) refl
words_from-find-none (c ∷ cs) w h = elim (Bool-cases (c == slash)) [
  | inl e ↦ absurd (some≢none (sym (find-slash_cons c cs e) ∙ h))
  | inr e ↦ elim (Option-cases (find slash cs)) [
    | inl e' ↦
        rw
          (
            words_from-other c cs w e,
            words_from-find-none cs (w ++ (c ∷ [])) e',
            append_assoc w (c ∷ []) cs,
          )
          refl
    | inr (i, e') ↦
        absurd (some≢none (sym (find-other_cons c cs e ∙ ap (λ o. o >>= λ j. some (j + 1)) e') ∙ h))
  ]
]

pub words_from-find-some :
    (s w : Bytes) (i : ℕ)
    → find slash s ≡ some i
    → words_from w s ≡ flush (w ++ take i s) ++ words (drop (i + 1) s)
unfolding words_from
words_from-find-some [] w i h = absurd (some≢none (sym h))
words_from-find-some (c ∷ cs) w i h = elim (Bool-cases (c == slash)) [
  | inl e ↦
      let at : i ≡ 0 = some_inj (sym h ∙ find-slash_cons c cs e) in
      rw (at, words_from-slash c cs w e, append-nil w) refl
  | inr e ↦ elim (Option-cases (find slash cs)) [
    | inl e' ↦
        absurd (some≢none (sym h ∙ find-other_cons c cs e ∙ ap (λ o. o >>= λ j. some (j + 1)) e'))
    | inr (j, e') ↦
        let plus : i ≡ j + 1 =
          some_inj (sym h ∙ find-other_cons c cs e ∙ ap (λ o. o >>= λ k. some (k + 1)) e') in
        let at : i ≡ suc j = omega arith in
        let skip : suc j + 1 ≡ suc (j + 1) = omega arith in
        rw
          (
            at,
            skip,
            words_from-other c cs w e,
            words_from-find-some cs (w ++ (c ∷ [])) j e',
            append_assoc w (c ∷ []) (take j cs),
          )
          refl
  ]
]

pub words_from-append_slash :
    (a w b : Bytes) → words_from w (a ++ (slash ∷ b)) ≡ words_from w a ++ words b
unfolding words_from
words_from-append_slash [] w b = refl
words_from-append_slash (c ∷ cs) w b = elim (Bool-cases (c == slash)) [
  | inl e ↦
      rw
        (
          words_from-slash c (cs ++ (slash ∷ b)) w e,
          words_from-slash c cs w e,
          append_assoc (flush w) (words cs) (words b),
        )
        (ap (λ t. flush w ++ t) (words_from-append_slash cs [] b))
  | inr e ↦
      rw (words_from-other c (cs ++ (slash ∷ b)) w e, words_from-other c cs w e)
        (words_from-append_slash cs (w ++ (c ∷ [])) b)
]

-- A word is not empty and has no slash in it.
abbrev pub IsWord : Bytes → Type 0
IsWord w = (is_empty w ≡ false) × (find slash w ≡ none)

find-append :
    (w : Bytes) (c : ℕ)
    → find slash w ≡ none
    → (c == slash) ≡ false
    → find slash (w ++ (c ∷ [])) ≡ none
find-append [] c h e = rw e refl
find-append (d ∷ w) c h e = elim (Bool-cases (d == slash)) [
  | inl e' ↦ absurd (some≢none (sym (find-slash_cons d w e') ∙ h))
  | inr e' ↦ elim (Option-cases (find slash w)) [
    | inl e'' ↦ rw (find-other_cons d (w ++ (c ∷ [])) e', find-append w c e'' e) refl
    | inr (i, e'') ↦
        absurd
          (some≢none (sym (find-other_cons d w e' ∙ ap (λ o. o >>= λ j. some (j + 1)) e'') ∙ h))
  ]
]

flush-IsWord : (w : Bytes) → find slash w ≡ none → All IsWord (flush w)
flush-IsWord [] h = tt
flush-IsWord (c ∷ w) h = ((refl, h), tt)

words_from-IsWord : (s w : Bytes) → find slash w ≡ none → All IsWord (words_from w s)
unfolding words_from
words_from-IsWord [] w h = flush-IsWord w h
words_from-IsWord (c ∷ cs) w h = elim (Bool-cases (c == slash)) [
  | inl e ↦
      rw (words_from-slash c cs w e)
        (All-append IsWord (flush w) (words cs) (flush-IsWord w h) (words_from-IsWord cs [] refl))
  | inr e ↦
      rw (words_from-other c cs w e) (words_from-IsWord cs (w ++ (c ∷ [])) (find-append w c h e))
]

pub words-IsWord : (s : Bytes) → All IsWord (words s)
words-IsWord s = words_from-IsWord s [] refl
