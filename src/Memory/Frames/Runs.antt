-- ===== src/Memory/Frames/Runs.antt =====
-- `allocate_continuous_frames`: a run of adjacent free pages.
use dvida_oxide.Prelude.{
  ℕ, zero, suc, ◌+◌, ◌-◌, ◌*◌, ◌≤◌, ◌<◌, ◌≡◌, ◌≢◌, refl, ◌∙◌, sym, ap, subst, inl, inr, ◌⊎◌, true,
  false, ◌||◌, Option, none, some, List, [], ◌∷◌, ◌++◌, map, append-nil, append_assoc, length, ◌==◌,
  if◌then◌else◌, Bool-cases, ==→eq, ==→ne, leb, leb→gt, arith,
}
use native.Mathlib.Nat.{mod-eq_of_lt}
use dvida_oxide.Memory.Bitmap.Laws.{in_run}
use dvida_oxide.Memory.Frames.{
  BitmapAllocator, Frame, Context, push_context, total_bits, take_page, take_pages,
  allocate_run_from, allocate_continuous_frames,
}
use dvida_oxide.Memory.Frames.Single.{is_used, IsValid, take_page-Takes, not_skipped}

-- The `n` pages from `s` on.
abbrev pub pages : ℕ → ℕ → List ℕ
pages s zero = []
pages s (suc n) = s ∷ pages (s + 1) n

pages-suc : (s n : ℕ) → pages s n ++ ((s + n) ∷ []) ≡ pages s (suc n)
pages-suc s zero = ap (λ k. k ∷ []) (omega arith)
pages-suc s (suc n) =
    ap (λ t. s ∷ t) (ap (λ k. pages (s + 1) n ++ (k ∷ [])) (omega arith) ∙ pages-suc (s + 1) n)

length-pages : (s n : ℕ) → length (pages s n) ≡ n
length-pages s zero = refl
length-pages s (suc n) = ap suc (length-pages (s + 1) n)

abbrev pub frame_of : ℕ → Frame
frame_of i = i * 4096

abbrev pub AllFree : BitmapAllocator → ℕ → ℕ → Type 0
AllFree a s n = (j : ℕ) → s ≤ j → j < s + n → is_used a j ≡ false

-- The state after the `n` pages from `s` on were taken.
pub record TakesRun (a : BitmapAllocator) (s n : ℕ) (a' : BitmapAllocator) : Type 0 where
  pub marks : (j : ℕ) → is_used a' j ≡ (in_run s n j || is_used a j)
  pub size : length a'.bitmap.cells ≡ length a.bitmap.cells
  pub valid : IsValid a'

pub push_contexts : Context → List Frame → Context
push_contexts context [] = context
push_contexts context (f ∷ fs) = push_contexts (push_context context f) fs

take_pages-TakesRun :
    (n s : ℕ) (a : BitmapAllocator) (context : Context) (result : List Frame)
    → IsValid a
    → s + n ≤ total_bits a
    → AllFree a s n
    → let (result', a', context') = take_pages (pages s n) a context result in
      (result' ≡ result ++ map frame_of (pages s n))
      × TakesRun a s n a'
      × (context' ≡ push_contexts context (map frame_of (pages s n)))
unfolding take_pages push_contexts
take_pages-TakesRun zero s a context result v fits free =
    (sym (append-nil result), record { marks = λ j. ground arith; size = refl; valid = v }, refl)
take_pages-TakesRun (suc n) s a context result v fits free =
    let t = take_page-Takes a s v (omega arith) (free s (omega arith) (omega arith)) in
    let rest =
      take_pages-TakesRun n (s + 1) (take_page a s) (push_context context (s * 4096))
        (result ++ ((s * 4096) ∷ [])) t.valid (omega (arith, t.size))
        (λ j lo hi. ground (arith, t.marks j, free j)) in
    (
      rest.0 ∙ append_assoc result _ _,
      record {
        marks = λ j. ground (arith, rest.1.marks j, t.marks j);
        size = rest.1.size ∙ t.size;
        valid = rest.1.valid;
      },
      rest.2,
    )

AllFree-suc :
    (a : BitmapAllocator) (s n offset : ℕ)
    → s + n ≡ offset
    → AllFree a s n
    → is_used a offset ≡ false
    → AllFree a s (suc n)
AllFree-suc a s n offset e free last j lo hi = elim (Bool-cases (j == offset)) [
  | inl at ↦ rw (==→eq j offset at) last
  | inr other ↦ free j lo (omega (arith, ==→ne j offset other))
]

-- No run of `len` free pages ends at or before page `offset`.
abbrev NoRun : BitmapAllocator → ℕ → ℕ → Type 0
NoRun a len offset = (s : ℕ) → s + len ≤ offset → ¬ AllFree a s len

-- The run collected so far: free pages from `s` up to `offset`, fewer than `len`, and not to be
-- extended to the left.
record Collected (a : BitmapAllocator) (len s n offset : ℕ) : Type 0 where
  ends : s + n ≡ offset
  short : n < len
  free : AllFree a s n
  widest : (t : ℕ) → t < s → ¬ AllFree a t (offset - t)
  none_yet : NoRun a len offset

module _ (a : BitmapAllocator) (context : Context) (len : ℕ) (v : IsValid a) (pos : 0 < len) where
  allocate_run_from-used :
      (rounds offset : ℕ) (indices : List ℕ)
      → offset < total_bits a
      → is_used a offset ≡ true
      → allocate_run_from len (suc rounds) offset indices a context
        ≡ allocate_run_from len rounds (offset + 1) [] a context
  unfolding allocate_run_from
  allocate_run_from-used rounds offset indices h u =
      rw (mod-eq_of_lt h, allocate_run_from) (ground arith)

  Collected-used :
      {s n offset : ℕ}
      → Collected a len s n offset
      → is_used a offset ≡ true
      → Collected a len (offset + 1) 0 (offset + 1)
  Collected-used {offset} c u = record {
    ends = omega arith;
    short = pos;
    free = λ j lo hi. absurd (omega arith);
    widest = λ t ht all. cc (sym u ∙ all offset (omega arith) (omega arith));
    none_yet = λ t ht all. elim (Bool-cases (leb (t + len) offset)) [
      | inl before ↦ c.none_yet t (ground arith) all
      | inr at_end ↦ cc (sym u ∙ all offset (ground arith) (ground arith))
    ];
  }

  Collected-free :
      {s n offset : ℕ}
      → Collected a len s n offset
      → is_used a offset ≡ false
      → suc n ≢ len
      → Collected a len s (suc n) (offset + 1)
  Collected-free {s} {n} {offset} c f more = record {
    ends = omega (arith, c.ends);
    short = omega (arith, c.short);
    free = AllFree-suc a s n offset c.ends c.free f;
    widest = λ t ht all. c.widest t ht (λ j lo hi. all j lo (omega (arith, c.ends)));
    none_yet = λ t ht all. elim (Bool-cases (leb (t + len) offset)) [
      | inl before ↦ c.none_yet t (ground arith) all
      | inr at_end ↦
          let beyond = leb→gt (t + len) offset at_end in
          c.widest t (omega (arith, c.ends, c.short)) (λ j lo hi. all j lo (omega arith))
    ];
  }

-- What a call returns: the frames of a run of free pages, or nothing and an unchanged state when
-- there is no such run.
abbrev pub RunOutcome :
    BitmapAllocator → Context → ℕ → Option (List Frame) × BitmapAllocator × Context → Type 0
RunOutcome a context len out =
    ((s : ℕ) × (s + len ≤ total_bits a)
      × AllFree a s len
      × TakesRun a s len out.1
      × (out.0 ≡ some (map frame_of (pages s len)))
      × (out.2 ≡ push_contexts context (map frame_of (pages s len))))
    ⊎ (out ≡ (none, a, context)) × ((s : ℕ) → s + len ≤ total_bits a → ¬ AllFree a s len)

-- What the code returns when the `n` pages from `s` on are the run that it looked for.
abbrev found : BitmapAllocator → Context → ℕ → ℕ → Option (List Frame) × BitmapAllocator × Context
found a context s n =
    let (result, a', context') = take_pages (pages s n) a context [] in (some result, a', context')

found-RunOutcome :
    (a : BitmapAllocator) (context : Context) (s n : ℕ)
    → IsValid a
    → s + n ≤ total_bits a
    → AllFree a s n
    → RunOutcome a context n (found a context s n)
found-RunOutcome a context s n v fits free =
    let run = take_pages-TakesRun n s a context [] v fits free in
    inl (s, fits, free, run.1, ap some run.0, run.2)

module _ (a : BitmapAllocator) (context : Context) (len : ℕ) (v : IsValid a) (pos : 0 < len) where
  allocate_run_from-free :
      (rounds offset s n : ℕ)
      → offset < total_bits a
      → is_used a offset ≡ false
      → s + n ≡ offset
      → allocate_run_from len (suc rounds) offset (pages s n) a context ≡ (
          if suc n == len
          then found a context s (suc n)
          else allocate_run_from len rounds (offset + 1) (pages s (suc n)) a context)
  unfolding allocate_run_from
  allocate_run_from-free rounds offset s n h f e =
      let grown : pages s n ++ (offset ∷ []) ≡ pages s (suc n) = rw (← e) (pages-suc s n) in
      rw (
        mod-eq_of_lt h,
        not_skipped a offset f,
        f,
        grown,
        ap suc (length-pages (s + 1) n),
        allocate_run_from,
      )

  allocate_run_from-RunOutcome :
      (rounds offset s n : ℕ)
      → offset + rounds ≡ total_bits a
      → Collected a len s n offset
      → RunOutcome a context len (allocate_run_from len rounds offset (pages s n) a context)
  unfolding allocate_run_from
  allocate_run_from-RunOutcome zero offset s n e c = inr (refl, λ t ht. c.none_yet t (omega arith))
  allocate_run_from-RunOutcome (suc rounds) offset s n e c = elim (Bool-cases (is_used a offset)) [
    | inl u ↦
        rw (allocate_run_from-used a context len v pos rounds offset (pages s n) (omega arith) u) (
          allocate_run_from-RunOutcome rounds (offset + 1) (offset + 1) 0 (omega arith)
            (Collected-used a context len v pos c u))
    | inr f ↦ elim (Bool-cases (suc n == len)) [
      | inl done ↦
          rw (allocate_run_from-free rounds offset s n (omega arith) f c.ends, done)
            (subst (λ l. RunOutcome a context l (found a context s (suc n)))
              (==→eq (suc n) len done)
              (found-RunOutcome a context s (suc n) v (omega (arith, c.ends))
                (AllFree-suc a s n offset c.ends c.free f)))
      | inr more ↦
          rw (allocate_run_from-free rounds offset s n (omega arith) f c.ends, more)
            (allocate_run_from-RunOutcome rounds (offset + 1) s (suc n) (omega arith)
              (Collected-free a context len v pos c f (==→ne (suc n) len more)))
    ]
  ]

-- For a positive `len`, `allocate_continuous_frames` either takes `len` adjacent free pages and
-- returns their addresses in order, or there is no such run and it changes nothing.
pub allocate_continuous_frames-RunOutcome :
    (a : BitmapAllocator) (context : Context) (len : ℕ)
    → IsValid a
    → 0 < len
    → RunOutcome a context len (allocate_continuous_frames len a context)
unfolding allocate_continuous_frames
allocate_continuous_frames-RunOutcome a context len v pos =
    allocate_run_from-RunOutcome a context len v pos (total_bits a) 0 0 0 (omega arith) record {
      ends = omega arith;
      short = pos;
      free = λ j lo hi. absurd (omega arith);
      widest = λ t ht all. omega arith;
      none_yet = λ t ht all. omega arith;
    }
