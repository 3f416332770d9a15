-- ===== src/Memory/Frames/Single.antt =====
-- `allocate_frame` and `free_frames`.
use dvida_oxide.Prelude.{
  ℕ, zero, suc, ◌+◌, ◌-◌, ◌*◌, ◌/◌, ◌%◌, ◌≤◌, ◌<◌, ◌≡◌, refl, ◌∙◌, sym, ap, inl, inr, Bool, true,
  false, ◌&&◌, ◌||◌, Option, none, some, [], ◌∷◌, length, get_elem?, get_or, set, length-set,
  set-set, get_or-set_self, get_elem?-eq-get_or, set-get_or, ◌==◌, Bool-cases, arith, ltb, ==→eq,
  ==→ne, ltb→lt, ltb→le, subst, ◌⊎◌,
}
use native.Mathlib.Nat.{mod-lt, mod-eq_of_lt, mod-eq-sub-mod}
use dvida_oxide.Prelude.Bytes.{bit_set, bit_clear, bit_set-lt, bit_clear-bit_set, bit_test_full}
use dvida_oxide.Memory.Bitmap.{used}
use dvida_oxide.Memory.Bitmap.Laws.{AreBytes, get_or-lt, set-AreBytes, used-bit_set}
use dvida_oxide.Memory.Frames.{
  BitmapAllocator, Frame, Context, push_context, with_cells, free_frames, total_bits, take_page,
  allocate_from, allocate_frame,
}

abbrev pub is_used : BitmapAllocator → ℕ → Bool
is_used a j = used a.bitmap.cells j

-- A bitmap of bytes, with the next page to try inside it.
pub record IsValid (a : BitmapAllocator) : Type 0 where
  pub bytes : AreBytes a.bitmap.cells
  pub next_in : a.next < total_bits a

-- Page `i` was free; it alone becomes used, and the search goes on behind it.
pub record Takes (a : BitmapAllocator) (i : ℕ) (a' : BitmapAllocator) : Type 0 where
  pub inside : i < total_bits a
  pub was_free : is_used a i ≡ false
  pub marks : (j : ℕ) → is_used a' j ≡ (j == i || is_used a j)
  pub size : length a'.bitmap.cells ≡ length a.bitmap.cells
  pub valid : IsValid a'
  pub after : a'.next ≡ (i + 1) % total_bits a

pub take_page-Takes :
    (a : BitmapAllocator) (i : ℕ)
    → IsValid a
    → i < total_bits a
    → is_used a i ≡ false
    → Takes a i (take_page a i)
take_page-Takes a i v h free =
    let cells = a.bitmap.cells in
    let here : i / 8 < length cells = omega arith in
    let b = get_or cells (i / 8) 0 in
    let size' = length-set cells (i / 8) (bit_set b (i % 8)) in
    record {
      inside = h;
      was_free = free;
      marks = used-bit_set cells v.bytes i here;
      size = size';
      valid = record {
        bytes =
            set-AreBytes cells (i / 8) _ v.bytes
              (bit_set-lt b (i % 8) (get_or-lt cells (i / 8) v.bytes) (omega arith));
        next_in = rw size' (mod-lt (i + 1) (omega arith));
      };
      after = refl;
    }

-- What a call returns: a free page, or nothing and an unchanged state when `none_free` holds.
abbrev pub Outcome :
    BitmapAllocator → Context → Type 0 → Option Frame × BitmapAllocator × Context → Type 0
Outcome a context none_free out =
    ((i : ℕ) × Takes a i (take_page a i)
      × (out ≡ (some (i * 4096), take_page a i, push_context context (i * 4096))))
    ⊎ ((out ≡ (none, a, context)) × none_free)

pub skipped_used :
    (a : BitmapAllocator) (i : ℕ)
    → (i % 8 == 0 && get_or a.bitmap.cells (i / 8) 0 == 255) ≡ true
    → is_used a i ≡ true
skipped_used a i h =
    let full = bit_test_full (i % 8) (omega arith) in
    rw (==→eq (get_or a.bitmap.cells (i / 8) 0) 255 (ground arith), full)

pub not_skipped :
    (a : BitmapAllocator) (i : ℕ)
    → is_used a i ≡ false
    → (i % 8 == 0 && get_or a.bitmap.cells (i / 8) 0 == 255) ≡ false
not_skipped a i h = elim (Bool-cases (i % 8 == 0 && get_or a.bitmap.cells (i / 8) 0 == 255)) [
  | inl full ↦ cc (skipped_used a i full)
  | inr open_byte ↦ open_byte
]

module _ (a : BitmapAllocator) (context : Context) (v : IsValid a) where
  abbrev tried : ℕ → ℕ
  tried k = (a.next + k) % total_bits a

  allocate_from-used :
      (rounds offset : ℕ)
      → is_used a (tried offset) ≡ true
      → allocate_from (suc rounds) offset a context ≡ allocate_from rounds (offset + 1) a context
  unfolding allocate_from
  allocate_from-used rounds offset h = ground arith

  allocate_from-free :
      (rounds offset : ℕ)
      → is_used a (tried offset) ≡ false
      → allocate_from (suc rounds) offset a context ≡ (
        some (tried offset * 4096),
        take_page a (tried offset),
        push_context context (tried offset * 4096),
      )
  unfolding allocate_from
  allocate_from-free rounds offset h = ground (arith, skipped_used a (tried offset))

  AllUsed : ℕ → ℕ → Type 0
  AllUsed rounds offset = (k : ℕ) → offset ≤ k → k < offset + rounds → is_used a (tried k) ≡ true

  AllUsed-suc :
      (rounds offset : ℕ)
      → is_used a (tried offset) ≡ true
      → AllUsed rounds (offset + 1)
      → AllUsed (suc rounds) offset
  unfolding AllUsed
  AllUsed-suc rounds offset now later k lo hi = elim (Bool-cases (k == offset)) [
    | inl e ↦ rw (==→eq k offset e) now
    | inr e ↦ later k (omega (arith, ==→ne k offset e)) (omega arith)
  ]

  allocate_from-Outcome :
      (rounds offset : ℕ)
      → Outcome a context (AllUsed rounds offset) (allocate_from rounds offset a context)
  unfolding allocate_from AllUsed
  allocate_from-Outcome zero offset = inr (refl, λ k lo hi. absurd (omega arith))
  allocate_from-Outcome (suc rounds) offset = elim (Bool-cases (is_used a (tried offset))) [
    | inl now ↦
        rw (allocate_from-used rounds offset now)
          (elim (allocate_from-Outcome rounds (offset + 1)) [
            | inl found ↦ inl found
            | inr (e, later) ↦ inr (e, AllUsed-suc rounds offset now later)
          ])
    | inr free ↦ inl (
      tried offset,
      take_page-Takes a (tried offset) v (mod-lt (a.next + offset) (omega arith)) free,
      allocate_from-free rounds offset free,
    )
  ]

-- The pages tried, from `next` on round the bitmap, are all pages.
tried_all :
    (next total j : ℕ) → next < total → j < total → (k : ℕ) × (k < total) × ((next + k) % total ≡ j)
tried_all next total j hn hj = elim (Bool-cases (ltb j next)) [
  | inl below ↦ (j + total - next, omega (arith, ltb→lt j next below), round)
  | inr above ↦ (j - next, omega (arith, ltb→le j next above), straight (ltb→le j next above))
]
  where
    round : (next + (j + total - next)) % total ≡ j
    round =
        let e : next + (j + total - next) ≡ j + total = omega arith in
        let less : j + total - total ≡ j = omega arith in
        rw e (mod-eq-sub-mod {n = j + total} {m = total} (omega arith) ∙ rw less (mod-eq_of_lt hj))

    straight : next ≤ j → (next + (j - next)) % total ≡ j
    straight h = let e : next + (j - next) ≡ j = omega arith in rw e (mod-eq_of_lt hj)

-- `allocate_frame` either takes one free page, returned by its address and pushed to the context,
-- or finds every page of the bitmap used and changes nothing.
pub allocate_frame-Outcome :
    (a : BitmapAllocator) (context : Context)
    → IsValid a
    → Outcome a context ((j : ℕ) → j < total_bits a → is_used a j ≡ true) (allocate_frame a context)
unfolding allocate_frame AllUsed
allocate_frame-Outcome a context v = elim (allocate_from-Outcome a context v (total_bits a) 0) [
  | inl found ↦ inl found
  | inr (e, all) ↦ inr (
    e,
    λ j hj.
        let (k, hk, at) = tried_all a.next (total_bits a) j v.next_in hj in
        subst (λ i. is_used a i ≡ true) at (all k (omega arith) (omega arith)),
  )
]

free_frames-take_page :
    (a : BitmapAllocator) (i : ℕ)
    → IsValid a
    → Takes a i (take_page a i)
    → free_frames ((i * 4096) ∷ []) (take_page a i)
      ≡ some (with_cells (take_page a i) a.bitmap.cells)
unfolding free_frames
free_frames-take_page a i v t =
    let cells = a.bitmap.cells in
    let b = get_or cells (i / 8) 0 in
    let b' = bit_set b (i % 8) in
    let here : i / 8 < length cells = omega (arith, t.inside) in
    let page : i * 4096 / 4096 ≡ i = omega arith in
    let read : get_elem? (set cells (i / 8) b') (i / 8) ≡ some b' =
      get_elem?-eq-get_or (set cells (i / 8) b') (i / 8) 0 (rw (length-set cells (i / 8) b') here)
      ∙ ap some (get_or-set_self cells (i / 8) b' 0 here) in
    let back : bit_clear b' (i % 8) ≡ b =
      bit_clear-bit_set b (i % 8) (get_or-lt cells (i / 8) v.bytes) (omega arith) t.was_free in
    rw (
      page,
      read,
      page,
      set-set cells (i / 8) b' (bit_clear b' (i % 8)),
      back,
      set-get_or cells (i / 8) 0,
      free_frames,
    )

-- A frame that is allocated and then freed leaves the bitmap as it was.
pub free_frames-allocate_frame :
    (a : BitmapAllocator) (context : Context) (f : Frame) (a' : BitmapAllocator)
    (context' : Context)
    → IsValid a
    → allocate_frame a context ≡ (some f, a', context')
    → free_frames (f ∷ []) a' ≡ some (record a' { bitmap = a.bitmap })
free_frames-allocate_frame a context f a' context' v e = elim (allocate_frame-Outcome a context v) [
  | inl (i, t, eq) ↦
      let same : a' ≡ take_page a i = ap (λ r. r.1) (sym e ∙ eq) in
      let frame : f ≡ i * 4096 = cc (ap (λ r. r.0) (sym e ∙ eq)) in
      rw (same, frame) (free_frames-take_page a i v t)
  | inr (eq, all) ↦ cc (ap (λ r. r.0) (sym e ∙ eq))
]
