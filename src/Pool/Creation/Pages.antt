-- ===== src/Pool/Creation/Pages.antt =====
-- The pages that `new` takes, and the buffers in them.
use dvida_oxide.Prelude.{
  ℕ, zero, suc, ◌+◌, ◌*◌, ◌/◌, ◌%◌, ◌≤◌, ◌<◌, ◌≡◌, ◌⊎◌, inl, inr, refl, sym, ap, subst, ◌∙◌, ◌≢◌,
  ◌==◌, ==→eq, ==→ne, true, false, ◌&&◌, Bool-cases, leb, Option, none, some, get_or, set, length,
  length-set, get_or-set_self, get_or-set_ne, replicate, length-replicate, leb→gt, leb→le, min,
  arith,
}
use native.Mathlib.Decide.{dec_lt}
use dvida_oxide.Memory.Frames.{BitmapAllocator, total_bits, take_page, Frame, Context}
use dvida_oxide.Memory.Frames.Single.{IsValid, Takes, is_used, allocate_frame-Outcome}
use dvida_oxide.Gpt.{power_below}
use dvida_oxide.Pool.{DiskIoBufferPool}
use dvida_oxide.Pool.Creation.{Filling, fill_page, fill_pages, frame_count, new}

module _ (hhdm size : ℕ) (a0 : BitmapAllocator) where
  -- The buffer lies in a page that was free at first and is in use.
  abbrev Placed : BitmapAllocator → ℕ → Type 0
  Placed a buffer =
      (p : ℕ) × (is_used a0 p ≡ false)
      × (is_used a p ≡ true)
      × (hhdm + p * 4096 ≤ buffer)
      × (buffer + size ≤ hhdm + p * 4096 + 4096)

  abbrev Apart : ℕ → ℕ → Type 0
  Apart b c = (b + size ≤ c) ⊎ (c + size ≤ b)

  pub record Filled (a : BitmapAllocator) (s : Filling) : Type 0 where
    pub whole : length s.buffers ≡ 64
    pub inside : s.idx ≤ 64
    pub grows : (j : ℕ) → is_used a0 j ≡ true → is_used a j ≡ true
    pub placed : (j : ℕ) → j < s.idx → Placed a (get_or s.buffers j 0)
    pub apart : (j k : ℕ) → j < k → k < s.idx → Apart (get_or s.buffers j 0) (get_or s.buffers k 0)

  -- The buffers so far lie outside a range.
  abbrev Outside : ℕ → ℕ → Filling → Type 0
  Outside from to s =
      (j : ℕ) → j < s.idx → (get_or s.buffers j 0 + size ≤ from) ⊎ (to ≤ get_or s.buffers j 0)

  fill_page-Filled :
      (a : BitmapAllocator) (p : ℕ)
      → is_used a0 p ≡ false
      → is_used a p ≡ true
      → (rounds i : ℕ) (s : Filling) → i * size + rounds * size ≤ 4096
      → Filled a s
      → Outside (hhdm + p * 4096 + i * size) (hhdm + p * 4096 + 4096) s
      → Filled a (fill_page rounds (hhdm + p * 4096) size i s)
  unfolding fill_page
  fill_page-Filled a p fresh used zero i s room F out = F
  fill_page-Filled a p fresh used (suc rounds) i s room F out = elim (Bool-cases (leb 64 s.idx)) [
    | inl e ↦ rw e F
    | inr e ↦
        let here : ℕ = hhdm + p * 4096 + i * size in
        let s1 : Filling = record { buffers = set s.buffers s.idx here; idx = s.idx + 1 } in
        let low : s.idx < 64 = leb→gt 64 s.idx e in
        let new_one : get_or s1.buffers s.idx 0 ≡ here =
          get_or-set_self s.buffers s.idx here 0 (omega (arith, F.whole, low)) in
        let old_one : (j : ℕ) → j < s.idx → get_or s1.buffers j 0 ≡ get_or s.buffers j 0 =
          λ j h. get_or-set_ne s.buffers s.idx j here 0 (λ q. omega (arith, h, q)) in
        rw e (
          fill_page-Filled a p fresh used rounds (i + 1) s1 (omega arith)
            (record {
              whole = length-set s.buffers s.idx here ∙ F.whole;
              inside = omega (arith, low);
              grows = F.grows;
              placed = λ j h. elim (Bool-cases (j == s.idx)) [
                | inl q ↦
                    let now : get_or s1.buffers j 0 ≡ here =
                      ap (λ t. get_or s1.buffers t 0) (==→eq j s.idx q) ∙ new_one in
                    (p, fresh, used, omega (arith, now), omega (arith, now, room))
                | inr q ↦
                    let before : j < s.idx = omega (arith, h, ==→ne j s.idx q) in
                    subst (Placed a) (sym (old_one j before)) (F.placed j before)
              ];
              apart = λ j k h l. elim (Bool-cases (k == s.idx)) [
                | inl q ↦
                    let kq : k ≡ s.idx = ==→eq k s.idx q in
                    let now : get_or s1.buffers k 0 ≡ here =
                      ap (λ t. get_or s1.buffers t 0) kq ∙ new_one in
                    let before : j < s.idx = omega (arith, h, kq) in
                    elim (out j before) [
                      | inl o ↦ inl (omega (arith, o, now, old_one j before))
                      | inr o ↦ inr (omega (arith, o, now, old_one j before, room))
                    ]
                | inr q ↦
                    let k_before : k < s.idx = omega (arith, l, ==→ne k s.idx q) in
                    let before : j < s.idx = omega (arith, h, k_before) in
                    let both : Apart (get_or s.buffers j 0) (get_or s.buffers k 0) =
                      F.apart j k h k_before in
                    elim both [
                      | inl o ↦ inl (omega (arith, o, old_one j before, old_one k k_before))
                      | inr o ↦ inr (omega (arith, o, old_one j before, old_one k k_before))
                    ]
              ];
            })
            (λ j h. elim (Bool-cases (j == s.idx)) [
              | inl q ↦
                  let now : get_or s1.buffers j 0 ≡ here =
                    ap (λ t. get_or s1.buffers t 0) (==→eq j s.idx q) ∙ new_one in
                  inl (omega (arith, now))
              | inr q ↦
                  let before : j < s.idx = omega (arith, h, ==→ne j s.idx q) in
                  elim (out j before) [
                    | inl o ↦ inl (omega (arith, o, old_one j before))
                    | inr o ↦ inr (omega (arith, o, old_one j before))
                  ]
            ]))
  ]

  fill_page-idx :
      (rounds addr i : ℕ) (s : Filling)
      → s.idx ≤ 64
      → (fill_page rounds addr size i s).idx ≡ min 64 (s.idx + rounds)
  unfolding fill_page
  fill_page-idx zero addr i s low = omega arith
  fill_page-idx (suc rounds) addr i s low = elim (Bool-cases (leb 64 s.idx)) [
    | inl e ↦ rw e (omega (arith, leb→le 64 s.idx e))
    | inr e ↦ rw e (
        fill_page-idx rounds addr (i + 1) _ (omega (arith, leb→gt 64 s.idx e))
        ∙ omega (arith, leb→gt 64 s.idx e))
  ]

  -- The allocator with one more page in use.
  taken-Filled :
      (a : BitmapAllocator) (p : ℕ) (s : Filling)
      → Takes a p (take_page a p)
      → Filled a s
      → Filled (take_page a p) s
  taken-Filled a p s T F =
      let more : (j : ℕ) → is_used a j ≡ true → is_used (take_page a p) j ≡ true =
        λ j h. ground (arith, T.marks j, h) in
      record {
        whole = F.whole;
        inside = F.inside;
        grows = λ j h. more j (F.grows j h);
        placed =
            λ j h. let (q, fresh, used, lo, hi) = F.placed j h in (q, fresh, more q used, lo, hi);
        apart = F.apart;
      }

  -- The buffers so far lie outside a page that is free.
  taken-Outside :
      (a : BitmapAllocator) (p : ℕ) (s : Filling)
      → is_used a p ≡ false
      → Filled a s
      → Outside (hhdm + p * 4096 + 0 * size) (hhdm + p * 4096 + 4096) s
  taken-Outside a p s free F j h =
      let (q, fresh, used, lo, hi) = F.placed j h in
      let differ : q ≢ p =
        λ e. let bad : true ≡ false = sym used ∙ ap (is_used a) e ∙ free in cc bad in
      elim (dec_lt q p) [ yes l ↦ inl (omega arith) | no l ↦ inr (omega arith) ]

  module _ (per : ℕ) (fits : per * size ≡ 4096) (count : 4096 / size ≡ per) where
    -- What the loop over the pages leaves: buffers in pages of their own, or no page that is free.
    pub PagesOutcome : ℕ → Filling → Option Filling × BitmapAllocator → Type 0
    PagesOutcome frames s out =
        ((s' : Filling) × (a' : BitmapAllocator) × (out ≡ (some s', a'))
          × IsValid a'
          × Filled a' s'
          × (s'.idx ≡ min 64 (s.idx + frames * per)))
        ⊎ ((a' : BitmapAllocator) × (out ≡ (none, a'))
            × ((j : ℕ) → j < total_bits a' → is_used a' j ≡ true))

    -- The rest of `fill_pages` behind the call of the allocator.
    abbrev next :
        ℕ → Filling → Option Frame × BitmapAllocator × Context → Option Filling × BitmapAllocator
    next frames s (frame, a', context) = elim frame [
      | none ↦ (none, a')
      | some f ↦ fill_pages hhdm size frames a' (fill_page (4096 / size) (hhdm + f) size 0 s)
    ]

    fill_pages-Outcome :
        (frames : ℕ) (a : BitmapAllocator) (s : Filling)
        → IsValid a
        → Filled a s
        → PagesOutcome frames s (fill_pages hhdm size frames a s)
    unfolding fill_pages PagesOutcome
    fill_pages-Outcome zero a s v F = inl (s, a, refl, v, F, omega (arith, F.inside))
    fill_pages-Outcome (suc frames) a s v F = elim (allocate_frame-Outcome a none v) [
      | inr (e, all) ↦ inr (a, ap (next frames s) e, all)
      | inl (p, T, e) ↦
          let a1 : BitmapAllocator = take_page a p in
          let s1 : Filling = fill_page (4096 / size) (hhdm + p * 4096) size 0 s in
          let fresh : is_used a0 p ≡ false = elim (Bool-cases (is_used a0 p)) [
            | inl q ↦ let bad : true ≡ false = sym (F.grows p q) ∙ T.was_free in absurd (cc bad)
            | inr q ↦ q
          ] in
          let F1 : Filled a1 s1 =
            fill_page-Filled a1 p fresh (ground (arith, T.marks p)) (4096 / size) 0 s
              (omega (arith, fits, ap (λ t. t * size) count)) (taken-Filled a p s T F)
              (taken-Outside a p s T.was_free F) in
          let idx1 : s1.idx ≡ min 64 (s.idx + per) =
            fill_page-idx (4096 / size) _ 0 s F.inside ∙ ap (λ t. min 64 (s.idx + t)) count in
          let step : fill_pages hhdm size (suc frames) a s ≡ fill_pages hhdm size frames a1 s1 =
            ap (next frames s) e in
          elim (fill_pages-Outcome frames a1 s1 T.valid F1) [
            | inl (s', a', q, v', F', idx') ↦
                inl (s', a', step ∙ q, v', F', omega (arith, idx', idx1))
            | inr (a', q, all) ↦ inr (a', step ∙ q, all)
          ]
    ]

-- What `new` leaves: a pool with nothing out and 64 buffers, or no page that is free.
pub Creates : ℕ → ℕ → BitmapAllocator → Option DiskIoBufferPool × BitmapAllocator → Type 0
Creates hhdm size a out =
    ((pool : DiskIoBufferPool) × (a' : BitmapAllocator) × (out ≡ (some pool, a'))
      × IsValid a'
      × (pool.mask ≡ 0)
      × Filled hhdm size a a' (record { buffers = pool.buffers; idx = 64 }))
    ⊎ ((a' : BitmapAllocator) × (out ≡ (none, a'))
        × ((j : ℕ) → j < total_bits a' → is_used a' j ≡ true))

created :
    (hhdm size per : ℕ) (a : BitmapAllocator)
    → per * size ≡ 4096
    → 4096 / size ≡ per
    → 64 ≤ frame_count size * per
    → ((4096 % size == 0) && leb size 4096 && power_below 64 size) ≡ true
    → IsValid a
    → Creates hhdm size a (new hhdm size a)
unfolding Creates new PagesOutcome
created hhdm size per a fits count enough right v =
    let start : Filling = record { buffers = replicate 64 0; idx = 0 } in
    let F : Filled hhdm size a a start = record {
      whole = length-replicate {A = ℕ} 64 0;
      inside = omega arith;
      grows = λ j h. h;
      placed = λ j h. absurd (omega arith);
      apart = λ j k h l. absurd (omega arith);
    } in
    elim (fill_pages-Outcome hhdm size a per fits count (frame_count size) a start v F) [
      | inl (s', a', q, v', F', idx') ↦
          let full : s'.idx ≡ 64 = omega (arith, idx', enough) in
          inl (
            record { buffers = s'.buffers; mask = 0 },
            a',
            rw (right, q, new) refl,
            v',
            refl,
            subst (λ t. Filled hhdm size a a' (record { buffers = s'.buffers; idx = t })) full F',
          )
      | inr (a', q, all) ↦ inr (a', rw (right, q, new) refl, all)
    ]

-- For the two sizes of the program and a valid allocator: `new` makes a pool with nothing out, whose 64
-- buffers lie in pages that were free and are in use now, no two of them overlap and the pages in use stay
-- so; or, without a page that is free, it panics.
pub new-Creates :
    (hhdm size : ℕ) (a : BitmapAllocator)
    → (size ≡ 4096) ⊎ (size ≡ 512)
    → IsValid a
    → Creates hhdm size a (new hhdm size a)
unfolding frame_count power_below
new-Creates hhdm size a (inl e) v =
    subst (λ n. Creates hhdm n a (new hhdm n a)) (sym e)
      (created hhdm 4096 1 a refl refl (omega arith) refl v)
new-Creates hhdm size a (inr e) v =
    subst (λ n. Creates hhdm n a (new hhdm n a)) (sym e)
      (created hhdm 512 8 a refl refl (omega arith) refl v)
