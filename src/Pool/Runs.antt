-- ===== src/Pool/Runs.antt =====
-- The buffers that are out, over all the gets and drops of a pool.
use dvida_oxide.Prelude.{
  ℕ, zero, suc, ◌+◌, ◌-◌, ◌/◌, ◌%◌, ◌^◌, ◌≤◌, ◌<◌, ◌≡◌, ◌⊎◌, inl, inr, refl, sym, ap, subst, ◌∙◌,
  ◌==◌, ==→eq, ==→ne, Bool-cases, ltb, ltb→lt, ltb→le, lt→ltb, le→ltb, Option, none, some, List, [],
  ◌∷◌, get_or, get_elem?, bit_or, arith,
}
use dvida_oxide.Prelude.Words.{
  bit, bit-lt, bit-bit_and, bit-bit_or, bit_power_self, bit_power_other, bit-complement, power_lt,
  zero_bit,
}
use dvida_oxide.Pool.{
  DiskIoBufferPool, DiskIoBufferPoolHandle, trailing_ones, take, fetch_update, drop_mask,
  get_buffer, drop_handle, handle_for,
}
use dvida_oxide.Pool.Held.{is_at, count, remove, count-remove, Backed, AllBacked, AllBacked-at}

-- The first bit that is off.
pub trailing_ones-bit : (w val : ℕ) → trailing_ones w val < w → bit val (trailing_ones w val) ≡ 0
unfolding trailing_ones
trailing_ones-bit zero val h = absurd (omega arith)
trailing_ones-bit (suc w) val h = elim (Bool-cases (val % 2 == 1)) [
  | inl e ↦
      let low : trailing_ones w (val / 2) < w =
        let same : trailing_ones (suc w) val ≡ suc (trailing_ones w (val / 2)) = rw e refl in
        omega (arith, same, h) in
      rw e (trailing_ones-bit w (val / 2) low)
  | inr e ↦ rw e (omega (arith, ==→ne (val % 2) 1 e))
]

-- With a bit that is off the last call decides.
fetch_update-take :
    (seen : List ℕ) (mask : ℕ) (result : Option ℕ)
    → trailing_ones 64 mask < 64
    → fetch_update seen mask result
      ≡ (some (trailing_ones 64 mask), bit_or mask (2 ^ trailing_ones 64 mask))
unfolding fetch_update take
fetch_update-take [] mask result h = rw (lt→ltb (trailing_ones 64 mask) 64 h) refl
fetch_update-take (val ∷ seen) mask result h = fetch_update-take seen mask _ h

fetch_update-full :
    (mask : ℕ) → 64 ≤ trailing_ones 64 mask → fetch_update [] mask none ≡ (none, mask)
unfolding fetch_update take
fetch_update-full mask h = rw (le→ltb (trailing_ones 64 mask) 64 h) refl

module _ {ℓ} {H : Type ℓ} (alloc : H → ℕ × H) (dealloc : ℕ → H → H) where
  -- The pool with the heap and the handles that are out.
  pub record PoolState : Type ℓ where
    pub pool : DiskIoBufferPool
    pub heap : H
    pub held : List DiskIoBufferPoolHandle

  abbrev with_handle : DiskIoBufferPoolHandle × DiskIoBufferPool × H → PoolState → PoolState
  with_handle (handle, pool, heap) s = record { pool = pool; heap = heap; held = handle ∷ s.held }

  abbrev pub got : List ℕ → PoolState → PoolState
  got seen s = with_handle (get_buffer alloc dealloc seen s.pool s.heap) s

  abbrev without_handle : ℕ → DiskIoBufferPool × H → PoolState → PoolState
  without_handle n (pool, heap) s = record { pool = pool; heap = heap; held = remove s.held n }

  abbrev pub dropped : ℕ → DiskIoBufferPoolHandle → PoolState → PoolState
  dropped n handle s = without_handle n (drop_handle alloc dealloc handle s.pool s.heap) s

  -- A buffer is taken, where no other processor comes in between or one is left for the last attempt; or
  -- one of the handles is dropped.
  pub data Step (s : PoolState) : PoolState → Type ℓ where
    get : (seen : List ℕ) → (seen ≡ []) ⊎ (trailing_ones 64 s.pool.mask < 64) → Step s (got seen s)
    drop :
        (n : ℕ) (handle : DiskIoBufferPoolHandle)
        → get_elem? s.held n ≡ some handle
        → Step s (dropped n handle s)

  pub data Reach (s : PoolState) : PoolState → Type ℓ where
    here : Reach s s
    later : {t u : PoolState} → Reach s t → Step t u → Reach s u

  -- A bit is on where a handle has its buffer, and only one has.
  pub record Accounted (s : PoolState) : Type ℓ where
    pub counts : (j : ℕ) → j < 64 → count j s.held ≡ bit s.pool.mask j
    pub backed : AllBacked s.pool.buffers s.held

  get_buffer-taken :
      (seen : List ℕ) (pool : DiskIoBufferPool) (heap : H)
      → trailing_ones 64 pool.mask < 64
      → (let i : ℕ = trailing_ones 64 pool.mask in
          get_buffer alloc dealloc seen pool heap ≡ (
            record { idx = some i; inner = get_or pool.buffers i 0 },
            record pool { mask = bit_or pool.mask (2 ^ i) },
            heap,
          ))
  unfolding get_buffer handle_for
  get_buffer-taken seen pool heap h =
      ap (λ r. handle_for alloc dealloc r pool heap) (fetch_update-take seen pool.mask none h)

  get_buffer-full :
      (pool : DiskIoBufferPool) (heap : H)
      → 64 ≤ trailing_ones 64 pool.mask
      → get_buffer alloc dealloc [] pool heap
        ≡ (record { idx = none; inner = (alloc heap).0 }, pool, (alloc heap).1)
  unfolding get_buffer handle_for
  get_buffer-full pool heap h =
      ap (λ r. handle_for alloc dealloc r pool heap) (fetch_update-full pool.mask h)

  taken-counts :
      (s : PoolState)
      → Accounted s
      → (i : ℕ) → bit s.pool.mask i ≡ 0
      → (j : ℕ) → j < 64
      → is_at j (some i) + count j s.held ≡ bit (bit_or s.pool.mask (2 ^ i)) j
  taken-counts s a i off j h = elim (Bool-cases (i == j)) [
    | inl e ↦
        let ij : i ≡ j = ==→eq i j e in
        let on : bit (2 ^ i) j ≡ 1 = ap (bit (2 ^ i)) (sym ij) ∙ bit_power_self i in
        let off_j : bit s.pool.mask j ≡ 0 = ap (bit s.pool.mask) (sym ij) ∙ off in
        rw e (omega (arith, bit-bit_or s.pool.mask (2 ^ i) j, a.counts j h, on, off_j))
    | inr e ↦ rw e (
        omega (
          arith,
          bit-bit_or s.pool.mask (2 ^ i) j,
          a.counts j h,
          bit_power_other i j (==→ne i j e),
        ))
  ]

  get-Accounted :
      (seen : List ℕ) (s : PoolState)
      → (seen ≡ []) ⊎ (trailing_ones 64 s.pool.mask < 64)
      → Accounted s
      → Accounted (got seen s)
  unfolding AllBacked count
  get-Accounted seen s ok a =
      let i : ℕ = trailing_ones 64 s.pool.mask in
      elim (Bool-cases (ltb i 64)) [
        | inl e ↦
            let low : i < 64 = ltb→lt i 64 e in
            subst (λ t. Accounted (with_handle t s)) (sym (get_buffer-taken seen s.pool s.heap low))
              (record {
                counts = taken-counts s a i (trailing_ones-bit 64 s.pool.mask low);
                backed = ((low, refl), a.backed);
              })
        | inr e ↦ elim ok [
          | inr low ↦ absurd (omega (arith, low, ltb→le i 64 e))
          | inl none_seen ↦
              subst (λ t. Accounted (got t s)) (sym none_seen)
                (subst (λ t. Accounted (with_handle t s))
                  (sym (get_buffer-full s.pool s.heap (ltb→le i 64 e)))
                  (record { counts = λ j h. omega (arith, a.counts j h); backed = (tt, a.backed) }))
        ]
      ]

  dropped-counts :
      (s : PoolState)
      → Accounted s
      → (n : ℕ) (h : DiskIoBufferPoolHandle) → get_elem? s.held n ≡ some h
      → (i : ℕ) → h.idx ≡ some i
      → i < 64
      → (j : ℕ) → j < 64
      → count j (remove s.held n) ≡ bit (drop_mask i s.pool.mask) j
  unfolding drop_mask
  dropped-counts s a n h at i is low j hj =
      let all = count-remove j n s.held h at in
      let one = ap (is_at j) is in
      let and_bit = bit-bit_and s.pool.mask (2 ^ 64 - 1 - 2 ^ i) j in
      let flip = bit-complement 64 (2 ^ i) j (power_lt i 64 low) hj in
      elim (Bool-cases (i == j)) [
        | inl e ↦
            let ij : i ≡ j = ==→eq i j e in
            let on : bit (2 ^ i) j ≡ 1 = ap (bit (2 ^ i)) (sym ij) ∙ bit_power_self i in
            let here : is_at j (some i) ≡ 1 = rw e refl in
            omega (arith, all, one, here, and_bit, flip, on, a.counts j hj, bit-lt s.pool.mask j)
        | inr e ↦
            let here : is_at j (some i) ≡ 0 = rw e refl in
            omega (
              arith,
              all,
              one,
              here,
              and_bit,
              flip,
              bit_power_other i j (==→ne i j e),
              a.counts j hj,
              bit-lt s.pool.mask j,
            )
      ]

  drop-Accounted :
      (n : ℕ) (h : DiskIoBufferPoolHandle) (s : PoolState)
      → get_elem? s.held n ≡ some h
      → Accounted s
      → (o : Option ℕ) → h.idx ≡ o
      → Accounted (dropped n h s)
  unfolding drop_handle
  drop-Accounted n h s at a none is =
      let (b, bs) = AllBacked-at s.pool.buffers s.held n h at a.backed in
      rw is (record {
        counts =
            λ j hj. omega (arith, count-remove j n s.held h at, ap (is_at j) is, a.counts j hj);
        backed = bs;
      })
  drop-Accounted n h s at a (some i) is =
      let (b, bs) = AllBacked-at s.pool.buffers s.held n h at a.backed in
      let low = subst (λ o. Backed s.pool.buffers o h.inner) is b in
      rw is (record { counts = dropped-counts s a n h at i is low.0; backed = bs })

  reach-Accounted : {s t : PoolState} → Accounted s → Reach s t → Accounted t
  reach-Accounted a here = a
  reach-Accounted a (later {t} r (get seen ok)) = get-Accounted seen t ok (reach-Accounted a r)
  reach-Accounted a (later {t} r (drop n h at)) =
      drop-Accounted n h t at (reach-Accounted a r) h.idx refl

  -- Nothing is out.
  abbrev pub start : List ℕ → H → PoolState
  start buffers heap = record {
    pool = record { buffers = buffers; mask = 0 };
    heap = heap;
    held = [];
  }

  start-Accounted : (buffers : List ℕ) (heap : H) → Accounted (start buffers heap)
  unfolding count AllBacked
  start-Accounted buffers heap = record { counts = λ j h. sym (zero_bit j); backed = tt }

  -- However the processors take and drop buffers of a pool of which none is out at first, if no one takes
  -- the last buffer between the attempts of another: for each of the 64 bits of the mask, it is on exactly
  -- if a handle with its index is out, there is at most one, and every handle with an index has the buffer
  -- of that index.
  pub exclusive :
      (buffers : List ℕ) (heap : H) {t : PoolState}
      → Reach (start buffers heap) t
      → (j : ℕ) → j < 64
      → (count j t.held ≡ bit t.pool.mask j)
        × (count j t.held ≤ 1)
        × AllBacked t.pool.buffers t.held
  exclusive buffers heap {t} r j h =
      let a = reach-Accounted (start-Accounted buffers heap) r in
      (a.counts j h, omega (arith, a.counts j h, bit-lt t.pool.mask j), a.backed)
