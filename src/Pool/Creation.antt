-- ===== src/Pool/Creation.antt =====
-- kernel/src/ejcineque/pools/mod.rs, `new`: the buffers of a pool, in pages of the frame allocator. An
-- address is `get_hhdm_offset`, a parameter, and the address of a frame.
pub mod Pages
mod Tests
use dvida_oxide.Prelude.{
  ℕ, zero, suc, ◌+◌, ◌-◌, ◌*◌, ◌/◌, ◌%◌, ◌^◌, ◌≤◌, ◌<◌, ◌≡◌, ◌⊎◌, inl, inr, refl, sym, ap, subst,
  ◌∙◌, ◌≢◌, ◌==◌, ==→eq, ==→ne, Bool, true, false, ◌&&◌, Bool-cases, ltb, leb, if◌then◌else◌,
  Option, none, some, List, [], ◌∷◌, get_or, set, length, length-set, get_or-set_self,
  get_or-set_ne, replicate, length-replicate, leb→gt, leb→le, min, arith,
}
use native.Mathlib.Decide.{dec_lt}
use dvida_oxide.Memory.Frames.{
  BitmapAllocator, allocate_frame, total_bits, take_page, Frame, Context,
}
use dvida_oxide.Memory.Frames.Single.{IsValid, Takes, is_used, allocate_frame-Outcome}
use dvida_oxide.Gpt.{power_below}
use dvida_oxide.Pool.{DiskIoBufferPool}

-- The array `buffers` and how many of its elements are set.
pub record Filling : Type 0 where
  pub buffers : List ℕ
  pub idx : ℕ

-- The inner loop of `new`, with `rounds` buffers of the page to go.
pub fill_page : ℕ → ℕ → ℕ → ℕ → Filling → Filling
fill_page zero addr size i s = s
fill_page (suc rounds) addr size i s =
    let rest =
      fill_page rounds addr size (i + 1)
        (record { buffers = set s.buffers s.idx (addr + i * size); idx = s.idx + 1 }) in
    if leb 64 s.idx then s else rest

-- The outer loop; `none` is the panic without a frame.
pub fill_pages : ℕ → ℕ → ℕ → BitmapAllocator → Filling → Option Filling × BitmapAllocator
fill_pages hhdm size zero a s = (some s, a)
fill_pages hhdm size (suc frames) a s =
    let (frame, a', context) = allocate_frame a none in
    elim frame [
      | none ↦ (none, a')
      | some f ↦ fill_pages hhdm size frames a' (fill_page (4096 / size) (hhdm + f) size 0 s)
    ]

-- The frames that the buffers need, rounded up.
pub frame_count : ℕ → ℕ
frame_count size = (size * 64 + 4095) / 4096

pub new : ℕ → ℕ → BitmapAllocator → Option DiskIoBufferPool × BitmapAllocator
new hhdm size a =
    let start : Filling = record { buffers = replicate 64 0; idx = 0 } in
    let (filled, a') = fill_pages hhdm size (frame_count size) a start in
    let pool : Option DiskIoBufferPool = elim filled [
      | none ↦ none
      | some s ↦ some (record { buffers = s.buffers; mask = 0 })
    ] in
    if (4096 % size == 0) && leb size 4096 && power_below 64 size then (pool, a') else (none, a)
