-- ===== src/Pool/Tests.antt =====
-- Runs of the buffer pool, and its theorem at concrete inputs.
use dvida_oxide.Prelude.{ℕ, ◌+◌, ◌-◌, ◌^◌, ◌≤◌, ◌≡◌, inl, refl, some, none, [], ◌∷◌, arith}
use dvida_oxide.Prelude.Words.{bit}
use dvida_oxide.Pool.{
  DiskIoBufferPoolHandle, take, fetch_update, trailing_ones, get_buffer, handle_for, drop_handle,
  drop_mask,
}
use dvida_oxide.Pool.Held.{count, AllBacked}
use dvida_oxide.Pool.Runs.{PoolState, got, dropped, Reach, here, later, get, drop, start, exclusive}

-- The heap gives an address after the other and takes nothing back.
abbrev alloc : ℕ → ℕ × ℕ
alloc heap = (heap, heap + 512)

abbrev dealloc : ℕ → ℕ → ℕ
dealloc inner heap = heap

-- The last buffer is taken by another processor between two attempts: the second attempt leaves the
-- index of the first, and both have buffer 3.
last_buffer_runs : fetch_update ((2 ^ 64 - 1 - 2 ^ 3) ∷ []) (2 ^ 64 - 1) none ≡ (some 3, 2 ^ 64 - 1)
unfolding fetch_update take trailing_ones
last_buffer_runs = refl

-- Two buffers are taken and the first is given back.
abbrev after_two : PoolState alloc dealloc
after_two =
    got alloc dealloc [] (got alloc dealloc [] (start alloc dealloc (4096 ∷ 4608 ∷ []) 65536))

abbrev first_handle : DiskIoBufferPoolHandle
first_handle = record { idx = some 0; inner = 4096 }

abbrev after_drop : PoolState alloc dealloc
after_drop = dropped alloc dealloc 1 first_handle after_two

drop_runs : after_drop.pool.mask ≡ 2
unfolding get_buffer handle_for fetch_update take trailing_ones drop_handle drop_mask
drop_runs = refl

after_drop-Reach : Reach alloc dealloc (start alloc dealloc (4096 ∷ 4608 ∷ []) 65536) after_drop
unfolding get_buffer handle_for fetch_update take trailing_ones
after_drop-Reach =
    later (later (later here (get [] (inl refl))) (get [] (inl refl))) (drop 1 first_handle refl)

exclusive_example :
    (count 1 after_drop.held ≡ bit after_drop.pool.mask 1)
    × (count 1 after_drop.held ≤ 1)
    × AllBacked after_drop.pool.buffers after_drop.held
exclusive_example =
    exclusive alloc dealloc (4096 ∷ 4608 ∷ []) 65536 after_drop-Reach 1 (omega arith)
