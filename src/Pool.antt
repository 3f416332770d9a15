-- ===== src/Pool.antt =====
-- kernel/src/ejcineque/pools/mod.rs: the pool of 64 buffers for the disks. Which of them are out is kept in
-- a word that all processors share; the heap gives more, and is a parameter.
pub mod Held
pub mod Runs
pub mod Creation
mod Tests
use dvida_oxide.Prelude.{
  ℕ, zero, suc, ◌+◌, ◌-◌, ◌/◌, ◌%◌, ◌^◌, ◌==◌, Bool, ltb, if◌then◌else◌, Option, none, some, List,
  [], ◌∷◌, get_or, bit_and, bit_or,
}

pub record DiskIoBufferPool : Type 0 where
  pub buffers : List ℕ
  pub mask : ℕ

pub record DiskIoBufferPoolHandle : Type 0 where
  pub idx : Option ℕ
  pub inner : ℕ

-- Of a word of at most as many bits as the first number.
pub trailing_ones : ℕ → ℕ → ℕ
trailing_ones zero val = 0
trailing_ones (suc w) val =
    let rest = trailing_ones w (val / 2) in if val % 2 == 1 then suc rest else 0

-- The function that `get_buffer` gives to `fetch_update`: what it leaves in `result`, and the new mask.
pub take : ℕ → Option ℕ → Option ℕ × ℕ
take val result =
    let i = trailing_ones 64 val in if ltb i 64 then (some i, bit_or val (2 ^ i)) else (result, val)

-- `fetch_update` calls the function again for every value that another processor changed in between;
-- `seen` lists those values. `result` stands outside of the function.
pub fetch_update : List ℕ → ℕ → Option ℕ → Option ℕ × ℕ
fetch_update [] mask result = take mask result
fetch_update (val ∷ seen) mask result = fetch_update seen mask (take val result).0

pub drop_mask : ℕ → ℕ → ℕ
drop_mask idx val = bit_and val (2 ^ 64 - 1 - 2 ^ idx)

module _ {ℓ} {H : Type ℓ} (alloc : H → ℕ × H) (dealloc : ℕ → H → H) where
  -- What `get_buffer` makes of the index and the new mask.
  pub handle_for :
      Option ℕ × ℕ → DiskIoBufferPool → H → DiskIoBufferPoolHandle × DiskIoBufferPool × H
  handle_for (some idx, mask) pool heap = (
    record { idx = some idx; inner = get_or pool.buffers idx 0 },
    record pool { mask = mask },
    heap,
  )
  handle_for (none, mask) pool heap =
      let (inner, heap') = alloc heap in
      (record { idx = none; inner = inner }, record pool { mask = mask }, heap')

  pub get_buffer : List ℕ → DiskIoBufferPool → H → DiskIoBufferPoolHandle × DiskIoBufferPool × H
  get_buffer seen pool heap = handle_for (fetch_update seen pool.mask none) pool heap

  pub drop_handle : DiskIoBufferPoolHandle → DiskIoBufferPool → H → DiskIoBufferPool × H
  drop_handle handle pool heap = elim handle.idx [
    | some idx ↦ (record pool { mask = drop_mask idx pool.mask }, heap)
    | none ↦ (pool, dealloc handle.inner heap)
  ]
