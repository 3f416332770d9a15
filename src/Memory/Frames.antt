-- ===== src/Memory/Frames.antt =====
-- kernel/src/arch/x86_64/memory/frame_allocator.rs: `BitmapAllocator`, which hands out the pages
-- that the bitmap marks as free. A frame is its start address. The `context` of a call, a vector
-- that every allocated frame is pushed to, is an optional list in the order of the pushes.
-- The static allocator behind its lock and the stack set-up are not here.
pub mod Single
pub mod Runs
mod Tests
use package.dvida_oxide.Prelude.{
  ℕ, zero, suc, ◌+◌, ◌-◌, ◌*◌, ◌/◌, ◌%◌, Bool, true, false, not, ◌&&◌, Option, none, some, List, [],
  ◌∷◌, ◌++◌, length, get_elem?, get_or, set, ◌==◌, if◌then◌else◌,
}
use package.dvida_oxide.Prelude.Results.{◌>>=◌}
use package.dvida_oxide.Prelude.Bytes.{bit_test, bit_set, bit_clear}
use package.dvida_oxide.Memory.Bitmap.{BitMap, page_size}

pub record BitmapAllocator : Type 0 where
  pub bitmap : BitMap
  pub next : ℕ

abbrev pub Frame : Type 0
Frame = ℕ

abbrev pub Context : Type 0
Context = Option (List Frame)

abbrev pub push_context : Context → Frame → Context
push_context none f = none
push_context (some v) f = some (v ++ (f ∷ []))

abbrev pub with_cells : BitmapAllocator → List ℕ → BitmapAllocator
with_cells a cells = record a { bitmap = record a.bitmap { cells = cells } }

-- `none` is the panic of an index out of range.
pub free_frames : List Frame → BitmapAllocator → Option BitmapAllocator
free_frames [] a = some a
free_frames (f ∷ fs) a =
    let idx = f / page_size in
    let cells = a.bitmap.cells in
    elim (get_elem? cells (idx / 8)) [
      | none ↦ none
      | some b ↦ free_frames fs (with_cells a (set cells (idx / 8) (bit_clear b (idx % 8))))
    ]

abbrev pub total_bits : BitmapAllocator → ℕ
total_bits a = length a.bitmap.cells * 8

-- The bit of page `i` is set and `next` moves past it.
abbrev pub take_page : BitmapAllocator → ℕ → BitmapAllocator
take_page a i =
    let cells = a.bitmap.cells in
    record {
      bitmap = record a.bitmap {
        cells = set cells (i / 8) (bit_set (get_or cells (i / 8) 0) (i % 8));
      };
      next = (i + 1) % total_bits a;
    }

-- The loop of `allocate_frame`, with `rounds` offsets to go from `offset` on. Every index is taken
-- modulo `total_bits`, so no read is out of range.
allocate_from : ℕ → ℕ → BitmapAllocator → Context → Option Frame × BitmapAllocator × Context
allocate_from zero offset a context = (none, a, context)
allocate_from (suc rounds) offset a context =
    let i = (a.next + offset) % total_bits a in
    let byte = get_or a.bitmap.cells (i / 8) 0 in
    let rest = allocate_from rounds (offset + 1) a context in
    if i % 8 == 0 && byte == 255
    then rest
    else (if bit_test byte (i % 8)
        then rest
        else (some (i * 4096), take_page a i, push_context context (i * 4096)))

pub allocate_frame : BitmapAllocator → Context → Option Frame × BitmapAllocator × Context
unfolding allocate_from
allocate_frame a context = allocate_from (total_bits a) 0 a context

-- The inner loop of `allocate_continuous_frames` over the collected indices.
take_pages :
    List ℕ → BitmapAllocator → Context → List Frame → List Frame × BitmapAllocator × Context
take_pages [] a context result = (result, a, context)
take_pages (i ∷ indices) a context result =
    take_pages indices (take_page a i) (push_context context (i * 4096))
      (result ++ ((i * 4096) ∷ []))

-- The outer loop: `indices` is the run of free pages that ends before page `offset`.
allocate_run_from :
    ℕ → ℕ → ℕ → List ℕ → BitmapAllocator → Context → Option (List Frame) × BitmapAllocator × Context
unfolding take_pages
allocate_run_from len zero offset indices a context = (none, a, context)
allocate_run_from len (suc rounds) offset indices a context =
    let i = offset % total_bits a in
    let byte = get_or a.bitmap.cells (i / 8) 0 in
    let full = allocate_run_from len rounds (offset + 1) [] a context in
    let indices' = if bit_test byte (i % 8) then [] else indices ++ (i ∷ []) in
    let rest = allocate_run_from len rounds (offset + 1) indices' a context in
    let (result, a', context') = take_pages indices' a context [] in
    if i % 8 == 0 && byte == 255
    then full
    else (if length indices' == len then (some result, a', context') else rest)

pub allocate_continuous_frames :
    ℕ → BitmapAllocator → Context → Option (List Frame) × BitmapAllocator × Context
unfolding allocate_run_from
allocate_continuous_frames len a context = allocate_run_from len (total_bits a) 0 [] a context
