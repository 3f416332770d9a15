-- ===== src/Memory/Bitmap.antt =====
-- kernel/src/arch/x86_64/memory/bitmap.rs and memmap.rs: the page bitmap, one bit for each page of
-- 4 KiB, and the memory map of the boot loader that it is filled from.
-- A raw pointer with its length is the list of the bytes that it points at; `none` is a panic.
-- Page numbers stay below 2^52, so no `usize` sum of an index can wrap.
pub mod Laws
pub mod Fill
mod Tests
use package.dvida_oxide.Prelude.{
  ℕ, zero, suc, ◌+◌, ◌-◌, ◌*◌, ◌/◌, ◌%◌, ◌≡◌, Bool, true, false, not, ◌&&◌, ◌||◌, Option, none,
  some, List, [], ◌∷◌, length, get_elem?, get_or, set, replicate, take, ltb, leb, ◌==◌,
  if◌then◌else◌,
}
use package.dvida_oxide.Prelude.Results.{◌>>=◌}
use package.dvida_oxide.Prelude.Bytes.{bit_test, bit_set, bit_clear}

abbrev pub page_size : ℕ
page_size = 4096

pub record BitMap : Type 0 where
  pub cells : List ℕ
  pub page_length : ℕ

-- limine's entry types, as far as the code names them; `other` is any other value.
pub data EntryType : Type 0 where
  usable reserved acpi_reclaimable acpi_nvs bad_memory bootloader_reclaimable framebuffer :
      EntryType
  other : ℕ → EntryType

pub record Entry : Type 0 where
  pub base : ℕ
  pub length : ℕ
  pub entry_type : EntryType

pub data MemmapEntryType : Type 0 where
  usable reserved acpi_reclaim acpi_nvs bad_mem boot_reclaim framebuffer : MemmapEntryType

pub from_entry : EntryType → MemmapEntryType
from_entry EntryType.usable = MemmapEntryType.usable
from_entry EntryType.reserved = MemmapEntryType.reserved
from_entry EntryType.acpi_reclaimable = MemmapEntryType.acpi_reclaim
from_entry EntryType.acpi_nvs = MemmapEntryType.acpi_nvs
from_entry EntryType.bad_memory = MemmapEntryType.bad_mem
from_entry EntryType.bootloader_reclaimable = MemmapEntryType.boot_reclaim
from_entry EntryType.framebuffer = MemmapEntryType.framebuffer
from_entry (EntryType.other n) = MemmapEntryType.bad_mem

-- The test `entry_type == EntryType::USABLE`.
abbrev pub is_usable_type : EntryType → Bool
is_usable_type EntryType.usable = true
is_usable_type EntryType.reserved = false
is_usable_type _ = false

abbrev pub is_usable : Entry → Bool
is_usable e = is_usable_type e.entry_type

-- The test `MemmapEntryType::from_entry(..) == MemmapEntryType::Usable`.
abbrev pub is_usable_kind : MemmapEntryType → Bool
is_usable_kind MemmapEntryType.usable = true
is_usable_kind MemmapEntryType.reserved = false
is_usable_kind _ = false

-- The loop of `sum_memmap` at `index`, of `len` entries in all; the sums are `u64`.
sum_from : ℕ → ℕ → List Entry → ℕ → ℕ → ℕ × ℕ
unfolding from_entry
sum_from len index [] total total_usable = (total, total_usable)
sum_from len index (e ∷ es) total total_usable =
    let kind = is_usable_kind (from_entry e.entry_type) in
    let total_usable' = if kind then total_usable + e.length else total_usable in
    let skipped = sum_from len (index + 1) es total total_usable' in
    let counted = sum_from len (index + 1) es (total + e.length) total_usable' in
    if not kind && leb (len - 1) index then skipped else counted

pub sum_memmap : List Entry → ℕ × ℕ
unfolding sum_from
sum_memmap entries = sum_from (length entries) 0 entries 0 0

-- The loop `for i in start..end` of `get_memmap_length_usable`: `rounds` is `end - start`.
trim_from : List Entry → ℕ → ℕ → ℕ → ℕ
trim_from memmap zero i len = len
trim_from memmap (suc rounds) i len = elim (get_elem? memmap i) [
  | none ↦ len
  | some e ↦ elim (is_usable e) [ true ↦ len | false ↦ trim_from memmap rounds (i + 1) i ]
]

-- `memmap.len() - 1` underflows on an empty map. The range is written as the source has it,
-- from `len - 1` up to 0.
pub get_memmap_length_usable : List Entry → Option ℕ
unfolding trim_from
get_memmap_length_usable [] = none
get_memmap_length_usable (e ∷ es) =
    let start = length es in some (trim_from (e ∷ es) (0 - start) start (length (e ∷ es)))

pub get_highest_physical_memory_usable : List Entry → Option ℕ
unfolding get_memmap_length_usable
get_highest_physical_memory_usable memmap = get_memmap_length_usable memmap >>= λ len.
    get_elem? memmap (len - 1) >>= λ e. some (e.base + e.length)

-- `slice[idx / 8] |= 0x1 << (idx % 8)` for the `count` pages from `idx` on.
pub mark_used : ℕ → ℕ → List ℕ → Option (List ℕ)
mark_used zero idx cells = some cells
mark_used (suc count) idx cells = elim (get_elem? cells (idx / 8)) [
  | none ↦ none
  | some b ↦ mark_used count (idx + 1) (set cells (idx / 8) (bit_set b (idx % 8)))
]

-- `slice[idx / 8] &= !(0x1 << (idx % 8))`.
pub mark_unused : ℕ → ℕ → List ℕ → Option (List ℕ)
mark_unused zero idx cells = some cells
mark_unused (suc count) idx cells = elim (get_elem? cells (idx / 8)) [
  | none ↦ none
  | some b ↦ mark_unused count (idx + 1) (set cells (idx / 8) (bit_clear b (idx % 8)))
]

pub set_used_by_address : BitMap → ℕ → ℕ → Option BitMap
unfolding mark_used
set_used_by_address m base page_count =
    mark_used page_count (base / page_size) m.cells >>= λ cells. some (record m { cells = cells })

pub set_unused_by_address : BitMap → ℕ → ℕ → Option BitMap
unfolding mark_unused
set_unused_by_address m base page_count =
    mark_unused page_count (base / page_size) m.cells >>= λ cells. some (record m { cells = cells })

-- The loop of `fill` over the entries, those that are not usable filtered out.
pub free_usable : List Entry → BitMap → Option BitMap
unfolding set_unused_by_address
free_usable [] m = some m
free_usable (e ∷ es) m = elim (is_usable e) [
  | true ↦ set_unused_by_address m e.base (e.length / page_size) >>= free_usable es
  | false ↦ free_usable es m
]

pub fill : List Entry → BitMap → Option BitMap
unfolding get_memmap_length_usable free_usable
fill memmap m = get_memmap_length_usable memmap >>= λ len.
    free_usable (take len memmap) (record m { cells = replicate (length m.cells) 255 })

-- Page `j` is marked as used.
abbrev pub used : List ℕ → ℕ → Bool
used cells j = bit_test (get_or cells (j / 8) 0) (j % 8)
