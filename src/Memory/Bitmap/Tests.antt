-- ===== src/Memory/Bitmap/Tests.antt =====
-- Runs of the bitmap's operations, and its theorems at concrete inputs.
use dvida_oxide.Prelude.{◌≡◌, refl, some, not, ◌&&◌, List, [], ◌∷◌, ltb, arith}
use dvida_oxide.Memory.Bitmap.{
  BitMap, Entry, EntryType, fill, get_memmap_length_usable, mark_unused, set_unused_by_address,
}
use dvida_oxide.Memory.Bitmap.Fill.{Filled, in_usable, fill-Filled, get_memmap_length_usable_whole}

-- Two usable pages, a reserved one, and a usable one.
abbrev low : Entry
low = record { base = 0; length = 8192; entry_type = EntryType.usable }

abbrev reserved_page : Entry
reserved_page = record { base = 8192; length = 4096; entry_type = EntryType.reserved }

abbrev high : Entry
high = record { base = 12288; length = 4096; entry_type = EntryType.usable }

abbrev memmap : List Entry
memmap = low ∷ reserved_page ∷ high ∷ []

abbrev blank : BitMap
blank = record { cells = 0 ∷ []; page_length = 1 }

fill_runs : fill memmap blank ≡ some (record { cells = 0b1111_0100 ∷ []; page_length = 1 })
unfolding fill mark_unused set_unused_by_address
fill_runs = refl

fill-Filled_example : Filled blank (λ j. ltb j 8 && not (in_usable memmap j)) (fill memmap blank)
fill-Filled_example = fill-Filled low (reserved_page ∷ high ∷ []) blank (omega arith)

get_memmap_length_usable_whole_example :
    get_memmap_length_usable (low ∷ reserved_page ∷ []) ≡ some 2
get_memmap_length_usable_whole_example = get_memmap_length_usable_whole low (reserved_page ∷ [])
