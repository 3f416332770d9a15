-- ===== src/Pool/Creation/Tests.antt =====
-- A pool at a concrete allocator.
use dvida_oxide.Prelude.{inr, refl, [], ◌∷◌, arith}
use dvida_oxide.Memory.Frames.{BitmapAllocator}
use dvida_oxide.Memory.Frames.Single.{IsValid}
use dvida_oxide.Pool.Creation.{new}
use dvida_oxide.Pool.Creation.Pages.{Creates, new-Creates}

-- Of 24 pages ten are in use.
abbrev allocator : BitmapAllocator
allocator = record {
  bitmap = record { cells = 0b1111_1111 ∷ 0 ∷ 0b0110_0000 ∷ []; page_length = 1 };
  next = 2;
}

allocator-IsValid : IsValid allocator
allocator-IsValid = omega arith

new-Creates_example : Creates 65536 512 allocator (new 65536 512 allocator)
new-Creates_example = new-Creates 65536 512 allocator (inr refl) allocator-IsValid
