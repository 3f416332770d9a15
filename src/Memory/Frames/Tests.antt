-- ===== src/Memory/Frames/Tests.antt =====
-- Runs of the frame allocator, and its theorems at concrete inputs.
use dvida_oxide.Prelude.{ℕ, ◌≡◌, ◌<◌, refl, none, some, [], ◌∷◌, true, arith}
use dvida_oxide.Memory.Frames.{
  BitmapAllocator, allocate_frame, free_frames, allocate_continuous_frames, total_bits,
}
use dvida_oxide.Memory.Frames.Single.{
  IsValid, Outcome, is_used, allocate_frame-Outcome, free_frames-allocate_frame,
}
use dvida_oxide.Memory.Frames.Runs.{RunOutcome, allocate_continuous_frames-RunOutcome}

-- Pages 0, 1, 3 and 8 to 15 are free.
abbrev allocator : BitmapAllocator
allocator = record { bitmap = record { cells = 0b1111_0100 ∷ 0 ∷ []; page_length = 1 }; next = 2 }

allocator-IsValid : IsValid allocator
allocator-IsValid = omega arith

allocate_frame_runs : allocate_frame allocator (some []) ≡ (
  some 12288,
  record { bitmap = record { cells = 0b1111_1100 ∷ 0 ∷ []; page_length = 1 }; next = 4 },
  some (12288 ∷ []),
)
unfolding allocate_frame
allocate_frame_runs = refl

allocate_frame-Outcome_example :
    Outcome allocator none
      ((j : ℕ) → j < total_bits allocator → is_used allocator j ≡ true)
      (allocate_frame allocator none)
allocate_frame-Outcome_example = allocate_frame-Outcome allocator none allocator-IsValid

free_frames-allocate_frame_example :
    free_frames
      (12288 ∷ [])
      (record { bitmap = record { cells = 0b1111_1100 ∷ 0 ∷ []; page_length = 1 }; next = 4 })
    ≡ some (record allocator { next = 4 })
free_frames-allocate_frame_example =
    free_frames-allocate_frame allocator (some []) 12288 _ (some (12288 ∷ [])) allocator-IsValid
      allocate_frame_runs

allocate_continuous_frames_runs : allocate_continuous_frames 3 allocator none ≡ (
  some (32768 ∷ 36864 ∷ 40960 ∷ []),
  record { bitmap = record { cells = 0b1111_0100 ∷ 0b111 ∷ []; page_length = 1 }; next = 11 },
  none,
)
unfolding allocate_continuous_frames
allocate_continuous_frames_runs = refl

allocate_continuous_frames-RunOutcome_example :
    RunOutcome allocator none 3 (allocate_continuous_frames 3 allocator none)
allocate_continuous_frames-RunOutcome_example =
    allocate_continuous_frames-RunOutcome allocator none 3 allocator-IsValid (omega arith)
