-- ===== src/Sync/Cell/Handover/Tests.antt =====
-- The handover at a concrete input: a task polls twice, then the value 5 is set.
use dvida_oxide.Prelude.{ℕ, ◌≡◌, none, some, [], ◌∷◌}
use dvida_oxide.Sync.Cell.{ready, spsc_cells, set, poll}
use dvida_oxide.Sync.Cell.Handover.{poll_all, all_pending, handover}

handover_example :
    (poll_all (3 ∷ 4 ∷ []) spsc_cells
      ≡ (all_pending {A = ℕ} (3 ∷ 4 ∷ []), record { inner = none; waker = some 4 }))
    × (set {A = ℕ} 5 (poll_all (3 ∷ 4 ∷ []) spsc_cells).1
        ≡ (4 ∷ [], record { inner = some 5; waker = some 4 }))
    × (poll 9 (set {A = ℕ} 5 (poll_all (3 ∷ 4 ∷ []) spsc_cells).1).1
        ≡ (ready 5, record { inner = none; waker = some 4 }))
handover_example = handover (3 ∷ 4 ∷ []) 5 9
