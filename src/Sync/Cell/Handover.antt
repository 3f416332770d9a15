-- ===== src/Sync/Cell/Handover.antt =====
-- The handover of a value through a cell.
mod Tests
use dvida_oxide.Prelude.{◌≡◌, refl, Option, none, some, List, [], ◌∷◌, ◌++◌}
use dvida_oxide.Sync.{Waker}
use dvida_oxide.Sync.Cell.{SpscCell, CellPoll, ready, pending, spsc_cells, set, poll}

-- The waker of the last poll, if there was one.
abbrev pub last_of : Option Waker → List Waker → Option Waker
last_of w [] = w
last_of w (v ∷ vs) = last_of (some v) vs

abbrev pub listed : Option Waker → List Waker
listed none = []
listed (some w) = w ∷ []

module _ {ℓ} {A : Type ℓ} where
  -- Polls one after the other, each with its waker, and their results.
  pub poll_all : List Waker → SpscCell A → List (CellPoll A) × SpscCell A
  unfolding poll
  poll_all [] cell = ([], cell)
  poll_all (w ∷ ws) cell =
      let (r, cell1) = poll w cell in let (rs, cell2) = poll_all ws cell1 in (r ∷ rs, cell2)

  pub all_pending : List Waker → List (CellPoll A)
  all_pending [] = []
  all_pending (w ∷ ws) = pending ∷ all_pending ws

  waits :
      (ws : List Waker) (w : Option Waker)
      → poll_all ws (record { inner = none; waker = w })
        ≡ (all_pending ws, record { inner = none; waker = last_of w ws })
  unfolding poll_all poll all_pending
  waits [] w = refl
  waits (v ∷ vs) w = rw (waits vs (some v), poll_all) refl

  woken_by :
      (w : Option Waker) (value : A)
      → set value (record { inner = none; waker = w })
        ≡ (listed w, record { inner = some value; waker = w })
  unfolding set
  woken_by none value = refl
  woken_by (some w) value = refl

  -- However often the waiting task polls a new cell, each poll is pending; the value that is then set
  -- wakes the waker of the last poll only, and the next poll takes the value out and leaves none.
  pub handover :
      (ws : List Waker) (value : A) (w : Waker)
      → (poll_all ws spsc_cells
          ≡ (all_pending ws, record { inner = none; waker = last_of none ws }))
        × (set value (poll_all ws spsc_cells).1
            ≡ (listed (last_of none ws), record { inner = some value; waker = last_of none ws }))
        × (poll w (set value (poll_all ws spsc_cells).1).1
            ≡ (ready value, record { inner = none; waker = last_of none ws }))
  unfolding spsc_cells poll
  handover ws value w = (
    waits ws none,
    rw (waits ws none) (woken_by (last_of none ws) value),
    rw (waits ws none, woken_by (last_of none ws) value) refl,
  )
