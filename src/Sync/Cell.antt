-- ===== src/Sync/Cell.antt =====
-- kernel/src/ejcineque/sync/spsc/cell.rs: a cell that one task sets and another waits for. Its lock is
-- held through each call.
pub mod Handover
use package.dvida_oxide.Prelude.{Option, none, some, List, [], ◌∷◌}
use package.dvida_oxide.Sync.{Waker}

pub record SpscCell {ℓ} (A : Type ℓ) : Type ℓ where
  pub inner : Option A
  pub waker : Option Waker

pub data CellPoll {ℓ} (A : Type ℓ) : Type ℓ where
  ready : A → CellPoll A
  pending : CellPoll A

module _ {ℓ} {A : Type ℓ} where
  pub spsc_cells : SpscCell A
  spsc_cells = record { inner = none; waker = none }

  -- With the wakers that are woken; the waker stays in the cell.
  pub set : A → SpscCell A → List Waker × SpscCell A
  set value cell =
      let woken : List Waker = elim cell.waker [ some waker ↦ waker ∷ [] | none ↦ [] ] in
      (woken, record cell { inner = some value })

  pub poll : Waker → SpscCell A → CellPoll A × SpscCell A
  poll waker cell = elim cell.inner [
    | some value ↦ (ready value, record cell { inner = none })
    | none ↦ (pending, record cell { waker = some waker })
  ]
