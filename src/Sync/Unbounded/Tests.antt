-- ===== src/Sync/Unbounded/Tests.antt =====
-- A run of the unbounded channel, and its theorem at a concrete input.
use dvida_oxide.Prelude.{ℕ, ◌≡◌, refl, List, [], ◌∷◌}
use dvida_oxide.Sync.Unbounded.{UnboundedChannel, send, poll, try_recv, drop_sender}
use dvida_oxide.Sync.Unbounded.Runs.{Call, sends, polls, tries, drops, Balanced, run, run-Balanced}

abbrev empty : UnboundedChannel ℕ
empty = record { buffer = []; rx_wakers = []; sender_count = 1 }

abbrev calls : List (Call ℕ)
calls = polls 7 ∷ sends 1 ∷ sends 2 ∷ polls 7 ∷ tries ∷ polls 8 ∷ drops ∷ []

-- The drop of the last sender leaves receiver 8 waiting.
run_runs : (run calls empty).after ≡ record { buffer = []; rx_wakers = 8 ∷ []; sender_count = 0 }
unfolding run send poll try_recv drop_sender
run_runs = refl

run-Balanced_example : Balanced empty (run calls empty)
run-Balanced_example = run-Balanced calls empty
