-- ===== src/Tests/Grace.antt =====
-- A thread that waits for the section of another.
use lockfree_stm.Common.{ℕ, ◌≤◌, ◌<◌, ◌≡◌, refl, true, List, [], ◌∷◌, ◌++◌}
use lockfree_stm.Common.Update.{update}
use lockfree_stm.Machine.{off_state}
use lockfree_stm.Epochs.{
  Call, construct, access_lock, access_unlock, synchronize_min_epoch, System, scanning, run, start,
  step, call, changed,
}
use lockfree_stm.Common.Distinct.{contains}
use lockfree_stm.Epochs.Alive.{is_scan, to_load}
use lockfree_stm.Epochs.Locking.{run-alive}
use lockfree_stm.Epochs.Steps.{run-grace}

-- Two threads make their nodes, and the second begins a section at the epoch 3.
abbrev opening : List (ℕ × Call)
opening =
    (0, construct)
    ∷ (0, construct)
    ∷ (0, construct)
    ∷ (0, construct)
    ∷ (0, construct)
    ∷ (0, construct)
    ∷ (1, construct)
    ∷ (1, construct)
    ∷ (1, construct)
    ∷ (1, construct)
    ∷ (1, construct)
    ∷ (1, construct)
    ∷ (1, construct)
    ∷ (1, construct)
    ∷ (1, access_lock 3)
    ∷ []

-- The first waits for the epoch 5, and the second leaves.
abbrev closing : List (ℕ × Call)
closing =
    (0, synchronize_min_epoch 5)
    ∷ (0, construct)
    ∷ (0, construct)
    ∷ (0, construct)
    ∷ (1, access_unlock)
    ∷ (0, construct)
    ∷ []

abbrev waited : System
waited = run (opening ++ closing) start

scanned : waited.pc 0 ≡ scanning 5 [] off_state (run opening start).sections
unfolding run step call changed update
scanned = refl

run-grace_example :
    (5 < off_state)
    × ((j : ℕ) → waited.sections j ≡ (run opening start).sections j → off_state ≤ waited.active j)
run-grace_example =
    run-grace (opening ++ closing) 0 5 off_state (run opening start).sections scanned

-- The second is in its section, and the first waits for it.
abbrev caught : System
caught =
    run (opening ++ ((0, synchronize_min_epoch 5) ∷ (0, construct) ∷ (0, construct) ∷ [])) start

caught-scans : is_scan (caught.pc 0) ≡ true
unfolding run step call changed update
caught-scans = refl

run-alive_example :
    (contains 0 caught.nodes ≡ true)
    × ((j : ℕ) → contains j (to_load (caught.pc 0)) ≡ true → contains j caught.nodes ≡ true)
run-alive_example =
    run-alive (opening ++ ((0, synchronize_min_epoch 5) ∷ (0, construct) ∷ (0, construct) ∷ [])) 0
      caught-scans
