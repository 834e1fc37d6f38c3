-- ===== src/Tests/Mutex.antt =====
-- Two threads: one reads while the other asks for the exclusive section.
use lockfree_stm.Common.{ℕ, ◌≤◌, ◌≡◌, ◌⊎◌, refl, true, false, List, [], ◌∷◌, arith}
use lockfree_stm.RwMutex.{
  draining, sharing, Choice, run, start, step_at, step, lock_shared, lock, compare_exchange_weak,
  write_locked,
}
use lockfree_stm.RwMutex.Count.{count, writes, shares}
use lockfree_stm.RwMutex.Laws.{exclusion}

abbrev enter_shared : Choice
enter_shared = record { shared = true; fails = false }

abbrev enter : Choice
enter = record { shared = false; fails = false }

-- Thread 0 reads; thread 1 fails its first exchange, loads, and sets the write bit.
abbrev schedule : List (ℕ × Choice)
schedule = (0, enter_shared) ∷ (1, enter) ∷ (1, enter) ∷ (1, enter) ∷ []

schedule_end : (run schedule (start 2)).threads ≡ sharing ∷ draining 1 ∷ []
unfolding run start step_at step lock_shared lock compare_exchange_weak write_locked
schedule_end = refl

exclusion_example :
    let ps = (run schedule (start 2)).threads in
    (count writes ps ≤ 1) × ((count writes ps ≡ 0) ⊎ (count shares ps ≡ 0))
exclusion_example = exclusion 2 schedule (omega arith)
