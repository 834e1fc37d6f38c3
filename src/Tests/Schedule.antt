-- ===== src/Tests/Schedule.antt =====
-- Schedules of two threads: thread 0 reads variable 3 and writes variable 1, while thread 1 commits a
-- write to variable 3.
use lockfree_stm.Common.{ℕ, ◌+◌, ◌≤◌, ◌≡◌, refl, true, false, List, [], ◌∷◌, ◌++◌, arith}
use lockfree_stm.Common.Update.{update}
use lockfree_stm.WriteSet.{entry, WriteSetValue}
use lockfree_stm.Machine.{as_locked}
use lockfree_stm.Transaction.{rw_valid}
use lockfree_stm.Protocol.{
  ReadSetValue, Choice, load, store, commit, running, writing, move, run, start, has, settle,
}
use lockfree_stm.Protocol.Invariant.{Returned, held}
use lockfree_stm.Protocol.Safety.{
  run-snapshot, run-no_lost_update, run-written_back, run-unlocked, run-exclusive,
}

abbrev words : ℕ → ℕ
words x = 100 + x

-- Thread 0 reads variable 3.
abbrev reading : List (ℕ × Choice)
reading = (0, commit) ∷ (0, load 3) ∷ (0, commit) ∷ []

-- Thread 1 sets variable `x` to 9 and ends.
abbrev other_commit : ℕ → List (ℕ × Choice)
other_commit x =
    (1, commit)
    ∷ (1, store x 9)
    ∷ (1, commit)
    ∷ (1, commit)
    ∷ (1, commit)
    ∷ (1, commit)
    ∷ (1, commit)
    ∷ (1, commit)
    ∷ (1, commit)
    ∷ (1, commit)
    ∷ (1, commit)
    ∷ []

abbrev overlap : List (ℕ × Choice)
overlap = reading ++ other_commit 3

read_3 : List ReadSetValue
read_3 = record { src_var = 3; result = 103 } ∷ []

reads_old : (run overlap (start words)).pc 0 ≡ running 0 read_3 []
unfolding run start move rw_valid as_locked read_3 update
reads_old = refl

run-snapshot_example :
    (0 ≤ (run overlap (start words)).clock) × Returned ((run overlap (start words)).hist 0) read_3
run-snapshot_example = run-snapshot words overlap 0 0 read_3 [] (omega arith) reads_old

-- Thread 0 reads variable 1 too, thread 1 commits to variable 7, and thread 0 sets variable 1 to 5, up to
-- the end of its validation.
abbrev validated : List (ℕ × Choice)
validated =
    reading
    ++ ((0, load 1) ∷ (0, commit) ∷ [])
    ++ other_commit 7
    ++ (0, store 1 5)
      ∷ (0, commit)
      ∷ (0, commit)
      ∷ (0, commit)
      ∷ (0, commit)
      ∷ (0, commit)
      ∷ (0, commit)
      ∷ []

set_1 : List WriteSetValue
set_1 = entry 1 5 ∷ []

is_validated : (run validated (start words)).pc 0 ≡ writing 0 1 read_3 set_1 set_1
unfolding run start move rw_valid as_locked read_3 update set_1
is_validated = refl

has_1 : has 1 set_1 ≡ true
unfolding set_1
has_1 = refl

-- Both reads are among those, and validation tests the first only.
reads_both :
    (run validated (start words)).reads 0 ≡ read_3 ++ record { src_var = 1; result = 101 } ∷ []
unfolding run start move rw_valid as_locked read_3 update
reads_both = refl

clock_1 : (run validated (start words)).clock ≡ 1
unfolding run start move rw_valid as_locked update
clock_1 = refl

run-no_lost_update_example :
    (run validated (start words)).hist 1 1 ≡ (run validated (start words)).hist 0 1
run-no_lost_update_example =
    run-no_lost_update words validated 0 0 1 read_3 set_1 set_1 1 1 (omega arith) is_validated has_1
      (omega arith) (rw clock_1 (omega arith))

-- Variable 1 is written.
abbrev stored : List (ℕ × Choice)
stored = validated ++ (0, commit) ∷ []

is_stored : (run stored (start words)).pc 0 ≡ writing 0 1 read_3 set_1 []
unfolding run start move rw_valid as_locked read_3 update set_1
is_stored = refl

run-written_back_example :
    ((run stored (start words)).var 1).storage
    ≡ settle set_1 1 ((run stored (start words)).hist (run stored (start words)).clock 1)
run-written_back_example =
    run-written_back words stored 0 0 1 read_3 set_1 1 (omega arith) is_stored has_1

after_other : ((run overlap (start words)).var 3).version_lock ≡ 1
unfolding run start move rw_valid as_locked update
after_other = refl

run-unlocked_example :
    (((run overlap (start words)).var 3).storage
      ≡ (run overlap (start words)).hist (run overlap (start words)).clock 3)
    × (has 3 (held ((run overlap (start words)).pc 1)) ≡ false)
run-unlocked_example = run-unlocked words overlap 1 3 (omega arith) (omega (arith, after_other))

owns_1 : has 1 (held ((run validated (start words)).pc 0)) ≡ true
unfolding run start move rw_valid as_locked update
owns_1 = refl

run-exclusive_example : has 1 (held ((run validated (start words)).pc 7)) ≡ false
run-exclusive_example = run-exclusive words validated 0 7 1 (omega arith) (omega arith) owns_1
