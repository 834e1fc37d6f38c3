-- ===== src/Atomic.antt =====
-- Transactions from begin to end: include/lstm/detail/atomic_base.hpp, include/lstm/read_write.hpp,
-- include/lstm/read_only.hpp, include/lstm/relative.hpp and include/lstm/atomic.hpp. What other
-- threads do before an attempt is a function on the shared memory, and the epochs that a thread
-- loads when it reclaims are a list: the loop `while (true)` runs over the list of such rounds, and
-- ends in `none` where the list does. Backing off changes no state.
pub mod Finish
pub mod Loop
use lockfree_stm.Common.{
  ℕ, ◌+◌, Bool, true, false, not, ◌&&◌, List, [], ◌∷◌, Option, none, some, ◌==◌, if◌then◌else◌,
}
use lockfree_stm.PodVector
use lockfree_stm.WriteSet
use lockfree_stm.QuiescenceBuffer
use lockfree_stm.TxKind
use lockfree_stm.TxKind.{TxKind}
use lockfree_stm.Machine.{World, ThreadData, State, Outcome, value, retry, exception, M, off_state}
use lockfree_stm.ThreadData.{
  access_lock, access_unlock, clear_read_write_sets, do_fail_callbacks, reclaim, in_transaction,
  in_critical_section,
}
use lockfree_stm.Transaction.{Transaction, with_td}
use lockfree_stm.Commit.{try_commit, commit_failed}

-- The template parameter `kind` of the functions below, which is never `tx_kind::none`.
pub data Kind : Type 0 where
  writer reader : Kind

abbrev pub set_rw : State → State
set_rw s = with_td s (record (s.td) { tx_state = TxKind.read_write })

abbrev pub set_read : State → State
set_read s = with_td s (record (s.td) { tx_state = TxKind.read_only })

unfoldable pub tx_failure_no_backoff : Kind → State → State
tx_failure_no_backoff writer s =
    let td = clear_read_write_sets (access_unlock s.td) in
    let succs = QuiescenceBuffer.clear_working_epoch td.succ_callbacks in
    do_fail_callbacks (with_td s (record td { succ_callbacks = succs }))
tx_failure_no_backoff reader s = with_td s (access_unlock s.td)

abbrev pub tx_failure : Kind → State → State
tx_failure kind s = tx_failure_no_backoff kind s

-- The state in which the exception goes on.
unfoldable pub unhandled_exception : Kind → State → State
unhandled_exception kind s =
    let s' = tx_failure_no_backoff kind s in with_td s' (record (s'.td) { tx_state = TxKind.none })

unfoldable pub tx_success : Kind → ℕ → List ℕ → State → State
tx_success writer sync_epoch loaded s =
    let td = clear_read_write_sets (record (access_unlock s.td) { tx_state = TxKind.none }) in
    let fails = PodVector.clear td.fail_callbacks in
    reclaim sync_epoch loaded (with_td s (record td { fail_callbacks = fails }))
tx_success reader sync_epoch loaded s =
    with_td s (record (access_unlock s.td) { tx_state = TxKind.none })

unfoldable pub valid_start_state : ThreadData → Bool
valid_start_state td =
    PodVector.empty td.read_set
    && (WriteSet.is_empty td.write_set
        && (PodVector.empty td.fail_callbacks
            && QuiescenceBuffer.working_epoch_empty td.succ_callbacks))

-- One round: what others do first, and the epochs that this thread would load.
pub record Round : Type 0 where
  pub others : World → World
  pub loaded : List ℕ

-- How an attempt ends: the call returns, an exception leaves it, or the loop goes round again.
pub data Attempt {ℓ} (A : Type ℓ) : Type ℓ where
  returned : A → Attempt A
  thrown : ℕ → Attempt A
  again : Attempt A

-- The end of an attempt of `read_write_fn::slow_path`, after the client's function.
unfoldable pub finish_write {ℓ} :
    {A : Type ℓ} → Transaction → List ℕ → Outcome A × State → Attempt A × State
finish_write tx loaded (value a, s) =
    let (sync_epoch, s') = try_commit tx s in
    if sync_epoch == commit_failed
    then (again, tx_failure writer s')
    else (returned a, tx_success writer sync_epoch loaded s')
finish_write tx loaded (retry, s) = (again, tx_failure writer s)
finish_write tx loaded (exception e, s) = (thrown e, unhandled_exception writer s)

unfoldable pub attempt_write {ℓ} :
    {A : Type ℓ} → (Transaction → M A) → List ℕ → State → Attempt A × State
attempt_write func loaded s =
    let version = s.world.clock in
    let tx : Transaction = record { can_write = true; version = version } in
    finish_write tx loaded (func tx (with_td s (access_lock version s.td)))

unfoldable pub finish_read {ℓ} : {A : Type ℓ} → Outcome A × State → Attempt A × State
finish_read (value a, s) = (returned a, tx_success reader 0 [] s)
finish_read (retry, s) = (again, tx_failure reader s)
finish_read (exception e, s) = (thrown e, unhandled_exception reader s)

unfoldable pub attempt_read {ℓ} :
    {A : Type ℓ} → (Transaction → M A) → List ℕ → State → Attempt A × State
attempt_read func loaded s =
    let version = s.world.clock in
    let tx : Transaction = record { can_write = false; version = version } in
    finish_read (func tx (with_td s (access_lock version s.td)))

-- The loop of both slow paths: attempts, until one returns or throws.
abbrev pub after_others : Round → State → State
after_others r s = record s { world = r.others s.world }

unfoldable pub attempts {ℓ} :
    {A : Type ℓ}
    → (List ℕ → State → Attempt A × State)
    → List Round
    → State
    → Option (Outcome A × State)
attempts attempt [] s = none
attempts attempt (r ∷ rs) s =
    let (end, s') = attempt r.loaded (after_others r s) in
    elim end [
      | returned a ↦ some (value a, s')
      | thrown e ↦ some (exception e, s')
      | again ↦ attempts attempt rs s'
    ]

abbrev pub write_slow_path {ℓ} :
    {A : Type ℓ} → (Transaction → M A) → List Round → State → Option (Outcome A × State)
write_slow_path func = attempts (attempt_write func)

abbrev pub read_slow_path {ℓ} :
    {A : Type ℓ} → (Transaction → M A) → List Round → State → Option (Outcome A × State)
read_slow_path func = attempts (attempt_read func)

-- `read_write(func)`: inside a transaction the function joins it.
unfoldable pub read_write {ℓ} :
    {A : Type ℓ} → (Transaction → M A) → List Round → State → Option (Outcome A × State)
read_write func rounds s =
    if in_transaction s.td
    then some (func (record { can_write = true; version = s.td.active }) s)
    else write_slow_path func rounds (set_rw s)

-- `read_only(func)`: inside a read-write transaction the reads look at its writes.
unfoldable pub read_only {ℓ} :
    {A : Type ℓ} → (Transaction → M A) → List Round → State → Option (Outcome A × State)
read_only func rounds s = elim s.td.tx_state [
  | TxKind.read_only ↦ some (func (record { can_write = false; version = s.td.active }) s)
  | TxKind.read_write ↦ some (func (record { can_write = true; version = s.td.active }) s)
  | TxKind.none ↦ read_slow_path func rounds (set_read s)
]

-- `atomic(func)`: a function that can take a `transaction` is run by `read_write`.
unfoldable pub atomic {ℓ} :
    {A : Type ℓ} → Bool → (Transaction → M A) → List Round → State → Option (Outcome A × State)
atomic takes_transaction func = if takes_transaction then read_write func else read_only func

-- `relative(func)`: a critical section that is no transaction, entered once. The clock is read as the
-- epoch of the section.
unfoldable pub relative {ℓ} : {A : Type ℓ} → M A → M A
relative func s =
    if in_critical_section s.td
    then func s
    else (let (result, s') = func (with_td s (access_lock s.world.clock s.td)) in
        (result, with_td s' (access_unlock s'.td)))
