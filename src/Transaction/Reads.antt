-- ===== src/Transaction/Reads.antt =====
-- What the reads of a transaction return, and that the fast paths are the slow ones.
use lockfree_stm.Common.{
  ℕ, ◌≡◌, refl, ◌∙◌, true, List, [], ◌∷◌, none, some, arith, length, if◌then◌else◌,
}
use lockfree_stm.PodVector
use lockfree_stm.PodVector.Laws
use lockfree_stm.WriteSet
use lockfree_stm.WriteSet.{find, find_impl, pending_at}
use lockfree_stm.WriteSet.Entries.{pending, find_impl-pending}
use lockfree_stm.WriteSet.Filter
use lockfree_stm.WriteSet.Filter.{find-find_impl, missed_by_filter}
use lockfree_stm.Machine.{State, Outcome, value, retry}
use lockfree_stm.Transaction.{
  Transaction, version_of, storage_of, rw_valid, with_td, rw_read_slow_path, rw_read_base,
  rw_untracked_read_slow_path, rw_untracked_read_base, ro_untracked_read_base,
  unsafe_checked_demote,
}

-- The read set and the write set of the thread are well formed.
pub record IsValid (s : State) : Type 0 where
  pub reads : PodVector.Laws.IsValid s.td.read_set
  pub writes : WriteSet.Filter.IsValid s.td.write_set

-- The word that the transaction sees at `x`: its own pending write, or the variable's storage.
abbrev pub seen : State → ℕ → ℕ
seen s x = elim (pending x s.td.write_set.elems.elems) [ none ↦ storage_of s x | some w ↦ w ]

-- A read gives that word where the variable is no newer than the transaction, and retries if not.
abbrev pub read_spec : Transaction → State → ℕ → Outcome ℕ
read_spec tx s x = if rw_valid tx (version_of s x) then value (seen s x) else retry

-- The fast path, with the filter and the unchecked push, does what the slow path does: the outcome
-- and the state.
pub rw_read_base-slow_path :
    (tx : Transaction) (x : ℕ) (s : State)
    → IsValid s
    → rw_read_base tx x s ≡ rw_read_slow_path tx x s
unfolding rw_read_base find
rw_read_base-slow_path tx x s v = ground (
  arith,
  missed_by_filter s.td.write_set.filter x s.td.write_set.elems.elems v.writes.covers,
  PodVector.Laws.unchecked-emplace_back s.td.read_set x v.reads,
)

-- The state after a read: the variable joins the read set where its own storage was returned.
abbrev pub noted : Transaction → State → ℕ → State
noted tx s x =
    if rw_valid tx (version_of s x)
    then elim (pending x s.td.write_set.elems.elems) [
      | none ↦ with_td s (record (s.td) { read_set = PodVector.emplace_back s.td.read_set x })
      | some w ↦ s
    ]
    else s

slow_path-spec :
    (tx : Transaction) (x : ℕ) (s : State)
    → IsValid s
    → rw_read_slow_path tx x s ≡ (read_spec tx s x, noted tx s x)
unfolding rw_read_slow_path
slow_path-spec tx x s v = ground (
  arith,
  find-find_impl s.td.write_set x v.writes,
  find_impl-pending x s.td.write_set.elems.elems,
)

-- A tracked read returns the transaction's own pending write, or else the storage, where the
-- version of the variable is at most that of the transaction; if not, it retries and changes
-- nothing. Only a read of the storage is noted in the read set.
pub rw_read_base-spec :
    (tx : Transaction) (x : ℕ) (s : State)
    → IsValid s
    → rw_read_base tx x s ≡ (read_spec tx s x, noted tx s x)
rw_read_base-spec tx x s v = rw_read_base-slow_path tx x s v ∙ slow_path-spec tx x s v

untracked_slow_path-spec :
    (tx : Transaction) (x : ℕ) (s : State)
    → IsValid s
    → rw_untracked_read_slow_path tx x s ≡ (read_spec tx s x, s)
unfolding rw_untracked_read_slow_path
untracked_slow_path-spec tx x s v = ground (
  arith,
  find-find_impl s.td.write_set x v.writes,
  find_impl-pending x s.td.write_set.elems.elems,
)

-- An untracked read has the outcome of a tracked one, and leaves the state as it was.
pub rw_untracked_read_base-spec :
    (tx : Transaction) (x : ℕ) (s : State)
    → IsValid s
    → rw_untracked_read_base tx x s ≡ (read_spec tx s x, s)
unfolding rw_untracked_read_base find
rw_untracked_read_base-spec tx x s v = ground (
  arith,
  missed_by_filter s.td.write_set.filter x s.td.write_set.elems.elems v.writes.covers,
  untracked_slow_path-spec tx x s v,
  rw_untracked_read_slow_path,
)

pending_empty : (x : ℕ) (es : List WriteSet.WriteSetValue) → length es ≡ 0 → pending x es ≡ none
unfolding pending
pending_empty x [] e = refl
pending_empty x (e' ∷ es) e = absurd (omega arith)

-- Demoting a transaction to a read transaction by `unsafe_checked_demote` changes no outcome of an
-- untracked read, and neither read changes the state.
pub demoted_read :
    (tx : Transaction) (x : ℕ) (s : State)
    → IsValid s
    → ro_untracked_read_base (unsafe_checked_demote tx s) x s ≡ rw_untracked_read_base tx x s
unfolding ro_untracked_read_base unsafe_checked_demote rw_valid PodVector.empty
demoted_read tx x s v = ground (
  arith,
  rw_untracked_read_base-spec tx x s v,
  rw_untracked_read_base-spec (record { can_write = true; version = tx.version }) x s v,
  pending_empty x s.td.write_set.elems.elems,
)
