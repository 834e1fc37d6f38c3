-- ===== src/Tests.antt =====
-- The theorems at concrete inputs, and short runs of the code.
mod Grace
mod Variables
mod Ring
mod Mutex
mod Heap
mod Reclaim
mod Schedule
mod Memory
mod Trees
mod Futures
mod LinkedLists
use mathlib.Core.List.{Perm}
use lockfree_stm.Common.{
  ℕ, ◌+◌, ◌≡◌, refl, sym, ap, ◌∙◌, true, false, [], ◌∷◌, some, arith, ◌++◌, ◌/◌, ◌%◌, ◌==◌, ◌||◌,
  if◌then◌else◌,
}
use lockfree_stm.PodVector
use lockfree_stm.PodVector.{PodVector}
use lockfree_stm.PodVector.Laws
use lockfree_stm.WriteSet
use lockfree_stm.WriteSet.{PodHashSet}
use lockfree_stm.WriteSet.Filter.{find-find_impl}
use lockfree_stm.WriteSet.Hash.{reference_hash, calc_shift, calc_shift-pow}
use lockfree_stm.ThreadData
use lockfree_stm.Machine.{VarBase, Block, World, State, value, retry, M}
use lockfree_stm.Transaction.{
  Transaction, rw_read_base, rw_read_slow_path, rw_atomic_write_base, rw_untracked_read_base,
  ro_untracked_read_base, unsafe_checked_demote, rw_valid, version_of, with_td,
}
use lockfree_stm.Transaction.Reads
use lockfree_stm.Transaction.Writes
use lockfree_stm.Commit.{try_commit, remove_writes_from_reads}
use lockfree_stm.Commit.Reads.{every, is_written, remove_writes-every}
use lockfree_stm.Atomic.{Round, after_others, writer, write_slow_path, tx_success}
use lockfree_stm.Atomic.Loop.{solo_commit, tx_at}
use lockfree_stm.ThreadData.{access_lock}
use lockfree_stm.Commit.Spec.{commit_spec, try_commit-spec}

-- A program with the clock at 7: variable `16 * k` has version `k % 8` and holds `100 + k`.
abbrev vars : ℕ → VarBase
vars x = record { version_lock = x / 16 % 8; storage = 100 + x / 16 }

abbrev memory : World
memory = record { clock = 7; var = vars; block = λ p. Block.free; next_block = 1; ran = [] }

abbrev fresh : State
fresh = record { world = memory; td = ThreadData.new }

abbrev tx : Transaction
tx = record { can_write = true; version = 7 }

fresh-IsValid : Reads.IsValid fresh
unfolding ThreadData.new PodVector.new WriteSet.new
fresh-IsValid = record {
  reads = omega arith;
  writes = record { covers = tt; unique = tt; vector = omega arith };
}

fresh-Room : Writes.Room fresh
unfolding ThreadData.new PodVector.new WriteSet.new
fresh-Room = omega arith

version_2 : rw_valid tx (version_of fresh 32) ≡ true
unfolding rw_valid
version_2 = refl

-- Variable 32 is to become 9.
wrote : State
wrote = (rw_atomic_write_base tx 32 9 fresh).1

rw_atomic_write-Wrote_example :
    ((rw_atomic_write_base tx 32 9 fresh).0
      ≡ (if rw_valid tx (version_of fresh 32) then value tt else retry))
    × Writes.Wrote 32 9 fresh (rw_atomic_write_base tx 32 9 fresh).1
rw_atomic_write-Wrote_example = Writes.rw_atomic_write-Wrote tx 32 9 fresh fresh-IsValid fresh-Room

read-atomic_write_example :
    (rw_read_base tx 48 (rw_atomic_write_base tx 32 9 fresh).1).0
    ≡ (if 48 == 32 then value 9 else (rw_read_base tx 48 fresh).0)
read-atomic_write_example =
    Writes.read-atomic_write tx 32 48 9 fresh fresh-IsValid fresh-Room version_2

rw_read_base-slow_path_example : rw_read_base tx 32 fresh ≡ rw_read_slow_path tx 32 fresh
rw_read_base-slow_path_example = Reads.rw_read_base-slow_path tx 32 fresh fresh-IsValid

rw_read_base-spec_example :
    rw_read_base tx 32 fresh ≡ (Reads.read_spec tx fresh 32, Reads.noted tx fresh 32)
rw_read_base-spec_example = Reads.rw_read_base-spec tx 32 fresh fresh-IsValid

find-find_impl_example :
    WriteSet.find fresh.td.write_set 32 ≡ WriteSet.find_impl 32 fresh.td.write_set.elems.elems
find-find_impl_example = find-find_impl fresh.td.write_set 32 fresh-IsValid.writes

wrote-IsValid : Reads.IsValid wrote
unfolding wrote
wrote-IsValid = rw_atomic_write-Wrote_example.1.valid

wrote-not-empty : WriteSet.is_empty wrote.td.write_set ≡ false
unfolding wrote rw_atomic_write_base rw_valid ThreadData.new PodVector.new WriteSet.new
    PodVector.empty PodVector.allocates_on_next_push ThreadData.add_write_set_unchecked
    WriteSet.unchecked_push_back PodVector.unchecked_emplace_back reference_hash calc_shift
wrote-not-empty = refl

try_commit-spec_example : try_commit tx wrote ≡ commit_spec tx wrote
try_commit-spec_example = try_commit-spec tx wrote wrote-IsValid (omega arith) wrote-not-empty

abbrev three : PodVector ℕ
three = record { elems = 5 ∷ 6 ∷ 7 ∷ []; last_valid = 3 }

-- A transaction that sets variable 32 to 9, alone.
abbrev set_32 : Transaction → M (Unit {0})
set_32 tx = rw_atomic_write_base tx 32 9

abbrev alone : Round
alone = record { others = λ w. w; loaded = [] }

abbrev begun : State
begun = record fresh { td = access_lock 7 fresh.td }

begun-IsValid : Reads.IsValid begun
begun-IsValid = record { reads = fresh-IsValid.reads; writes = fresh-IsValid.writes }

ended : State
ended = (set_32 tx begun).1

begun-Wrote :
    ((set_32 tx begun).0 ≡ (if rw_valid tx (version_of begun 32) then value tt else retry))
    × Writes.Wrote 32 9 begun ended
unfolding ended
begun-Wrote = Writes.rw_atomic_write-Wrote tx 32 9 begun begun-IsValid fresh-Room

set_32-run : set_32 tx begun ≡ (value tt, ended)
unfolding ended rw_valid
set_32-run = ap (λ o. (o, (set_32 tx begun).1)) begun-Wrote.0

ended_world : ended.world ≡ memory
ended_world = begun-Wrote.1.shared

ended_clock : ended.world.clock ≡ 7
ended_clock = ap (λ w. w.clock) ended_world

ended-not-empty : WriteSet.is_empty ended.td.write_set ≡ false
unfolding ended rw_atomic_write_base rw_valid ThreadData.new PodVector.new WriteSet.new
    PodVector.empty PodVector.allocates_on_next_push ThreadData.add_write_set_unchecked
    WriteSet.unchecked_push_back PodVector.unchecked_emplace_back reference_hash calc_shift
ended-not-empty = refl

solo_commit_example :
    write_slow_path set_32 (alone ∷ []) fresh
    ≡ some (
      value tt,
      tx_success writer ended.world.clock [] (commit_spec (tx_at ended.world.clock) ended).1,
    )
solo_commit_example =
    solo_commit set_32 alone [] fresh ended tt
      (ap (λ k. set_32 (tx_at k) (with_td (after_others alone fresh) (access_lock k fresh.td)))
          ended_clock
        ∙ set_32-run)
      (sym ended_clock) (rw ended_world (omega arith)) begun-Wrote.1.valid
      (rw ended_world (λ x. omega arith)) ended-not-empty
