-- ===== src/Commit.antt =====
-- `commit_algorithm` (include/lstm/detail/commit_algorithm.hpp) with the clock of
-- include/lstm/detail/transaction_domain.hpp, run with no other thread in between.
pub mod Modify
pub mod Locks
pub mod Reads
pub mod Spec
use Prim.Native.Nat.{bit_xor}
use lockfree_stm.Common.{
  ℕ, zero, suc, ◌+◌, ◌^◌, Bool, true, false, not, ◌&&◌, List, [], ◌∷◌, ◌++◌, Option, none, some,
  leb, ◌==◌, if◌then◌else◌, get_elem?, length,
}
use lockfree_stm.Common.Update.{update}
use lockfree_stm.Common.Word.{add_word}
use lockfree_stm.PodVector
use lockfree_stm.PodVector.{PodVector}
use lockfree_stm.WriteSet
use lockfree_stm.WriteSet.{PodHashSet, WriteSetValue}
use lockfree_stm.Machine.{VarBase, World, ThreadData, State, off_state, lock_bit, as_locked}
use lockfree_stm.Transaction.{Transaction, rw_valid}

abbrev pub Vars : Type 0
Vars = ℕ → VarBase

abbrev pub commit_failed : ℕ
commit_failed = off_state

-- `transaction_domain::bump_size()`, and the clock after a bump.
abbrev pub bump_size : ℕ
bump_size = 1

unfoldable pub bump_clock : World → World
bump_clock w = record w { clock = add_word w.clock bump_size }

-- `version_lock.compare_exchange_strong(expected, desired)`
abbrev pub compare_exchange : ℕ → ℕ → ℕ → Vars → Bool × Vars
compare_exchange x expected desired vars =
    if (vars x).version_lock == expected
    then (true, update vars x (record (vars x) { version_lock = desired }))
    else (false, vars)

unfoldable pub lock : Transaction → ℕ → Vars → Bool × Vars
lock tx x vars =
    let version_buf = (vars x).version_lock in
    if rw_valid tx version_buf
    then compare_exchange x version_buf (as_locked version_buf) vars
    else (false, vars)

unfoldable pub unlock_as_version : ℕ → ℕ → Vars → Vars
unlock_as_version x version vars = update vars x (record (vars x) { version_lock = version })

unfoldable pub unlock : ℕ → Vars → Vars
unlock x vars = unlock_as_version x (bit_xor (vars x).version_lock lock_bit) vars

unfoldable pub unlock_write_set : List WriteSetValue → Vars → Vars
unlock_write_set [] vars = vars
unlock_write_set (e ∷ es) vars = unlock_write_set es (unlock e.dest_var vars)

-- The loop runs from the last entry to the first, `i` entries left; an erased entry is replaced by
-- one that was already looked at.
unfoldable pub remove_from : PodHashSet → ℕ → PodVector ℕ → PodVector ℕ
remove_from ws zero rs = rs
remove_from ws (suc i) rs = remove_from ws i (elim (get_elem? rs.elems i) [
  | none ↦ rs
  | some x ↦ elim (WriteSet.find ws x) [ none ↦ rs | some j ↦ PodVector.unordered_erase rs i ]
])

unfoldable pub remove_writes_from_reads : ThreadData → ThreadData
remove_writes_from_reads td = record td {
  read_set = remove_from td.write_set (length td.read_set.elems) td.read_set;
}

-- `done` are the entries in `[write_begin, write_iter)`, all locked.
unfoldable pub lock_from :
    Transaction → List WriteSetValue → List WriteSetValue → Vars → Bool × Vars
lock_from tx done [] vars = (true, vars)
lock_from tx done (e ∷ es) vars =
    let (ok, vars') = lock tx e.dest_var vars in
    let rest = lock_from tx (done ++ e ∷ []) es vars' in
    if ok then rest else (false, unlock_write_set done vars')

unfoldable pub lock_writes : Transaction → List WriteSetValue → Vars → Bool × Vars
lock_writes tx es vars = lock_from tx [] es vars

unfoldable pub validate_reads : Transaction → List ℕ → List WriteSetValue → Vars → Bool × Vars
validate_reads tx [] es vars = (true, vars)
validate_reads tx (x ∷ xs) es vars =
    let rest = validate_reads tx xs es vars in
    if not (rw_valid tx (vars x).version_lock) then (false, unlock_write_set es vars) else rest

unfoldable pub do_writes : List WriteSetValue → Vars → Vars
do_writes [] vars = vars
do_writes (e ∷ es) vars =
    do_writes es (update vars e.dest_var (record (vars e.dest_var) { storage = e.pending_write }))

unfoldable pub publish : List WriteSetValue → ℕ → Vars → Vars
publish [] version vars = vars
publish (e ∷ es) version vars = publish es version (unlock_as_version e.dest_var version vars)

abbrev pub with_vars : World → Vars → World
with_vars w vars = record w { var = vars }

unfoldable pub slower_path : Transaction → ThreadData → World → ℕ × World
slower_path tx td w =
    let es = td.write_set.elems.elems in
    let (ok, vars) = validate_reads tx td.read_set.elems es w.var in
    if not ok then (commit_failed, with_vars w vars) else (
      w.clock,
      with_vars (bump_clock w) (publish es (add_word w.clock bump_size) (do_writes es vars)),
    )

unfoldable pub slow_path : Transaction → State → ℕ × State
slow_path tx s =
    let td = remove_writes_from_reads s.td in
    let (ok, vars) = lock_writes tx td.write_set.elems.elems s.world.var in
    let w = with_vars s.world vars in
    if not ok
    then (commit_failed, record { world = w; td = td })
    else (let (epoch, w') = slower_path tx td w in (epoch, record { world = w'; td = td }))

-- The epoch to synchronise on, or `commit_failed`.
unfoldable pub try_commit : Transaction → State → ℕ × State
try_commit tx s = if WriteSet.is_empty s.td.write_set then (0, s) else slow_path tx s
