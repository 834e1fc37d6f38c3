-- ===== src/Transaction.antt =====
-- `transaction_base` (include/lstm/detail/transaction_base.hpp): reads and writes of variables inside
-- a transaction, each run with no other thread in between. The demotions are those of
-- include/lstm/transaction.hpp.
pub mod Reads
pub mod Writes
pub mod HeapWrites
use lockfree_stm.Common.{
  ℕ, ◌+◌, Bool, true, false, not, ◌&&◌, ◌||◌, List, [], ◌∷◌, Option, none, some, leb, ◌==◌,
  if◌then◌else◌, bit_and,
}
use lockfree_stm.Common.Update.{update}
use lockfree_stm.PodVector
use lockfree_stm.WriteSet
use lockfree_stm.WriteSet.{PodHashSet, success}
use lockfree_stm.WriteSet.Hash.{reference_hash, var_hash}
use lockfree_stm.QuiescenceBuffer
use lockfree_stm.TxKind
use lockfree_stm.TxKind.{TxKind}
use lockfree_stm.Machine.{
  Callback, destroy_deallocate, VarBase, Block, object, World, ThreadData, State, Outcome, value,
  retry, M, ◌>>=◌, ◌>>◌, pure, allocate_construct,
}
use lockfree_stm.ThreadData.{
  add_write_set, add_write_set_unchecked, sometime_synchronized_after, after_fail, in_transaction,
}

-- `can_write` is whether `tls_td` is not null.
pub record Transaction : Type 0 where
  pub can_write : Bool
  pub version : ℕ

-- A heap variable `var<T, Alloc>`: the address and the alignment of the object, and the address of
-- its `var_base`, which lies behind a stateful allocator.
pub record HeapVar : Type 0 where
  pub base : ℕ
  pub self : ℕ
  pub align : ℕ

abbrev pub version_of : State → ℕ → ℕ
version_of s x = (s.world.var x).version_lock

abbrev pub storage_of : State → ℕ → ℕ
storage_of s x = (s.world.var x).storage

unfoldable pub rw_valid : Transaction → ℕ → Bool
rw_valid tx version = leb version tx.version

abbrev pub with_td : State → ThreadData → State
with_td s td = record s { td = td }

abbrev pub internal_retry {ℓ} : {A : Type ℓ} → M A
internal_retry s = (retry, s)

abbrev pub can_demote_safely : State → Bool
can_demote_safely s = WriteSet.is_empty s.td.write_set

unfoldable pub unsafe_checked_demote : Transaction → State → Transaction
unsafe_checked_demote tx s =
    if can_demote_safely s
    then record { can_write = false; version = tx.version }
    else record { can_write = true; version = tx.version }

-- `valid(td)`, for `td` the record of this thread or null.
unfoldable pub valid : Transaction → Option ThreadData → Bool
valid tx none = not tx.can_write
valid tx (some td) =
    (not tx.can_write && elim td.tx_state [ TxKind.read_write ↦ false | _ ↦ true ]
      || (tx.can_write && elim td.tx_state [ TxKind.read_only ↦ false | _ ↦ true ]
          || WriteSet.is_empty td.write_set))
    && td.active == tx.version
    && in_transaction td

unfoldable pub rw_read_slow_path : Transaction → ℕ → M ℕ
rw_read_slow_path tx x s = elim (WriteSet.find s.td.write_set x) [
  | none ↦
      if rw_valid tx (version_of s x)
      then (
        value (storage_of s x),
        with_td s (record (s.td) { read_set = PodVector.emplace_back s.td.read_set x }),
      )
      else internal_retry s
  | some i ↦
      if rw_valid tx (version_of s x)
      then (value (WriteSet.pending_at s.td.write_set.elems.elems i), s)
      else internal_retry s
]

abbrev pub filtered : State → ℕ → Bool
filtered s x = not (bit_and s.td.write_set.filter (var_hash x) == 0)

unfoldable pub rw_read_base : Transaction → ℕ → M ℕ
unfolding rw_read_slow_path
rw_read_base tx x s =
    if (not (PodVector.allocates_on_next_push s.td.read_set) && not (filtered s x))
      && rw_valid tx (version_of s x)
    then (
      value (storage_of s x),
      with_td s (record (s.td) { read_set = PodVector.unchecked_emplace_back s.td.read_set x }),
    )
    else rw_read_slow_path tx x s

unfoldable pub rw_untracked_read_slow_path : Transaction → ℕ → M ℕ
rw_untracked_read_slow_path tx x s = elim (WriteSet.find s.td.write_set x) [
  | none ↦ if rw_valid tx (version_of s x) then (value (storage_of s x), s) else internal_retry s
  | some i ↦
      if rw_valid tx (version_of s x)
      then (value (WriteSet.pending_at s.td.write_set.elems.elems i), s)
      else internal_retry s
]

unfoldable pub rw_untracked_read_base : Transaction → ℕ → M ℕ
unfolding rw_untracked_read_slow_path
rw_untracked_read_base tx x s =
    if not (filtered s x) && rw_valid tx (version_of s x)
    then (value (storage_of s x), s)
    else rw_untracked_read_slow_path tx x s

unfoldable pub ro_read_base : Transaction → ℕ → M ℕ
ro_read_base tx x s =
    if not tx.can_write && rw_valid tx (version_of s x)
    then (value (storage_of s x), s)
    else if tx.can_write
    then rw_read_base tx x s
    else internal_retry s

unfoldable pub ro_untracked_read_base : Transaction → ℕ → M ℕ
ro_untracked_read_base tx x s =
    if not tx.can_write && rw_valid tx (version_of s x)
    then (value (storage_of s x), s)
    else if tx.can_write
    then rw_untracked_read_base tx x s
    else internal_retry s

-- A write into the entry that a lookup found.
abbrev pub set_entry : Option ℕ → ℕ → ThreadData → ThreadData
set_entry none w td = td
set_entry (some i) w td = record td {
  write_set = record (td.write_set) {
    elems = record (td.write_set.elems) {
      elems = WriteSet.set_pending td.write_set.elems.elems i w;
    };
  };
}

-- The entry is made, or changed, before the version is tested.
unfoldable pub rw_atomic_write_slow_path : Transaction → ℕ → ℕ → M (Unit {0})
rw_atomic_write_slow_path tx x w s =
    let found = WriteSet.lookup s.td.write_set x in
    let td =
      if success found
      then set_entry found.pending_write w s.td
      else add_write_set x w found.hash s.td in
    if rw_valid tx (version_of s x) then (value tt, with_td s td) else internal_retry (with_td s td)

unfoldable pub rw_atomic_write_base : Transaction → ℕ → ℕ → M (Unit {0})
unfolding rw_atomic_write_slow_path
rw_atomic_write_base tx x w s =
    if WriteSet.allocates_on_next_push s.td.write_set
      || (filtered s x || not (rw_valid tx (version_of s x)))
    then rw_atomic_write_slow_path tx x w s
    else (value tt, with_td s (add_write_set_unchecked x w (var_hash x) s.td))

-- `var<T>::store(lookup.pending_write(), u)` assigns to the object that the entry points to.
abbrev pub assign : Option ℕ → ℕ → State → State
assign none u s = s
assign (some i) u s =
    let p = WriteSet.pending_at s.td.write_set.elems.elems i in
    record s { world = record (s.world) { block = update s.world.block p (object u) } }

-- A first write: a fresh object, its entry, and the callbacks that free the old object after a
-- commit and the new one after a failure.
unfoldable pub begin_write : ℕ → ℕ → ℕ → M (Unit {0})
begin_write x hash u s =
    let (fresh, w) = allocate_construct u s.world in
    let td = add_write_set x fresh hash s.td in
    let td' = sometime_synchronized_after (destroy_deallocate (storage_of s x)) td in
    (value tt, record { world = w; td = after_fail (destroy_deallocate fresh) td' })

unfoldable pub rw_write_slow_path : Transaction → HeapVar → ℕ → M (Unit {0})
unfolding begin_write
rw_write_slow_path tx v u s =
    let found = WriteSet.lookup s.td.write_set v.base in
    let fits = rw_valid tx (version_of s v.base) in
    if not (success found)
    then if fits then begin_write v.base found.hash u s else internal_retry s
    else if fits
    then (value tt, assign found.pending_write u s)
    else internal_retry s

-- The hash of the fast path is that of the whole variable, `dumb_reference_hash(dest_var)`.
unfoldable pub rw_write : Transaction → HeapVar → ℕ → M (Unit {0})
unfolding rw_write_slow_path
rw_write tx v u s =
    let hash = reference_hash v.align v.self in
    let td = s.td in
    if WriteSet.allocates_on_next_push td.write_set
      || (not (bit_and td.write_set.filter hash == 0)
          || (PodVector.allocates_on_next_push td.fail_callbacks
              || (QuiescenceBuffer.allocates_on_next_push td.succ_callbacks
                  || not (rw_valid tx (version_of s v.base)))))
    then rw_write_slow_path tx v u s
    else let (fresh, w) = allocate_construct u s.world in
      let td' = add_write_set_unchecked v.base fresh hash td in
      let fails = PodVector.unchecked_emplace_back td'.fail_callbacks (destroy_deallocate fresh) in
      let succs =
        QuiescenceBuffer.unchecked_emplace_back td'.succ_callbacks
          (destroy_deallocate (storage_of s v.base)) in
      (
        value tt,
        record { world = w; td = record td' { fail_callbacks = fails; succ_callbacks = succs } },
      )
