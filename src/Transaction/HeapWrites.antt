-- ===== src/Transaction/HeapWrites.antt =====
-- Writes of heap variables: what a later read of the same variable gives.
use lockfree_stm.Common.{
  ℕ, ◌<◌, ◌≡◌, refl, ap, ◌∙◌, Bool, true, false, not, ◌||◌, some, arith, ◌==◌, if◌then◌else◌,
  bit_and, bit_or, Bool-cases, Option-cases, inl, inr,
}
use lockfree_stm.Common.Update.{update_self}
use lockfree_stm.PodVector
use lockfree_stm.QuiescenceBuffer
use lockfree_stm.WriteSet
use lockfree_stm.WriteSet.{
  find, find_impl, lookup, lookup_slow_path, pending_at, success, unchecked_push_back, push_back,
}
use lockfree_stm.WriteSet.Hash.{var_hash, reference_hash, reference_hash-pos, var_align}
use lockfree_stm.WriteSet.Entries.{Absent, find_impl-pending}
use lockfree_stm.WriteSet.Filter.{lookup-lookup_slow_path, missed_by_filter, unchecked-push_back}
use lockfree_stm.ThreadData.{
  add_write_set, add_write_set_unchecked, sometime_synchronized_after, after_fail,
}
use lockfree_stm.Machine.{State, value, object, allocate_construct, destroy_deallocate}
use lockfree_stm.Transaction.{
  Transaction, HeapVar, version_of, storage_of, rw_valid, assign, begin_write, rw_write_slow_path,
  rw_write, rw_read_base, rw_read_slow_path,
}
use lockfree_stm.Transaction.Reads.{IsValid, seen, rw_read_base-spec}
use lockfree_stm.Transaction.Writes.{Room, add_write_set-Wrote}

-- `t` is a state in which a read of `x` finds a pointer to an object of value `u`.
abbrev pub Reads : Transaction → ℕ → ℕ → State → Type 0
Reads tx x u t = (p : ℕ) × ((rw_read_base tx x t).0 ≡ value p) × (t.world.block p ≡ object u)

seen-Reads :
    (tx : Transaction) (x u p : ℕ) (t : State)
    → IsValid t
    → rw_valid tx (version_of t x) ≡ true
    → seen t x ≡ p
    → t.world.block p ≡ object u
    → Reads tx x u t
seen-Reads tx x u p t v ok e b =
    (p, ap (λ r. r.0) (rw_read_base-spec tx x t v) ∙ rw ok (ap value e), b)

-- A first write: the entry is made, and points to a fresh object.
begin_write-Reads :
    (tx : Transaction) (x u : ℕ) (s : State)
    → IsValid s
    → Room s
    → Absent x s.td.write_set.elems.elems
    → rw_valid tx (version_of s x) ≡ true
    → Reads tx x u (begin_write x (var_hash x) u s).1
unfolding begin_write allocate_construct add_write_set sometime_synchronized_after after_fail
begin_write-Reads tx x u s v b a ok =
    let w = add_write_set-Wrote x s.world.next_block s v b a in
    seen-Reads tx x u s.world.next_block (begin_write x (var_hash x) u s).1
      (record { reads = w.valid.reads; writes = w.valid.writes }) ok (w.sees x ∙ (ground arith))
      (update_self s.world.block s.world.next_block (object u))

-- A further write: the object that the entry points to is assigned.
assign-Reads :
    (tx : Transaction) (x u i : ℕ) (s : State)
    → IsValid s
    → find_impl x s.td.write_set.elems.elems ≡ some i
    → rw_valid tx (version_of s x) ≡ true
    → Reads tx x u (assign (some i) u s)
assign-Reads tx x u i s v e ok =
    seen-Reads tx x u (pending_at s.td.write_set.elems.elems i) (assign (some i) u s)
      (record { reads = v.reads; writes = v.writes }) ok
      (ground (arith, e, find_impl-pending x s.td.write_set.elems.elems))
      (update_self s.world.block (pending_at s.td.write_set.elems.elems i) (object u))

rw_write_slow_path-Reads :
    (tx : Transaction) (v : HeapVar) (u : ℕ) (s : State)
    → IsValid s
    → Room s
    → rw_valid tx (version_of s v.base) ≡ true
    → ((rw_write_slow_path tx v u s).0 ≡ value tt)
      × Reads tx v.base u (rw_write_slow_path tx v u s).1
unfolding rw_write_slow_path lookup_slow_path
rw_write_slow_path-Reads tx v u s w b ok =
    let pos : 0 < var_hash v.base = reference_hash-pos var_align v.base in
    let fresh : (var_hash v.base == 0) ≡ false = ground arith in
    rw (lookup-lookup_slow_path s.td.write_set v.base w.writes, ok)
      (elim (Option-cases (find_impl v.base s.td.write_set.elems.elems)) [
        | inl a ↦ rw (a, lookup_slow_path, fresh) (refl, begin_write-Reads tx v.base u s w b a ok)
        | inr (i, e) ↦ rw (e, lookup_slow_path) (refl, assign-Reads tx v.base u i s w e ok)
      ])

-- The state after the fast path of `rw_write`, with the bit `hash`.
abbrev pub after_fast : ℕ → ℕ → ℕ → State → State
after_fast x hash u s =
    let (fresh, w) = allocate_construct u s.world in
    let td = add_write_set_unchecked x fresh hash s.td in
    record {
      world = w;
      td = record td {
        fail_callbacks =
            PodVector.unchecked_emplace_back td.fail_callbacks (destroy_deallocate fresh);
        succ_callbacks =
            QuiescenceBuffer.unchecked_emplace_back td.succ_callbacks
              (destroy_deallocate (storage_of s x));
      };
    }

fast-Reads :
    (tx : Transaction) (x u : ℕ) (s : State)
    → IsValid s
    → Room s
    → WriteSet.allocates_on_next_push s.td.write_set ≡ false
    → bit_and s.td.write_set.filter (var_hash x) ≡ 0
    → rw_valid tx (version_of s x) ≡ true
    → Reads tx x u (after_fast x (var_hash x) u s)
unfolding allocate_construct add_write_set add_write_set_unchecked
fast-Reads tx x u s v b room clear ok =
    let a =
      missed_by_filter s.td.write_set.filter x s.td.write_set.elems.elems v.writes.covers clear in
    let w = add_write_set-Wrote x s.world.next_block s v b a in
    let same = unchecked-push_back s.td.write_set x s.world.next_block (var_hash x) v.writes room in
    seen-Reads tx x u s.world.next_block (after_fast x (var_hash x) u s)
      (record { reads = w.valid.reads; writes = rw same w.valid.writes }) ok
      (rw same (w.sees x ∙ ground arith)) (update_self s.world.block s.world.next_block (object u))

-- The test for the slow path, and its opposite.
abbrev is_slow : Transaction → HeapVar → State → Bool
is_slow tx v s =
    WriteSet.allocates_on_next_push s.td.write_set
    || (not (bit_and s.td.write_set.filter (reference_hash v.align v.self) == 0)
        || (PodVector.allocates_on_next_push s.td.fail_callbacks
            || (QuiescenceBuffer.allocates_on_next_push s.td.succ_callbacks
                || not (rw_valid tx (version_of s v.base)))))

abbrev pub is_fast : Transaction → HeapVar → State → Bool
is_fast tx v s = not (is_slow tx v s)

if-not {ℓ} : {A : Type ℓ} (b : Bool) (x y : A) → (if b then x else y) ≡ (if not b then y else x)
if-not true x y = refl
if-not false x y = refl

rw_write-path :
    (tx : Transaction) (v : HeapVar) (u : ℕ) (s : State)
    → rw_write tx v u s ≡ (
        if is_fast tx v s
        then (value tt, after_fast v.base (reference_hash v.align v.self) u s)
        else rw_write_slow_path tx v u s)
unfolding rw_write
rw_write-path tx v u s =
    if-not (is_slow tx v s) (rw_write_slow_path tx v u s)
      (value tt, after_fast v.base (reference_hash v.align v.self) u s)

-- A heap variable whose bit is that of its base, as without a stateful allocator: after a write that
-- the version of the variable allows, on either path, a read finds a pointer to the value written.
pub rw_write-Reads :
    (tx : Transaction) (v : HeapVar) (u : ℕ) (s : State)
    → IsValid s
    → Room s
    → reference_hash v.align v.self ≡ var_hash v.base
    → rw_valid tx (version_of s v.base) ≡ true
    → ((rw_write tx v u s).0 ≡ value tt) × Reads tx v.base u (rw_write tx v u s).1
rw_write-Reads tx v u s w b same ok = elim (Bool-cases (is_fast tx v s)) [
  | inr t ↦ rw (rw_write-path tx v u s, t) (rw_write_slow_path-Reads tx v u s w b ok)
  | inl t ↦
      let room : WriteSet.allocates_on_next_push s.td.write_set ≡ false = ground (arith, t) in
      let clear : bit_and s.td.write_set.filter (var_hash v.base) ≡ 0 = ground (arith, t, same) in
      rw (rw_write-path tx v u s, t, same) (refl, fast-Reads tx v.base u s w b room clear ok)
]

stale-after :
    (tx : Transaction) (x h u : ℕ) (s : State)
    → rw_valid tx (version_of s x) ≡ true
    → bit_and (bit_or s.td.write_set.filter h) (var_hash x) ≡ 0
    → (rw_read_base tx x (after_fast x h u s)).0 ≡ value (storage_of s x)
unfolding rw_read_base rw_read_slow_path find allocate_construct add_write_set_unchecked
    unchecked_push_back
stale-after tx x h u s ok clear = ground (arith, ok, clear)

-- A heap variable whose bit is not that of its base: where neither the filter nor that bit has the bit
-- of the base, a write on the fast path is lost to the next read, which returns the old storage.
pub rw_write-stale :
    (tx : Transaction) (v : HeapVar) (u : ℕ) (s : State)
    → is_fast tx v s ≡ true
    → bit_and (bit_or s.td.write_set.filter (reference_hash v.align v.self)) (var_hash v.base) ≡ 0
    → ((rw_write tx v u s).0 ≡ value tt)
      × ((rw_read_base tx v.base (rw_write tx v u s).1).0 ≡ value (storage_of s v.base))
rw_write-stale tx v u s t clear =
    let ok : rw_valid tx (version_of s v.base) ≡ true = ground (arith, t) in
    rw (rw_write-path tx v u s, t)
      (refl, stale-after tx v.base (reference_hash v.align v.self) u s ok clear)
