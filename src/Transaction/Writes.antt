-- ===== src/Transaction/Writes.antt =====
-- What a write changes: the pending word of one variable, and nothing that another variable reads.
use lockfree_stm.Common.{
  ℕ, ◌+◌, ◌^◌, ◌<◌, ◌≡◌, refl, ap, true, false, List, [], ◌∷◌, some, arith, length, zero, suc, ◌==◌,
  if◌then◌else◌, Option-cases, inl, inr,
}
use lockfree_stm.WriteSet
use lockfree_stm.WriteSet.{
  PodHashSet, find_impl, pending_at, set_pending, lookup, lookup_slow_path, push_back, success,
}
use lockfree_stm.WriteSet.Entries.{Absent, pending-snoc, pending-set_pending, set_pending-IsUnique}
use lockfree_stm.WriteSet.Filter.{
  Covers, lookup-lookup_slow_path, push_back-elems, push_back-IsValid, unchecked-push_back,
}
use lockfree_stm.WriteSet.Hash.{var_hash, var_align, reference_hash-pos}
use lockfree_stm.ThreadData.{add_write_set, add_write_set_unchecked}
use lockfree_stm.Machine.{State, value, retry}
use lockfree_stm.Transaction.{
  Transaction, version_of, rw_valid, with_td, set_entry, rw_atomic_write_base, rw_read_base,
}
use lockfree_stm.Transaction.Reads.{IsValid, seen, rw_read_base-spec}

-- The next push does not make the capacity of the write set overflow a word.
abbrev pub Room : State → Type 0
Room s = s.td.write_set.elems.last_valid + 1 < 2 ^ 63

set_pending-Covers :
    (f : ℕ) (es : List WriteSet.WriteSetValue) (i w : ℕ)
    → Covers f es
    → Covers f (set_pending es i w)
unfolding set_pending
set_pending-Covers f [] i w h = tt
set_pending-Covers f (e ∷ es) zero w h = h
set_pending-Covers f (e ∷ es) (suc i) w h = (h.0, set_pending-Covers f es i w h.1)

length-set_pending :
    (es : List WriteSet.WriteSetValue) (i w : ℕ) → length (set_pending es i w) ≡ length es
unfolding set_pending
length-set_pending [] i w = refl
length-set_pending (e ∷ es) zero w = refl
length-set_pending (e ∷ es) (suc i) w = ap suc (length-set_pending es i w)

-- After a write of `w` to `x`: the sets are well formed, and the transaction sees `w` at `x` and
-- what it saw before at every other address. The shared memory is as it was.
pub record Wrote (x w : ℕ) (s t : State) : Type 0 where
  pub valid : IsValid t
  pub sees : (y : ℕ) → seen t y ≡ (if y == x then w else seen s y)
  pub shared : t.world ≡ s.world

set_entry-Wrote :
    (x w i : ℕ) (s : State)
    → IsValid s
    → find_impl x s.td.write_set.elems.elems ≡ some i
    → Wrote x w s (with_td s (set_entry (some i) w s.td))
set_entry-Wrote x w i s v e =
    let es = s.td.write_set.elems.elems in
    record {
      valid = record {
        reads = v.reads;
        writes = record {
          covers = set_pending-Covers s.td.write_set.filter es i w v.writes.covers;
          unique = set_pending-IsUnique w es i v.writes.unique;
          vector = record {
            room = omega (arith, v.writes.vector.room, length-set_pending es i w);
            fits = v.writes.vector.fits;
          };
        };
      };
      sees = λ y. ground (arith, pending-set_pending y x w es i e);
      shared = refl;
    }

pub add_write_set-Wrote :
    (x w : ℕ) (s : State)
    → IsValid s
    → Room s
    → Absent x s.td.write_set.elems.elems
    → Wrote x w s (with_td s (add_write_set x w (var_hash x) s.td))
unfolding add_write_set
add_write_set-Wrote x w s v b a = record {
  valid = record { reads = v.reads; writes = push_back-IsValid s.td.write_set x w v.writes a b };
  sees = λ y.
      rw (push_back-elems s.td.write_set x w (var_hash x) v.writes b)
        (ground (arith, pending-snoc y x w s.td.write_set.elems.elems a));
  shared = refl;
}

-- The state after the entry is made or changed.
abbrev written : ℕ → ℕ → State → State
written x w s =
    let found = lookup s.td.write_set x in
    with_td s (
      if success found
      then set_entry found.pending_write w s.td
      else add_write_set x w found.hash s.td)

written-Wrote : (x w : ℕ) (s : State) → IsValid s → Room s → Wrote x w s (written x w s)
unfolding lookup_slow_path
written-Wrote x w s v b =
    let pos : 0 < var_hash x = reference_hash-pos var_align x in
    let fresh : (var_hash x == 0) ≡ false = ground arith in
    rw (lookup-lookup_slow_path s.td.write_set x v.writes)
      (elim (Option-cases (find_impl x s.td.write_set.elems.elems)) [
        | inl a ↦ rw (a, lookup_slow_path, fresh) (add_write_set-Wrote x w s v b a)
        | inr (i, e) ↦ rw (e, lookup_slow_path) (set_entry-Wrote x w i s v e)
      ])

rw_atomic_write-written :
    (tx : Transaction) (x w : ℕ) (s : State)
    → IsValid s
    → rw_atomic_write_base tx x w s
      ≡ ((if rw_valid tx (version_of s x) then value tt else retry), written x w s)
unfolding rw_atomic_write_base add_write_set add_write_set_unchecked lookup
rw_atomic_write-written tx x w s v = ground (
  arith,
  unchecked-push_back s.td.write_set x w (var_hash x) v.writes,
  reference_hash-pos var_align x,
)

-- Where the sets are valid and have room for an entry, an atomic variable's write, on the fast path or the
-- slow one, makes or changes the entry, and succeeds exactly where the version of the variable is at most
-- that of the transaction.
pub rw_atomic_write-Wrote :
    (tx : Transaction) (x w : ℕ) (s : State)
    → IsValid s
    → Room s
    → ((rw_atomic_write_base tx x w s).0
        ≡ (if rw_valid tx (version_of s x) then value tt else retry))
      × Wrote x w s (rw_atomic_write_base tx x w s).1
rw_atomic_write-Wrote tx x w s v b =
    rw (rw_atomic_write-written tx x w s v) (refl, written-Wrote x w s v b)

-- Where the sets are valid and have room for an entry, a read after a write of an atomic variable that
-- did not retry: of the variable written, the word written; of any other, what it was.
pub read-atomic_write :
    (tx : Transaction) (x y w : ℕ) (s : State)
    → IsValid s
    → Room s
    → rw_valid tx (version_of s x) ≡ true
    → (rw_read_base tx y (rw_atomic_write_base tx x w s).1).0
      ≡ (if y == x then value w else (rw_read_base tx y s).0)
read-atomic_write tx x y w s v b ok =
    let done = written-Wrote x w s v b in
    rw
      (
        rw_atomic_write-written tx x w s v,
        rw_read_base-spec tx y (written x w s) done.valid,
        rw_read_base-spec tx y s v,
      )
      (ground (arith, done.sees y, done.shared, ok))
