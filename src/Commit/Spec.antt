-- ===== src/Commit/Spec.antt =====
-- `try_commit` against its specification: all of the writes under one new version, or nothing.
use lockfree_stm.Common.{
  ℕ, ◌^◌, ◌<◌, ◌≡◌, refl, ap, ◌∙◌, fun_ext, Bool, true, false, ◌&&◌, ◌||◌, List, [], ◌∷◌, none,
  some, arith, if◌then◌else◌, Bool-cases, Option-cases, inl, inr,
}
use lockfree_stm.Common.Word.{add_word}
use lockfree_stm.WriteSet
use lockfree_stm.WriteSet.{PodHashSet, WriteSetValue, find, find_impl}
use lockfree_stm.WriteSet.Entries.{pending, IsUnique, pending-none}
use lockfree_stm.WriteSet.Filter.{find-find_impl}
use lockfree_stm.Machine.{State}
use lockfree_stm.Transaction.{Transaction, rw_valid, version_of}
use lockfree_stm.Transaction.Reads.{IsValid}
use lockfree_stm.Commit.{
  Vars, commit_failed, bump_size, with_vars, bump_clock, remove_writes_from_reads, lock_writes,
  do_writes, publish, unlock_write_set, slower_path, slow_path, try_commit,
}
use lockfree_stm.Commit.Modify.{
  modify, modify-at, to_locked, to_unlocked, to_pending, to_version, unlock_write_set-modify,
  do_writes-modify, publish-modify, xor-as_locked,
}
use lockfree_stm.Commit.Locks.{all_valid, lock_from-valid, lock_from-invalid, rw_valid-lt, IsApart}
use lockfree_stm.Commit.Reads.{every, is_written, remove_writes-every, validate_reads-every}

-- No variable that the transaction wrote or read is newer than the transaction.
unfoldable pub can_commit : Transaction → State → Bool
can_commit tx s =
    all_valid tx s.td.write_set.elems.elems s.world.var
    && every (λ x. is_written s.td.write_set x || rw_valid tx (version_of s x)) s.td.read_set.elems

-- The variables after a commit at clock `n`: each pending word, under the version `n + 1`.
unfoldable pub committed : ℕ → List WriteSetValue → Vars → Vars
committed n es vars x = elim (pending x es) [
  | none ↦ vars x
  | some w ↦ record { version_lock = add_word n bump_size; storage = w }
]

all_valid-pending :
    (tx : Transaction) (es : List WriteSetValue) (vars : Vars) (x w : ℕ)
    → all_valid tx es vars ≡ true
    → pending x es ≡ some w
    → rw_valid tx (vars x).version_lock ≡ true
unfolding all_valid pending
all_valid-pending tx [] vars x w h e = absurd (cc)
all_valid-pending tx (d ∷ es) vars x w h e = ground (arith, all_valid-pending tx es vars x w)

publish-committed :
    (n : ℕ) (es : List WriteSetValue) (vars : Vars)
    → IsUnique es
    → publish es (add_word n bump_size) (do_writes es (modify to_locked es vars))
      ≡ committed n es vars
unfolding committed
publish-committed n es vars u =
    rw (publish-modify, do_writes-modify)
      (fun_ext λ x. ground (
        arith,
        modify-at (to_version (add_word n bump_size)) es
            (modify to_pending es (modify to_locked es vars)) x u,
        modify-at to_pending es (modify to_locked es vars) x u,
        modify-at to_locked es vars x u,
      ))

unlock-locked :
    (tx : Transaction) (es : List WriteSetValue) (vars : Vars)
    → tx.version < 2 ^ 63
    → IsUnique es
    → all_valid tx es vars ≡ true
    → unlock_write_set es (modify to_locked es vars) ≡ vars
unlock-locked tx es vars b u h = rw unlock_write_set-modify (fun_ext at)
  where
    at : (x : ℕ) → modify to_unlocked es (modify to_locked es vars) x ≡ vars x
    at x = elim (Option-cases (pending x es)) [
      | inl a ↦ ground (
        arith,
        a,
        modify-at to_unlocked es (modify to_locked es vars) x u,
        modify-at to_locked es vars x u,
      )
      | inr (w, e) ↦
          let lt = rw_valid-lt tx (vars x).version_lock b (all_valid-pending tx es vars x w h e) in
          ground (
            arith,
            e,
            xor-as_locked (vars x).version_lock lt,
            modify-at to_unlocked es (modify to_locked es vars) x u,
            modify-at to_locked es vars x u,
          )
    ]

-- Variables without an entry are tested under the locks as they would be without them.
locked_reads :
    (tx : Transaction) (s : State)
    → IsValid s
    → let ws = s.td.write_set in
      let vars = modify to_locked ws.elems.elems s.world.var in
      every (λ x. is_written ws x || rw_valid tx (vars x).version_lock) s.td.read_set.elems
      ≡ every (λ x. is_written ws x || rw_valid tx (version_of s x)) s.td.read_set.elems
unfolding is_written
locked_reads tx s v =
    ap (λ p. every p s.td.read_set.elems)
      (fun_ext λ x. ground (
        arith,
        find-find_impl s.td.write_set x v.writes,
        pending-none x s.td.write_set.elems.elems,
        modify-at to_locked s.td.write_set.elems.elems s.world.var x v.writes.unique,
      ))

IsApart-nil : (es : List WriteSetValue) → IsApart [] es
unfolding find_impl
IsApart-nil [] = tt
IsApart-nil (e ∷ es) = (refl, IsApart-nil es)

-- What a commit gives: the clock before the bump and the new variables, or failure and the variables
-- as they were. The read set has lost the variables that were also written.
unfoldable pub commit_spec : Transaction → State → ℕ × State
commit_spec tx s =
    let td = remove_writes_from_reads s.td in
    if can_commit tx s
    then (
      s.world.clock,
      record {
        world =
            with_vars (bump_clock s.world)
              (committed s.world.clock s.td.write_set.elems.elems s.world.var);
        td = td;
      },
    )
    else (commit_failed, record { world = s.world; td = td })

-- A commit with writes succeeds exactly where no variable that was read or written is newer than the
-- transaction. Then every pending word is stored under the version one past the clock, which is
-- bumped, and no other variable changes; otherwise the shared memory is as it was, with no lock left.
pub try_commit-spec :
    (tx : Transaction) (s : State)
    → IsValid s
    → tx.version < 2 ^ 63
    → WriteSet.is_empty s.td.write_set ≡ false
    → try_commit tx s ≡ commit_spec tx s
unfolding try_commit slow_path slower_path lock_writes commit_spec can_commit bump_clock
    remove_writes_from_reads unlock_write_set
try_commit-spec tx s v b n =
    let es = s.td.write_set.elems.elems in
    let vars = s.world.var in
    let u = v.writes.unique in
    elim (Bool-cases (all_valid tx es vars)) [
      | inr bad ↦ rw (n, lock_from-invalid tx [] es vars b u (IsApart-nil es) bad, bad)
      | inl ok ↦
          let locked = modify to_locked es vars in
          let same =
            remove_writes-every s.td (λ x. rw_valid tx (locked x).version_lock)
            ∙ locked_reads tx s v in
          elim (Bool-cases (
            every (λ x. is_written s.td.write_set x || rw_valid tx (version_of s x))
              s.td.read_set.elems)) [
                | inl good ↦ rw (
                  n,
                  lock_from-valid tx [] es vars u ok,
                  validate_reads-every,
                  same ∙ good,
                  ok,
                  good,
                  publish-committed s.world.clock es vars u,
                )
                | inr bad ↦ rw (
                  n,
                  lock_from-valid tx [] es vars u ok,
                  validate_reads-every,
                  same ∙ bad,
                  ok,
                  bad,
                  unlock-locked tx es vars b u ok,
                )
              ]
    ]
