-- ===== src/Atomic/Loop.antt =====
-- The retry loop: it ends at the first attempt that needs no retry, and without contention that is
-- the first one.
use lockfree_stm.Common.{
  ℕ, ◌^◌, ◌≤◌, ◌<◌, ◌≡◌, refl, ap, ◌∙◌, true, false, ◌||◌, List, [], ◌∷◌, some, arith, Bool-cases,
  inl, inr,
}
use lockfree_stm.WriteSet
use lockfree_stm.WriteSet.{WriteSetValue}
use lockfree_stm.Machine.{State, value, M}
use lockfree_stm.ThreadData.{access_lock}
use lockfree_stm.Transaction.{Transaction, rw_valid, version_of, with_td}
use lockfree_stm.Transaction.Reads.{IsValid}
use lockfree_stm.Commit.{Vars}
use lockfree_stm.Commit.Locks.{all_valid}
use lockfree_stm.Commit.Reads.{every, is_written}
use lockfree_stm.Commit.Spec.{can_commit, commit_spec, try_commit-spec}
use lockfree_stm.Atomic.{
  Round, returned, writer, after_others, attempts, attempt_write, finish_write, tx_success,
  write_slow_path,
}

-- No variable is newer than the clock `n`: no other thread holds a lock, and none has committed since.
abbrev pub IsCalm : ℕ → Vars → Type 0
IsCalm n vars = (x : ℕ) → (vars x).version_lock ≤ n

all_valid-IsCalm :
    (tx : Transaction) (es : List WriteSetValue) (vars : Vars)
    → IsCalm tx.version vars
    → all_valid tx es vars ≡ true
unfolding all_valid rw_valid
all_valid-IsCalm tx [] vars c = refl
all_valid-IsCalm tx (e ∷ es) vars c = ground (arith, c e.dest_var, all_valid-IsCalm tx es vars c)

every-IsCalm :
    (tx : Transaction) (s : State) (xs : List ℕ)
    → IsCalm tx.version s.world.var
    → every (λ x. is_written s.td.write_set x || rw_valid tx (version_of s x)) xs ≡ true
unfolding every rw_valid
every-IsCalm tx s [] c = refl
every-IsCalm tx s (x ∷ xs) c = elim (Bool-cases (is_written s.td.write_set x)) [
  | inl w ↦ ground (arith, w, c x, every-IsCalm tx s xs c)
  | inr w ↦ ground (arith, w, c x, every-IsCalm tx s xs c)
]

can_commit-IsCalm :
    (tx : Transaction) (s : State) → IsCalm tx.version s.world.var → can_commit tx s ≡ true
unfolding can_commit
can_commit-IsCalm tx s c = ground (
  arith,
  all_valid-IsCalm tx s.td.write_set.elems.elems s.world.var c,
  every-IsCalm tx s s.td.read_set.elems c,
)

abbrev pub tx_at : ℕ → Transaction
tx_at n = record { can_write = true; version = n }

finish_write-IsCalm :
    {A : Type 0} (loaded : List ℕ) (t : State) (a : A)
    → t.world.clock < 2 ^ 63
    → IsValid t
    → IsCalm t.world.clock t.world.var
    → WriteSet.is_empty t.td.write_set ≡ false
    → finish_write (tx_at t.world.clock) loaded (value a, t)
      ≡ (returned a, tx_success writer t.world.clock loaded (commit_spec (tx_at t.world.clock) t).1)
unfolding finish_write commit_spec
finish_write-IsCalm loaded t a b v calm n =
    rw
      (
        try_commit-spec (tx_at t.world.clock) t v b n,
        commit_spec,
        can_commit-IsCalm (tx_at t.world.clock) t calm,
      )
      (ground arith)

first_attempt :
    {A : Type 0} (func : Transaction → M A) (loaded : List ℕ) (s t : State) (a : A)
    → func (tx_at t.world.clock) (with_td s (access_lock t.world.clock s.td)) ≡ (value a, t)
    → s.world.clock ≡ t.world.clock
    → t.world.clock < 2 ^ 63
    → IsValid t
    → IsCalm t.world.clock t.world.var
    → WriteSet.is_empty t.td.write_set ≡ false
    → attempt_write func loaded s
      ≡ (returned a, tx_success writer t.world.clock loaded (commit_spec (tx_at t.world.clock) t).1)
unfolding attempt_write
first_attempt func loaded s t a run same b v calm n =
    ap (λ k. finish_write (tx_at k) loaded (func (tx_at k) (with_td s (access_lock k s.td)))) same
    ∙ ap (finish_write (tx_at t.world.clock) loaded) run
    ∙ finish_write-IsCalm loaded t a b v calm n

-- Without contention a transaction commits at its first attempt. Where the client's function, begun
-- at a clock below the lock bit, returns `a` with valid sets and something to write, and at the commit the
-- clock is still the same and no variable is newer or locked, the loop ends there, with the writes of
-- `commit_spec` and a clean record.
pub solo_commit :
    {A : Type 0} (func : Transaction → M A) (r : Round) (rs : List Round) (s t : State) (a : A)
    → func (tx_at t.world.clock) (with_td (after_others r s) (access_lock t.world.clock s.td))
      ≡ (value a, t)
    → (r.others s.world).clock ≡ t.world.clock
    → t.world.clock < 2 ^ 63
    → IsValid t
    → IsCalm t.world.clock t.world.var
    → WriteSet.is_empty t.td.write_set ≡ false
    → write_slow_path func (r ∷ rs) s
      ≡ some (
        value a,
        tx_success writer t.world.clock r.loaded (commit_spec (tx_at t.world.clock) t).1,
      )
unfolding attempts
solo_commit func r rs s t a run same b v calm n =
    let e = first_attempt func r.loaded (after_others r s) t a run same b v calm n in
    rw (attempts, e) (ap (λ p. some (value a, p.1)) e)
