-- ===== src/Commit/Locks.antt =====
-- Locking the write set: all of it, or nothing.
use lockfree_stm.Common.{
  ℕ, ◌^◌, ◌<◌, ◌≡◌, ◌≢◌, refl, sym, ap, ◌∙◌, Bool, true, false, ◌&&◌, List, [], ◌∷◌, ◌++◌, arith,
  Bool-cases, inl, inr,
}
use lockfree_stm.Common.Update.{
  update, update_self, update_ne, update-update, update_comm, update_same,
}
use lockfree_stm.WriteSet.{WriteSetValue, find_impl}
use lockfree_stm.WriteSet.Entries.{Absent, IsUnique}
use lockfree_stm.Machine.{VarBase, as_locked}
use lockfree_stm.Transaction.{Transaction, rw_valid}
use lockfree_stm.Commit.{Vars, lock, lock_from, unlock_write_set, unlock, unlock_as_version}
use lockfree_stm.Commit.Modify.{modify, to_locked, xor-as_locked}

-- Whether the transaction may overwrite each of its variables.
unfoldable pub all_valid : Transaction → List WriteSetValue → Vars → Bool
all_valid tx [] vars = true
all_valid tx (e ∷ es) vars = rw_valid tx (vars e.dest_var).version_lock && all_valid tx es vars

all_valid-update :
    (tx : Transaction) (es : List WriteSetValue) (vars : Vars) (x : ℕ) (v : VarBase)
    → Absent x es
    → all_valid tx es (update vars x v) ≡ all_valid tx es vars
unfolding all_valid update find_impl
all_valid-update tx [] vars x v a = refl
all_valid-update tx (e ∷ es) vars x v a = ground (arith, all_valid-update tx es vars x v)

pub rw_valid-lt :
    (tx : Transaction) (n : ℕ) → tx.version < 2 ^ 63 → rw_valid tx n ≡ true → n < 2 ^ 63
unfolding rw_valid
rw_valid-lt tx n b h = ground arith

pub Absent-cons :
    (x : ℕ) (d : WriteSetValue) (es : List WriteSetValue)
    → Absent x (d ∷ es)
    → (x ≢ d.dest_var) × Absent x es
unfolding find_impl
Absent-cons x d es a = ground arith

Absent-append :
    (x : ℕ) (es : List WriteSetValue) (e : WriteSetValue)
    → Absent x es
    → x ≢ e.dest_var
    → Absent x (es ++ e ∷ [])
unfolding find_impl
Absent-append x [] e a n = ground arith
Absent-append x (d ∷ es) e a n = ground (arith, Absent-append x es e)

locked_var : Vars → ℕ → VarBase
locked_var vars x = record (vars x) { version_lock = as_locked (vars x).version_lock }

lock-valid :
    (tx : Transaction) (x : ℕ) (vars : Vars)
    → rw_valid tx (vars x).version_lock ≡ true
    → lock tx x vars ≡ (true, update vars x (locked_var vars x))
unfolding lock locked_var
lock-valid tx x vars h = ground arith

lock-invalid :
    (tx : Transaction) (x : ℕ) (vars : Vars)
    → rw_valid tx (vars x).version_lock ≡ false
    → lock tx x vars ≡ (false, vars)
unfolding lock
lock-invalid tx x vars h = ground arith

pub lock_from-valid :
    (tx : Transaction) (done es : List WriteSetValue) (vars : Vars)
    → IsUnique es
    → all_valid tx es vars ≡ true
    → lock_from tx done es vars ≡ (true, modify to_locked es vars)
unfolding lock_from modify all_valid locked_var
lock_from-valid tx done [] vars u h = refl
lock_from-valid tx done (e ∷ es) vars u h = ground (
  arith,
  lock-valid tx e.dest_var vars,
  all_valid-update tx es vars e.dest_var (locked_var vars e.dest_var) u.0,
  lock_from-valid tx (done ++ e ∷ []) es (update vars e.dest_var (locked_var vars e.dest_var)) u.1,
)

unlock-append :
    (done : List WriteSetValue) (e : WriteSetValue) (vars : Vars)
    → unlock_write_set (done ++ e ∷ []) vars ≡ unlock e.dest_var (unlock_write_set done vars)
unfolding unlock_write_set
unlock-append [] e vars = refl
unlock-append (d ∷ done) e vars = unlock-append done e (unlock d.dest_var vars)

unlock-update :
    (y x : ℕ) (v : VarBase) (vars : Vars)
    → x ≢ y
    → unlock y (update vars x v) ≡ update (unlock y vars) x v
unfolding unlock unlock_as_version
unlock-update y x v vars n = rw (update_ne vars x y v n) (update_comm vars x y v _ n)

unlock_write_set-update :
    (done : List WriteSetValue) (x : ℕ) (v : VarBase) (vars : Vars)
    → Absent x done
    → unlock_write_set done (update vars x v) ≡ update (unlock_write_set done vars) x v
unfolding unlock_write_set find_impl
unlock_write_set-update [] x v vars a = refl
unlock_write_set-update (d ∷ done) x v vars a =
    let (n, rest) = Absent-cons x d done a in
    ap (unlock_write_set done) (unlock-update d.dest_var x v vars n)
    ∙ unlock_write_set-update done x v (unlock d.dest_var vars) rest

unlock_write_set-Absent :
    (done : List WriteSetValue) (x : ℕ) (vars : Vars)
    → Absent x done
    → unlock_write_set done vars x ≡ vars x
unfolding unlock_write_set unlock unlock_as_version
unlock_write_set-Absent [] x vars a = refl
unlock_write_set-Absent (d ∷ done) x vars a =
    let (n, rest) = Absent-cons x d done a in
    unlock_write_set-Absent done x (unlock d.dest_var vars) rest
    ∙ update_ne vars d.dest_var x _ (λ q. n (sym q))

-- Unlocking a variable that was just locked gives back what it was.
unlock-locked_var :
    (x : ℕ) (vars base : Vars)
    → (vars x).version_lock < 2 ^ 63
    → base x ≡ vars x
    → unlock x (update base x (locked_var vars x)) ≡ base
unfolding unlock unlock_as_version locked_var
unlock-locked_var x vars base h e = rw (update_self base x (locked_var vars x)) (
    update-update base x _ _
    ∙ update_same base x _ (
        e
        ∙ ap (λ n. record (vars x) { version_lock = n })
            (sym (xor-as_locked (vars x).version_lock h))))

-- No entry of `done` is one of `es`.
abbrev pub IsApart : List WriteSetValue → List WriteSetValue → Type 0
IsApart done [] = Unit
IsApart done (e ∷ es) = Absent e.dest_var done × IsApart done es

IsApart-snoc :
    (done es : List WriteSetValue) (e : WriteSetValue)
    → IsApart done es
    → Absent e.dest_var es
    → IsApart (done ++ e ∷ []) es
IsApart-snoc done [] e a u = tt
IsApart-snoc done (d ∷ es) e a u =
    let (n, rest) = Absent-cons e.dest_var d es u in
    (Absent-append d.dest_var done e a.0 (λ q. n (sym q)), IsApart-snoc done es e a.1 rest)

-- Where some variable is newer than the transaction, every lock that was taken is given back.
pub lock_from-invalid :
    (tx : Transaction) (done es : List WriteSetValue) (vars : Vars)
    → tx.version < 2 ^ 63
    → IsUnique es
    → IsApart done es
    → all_valid tx es vars ≡ false
    → lock_from tx done es vars ≡ (false, unlock_write_set done vars)
unfolding lock_from all_valid
lock_from-invalid tx done [] vars b u p h = cc
lock_from-invalid tx done (e ∷ es) vars b u p h =
    elim (Bool-cases (rw_valid tx (vars e.dest_var).version_lock)) [
      | inr bad ↦ rw (lock-invalid tx e.dest_var vars bad)
      | inl ok ↦
          let vars' = update vars e.dest_var (locked_var vars e.dest_var) in
          let rest : lock_from tx (done ++ e ∷ []) es vars'
              ≡ (false, unlock_write_set (done ++ e ∷ []) vars') =
            lock_from-invalid tx (done ++ e ∷ []) es vars' b u.1 (IsApart-snoc done es e p.1 u.0) (
              all_valid-update tx es vars e.dest_var (locked_var vars e.dest_var) u.0
              ∙ ground arith) in
          rw (lock-valid tx e.dest_var vars ok) (
            rest
            ∙ ap (λ v. (false, v))
                (unlock-append done e vars'
                  ∙ ap (unlock e.dest_var) (
                      unlock_write_set-update done e.dest_var (locked_var vars e.dest_var) vars p.0)
                  ∙ unlock-locked_var e.dest_var vars (unlock_write_set done vars)
                      (rw_valid-lt tx (vars e.dest_var).version_lock b ok)
                      (unlock_write_set-Absent done e.dest_var vars p.0)))
    ]
