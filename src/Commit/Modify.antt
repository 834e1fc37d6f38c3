-- ===== src/Commit/Modify.antt =====
-- One change to the variable of each entry of a write set, and what it does at one address.
use Prim.Native.Nat.{bit_xor}
use lockfree_stm.Common.{ℕ, ◌^◌, ◌<◌, ◌≡◌, refl, List, [], ◌∷◌, none, some, arith}
use lockfree_stm.Common.Bits.{bit_at}
use lockfree_stm.Common.Update.{update}
use lockfree_stm.WriteSet.{WriteSetValue}
use lockfree_stm.WriteSet.Entries.{pending, IsUnique, pending-none}
use lockfree_stm.Machine.{VarBase, lock_bit, as_locked}
use lockfree_stm.Commit.{Vars, unlock_write_set, unlock, unlock_as_version, do_writes, publish}

-- A change of a variable that may use the pending word.
abbrev pub Change : Type 0
Change = ℕ → VarBase → VarBase

unfoldable pub modify : Change → List WriteSetValue → Vars → Vars
modify f [] vars = vars
modify f (e ∷ es) vars = modify f es (update vars e.dest_var (f e.pending_write (vars e.dest_var)))

-- Each variable with an entry is changed once, by its own entry, and no other variable is.
pub modify-at :
    (f : Change) (es : List WriteSetValue) (vars : Vars) (x : ℕ)
    → IsUnique es
    → modify f es vars x ≡ elim (pending x es) [ none ↦ vars x | some w ↦ f w (vars x) ]
unfolding modify pending update
modify-at f [] vars x u = refl
modify-at f (e ∷ es) vars x u = ground (
  arith,
  modify-at f es (update vars e.dest_var (f e.pending_write (vars e.dest_var))) x u.1,
  pending-none e.dest_var es u.0,
)

abbrev pub to_locked : Change
to_locked w v = record v { version_lock = as_locked v.version_lock }

abbrev pub to_unlocked : Change
to_unlocked w v = record v { version_lock = bit_xor v.version_lock lock_bit }

abbrev pub to_pending : Change
to_pending w v = record v { storage = w }

abbrev pub to_version : ℕ → Change
to_version n w v = record v { version_lock = n }

pub unlock_write_set-modify :
    (es : List WriteSetValue) (vars : Vars) → unlock_write_set es vars ≡ modify to_unlocked es vars
unfolding unlock_write_set modify unlock unlock_as_version
unlock_write_set-modify [] vars = refl
unlock_write_set-modify (e ∷ es) vars = unlock_write_set-modify es (unlock e.dest_var vars)

pub do_writes-modify :
    (es : List WriteSetValue) (vars : Vars) → do_writes es vars ≡ modify to_pending es vars
unfolding do_writes modify
do_writes-modify [] vars = refl
do_writes-modify (e ∷ es) vars =
    do_writes-modify es
      (update vars e.dest_var (record (vars e.dest_var) { storage = e.pending_write }))

pub publish-modify :
    (es : List WriteSetValue) (n : ℕ) (vars : Vars)
    → publish es n vars ≡ modify (to_version n) es vars
unfolding publish modify unlock_as_version
publish-modify [] n vars = refl
publish-modify (e ∷ es) n vars = publish-modify es n (unlock_as_version e.dest_var n vars)

-- Unlocking undoes the locking of an unlocked version.
pub xor-as_locked : (n : ℕ) → n < 2 ^ 63 → bit_xor (as_locked n) lock_bit ≡ n
unfolding as_locked
xor-as_locked n h = let b = bit_at 63 n h in rw b.or_clear b.xor_set
