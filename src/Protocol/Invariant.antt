-- ===== src/Protocol/Invariant.antt =====
-- What holds between the moves of Protocol.
use lockfree_stm.Common.{
  ℕ, ◌+◌, ◌^◌, ◌≤◌, ◌≡◌, ◌⊎◌, Bool, true, false, not, ◌&&◌, List, [], ◌∷◌, Option, none, some, ◌==◌,
}
use lockfree_stm.WriteSet.{WriteSetValue}
use lockfree_stm.Machine.{VarBase}
use lockfree_stm.Protocol.{
  ReadSetValue, Pc, idle, running, loading, locking, swapping, validating, writing, publishing,
  undoing, System, has, settle,
}

-- The entries whose variables a thread has locked.
abbrev pub held : Pc → List WriteSetValue
held idle = []
held (running v rs ws) = []
held (loading v rs ws x w) = []
held (locking v rs done todo) = done
held (swapping v rs done e todo k) = done
held (validating v n ws seen todo) = ws
held (writing v n rs ws todo) = ws
held (publishing n todo) = todo
held (undoing todo) = todo

abbrev pub is_owner : ℕ → Option ℕ → Bool
is_owner i none = false
is_owner i (some j) = i == j

abbrev pub is_unique : List WriteSetValue → Bool
is_unique [] = true
is_unique (e ∷ es) = not (has e.dest_var es) && is_unique es

abbrev pub writes_now : Pc → Bool
writes_now (writing v n rs ws todo) = true
writes_now p = false

-- A commit between its first write and its bump owns the variable.
abbrev pub is_written : (ℕ → Pc) → Option ℕ → Bool
is_written pcs none = false
is_written pcs (some j) = writes_now (pcs j)

-- Each read returned what the memory `m` holds.
unfoldable pub Returned : (ℕ → ℕ) → List ReadSetValue → Type 0
Returned m [] = Unit
Returned m (r ∷ rs) = (r.result ≡ m r.src_var) × Returned m rs

-- The last commit to `x` is at the clock `k`.
pub record IsLast (clock : ℕ) (hist : ℕ → ℕ → ℕ) (x k : ℕ) : Type 0 where
  pub past : k ≤ clock
  pub still : (t : ℕ) → k ≤ t → t ≤ clock → hist t x ≡ hist clock x

-- The variable `x` in the hands of the thread at a place: `k` is its last commit and `m` what that left.
unfoldable pub Held : ℕ → ℕ → ℕ → VarBase → Pc → Type 0
Held k m x c idle = Unit
Held k m x c (running v rs ws) = Unit
Held k m x c (loading v rs ws y w) = Unit
Held k m x c (locking v rs done todo) = (c.version_lock ≡ k + 2 ^ 63) × (c.storage ≡ m) × (k ≤ v)
Held k m x c (swapping v rs done e todo j) =
    (c.version_lock ≡ k + 2 ^ 63) × (c.storage ≡ m) × (k ≤ v)
Held k m x c (validating v n ws seen todo) =
    (c.version_lock ≡ k + 2 ^ 63) × (c.storage ≡ m) × (k ≤ v)
Held k m x c (writing v n rs ws todo) =
    (2 ^ 63 ≤ c.version_lock) × (settle todo x c.storage ≡ settle ws x m) × (k ≤ v)
Held k m x c (publishing n todo) = (2 ^ 63 ≤ c.version_lock) × (c.storage ≡ m) × (k ≡ n)
Held k m x c (undoing todo) = (c.version_lock ≡ k + 2 ^ 63) × (c.storage ≡ m)

unfoldable pub Cell : ℕ → ℕ → ℕ → VarBase → (ℕ → Pc) → Option ℕ → Type 0
Cell k m x c pcs none = (c.version_lock ≡ k) × (c.storage ≡ m)
Cell k m x c pcs (some i) = Held k m x c (pcs i)

unfoldable pub Local : ℕ → (ℕ → ℕ → ℕ) → Pc → Type 0
Local clock hist idle = Unit
Local clock hist (running v rs ws) = (v ≤ clock) × Returned (hist v) rs
Local clock hist (loading v rs ws x w) = (v ≤ clock) × Returned (hist v) rs
Local clock hist (locking v rs done todo) = (v ≤ clock) × Returned (hist v) rs
Local clock hist (swapping v rs done e todo k) = (v ≤ clock) × Returned (hist v) rs × (k ≤ v)
Local clock hist (validating v n ws seen todo) =
    (v ≤ n) × (n ≤ clock) × Returned (hist v) seen × Returned (hist v) todo × Returned (hist n) seen
Local clock hist (writing v n rs ws todo) =
    (v ≤ n)
    × (n ≤ clock)
    × Returned (hist v) rs
    × Returned (hist n) rs
    × ((x : ℕ) → has x todo ≡ true → has x ws ≡ true)
Local clock hist (publishing n todo) = n ≤ clock
Local clock hist (undoing todo) = Unit

-- A storage that was loaded is the one of version `v`, or the version test that follows fails.
unfoldable pub Loaded : (ℕ → ℕ → ℕ) → (ℕ → ℕ) → (ℕ → Pc) → (ℕ → Option ℕ) → Pc → Type 0
Loaded hist stamp pcs owner (loading v rs ws x w) =
    (is_written pcs (owner x) ≡ true) ⊎ (stamp x ≤ v → w ≡ hist v x)
Loaded hist stamp pcs owner p = Unit

pub record IsSound (s : System) : Type 0 where
  pub last : (x : ℕ) → IsLast s.clock s.hist x (s.stamp x)
  pub cell : (x : ℕ) → Cell (s.stamp x) (s.hist s.clock x) x (s.var x) s.pc (s.owner x)
  pub owns : (i x : ℕ) → has x (held (s.pc i)) ≡ is_owner i (s.owner x)
  pub unique : (i : ℕ) → is_unique (held (s.pc i)) ≡ true
  pub local : (i : ℕ) → Local s.clock s.hist (s.pc i)
  pub loaded : (i : ℕ) → Loaded s.hist s.stamp s.pc s.owner (s.pc i)
