-- ===== src/Protocol.antt =====
-- Transactions of many threads, interleaved at the atomic operations on the clock, on a version lock
-- and on a storage: the reads of include/lstm/detail/transaction_base.hpp and the whole of
-- include/lstm/detail/commit_algorithm.hpp. A schedule says which thread moves and what the client's
-- function does next. Each of these operations is a move of its own but for one pair: `unlock` loads
-- the word of a variable that the thread has locked and stores it back in one move, since no other
-- thread writes that word meanwhile. Four fields of the state are no part of the program: `hist n` is
-- the memory as the commits up to the clock `n` made it, `stamp` is the clock of the last commit that
-- wrote a variable, `owner` is the thread that locked it, and `reads` has all reads with which a
-- thread last began a commit, those of variables that it writes too. A thread keeps the word that
-- each read returned beside the variable. Only reads that went to the storage are recorded: a read of
-- an own pending write is not.
pub mod Invariant
pub mod Frame
pub mod Steps
pub mod Reading
pub mod Kept
pub mod Committing
pub mod Storing
pub mod Bump
pub mod Safety
use Prim.Native.Nat.{bit_xor}
use lockfree_stm.Common.{
  ℕ, zero, suc, ◌+◌, ◌-◌, ◌*◌, ◌^◌, Bool, true, false, not, ◌&&◌, ◌||◌, List, [], ◌∷◌, ◌++◌, Option,
  none, some, ◌==◌, if◌then◌else◌,
}
use lockfree_stm.Common.Update.{update}
use lockfree_stm.WriteSet.{WriteSetValue, entry}
use lockfree_stm.Machine.{VarBase, as_locked, lock_bit}
use lockfree_stm.Transaction.{Transaction, rw_valid}

-- `read_set_value_type`, with the word that the read returned.
pub record ReadSetValue : Type 0 where
  pub src_var : ℕ
  pub result : ℕ

-- Where a thread stands. `running`: in the client's function. `loading`: a storage is loaded, its version
-- is not. `locking` and `swapping`: the loop of `lock_writes`, before the load of a version and before the
-- exchange. `validating`, `writing`, `publishing` and `undoing`: the loops of `validate_reads`, `do_writes`,
-- `publish` and `unlock_write_set`. `validating` and `writing` also keep what the clock was when the loop of
-- `lock_writes` ended, a move after the last exchange; `validating` has the reads that passed and those to come.
pub data Pc : Type 0 where
  idle : Pc
  running : ℕ → List ReadSetValue → List WriteSetValue → Pc
  loading : ℕ → List ReadSetValue → List WriteSetValue → ℕ → ℕ → Pc
  locking : ℕ → List ReadSetValue → List WriteSetValue → List WriteSetValue → Pc
  swapping :
      ℕ → List ReadSetValue → List WriteSetValue → WriteSetValue → List WriteSetValue → ℕ → Pc
  validating : ℕ → ℕ → List WriteSetValue → List ReadSetValue → List ReadSetValue → Pc
  writing : ℕ → ℕ → List ReadSetValue → List WriteSetValue → List WriteSetValue → Pc
  publishing : ℕ → List WriteSetValue → Pc
  undoing : List WriteSetValue → Pc

-- What the client's function does next.
pub data Choice : Type 0 where
  load : ℕ → Choice
  store : ℕ → ℕ → Choice
  retry commit : Choice

pub record System : Type 0 where
  pub clock : ℕ
  pub var : ℕ → VarBase
  pub pc : ℕ → Pc
  pub owner : ℕ → Option ℕ
  pub hist : ℕ → ℕ → ℕ
  pub stamp : ℕ → ℕ
  pub reads : ℕ → List ReadSetValue

abbrev pub has : ℕ → List WriteSetValue → Bool
has x [] = false
has x (e ∷ es) = (x == e.dest_var) || has x es

-- A pending write: the entry is changed, or made at the end.
abbrev pub put : List WriteSetValue → ℕ → ℕ → List WriteSetValue
put [] x w = entry x w ∷ []
put (e ∷ es) x w = if x == e.dest_var then entry x w ∷ es else e ∷ put es x w

-- `remove_writes_from_reads`
abbrev pub unwritten : List WriteSetValue → List ReadSetValue → List ReadSetValue
unwritten ws [] = []
unwritten ws (r ∷ rs) = if has r.src_var ws then unwritten ws rs else r ∷ unwritten ws rs

abbrev pub valid_at : ℕ → ℕ → Bool
valid_at v word = rw_valid (record { can_write = true; version = v }) word

abbrev pub become : ℕ → Pc → System → System
become i p s = record s { pc = update s.pc i p }

-- The variable `x` becomes `c`, with the owner `o`, and thread `i` goes on at `p`.
abbrev pub change : ℕ → Pc → ℕ → VarBase → Option ℕ → System → System
change i p x c o s = record s {
  var = update s.var x c;
  owner = update s.owner x o;
  pc = update s.pc i p;
}

-- What the variable `x` holds after the writes, when it held `w` before them.
abbrev pub settle : List WriteSetValue → ℕ → ℕ → ℕ
settle [] x w = w
settle (e ∷ es) x w = settle es x (if x == e.dest_var then e.pending_write else w)

-- `fetch_and_bump_clock`: the commit takes its place in the history.
abbrev pub bump : ℕ → Pc → List WriteSetValue → System → System
bump i p ws s = record s {
  clock = s.clock + 1;
  hist = update s.hist (s.clock + 1) (λ x. settle ws x (s.hist s.clock x));
  stamp = λ x. if has x ws then s.clock + 1 else s.stamp x;
  pc = update s.pc i p;
}

-- One move of thread `i`, which stands at `p`.
unfoldable pub move : Choice → ℕ → Pc → System → System
move c i idle s = become i (running s.clock [] []) s
move (load x) i (running v rs ws) s =
    if has x ws
    then (if valid_at v (s.var x).version_lock then s else become i idle s)
    else become i (loading v rs ws x (s.var x).storage) s
move (store x w) i (running v rs ws) s =
    if valid_at v (s.var x).version_lock
    then become i (running v rs (put ws x w)) s
    else become i idle s
move retry i (running v rs ws) s = become i idle s
move commit i (running v rs []) s = become i idle s
move commit i (running v rs (e ∷ ws)) s =
    become i (locking v (unwritten (e ∷ ws) rs) [] (e ∷ ws))
      (record s { reads = update s.reads i rs })
move c i (loading v rs ws x w) s =
    if valid_at v (s.var x).version_lock
    then become i (running v (rs ++ record { src_var = x; result = w } ∷ []) ws) s
    else become i idle s
move c i (locking v rs done []) s = become i (validating v s.clock done [] rs) s
move c i (locking v rs done (e ∷ todo)) s =
    let k = (s.var e.dest_var).version_lock in
    if valid_at v k then become i (swapping v rs done e todo k) s else become i (undoing done) s
move c i (swapping v rs done e todo k) s =
    if (s.var e.dest_var).version_lock == k
    then change i (locking v rs (done ++ e ∷ []) todo) e.dest_var
        (record (s.var e.dest_var) { version_lock = as_locked k }) (some i) s
    else become i (undoing done) s
move c i (validating v n ws seen []) s = become i (writing v n seen ws ws) s
move c i (validating v n ws seen (r ∷ todo)) s =
    if valid_at v (s.var r.src_var).version_lock
    then become i (validating v n ws (seen ++ r ∷ []) todo) s
    else become i (undoing ws) s
move c i (writing v n rs ws []) s = bump i (publishing (s.clock + 1) ws) ws s
move c i (writing v n rs ws (e ∷ todo)) s =
    change i (writing v n rs ws todo) e.dest_var
      (record (s.var e.dest_var) { storage = e.pending_write }) (some i) s
move c i (publishing n []) s = become i idle s
move c i (publishing n (e ∷ todo)) s =
    change i (publishing n todo) e.dest_var (record (s.var e.dest_var) { version_lock = n }) none s
move c i (undoing []) s = become i idle s
move c i (undoing (e ∷ todo)) s =
    let x = e.dest_var in
    change i (undoing todo) x
      (record (s.var x) { version_lock = bit_xor (s.var x).version_lock lock_bit }) none s

unfoldable pub run : List (ℕ × Choice) → System → System
unfolding move
run [] s = s
run ((i, c) ∷ ms) s = run ms (move c i (s.pc i) s)

-- No thread runs, the clock is 0, and the memory is `m`.
unfoldable pub start : (ℕ → ℕ) → System
start m = record {
  clock = 0;
  var = λ x. record { version_lock = 0; storage = m x };
  pc = λ i. idle;
  owner = λ x. none;
  hist = λ n. m;
  stamp = λ x. 0;
  reads = λ i. [];
}
