-- ===== src/Protocol/Safety.antt =====
-- Every schedule of Protocol keeps its invariant, and what follows for transactions that overlap.
use mathlib.Core.Path.{subst}
use lockfree_stm.Common.{
  ℕ, ◌+◌, ◌^◌, ◌≤◌, ◌<◌, ◌≡◌, ◌≢◌, true, false, List, [], ◌∷◌, some, arith, refl, sym, ap, ◌∙◌,
  length,
}
use lockfree_stm.WriteSet.{WriteSetValue}
use lockfree_stm.Protocol.{
  ReadSetValue, Pc, idle, running, loading, locking, swapping, validating, writing, publishing,
  undoing, System, has, settle, move, Choice, load, store, retry, commit, run, start,
}
use lockfree_stm.Protocol.Invariant.{held, is_owner, Returned, Held, Cell, Local, Loaded, IsSound}
use lockfree_stm.Protocol.Steps.{At, IsSound-At, Cell-some, free_word}
use lockfree_stm.Protocol.Reading.{idle-IsSound, running-IsSound, loading-IsSound}
use lockfree_stm.Protocol.Committing.{
  locking-IsSound, swapping-IsSound, validating-IsSound, is_owner-some,
}
use lockfree_stm.Protocol.Storing.{writing-IsSound, publishing-IsSound, undoing-IsSound}
use lockfree_stm.Protocol.Bump.{bump-IsSound}
use lockfree_stm.Protocol.Kept.{Kept}

move-IsSound : (c : Choice) (s : System) (i : ℕ) (q : Pc) → At s i q → IsSound (move c i q s)
unfolding move
move-IsSound c s i idle a = idle-IsSound s i c a
move-IsSound c s i (running v rs ws) a = running-IsSound s i c v rs ws a
move-IsSound c s i (loading v rs ws x w) a = loading-IsSound s i c v rs ws x w a
move-IsSound c s i (locking v rs done todo) a = locking-IsSound s i c v rs done todo a
move-IsSound c s i (swapping v rs done e todo k) a = swapping-IsSound s i c v rs done e todo k a
move-IsSound c s i (validating v n ws seen todo) a = validating-IsSound s i c v n ws seen todo a
move-IsSound c s i (writing v n rs ws []) a = bump-IsSound s i v n rs ws a
move-IsSound c s i (writing v n rs ws (e ∷ todo)) a = writing-IsSound s i c v n rs ws e todo a
move-IsSound c s i (publishing n todo) a = publishing-IsSound s i c n todo a
move-IsSound c s i (undoing todo) a = undoing-IsSound s i c todo a

clock-move : (c : Choice) (i : ℕ) (q : Pc) (s : System) → (move c i q s).clock ≤ s.clock + 1
unfolding move
clock-move c i idle s = omega arith
clock-move (load x) i (running v rs ws) s = ground arith
clock-move (store x w) i (running v rs ws) s = ground arith
clock-move retry i (running v rs ws) s = omega arith
clock-move commit i (running v rs []) s = omega arith
clock-move commit i (running v rs (e ∷ ws)) s = omega arith
clock-move c i (loading v rs ws x w) s = ground arith
clock-move c i (locking v rs done []) s = omega arith
clock-move c i (locking v rs done (e ∷ todo)) s = ground arith
clock-move c i (swapping v rs done e todo k) s = ground arith
clock-move c i (validating v n ws seen []) s = omega arith
clock-move c i (validating v n ws seen (r ∷ todo)) s = ground arith
clock-move c i (writing v n rs ws []) s = omega arith
clock-move c i (writing v n rs ws (e ∷ todo)) s = omega arith
clock-move c i (publishing n []) s = omega arith
clock-move c i (publishing n (e ∷ todo)) s = omega arith
clock-move c i (undoing []) s = omega arith
clock-move c i (undoing (e ∷ todo)) s = omega arith

run-IsSound :
    (ms : List (ℕ × Choice)) (s : System)
    → IsSound s
    → s.clock + length ms < 2 ^ 63
    → IsSound (run ms s)
unfolding run
run-IsSound [] s h b = h
run-IsSound ((i, c) ∷ ms) s h b =
    let q = s.pc i in
    run-IsSound ms (move c i q s) (move-IsSound c s i q (IsSound-At s i q h (omega arith) refl))
      (omega (arith, clock-move c i q s))

start-IsSound : (m : ℕ → ℕ) → IsSound (start m)
unfolding start Cell Local Loaded
start-IsSound m = record {
  last = λ x. record { past = omega arith; still = λ t lo hi. refl };
  cell = λ x. (refl, refl);
  owns = λ i x. refl;
  unique = λ i. refl;
  local = λ i. tt;
  loaded = λ i. tt;
}

pub run-start :
    (m : ℕ → ℕ) (ms : List (ℕ × Choice)) → length ms < 2 ^ 63 → IsSound (run ms (start m))
unfolding start
run-start m ms short = run-IsSound ms (start m) (start-IsSound m) (omega arith)

owner-has : (s : System) (i x : ℕ) → IsSound s → has x (held (s.pc i)) ≡ true → s.owner x ≡ some i
owner-has s i x h e = is_owner-some i (s.owner x) (sym (h.owns i x) ∙ e)

Held-at :
    (s : System) (i x : ℕ) (q : Pc)
    → IsSound s
    → s.pc i ≡ q
    → has x (held q) ≡ true
    → Held (s.stamp x) (s.hist s.clock x) x (s.var x) q
Held-at s i x q h e w =
    let own = owner-has s i x h (ap (λ p. has x (held p)) e ∙ w) in
    subst (Held (s.stamp x) (s.hist s.clock x) x (s.var x)) e
      (Cell-some (s.stamp x) (s.hist s.clock x) x i (s.var x) s.pc (s.owner x) own (h.cell x))

-- Under every schedule with fewer than `2 ^ 63` moves, each read of a running transaction that went to the storage returned
-- what the commits up to the transaction's version left in that variable, whatever the other threads
-- commit in the meantime and whether or not the transaction will commit.
pub run-snapshot :
    (m : ℕ → ℕ) (ms : List (ℕ × Choice)) (i v : ℕ) (rs : List ReadSetValue)
    (ws : List WriteSetValue)
    → length ms < 2 ^ 63
    → (run ms (start m)).pc i ≡ running v rs ws
    → (v ≤ (run ms (start m)).clock) × Returned ((run ms (start m)).hist v) rs
unfolding Local
run-snapshot m ms i v rs ws short e =
    let s = run ms (start m) in subst (Local s.clock s.hist) e ((run-start m ms short).local i)

-- Under every schedule with fewer than `2 ^ 63` moves, a commit that is past its validation has lost no
-- update: a variable that it writes held the same word at every clock from the transaction's version
-- to now.
pub run-no_lost_update :
    (m : ℕ → ℕ) (ms : List (ℕ × Choice)) (i v n : ℕ) (rs : List ReadSetValue)
    (ws todo : List WriteSetValue) (x t : ℕ)
    → length ms < 2 ^ 63
    → (run ms (start m)).pc i ≡ writing v n rs ws todo
    → has x ws ≡ true
    → v ≤ t
    → t ≤ (run ms (start m)).clock
    → (run ms (start m)).hist t x ≡ (run ms (start m)).hist v x
unfolding Held
run-no_lost_update m ms i v n rs ws todo x t short e w lo hi =
    let s = run ms (start m) in
    let h = run-start m ms short in
    let held_x = Held-at s i x (writing v n rs ws todo) h e w in
    let last = h.last x in
    last.still t (omega (arith, held_x.2)) hi ∙ sym (last.still v held_x.2 (omega arith))

-- Under every schedule with fewer than `2 ^ 63` moves, when a commit has written its words back and is about to bump the
-- clock, each variable that it writes stores what its writes make of the last commit's word.
pub run-written_back :
    (m : ℕ → ℕ) (ms : List (ℕ × Choice)) (i v n : ℕ) (rs : List ReadSetValue)
    (ws : List WriteSetValue) (x : ℕ)
    → length ms < 2 ^ 63
    → (run ms (start m)).pc i ≡ writing v n rs ws []
    → has x ws ≡ true
    → ((run ms (start m)).var x).storage
      ≡ settle ws x ((run ms (start m)).hist (run ms (start m)).clock x)
unfolding Held
run-written_back m ms i v n rs ws x short e w =
    let s = run ms (start m) in
    let h = run-start m ms short in
    let held_x = Held-at s i x (writing v n rs ws []) h e w in held_x.1

-- Under every schedule with fewer than `2 ^ 63` moves, a variable whose lock bit is clear stores the word of the last commit, and no thread
-- has it in its list of locked entries.
pub run-unlocked :
    (m : ℕ → ℕ) (ms : List (ℕ × Choice)) (i x : ℕ)
    → length ms < 2 ^ 63
    → ((run ms (start m)).var x).version_lock < 2 ^ 63
    → (((run ms (start m)).var x).storage ≡ (run ms (start m)).hist (run ms (start m)).clock x)
      × (has x (held ((run ms (start m)).pc i)) ≡ false)
run-unlocked m ms i x short b =
    let h = run-start m ms short in
    let (no_owner, word, stored) = free_word (run ms (start m)) x h b in
    (stored, h.owns i x ∙ ap (is_owner i) no_owner)

-- Under every schedule with fewer than `2 ^ 63` moves, no two threads have the same variable in their
-- lists of locked entries.
pub run-exclusive :
    (m : ℕ → ℕ) (ms : List (ℕ × Choice)) (i j x : ℕ)
    → length ms < 2 ^ 63
    → i ≢ j
    → has x (held ((run ms (start m)).pc i)) ≡ true
    → has x (held ((run ms (start m)).pc j)) ≡ false
run-exclusive m ms i j x short n e =
    let h = run-start m ms short in
    h.owns j x ∙ ap (is_owner j) (owner-has (run ms (start m)) i x h e) ∙ ground arith
