-- ===== src/Protocol/Steps.antt =====
-- The moves of Protocol up to the commit's locks.
use lockfree_stm.Common.{
  ℕ, ◌+◌, ◌^◌, ◌≤◌, ◌<◌, ◌≡◌, inl, inr, true, false, ◌||◌, List, [], ◌∷◌, ◌++◌, Option, none, some,
  ◌==◌, arith, Bool-cases, refl, sym, ap, ◌∙◌,
}
use lockfree_stm.WriteSet.{WriteSetValue}
use lockfree_stm.Machine.{VarBase}
use lockfree_stm.Transaction.{rw_valid}
use lockfree_stm.Protocol.{
  ReadSetValue, Pc, idle, running, loading, locking, swapping, validating, writing, publishing,
  undoing, System, has, become, unwritten, valid_at,
}
use lockfree_stm.Protocol.Invariant.{
  held, is_owner, is_unique, writes_now, Returned, Held, Cell, Local, Loaded, IsSound,
}
use lockfree_stm.Protocol.Frame.{become-IsSound}

-- A variable in a lock list has its lock bit set.
word-Held :
    (k m y : ℕ) (c : VarBase) (q : Pc)
    → has y (held q) ≡ true
    → Held k m y c q
    → 2 ^ 63 ≤ c.version_lock
unfolding Held
word-Held k m y c idle e h = absurd (cc)
word-Held k m y c (running v rs ws) e h = absurd (cc)
word-Held k m y c (loading v rs ws x w) e h = absurd (cc)
word-Held k m y c (locking v rs done todo) e h = omega (arith, h.0)
word-Held k m y c (swapping v rs done f todo j) e h = omega (arith, h.0)
word-Held k m y c (validating v n ws seen todo) e h = omega (arith, h.0)
word-Held k m y c (writing v n rs ws todo) e h = h.0
word-Held k m y c (publishing n todo) e h = h.0
word-Held k m y c (undoing todo) e h = omega (arith, h.0)

pub is_owner_self : (j : ℕ) → is_owner j (some j) ≡ true
is_owner_self j = ground arith

-- A version word below the lock bit is the variable's last commit, whose word is stored.
pub free_word :
    (s : System) (x : ℕ)
    → IsSound s
    → (s.var x).version_lock < 2 ^ 63
    → (s.owner x ≡ none)
      × ((s.var x).version_lock ≡ s.stamp x)
      × ((s.var x).storage ≡ s.hist s.clock x)
unfolding Cell
free_word s x h lt = by (s.owner x) refl (h.cell x)
  where
    by :
        (o : Option ℕ)
        → s.owner x ≡ o
        → Cell (s.stamp x) (s.hist s.clock x) x (s.var x) s.pc o
        → (o ≡ none) × ((s.var x).version_lock ≡ s.stamp x) × ((s.var x).storage ≡ s.hist s.clock x)
    by none e c = (refl, c.0, c.1)
    by (some j) e c =
        let mine : has x (held (s.pc j)) ≡ true =
          h.owns j x ∙ ap (is_owner j) e ∙ is_owner_self j in
        let high = word-Held (s.stamp x) (s.hist s.clock x) x (s.var x) (s.pc j) mine c in
        absurd (omega arith)

pub valid_at-le : (v k : ℕ) → valid_at v k ≡ true → k ≤ v
unfolding rw_valid
valid_at-le v k h = ground arith

pub Returned-snoc :
    (m : ℕ → ℕ) (rs : List ReadSetValue) (r : ReadSetValue)
    → Returned m rs
    → r.result ≡ m r.src_var
    → Returned m (rs ++ r ∷ [])
unfolding Returned
Returned-snoc m [] r h e = (e, tt)
Returned-snoc m (d ∷ rs) r h e = (h.0, Returned-snoc m rs r h.1 e)

pub Returned-unwritten :
    (m : ℕ → ℕ) (ws : List WriteSetValue) (rs : List ReadSetValue)
    → Returned m rs
    → Returned m (unwritten ws rs)
unfolding Returned
Returned-unwritten m ws [] h = h
Returned-unwritten m ws (r ∷ rs) h = elim (Bool-cases (has r.src_var ws)) [
  | inl e ↦ rw e (Returned-unwritten m ws rs h.1)
  | inr e ↦ rw e (h.0, Returned-unwritten m ws rs h.1)
]

pub has-snoc :
    (y : ℕ) (es : List WriteSetValue) (e : WriteSetValue)
    → has y (es ++ e ∷ []) ≡ has y es || (y == e.dest_var)
has-snoc y [] e = ground arith
has-snoc y (d ∷ es) e = ground (arith, has-snoc y es e)

pub unique-snoc :
    (es : List WriteSetValue) (e : WriteSetValue)
    → is_unique es ≡ true
    → has e.dest_var es ≡ false
    → is_unique (es ++ e ∷ []) ≡ true
unique-snoc [] e u n = refl
unique-snoc (d ∷ es) e u n = ground (arith, has-snoc d.dest_var es e, unique-snoc es e)

-- Thread `i` stands at `q` in a sound system.
pub record At (s : System) (i : ℕ) (q : Pc) : Type 0 where
  pub sound : IsSound s
  pub bound : s.clock + 1 < 2 ^ 63
  pub here : s.pc i ≡ q
  pub owns : (x : ℕ) → has x (held q) ≡ is_owner i (s.owner x)
  pub unique : is_unique (held q) ≡ true
  pub local : Local s.clock s.hist q
  pub loaded : Loaded s.hist s.stamp s.pc s.owner q
  pub cell : (x : ℕ) → s.owner x ≡ some i → Held (s.stamp x) (s.hist s.clock x) x (s.var x) q

pub Cell-some :
    (k m x i : ℕ) (c : VarBase) (pcs : ℕ → Pc) (o : Option ℕ)
    → o ≡ some i
    → Cell k m x c pcs o
    → Held k m x c (pcs i)
unfolding Cell
Cell-some k m x i c pcs none e h = absurd (cc)
Cell-some k m x i c pcs (some j) e h = let same : i ≡ j = ground arith in rw same h

pub IsSound-At :
    (s : System) (i : ℕ) (q : Pc) → IsSound s → s.clock + 1 < 2 ^ 63 → s.pc i ≡ q → At s i q
IsSound-At s i q h b e = record {
  sound = h;
  bound = b;
  here = e;
  owns = λ x. rw (sym e) (h.owns i x);
  unique = rw (sym e) (h.unique i);
  local = rw (sym e) (h.local i);
  loaded = rw (sym e) (h.loaded i);
  cell = λ x o.
      rw (sym e)
        (Cell-some (s.stamp x) (s.hist s.clock x) x i (s.var x) s.pc (s.owner x) o (h.cell x));
}

pub mine :
    (s : System) (i : ℕ) (q : Pc) → At s i q → (y : ℕ) → s.owner y ≡ some i → has y (held q) ≡ true
mine s i q a y o = a.owns y ∙ ap (is_owner i) o ∙ is_owner_self i

-- To go on with the locks and their entries as they are.
pub go :
    (s : System) (i : ℕ) (q p : Pc)
    → At s i q
    → held p ≡ held q
    → ((y : ℕ)
        → has y (held q) ≡ true
        → Held (s.stamp y) (s.hist s.clock y) y (s.var y) q
        → Held (s.stamp y) (s.hist s.clock y) y (s.var y) p)
    → Local s.clock s.hist p
    → Loaded s.hist s.stamp s.pc s.owner p
    → (writes_now q ≡ true → writes_now p ≡ true)
    → IsSound (become i p s)
go s i q p a e f l d w = become-IsSound s i q p a.here a.sound (record {
  keeps = λ y o. f y (mine s i q a y o);
  same_locks = λ y. ap (has y) e;
  unique = ap is_unique e ∙ a.unique;
  local = l;
  loaded = d;
  writes = w;
})
