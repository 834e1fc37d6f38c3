-- ===== src/Protocol/Frame.antt =====
-- Moves of Protocol that leave the clock as it is.
use lockfree_stm.Common.{
  ℕ, ◌≡◌, ◌≢◌, ◌⊎◌, inl, inr, true, Option, none, some, ◌==◌, arith, Bool-cases, sym, ap, ◌∙◌,
}
use lockfree_stm.Common.Update.{update, update_self, update_ne}
use lockfree_stm.Machine.{VarBase}
use lockfree_stm.Protocol.{
  Pc, idle, running, loading, locking, swapping, validating, writing, publishing, undoing, System,
  has, become, change,
}
use lockfree_stm.Protocol.Invariant.{
  held, is_owner, is_unique, writes_now, is_written, Held, Cell, Local, Loaded, IsSound,
}

pub eq-cases : (a b : ℕ) → (a ≡ b) ⊎ (a ≢ b)
eq-cases a b = elim (Bool-cases (a == b)) [
  | inl e ↦ inl (ground arith)
  | inr n ↦ inr (ground arith)
]

module _ (k m y : ℕ) (pcs : ℕ → Pc) (i : ℕ) (p : Pc) where
  pub Cell-become :
      (c : VarBase) (o : Option ℕ)
      → (o ≡ some i → Held k m y c (pcs i) → Held k m y c p)
      → Cell k m y c pcs o
      → Cell k m y c (update pcs i p) o
  unfolding Cell
  Cell-become c none f h = h
  Cell-become c (some j) f h = elim (eq-cases i j) [
    | inl e ↦ rw (sym e, update_self pcs i p) (f (ap some (sym e)) (rw e h))
    | inr n ↦ rw (update_ne pcs i j p n) h
  ]

  pub is_written-become :
      (o : Option ℕ)
      → (writes_now (pcs i) ≡ true → writes_now p ≡ true)
      → is_written pcs o ≡ true
      → is_written (update pcs i p) o ≡ true
  is_written-become none f h = h
  is_written-become (some j) f h = elim (eq-cases i j) [
    | inl e ↦ rw (sym e, update_self pcs i p) (f (rw e h))
    | inr n ↦ rw (update_ne pcs i j p n) h
  ]

Loaded-mono :
    (hist : ℕ → ℕ → ℕ) (stamp : ℕ → ℕ) (pcs pcs' : ℕ → Pc) (owner owner' : ℕ → Option ℕ) (p : Pc)
    → ((x : ℕ) → is_written pcs (owner x) ≡ true → is_written pcs' (owner' x) ≡ true)
    → Loaded hist stamp pcs owner p
    → Loaded hist stamp pcs' owner' p
unfolding Loaded
Loaded-mono hist stamp pcs pcs' owner owner' (loading v rs ws x w) f h = elim h [
  | inl a ↦ inl (f x a)
  | inr b ↦ inr b
]
Loaded-mono hist stamp pcs pcs' owner owner' idle f h = h
Loaded-mono hist stamp pcs pcs' owner owner' (running v rs ws) f h = h
Loaded-mono hist stamp pcs pcs' owner owner' (locking v rs done todo) f h = h
Loaded-mono hist stamp pcs pcs' owner owner' (swapping v rs done e todo j) f h = h
Loaded-mono hist stamp pcs pcs' owner owner' (validating v n ws seen todo) f h = h
Loaded-mono hist stamp pcs pcs' owner owner' (writing v n rs ws todo) f h = h
Loaded-mono hist stamp pcs pcs' owner owner' (publishing n todo) f h = h
Loaded-mono hist stamp pcs pcs' owner owner' (undoing todo) f h = h

-- A property of every thread's place, after thread `i` went to `p`.
module _ {ℓ} (P : ℕ → Pc → Type ℓ) (pcs : ℕ → Pc) (i : ℕ) (p : Pc) where
  pub at-every : P i p → ((j : ℕ) → P j (pcs j)) → (j : ℕ) → P j (update pcs i p j)
  at-every h f j = elim (eq-cases i j) [
    | inl e ↦ rw (sym e, update_self pcs i p) h
    | inr n ↦ rw (update_ne pcs i j p n) (f j)
  ]

-- What thread `i` must show to go to `p` with the variables as they are.
pub record Goes (s : System) (i : ℕ) (q p : Pc) : Type 0 where
  pub keeps :
      (y : ℕ)
      → s.owner y ≡ some i
      → Held (s.stamp y) (s.hist s.clock y) y (s.var y) q
      → Held (s.stamp y) (s.hist s.clock y) y (s.var y) p
  pub same_locks : (y : ℕ) → has y (held p) ≡ has y (held q)
  pub unique : is_unique (held p) ≡ true
  pub local : Local s.clock s.hist p
  pub loaded : Loaded s.hist s.stamp s.pc s.owner p
  pub writes : writes_now q ≡ true → writes_now p ≡ true

pub become-IsSound :
    (s : System) (i : ℕ) (q p : Pc) → s.pc i ≡ q → IsSound s → Goes s i q p → IsSound (become i p s)
become-IsSound s i q p e h g =
    let written : (x : ℕ)
        → is_written s.pc (s.owner x) ≡ true
        → is_written (update s.pc i p) (s.owner x) ≡ true =
      λ x. is_written-become 0 0 0 s.pc i p (s.owner x) (rw e g.writes) in
    let mono =
      λ (q : Pc). Loaded-mono s.hist s.stamp s.pc (update s.pc i p) s.owner s.owner q written in
    record {
      last = h.last;
      cell = λ y.
          Cell-become (s.stamp y) (s.hist s.clock y) y s.pc i p (s.var y) (s.owner y)
            (rw e (g.keeps y)) (h.cell y);
      owns =
          at-every (λ j q. (x : ℕ) → has x (held q) ≡ is_owner j (s.owner x)) s.pc i p
            (λ x. rw e (g.same_locks x) ∙ h.owns i x) h.owns;
      unique = at-every (λ j q. is_unique (held q) ≡ true) s.pc i p g.unique h.unique;
      local = at-every (λ j q. Local s.clock s.hist q) s.pc i p g.local h.local;
      loaded =
          at-every (λ j q. Loaded s.hist s.stamp (update s.pc i p) s.owner q) s.pc i p
            (mono p g.loaded) (λ j. mono (s.pc j) (h.loaded j));
    }

-- What thread `i` must show to go to `p` while the variable `x` becomes `c` with the owner `o`.
pub record GoesAt (s : System) (i : ℕ) (q p : Pc) (x : ℕ) (c : VarBase) (o : Option ℕ)
    : Type 0 where
  pub cell : Cell (s.stamp x) (s.hist s.clock x) x c (update s.pc i p) o
  pub keeps :
      (y : ℕ)
      → x ≢ y
      → s.owner y ≡ some i
      → Held (s.stamp y) (s.hist s.clock y) y (s.var y) q
      → Held (s.stamp y) (s.hist s.clock y) y (s.var y) p
  pub locks : has x (held p) ≡ is_owner i o
  pub same_locks : (y : ℕ) → x ≢ y → has y (held p) ≡ has y (held q)
  pub others : (j : ℕ) → i ≢ j → is_owner j o ≡ is_owner j (s.owner x)
  pub unique : is_unique (held p) ≡ true
  pub local : Local s.clock s.hist p
  pub loaded : Loaded s.hist s.stamp s.pc s.owner p
  pub writes : writes_now q ≡ true → writes_now p ≡ true
  pub writes_at : is_written s.pc (s.owner x) ≡ true → is_written (update s.pc i p) o ≡ true

module _ (s : System) (i : ℕ) (q p : Pc) (e : s.pc i ≡ q) (x : ℕ) (c : VarBase) (o : Option ℕ) where
  Cell-change :
      IsSound s
      → GoesAt s i q p x c o
      → (y : ℕ)
      → Cell
          (s.stamp y)
          (s.hist s.clock y)
          y
          (update s.var x c y)
          (update s.pc i p)
          (update s.owner x o y)
  Cell-change h g y = elim (eq-cases x y) [
    | inl d ↦ rw (sym d, update_self s.var x c, update_self s.owner x o) g.cell
    | inr n ↦
        rw (update_ne s.var x y c n, update_ne s.owner x y o n)
          (Cell-become (s.stamp y) (s.hist s.clock y) y s.pc i p (s.var y) (s.owner y)
            (rw e (g.keeps y n)) (h.cell y))
  ]

  owns_change :
      IsSound s
      → GoesAt s i q p x c o
      → (j y : ℕ) → has y (held (update s.pc i p j)) ≡ is_owner j (update s.owner x o y)
  owns_change h g j y = elim (eq-cases x y) [
    | inl d ↦
        rw (sym d, update_self s.owner x o)
          (elim (eq-cases i j) [
            | inl f ↦ rw (sym f, update_self s.pc i p) g.locks
            | inr n ↦ rw (update_ne s.pc i j p n) (h.owns j x ∙ sym (g.others j n))
          ])
    | inr m ↦ rw (update_ne s.owner x y o m) (elim (eq-cases i j) [
      | inl f ↦ rw (sym f, update_self s.pc i p) (rw e (g.same_locks y m) ∙ h.owns i y)
      | inr n ↦ rw (update_ne s.pc i j p n) (h.owns j y)
    ])
  ]

  written_change :
      GoesAt s i q p x c o
      → (y : ℕ) → is_written s.pc (s.owner y) ≡ true
      → is_written (update s.pc i p) (update s.owner x o y) ≡ true
  written_change g y w = elim (eq-cases x y) [
    | inl d ↦ rw (sym d, update_self s.owner x o) (g.writes_at (rw d w))
    | inr n ↦
        rw (update_ne s.owner x y o n)
          (is_written-become 0 0 0 s.pc i p (s.owner y) (rw e g.writes) w)
  ]

  pub change-IsSound : IsSound s → GoesAt s i q p x c o → IsSound (change i p x c o s)
  change-IsSound h g =
      let mono = λ (q : Pc).
        Loaded-mono s.hist s.stamp s.pc (update s.pc i p) s.owner (update s.owner x o) q
          (written_change g) in
      record {
        last = h.last;
        cell = Cell-change h g;
        owns = owns_change h g;
        unique = at-every (λ j q. is_unique (held q) ≡ true) s.pc i p g.unique h.unique;
        local = at-every (λ j q. Local s.clock s.hist q) s.pc i p g.local h.local;
        loaded =
            at-every (λ j q. Loaded s.hist s.stamp (update s.pc i p) (update s.owner x o) q) s.pc i
              p (mono p g.loaded) (λ j. mono (s.pc j) (h.loaded j));
      }
