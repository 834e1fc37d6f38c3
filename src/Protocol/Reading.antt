-- ===== src/Protocol/Reading.antt =====
-- The moves of Protocol up to the loop that locks: reads, writes and the start of a commit.
use lockfree_stm.Common.{
  ℕ, ◌≤◌, ◌≡◌, ◌⊎◌, inl, inr, true, false, List, [], ◌∷◌, ◌++◌, Option, none, some, arith,
  Bool-cases, refl, sym, ◌∙◌,
}
use lockfree_stm.WriteSet.{WriteSetValue}
use lockfree_stm.Machine.{VarBase}
use lockfree_stm.Protocol.{
  ReadSetValue, Pc, idle, running, loading, locking, swapping, validating, writing, publishing,
  undoing, System, has, become, unwritten, valid_at, put, move, Choice, load, store, retry, commit,
}
use lockfree_stm.Protocol.Invariant.{
  held, is_owner, writes_now, is_written, Returned, Held, Cell, Local, Loaded, IsSound,
}
use lockfree_stm.Protocol.Steps.{
  At, go, is_owner_self, free_word, valid_at-le, Returned-snoc, Returned-unwritten,
}

settled-Held :
    (k m y : ℕ) (c : VarBase) (q : Pc)
    → has y (held q) ≡ true
    → writes_now q ≡ false
    → Held k m y c q
    → c.storage ≡ m
unfolding Held
settled-Held k m y c idle e n h = absurd (cc)
settled-Held k m y c (running v rs ws) e n h = absurd (cc)
settled-Held k m y c (loading v rs ws x w) e n h = absurd (cc)
settled-Held k m y c (locking v rs done todo) e n h = h.1
settled-Held k m y c (swapping v rs done f todo j) e n h = h.1
settled-Held k m y c (validating v t ws seen todo) e n h = h.1
settled-Held k m y c (writing v t rs ws todo) e n h = absurd (cc)
settled-Held k m y c (publishing t todo) e n h = h.1
settled-Held k m y c (undoing todo) e n h = h.1

settled-Cell :
    (k m y : ℕ) (c : VarBase) (pcs : ℕ → Pc) (o : Option ℕ)
    → ((j : ℕ) → has y (held (pcs j)) ≡ is_owner j o)
    → is_written pcs o ≡ false
    → Cell k m y c pcs o
    → c.storage ≡ m
unfolding Cell
settled-Cell k m y c pcs none f n h = h.1
settled-Cell k m y c pcs (some j) f n h = settled-Held k m y c (pcs j) (f j ∙ is_owner_self j) n h

-- A storage that is loaded while no commit is writing there is the word of the last commit.
load-Loaded :
    (s : System) (x v : ℕ)
    → IsSound s
    → v ≤ s.clock
    → (is_written s.pc (s.owner x) ≡ true) ⊎ (s.stamp x ≤ v → (s.var x).storage ≡ s.hist v x)
load-Loaded s x v h b = elim (Bool-cases (is_written s.pc (s.owner x))) [
  | inl w ↦ inl w
  | inr n ↦ inr (λ le.
      settled-Cell (s.stamp x) (s.hist s.clock x) x (s.var x) s.pc (s.owner x) (λ j. h.owns j x) n
        (h.cell x)
      ∙ sym ((h.last x).still v le b))
]

module _ (s : System) (i : ℕ) where
  pub idle-IsSound : (c : Choice) → At s i idle → IsSound (move c i idle s)
  unfolding move Local Loaded Returned
  idle-IsSound c a =
      go s i idle (running s.clock [] []) a refl (λ y m. absurd (cc)) (omega arith, tt) tt
        (λ w. absurd (cc))

  stop-IsSound :
      (q : Pc) → held q ≡ [] → writes_now q ≡ false → At s i q → IsSound (become i idle s)
  unfolding Local Loaded
  stop-IsSound q e w a = go s i q idle a (sym e) (λ y m. absurd (cc)) tt tt (λ u. absurd (cc))

  pub running-IsSound :
      (c : Choice) (v : ℕ) (rs : List ReadSetValue) (ws : List WriteSetValue)
      → At s i (running v rs ws)
      → IsSound (move c i (running v rs ws) s)
  unfolding move Local Loaded
  running-IsSound (load x) v rs ws a = elim (Bool-cases (has x ws)) [
    | inl e ↦ rw e (elim (Bool-cases (valid_at v (s.var x).version_lock)) [
      | inl f ↦ rw f a.sound
      | inr f ↦ rw f (stop-IsSound (running v rs ws) refl refl a)
    ])
    | inr e ↦ rw e (
        go s i (running v rs ws) (loading v rs ws x (s.var x).storage) a refl (λ y m. absurd (cc))
          a.local (load-Loaded s x v a.sound a.local.0) (λ w. absurd (cc)))
  ]
  running-IsSound (store x w) v rs ws a = elim (Bool-cases (valid_at v (s.var x).version_lock)) [
    | inl f ↦ rw f (
        go s i (running v rs ws) (running v rs (put ws x w)) a refl (λ y m. absurd (cc)) a.local tt
          (λ u. absurd (cc)))
    | inr f ↦ rw f (stop-IsSound (running v rs ws) refl refl a)
  ]
  running-IsSound retry v rs ws a = stop-IsSound (running v rs ws) refl refl a
  running-IsSound commit v rs [] a = stop-IsSound (running v rs []) refl refl a
  running-IsSound commit v rs (e ∷ ws) a =
      let h =
        go s i (running v rs (e ∷ ws)) (locking v (unwritten (e ∷ ws) rs) [] (e ∷ ws)) a refl
          (λ y m. absurd (cc)) (a.local.0, Returned-unwritten (s.hist v) (e ∷ ws) rs a.local.1) tt
          (λ u. absurd (cc)) in
      record {
        last = h.last;
        cell = h.cell;
        owns = h.owns;
        unique = h.unique;
        local = h.local;
        loaded = h.loaded;
      }

  -- The version test makes a loaded word the one of the transaction's version.
  loading_word :
      (v : ℕ) (rs : List ReadSetValue) (ws : List WriteSetValue) (x w : ℕ)
      → At s i (loading v rs ws x w)
      → valid_at v (s.var x).version_lock ≡ true
      → w ≡ s.hist v x
  unfolding Local Loaded
  loading_word v rs ws x w a f =
      let le = valid_at-le v (s.var x).version_lock f in
      let free = free_word s x a.sound (omega (arith, a.bound, a.local.0)) in
      elim a.loaded [ inl b ↦ absurd (ground (arith, free.0)) | inr g ↦ g (omega (arith, free.1)) ]

  pub loading-IsSound :
      (c : Choice) (v : ℕ) (rs : List ReadSetValue) (ws : List WriteSetValue) (x w : ℕ)
      → At s i (loading v rs ws x w)
      → IsSound (move c i (loading v rs ws x w) s)
  unfolding move Local Loaded
  loading-IsSound c v rs ws x w a = elim (Bool-cases (valid_at v (s.var x).version_lock)) [
    | inl f ↦ rw f (
        go s i (loading v rs ws x w) (running v (rs ++ record { src_var = x; result = w } ∷ []) ws)
          a refl (λ y m. absurd (cc))
          (
            a.local.0,
            Returned-snoc (s.hist v) rs (record { src_var = x; result = w }) a.local.1
                (loading_word v rs ws x w a f),
          )
          tt (λ u. absurd (cc)))
    | inr f ↦ rw f (stop-IsSound (loading v rs ws x w) refl refl a)
  ]
