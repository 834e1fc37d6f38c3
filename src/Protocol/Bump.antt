-- ===== src/Protocol/Bump.antt =====
-- The move of Protocol that bumps the clock, where the commit takes its place in the history.
use lockfree_stm.Common.{
  ℕ, ◌+◌, ◌≤◌, ◌≡◌, ◌⊎◌, inl, inr, true, false, List, [], ◌∷◌, Option, none, some, ◌==◌, arith,
  Bool-cases, refl, sym, ap, ◌∙◌,
}
use lockfree_stm.Common.Update.{update, update_self, update_ne}
use lockfree_stm.WriteSet.{WriteSetValue}
use lockfree_stm.Protocol.{
  ReadSetValue, Pc, idle, running, loading, locking, swapping, validating, writing, publishing,
  undoing, System, has, settle, bump,
}
use lockfree_stm.Protocol.Invariant.{
  held, is_owner, is_unique, is_written, IsLast, Held, Cell, Local, Loaded, IsSound,
}
use lockfree_stm.Protocol.Frame.{at-every, eq-cases, Cell-become}
use lockfree_stm.Protocol.Steps.{At, is_owner_self}
use lockfree_stm.Protocol.Committing.{owned}

settle-other : (ws : List WriteSetValue) (x w : ℕ) → has x ws ≡ false → settle ws x w ≡ w
settle-other [] x w h = refl
settle-other (e ∷ es) x w h = elim (Bool-cases (x == e.dest_var)) [
  | inl f ↦ absurd (ground arith)
  | inr f ↦ rw f (settle-other es x w (ground arith))
]

Local-mono :
    (n : ℕ) (hist hist' : ℕ → ℕ → ℕ) (q : Pc)
    → ((t : ℕ) → t ≤ n → hist' t ≡ hist t)
    → Local n hist q
    → Local (n + 1) hist' q
unfolding Local
Local-mono n hist hist' idle f h = h
Local-mono n hist hist' (running v rs ws) f h = rw (f v h.0) (omega (arith, h.0), h.1)
Local-mono n hist hist' (loading v rs ws x w) f h = rw (f v h.0) (omega (arith, h.0), h.1)
Local-mono n hist hist' (locking v rs done todo) f h = rw (f v h.0) (omega (arith, h.0), h.1)
Local-mono n hist hist' (swapping v rs done e todo k) f h =
    rw (f v h.0) (omega (arith, h.0), h.1, h.2)
Local-mono n hist hist' (validating v k ws seen todo) f (vk, kn, a, b, c) =
    rw (f v (omega arith), f k kn) (vk, omega arith, a, b, c)
Local-mono n hist hist' (writing v k rs ws todo) f (vk, kn, a, b, c) =
    rw (f v (omega arith), f k kn) (vk, omega arith, a, b, c)
Local-mono n hist hist' (publishing k todo) f h = omega arith
Local-mono n hist hist' (undoing todo) f h = h

written-other :
    (pcs : ℕ → Pc) (i : ℕ) (p : Pc) (o : Option ℕ)
    → is_owner i o ≡ false
    → is_written pcs o ≡ true
    → is_written (update pcs i p) o ≡ true
written-other pcs i p none h w = w
written-other pcs i p (some j) h w = rw (update_ne pcs i j p (ground arith)) w

module _ (s : System) (i v n : ℕ) (rs : List ReadSetValue) (ws : List WriteSetValue)
    (a : At s i (writing v n rs ws [])) where
  now : ℕ
  now = s.clock + 1

  after : Pc
  after = publishing now ws

  next : System
  next = bump i after ws s

  hist-old : (t : ℕ) → t ≤ s.clock → next.hist t ≡ s.hist t
  unfolding next now
  hist-old t h =
      update_ne s.hist (s.clock + 1) t (λ x. settle ws x (s.hist s.clock x)) (ground arith)

  hist-new : (x : ℕ) → next.hist next.clock x ≡ settle ws x (s.hist s.clock x)
  unfolding next now
  hist-new x =
      ap (λ f. f x) (update_self s.hist (s.clock + 1) (λ x. settle ws x (s.hist s.clock x)))

  stamp-in : (x : ℕ) → has x ws ≡ true → next.stamp x ≡ now
  unfolding next now
  stamp-in x h = rw h refl

  stamp-out : (x : ℕ) → has x ws ≡ false → next.stamp x ≡ s.stamp x
  unfolding next
  stamp-out x h = rw h refl

  hist-out : (x : ℕ) → has x ws ≡ false → next.hist next.clock x ≡ s.hist s.clock x
  hist-out x h = hist-new x ∙ settle-other ws x (s.hist s.clock x) h

  IsLast-bump : (x : ℕ) → IsLast next.clock next.hist x (next.stamp x)
  unfolding next now
  IsLast-bump x = elim (Bool-cases (has x ws)) [
    | inl h ↦ rw (stamp-in x h) (record {
      past = omega arith;
      still = λ t lo hi. let same : t ≡ s.clock + 1 = omega arith in ap (λ k. next.hist k x) same;
    })
    | inr h ↦ rw (stamp-out x h) (record {
      past = omega (arith, (a.sound.last x).past);
      still = λ t lo hi. elim (eq-cases t (s.clock + 1)) [
        | inl e ↦ ap (λ k. next.hist k x) e
        | inr m ↦
            let old : t ≤ s.clock = omega arith in
            ap (λ f. f x) (hist-old t old) ∙ (a.sound.last x).still t lo old ∙ sym (hist-out x h)
      ];
    })
  ]

  Cell-bump :
      (x : ℕ) → Cell (next.stamp x) (next.hist next.clock x) x (next.var x) next.pc (next.owner x)
  unfolding next now after Held Cell
  Cell-bump x = elim (Bool-cases (has x ws)) [
    | inl h ↦
        let own = owned s i (writing v n rs ws []) x a h in
        let held_x = a.cell x own in
        rw (own, update_self s.pc i after) (held_x.0, held_x.1 ∙ sym (hist-new x), stamp-in x h)
    | inr h ↦
        rw (stamp-out x h, hist-out x h)
          (Cell-become (s.stamp x) (s.hist s.clock x) x s.pc i after (s.var x) (s.owner x)
            (λ o. absurd (ground (arith, a.owns x, is_owner_self i))) (a.sound.cell x))
  ]

  -- A word that was loaded before the bump is of a version before it.
  loaded-old :
      (v' x w : ℕ)
      → v' ≤ s.clock
      → (is_written s.pc (s.owner x) ≡ true) ⊎ (s.stamp x ≤ v' → w ≡ s.hist v' x)
      → (is_written next.pc (next.owner x) ≡ true) ⊎ (next.stamp x ≤ v' → w ≡ next.hist v' x)
  unfolding next now
  loaded-old v' x w le h = elim (Bool-cases (has x ws)) [
    | inl e ↦ inr (λ k. absurd (omega (arith, stamp-in x e)))
    | inr e ↦ elim h [
      | inl b ↦ inl (written-other s.pc i after (s.owner x) (sym (a.owns x) ∙ e) b)
      | inr g ↦ inr (λ k. g (omega (arith, stamp-out x e)) ∙ ap (λ f. f x) (sym (hist-old v' le)))
    ]
  ]

  Loaded-bump :
      (q : Pc)
      → Local s.clock s.hist q
      → Loaded s.hist s.stamp s.pc s.owner q
      → Loaded next.hist next.stamp next.pc next.owner q
  unfolding Loaded Local
  Loaded-bump (loading v' rs' ws' x w) l h = loaded-old v' x w l.0 h
  Loaded-bump idle l h = h
  Loaded-bump (running v' rs' ws') l h = h
  Loaded-bump (locking v' rs' done todo) l h = h
  Loaded-bump (swapping v' rs' done e todo k) l h = h
  Loaded-bump (validating v' n' ws' seen todo) l h = h
  Loaded-bump (writing v' n' rs' ws' todo) l h = h
  Loaded-bump (publishing n' todo) l h = h
  Loaded-bump (undoing todo) l h = h

  pub bump-IsSound : IsSound (bump i (publishing (s.clock + 1) ws) ws s)
  unfolding next after now Local Loaded
  bump-IsSound = record {
    last = IsLast-bump;
    cell = Cell-bump;
    owns =
        at-every (λ j q. (x : ℕ) → has x (held q) ≡ is_owner j (s.owner x)) s.pc i after a.owns
          a.sound.owns;
    unique = at-every (λ j q. is_unique (held q) ≡ true) s.pc i after a.unique a.sound.unique;
    local =
        at-every (λ j q. Local next.clock next.hist q) s.pc i after (omega arith)
          (λ j. Local-mono s.clock s.hist next.hist (s.pc j) hist-old (a.sound.local j));
    loaded =
        at-every (λ j q. Loaded next.hist next.stamp next.pc next.owner q) s.pc i after tt
          (λ j. Loaded-bump (s.pc j) (a.sound.local j) (a.sound.loaded j));
  }
