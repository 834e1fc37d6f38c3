-- ===== src/Protocol/Committing.antt =====
-- The moves of the commit in Protocol, all but the one that bumps the clock.
use lockfree_stm.Common.{
  ℕ, ◌+◌, ◌^◌, ◌<◌, ◌≡◌, inl, inr, true, List, [], ◌∷◌, ◌++◌, Option, none, some, ◌==◌, arith,
  Bool-cases, refl, sym, ap, ◌∙◌,
}
use lockfree_stm.Common.Bits.{bit_at}
use lockfree_stm.Common.Update.{update_self}
use lockfree_stm.WriteSet.{WriteSetValue}
use lockfree_stm.Machine.{as_locked}
use lockfree_stm.Protocol.{
  ReadSetValue, Pc, locking, swapping, validating, writing, undoing, System, has, settle, valid_at,
  move, Choice,
}
use lockfree_stm.Protocol.Invariant.{held, is_owner, Returned, Held, Cell, Local, Loaded, IsSound}
use lockfree_stm.Protocol.Frame.{change-IsSound}
use lockfree_stm.Protocol.Steps.{
  At, go, free_word, valid_at-le, Returned-snoc, has-snoc, unique-snoc,
}

pub is_owner-some : (i : ℕ) (o : Option ℕ) → is_owner i o ≡ true → o ≡ some i
is_owner-some i none h = absurd (cc)
is_owner-some i (some j) h = let e : j ≡ i = ground arith in ap some e

module _ (s : System) (i : ℕ) where
  pub owned : (q : Pc) (x : ℕ) → At s i q → has x (held q) ≡ true → s.owner x ≡ some i
  owned q x a h = is_owner-some i (s.owner x) (sym (a.owns x) ∙ h)

  pub locking-IsSound :
      (c : Choice) (v : ℕ) (rs : List ReadSetValue) (done todo : List WriteSetValue)
      → At s i (locking v rs done todo)
      → IsSound (move c i (locking v rs done todo) s)
  unfolding move Local Held Loaded Returned
  locking-IsSound c v rs done [] a =
      go s i (locking v rs done []) (validating v s.clock done [] rs) a refl (λ y m h. h)
        (a.local.0, omega arith, tt, a.local.1, tt) tt (λ w. absurd (cc))
  locking-IsSound c v rs done (e ∷ todo) a =
      elim (Bool-cases (valid_at v (s.var e.dest_var).version_lock)) [
        | inl f ↦ rw f (
            go s i (locking v rs done (e ∷ todo))
              (swapping v rs done e todo (s.var e.dest_var).version_lock) a refl (λ y m h. h)
              (a.local.0, a.local.1, valid_at-le v (s.var e.dest_var).version_lock f) tt
              (λ w. absurd (cc)))
        | inr f ↦ rw f (
            go s i (locking v rs done (e ∷ todo)) (undoing done) a refl (λ y m h. (h.0, h.1)) tt tt
              (λ w. absurd (cc)))
      ]

  pub swapping-IsSound :
      (c : Choice) (v : ℕ) (rs : List ReadSetValue) (done : List WriteSetValue) (e : WriteSetValue)
      (todo : List WriteSetValue) (k : ℕ)
      → At s i (swapping v rs done e todo k)
      → IsSound (move c i (swapping v rs done e todo k) s)
  unfolding move Local Held Loaded Cell as_locked
  swapping-IsSound c v rs done e todo k a =
      elim (Bool-cases ((s.var e.dest_var).version_lock == k)) [
        | inr f ↦ rw f (
            go s i (swapping v rs done e todo k) (undoing done) a refl (λ y m h. (h.0, h.1)) tt tt
              (λ w. absurd (cc)))
        | inl f ↦
            let x = e.dest_var in
            let p = locking v rs (done ++ e ∷ []) todo in
            let same : (s.var x).version_lock ≡ k = ground arith in
            let (none_yet, word, stored) =
              free_word s x a.sound (omega (arith, a.bound, a.local, same)) in
            let small : k < 2 ^ 63 = omega (arith, a.bound, a.local) in
            rw f (
              change-IsSound s i (swapping v rs done e todo k) p a.here x
                (record (s.var x) { version_lock = as_locked k }) (some i) a.sound
                (record {
                  cell = rw (update_self s.pc i p) (
                    (bit_at 63 k small).or_clear ∙ ap (λ n. n + 2 ^ 63) (sym same ∙ word),
                    stored,
                    omega (arith, a.local, same, word),
                  );
                  keeps = λ y n o h. h;
                  locks = has-snoc x done e ∙ ground arith;
                  same_locks = λ y n. has-snoc y done e ∙ ground arith;
                  others = λ j n. rw none_yet (ground arith);
                  unique = unique-snoc done e a.unique (a.owns x ∙ ap (is_owner i) none_yet);
                  local = (a.local.0, a.local.1);
                  loaded = tt;
                  writes = λ w. absurd (cc);
                  writes_at = rw none_yet (λ w. absurd (cc));
                }))
      ]

  -- A read that passes its test is current at the clock of the last lock.
  validating_word :
      (v n : ℕ) (ws : List WriteSetValue) (seen : List ReadSetValue) (r : ReadSetValue)
      (todo : List ReadSetValue)
      → At s i (validating v n ws seen (r ∷ todo))
      → valid_at v (s.var r.src_var).version_lock ≡ true
      → r.result ≡ s.hist n r.src_var
  unfolding Local Returned
  validating_word v n ws seen r todo a f =
      let x = r.src_var in
      let le = valid_at-le v (s.var x).version_lock f in
      let (vn, nc, old, next, new) = a.local in
      let (no_owner, word, stored) = free_word s x a.sound (omega (arith, a.bound)) in
      let last = a.sound.last x in
      next.0 ∙ last.still v (omega arith) (omega arith) ∙ sym (last.still n (omega arith) nc)

  pub validating-IsSound :
      (c : Choice) (v n : ℕ) (ws : List WriteSetValue) (seen todo : List ReadSetValue)
      → At s i (validating v n ws seen todo)
      → IsSound (move c i (validating v n ws seen todo) s)
  unfolding move Local Held Loaded Returned
  validating-IsSound c v n ws seen [] a =
      let (vn, nc, old, next, new) = a.local in
      go s i (validating v n ws seen []) (writing v n seen ws ws) a refl
        (λ y m h. (omega (arith, h.0), ap (settle ws y) h.1, h.2)) (vn, nc, old, new, λ x h. h) tt
        (λ w. absurd (cc))
  validating-IsSound c v n ws seen (r ∷ todo) a =
      elim (Bool-cases (valid_at v (s.var r.src_var).version_lock)) [
        | inl f ↦
            let (vn, nc, old, next, new) = a.local in
            rw f (
              go s i (validating v n ws seen (r ∷ todo)) (validating v n ws (seen ++ r ∷ []) todo) a
                refl (λ y m h. h)
                (
                  vn,
                  nc,
                  Returned-snoc (s.hist v) seen r old next.0,
                  next.1,
                  Returned-snoc (s.hist n) seen r new (validating_word v n ws seen r todo a f),
                )
                tt (λ w. absurd (cc)))
        | inr f ↦ rw f (
            go s i (validating v n ws seen (r ∷ todo)) (undoing ws) a refl (λ y m h. (h.0, h.1)) tt
              tt (λ w. absurd (cc)))
      ]
