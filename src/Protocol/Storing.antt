-- ===== src/Protocol/Storing.antt =====
-- The loops of Protocol that write the words back and release the locks.
use Prim.Native.Nat.{bit_xor}
use lockfree_stm.Common.{
  ℕ, ◌^◌, ◌<◌, ◌≡◌, true, false, List, [], ◌∷◌, none, some, ◌==◌, if◌then◌else◌, arith, refl, sym,
  ap, ◌∙◌,
}
use lockfree_stm.Common.Bits.{bit_at}
use lockfree_stm.Common.Update.{update_self}
use lockfree_stm.WriteSet.{WriteSetValue}
use lockfree_stm.Machine.{VarBase, lock_bit}
use lockfree_stm.Protocol.{
  ReadSetValue, Pc, idle, writing, publishing, undoing, System, has, settle, change, move, Choice,
}
use lockfree_stm.Protocol.Invariant.{
  held, is_unique, writes_now, Held, Cell, Local, Loaded, IsSound,
}
use lockfree_stm.Protocol.Frame.{change-IsSound}
use lockfree_stm.Protocol.Steps.{At, go, is_owner_self}
use lockfree_stm.Protocol.Committing.{owned}

has-head : (e : WriteSetValue) (es : List WriteSetValue) → has e.dest_var (e ∷ es) ≡ true
has-head e es = ground arith

module _ (s : System) (i : ℕ) where
  pub writing-IsSound :
      (c : Choice) (v n : ℕ) (rs : List ReadSetValue) (ws : List WriteSetValue) (e : WriteSetValue)
      (todo : List WriteSetValue)
      → At s i (writing v n rs ws (e ∷ todo))
      → IsSound (move c i (writing v n rs ws (e ∷ todo)) s)
  unfolding move Local Held Loaded Cell
  writing-IsSound c v n rs ws e todo a =
      let x = e.dest_var in
      let q = writing v n rs ws (e ∷ todo) in
      let p = writing v n rs ws todo in
      let (vn, nc, old, new, within) = a.local in
      let in_ws = within x (has-head e todo) in
      let own = owned s i q x a in_ws in
      let held_x = a.cell x own in
      let self : (x == x) ≡ true = ground arith in
      change-IsSound s i q p a.here x (record (s.var x) { storage = e.pending_write }) (some i)
        a.sound
        (record {
          cell = rw (update_self s.pc i p) (
            held_x.0,
            ap (λ b. settle todo x (if b then e.pending_write else (s.var x).storage)) (sym self)
                ∙ held_x.1,
            held_x.2,
          );
          keeps = λ y m o h.
              let other : (y == x) ≡ false = ground arith in
              (
                h.0,
                ap (λ b. settle todo y (if b then e.pending_write else (s.var y).storage))
                      (sym other)
                    ∙ h.1,
                h.2,
              );
          locks = in_ws ∙ sym (is_owner_self i);
          same_locks = λ y m. refl;
          others = λ j m. rw own refl;
          unique = a.unique;
          local = (vn, nc, old, new, λ y h. within y (ground (arith, h)));
          loaded = tt;
          writes = λ w. w;
          writes_at = λ w. ap writes_now (update_self s.pc i p);
        })

  -- To release the lock of `x`, at the head of a lock list.
  release :
      (q p : Pc) (e : WriteSetValue) (todo : List WriteSetValue) (c : VarBase)
      → At s i q
      → held q ≡ e ∷ todo
      → held p ≡ todo
      → writes_now q ≡ false
      → ((y : ℕ)
          → Held (s.stamp y) (s.hist s.clock y) y (s.var y) q
          → Held (s.stamp y) (s.hist s.clock y) y (s.var y) p)
      → Local s.clock s.hist p
      → Loaded s.hist s.stamp s.pc s.owner p
      → (c.version_lock ≡ s.stamp e.dest_var) × (c.storage ≡ s.hist s.clock e.dest_var)
      → IsSound (change i p e.dest_var c none s)
  unfolding Cell
  release q p e todo c a hq hp w keep l d free =
      let x = e.dest_var in
      let own = owned s i q x a (ap (has x) hq ∙ has-head e todo) in
      let u : is_unique (e ∷ todo) ≡ true = ap is_unique (sym hq) ∙ a.unique in
      change-IsSound s i q p a.here x c none a.sound (record {
        cell = free;
        keeps = λ y m o h. keep y h;
        locks = ap (has x) hp ∙ ground (arith, u);
        same_locks = λ y m. ap (has y) hp ∙ ground arith ∙ ap (has y) (sym hq);
        others = λ j m. rw own (ground arith);
        unique = ap is_unique hp ∙ ground (arith, u);
        local = l;
        loaded = d;
        writes = λ y. absurd (ground arith);
        writes_at = rw (own, a.here, w) (λ y. absurd (cc));
      })

  pub publishing-IsSound :
      (c : Choice) (n : ℕ) (todo : List WriteSetValue)
      → At s i (publishing n todo)
      → IsSound (move c i (publishing n todo) s)
  unfolding move Local Held Loaded
  publishing-IsSound c n [] a = go s i (publishing n []) idle a refl (λ y m h. tt) tt tt (λ w. w)
  publishing-IsSound c n (e ∷ todo) a =
      let own = owned s i (publishing n (e ∷ todo)) e.dest_var a (has-head e todo) in
      let held_x = a.cell e.dest_var own in
      release (publishing n (e ∷ todo)) (publishing n todo) e todo
        (record (s.var e.dest_var) { version_lock = n }) a refl refl refl (λ y h. h) a.local tt
        (sym held_x.2, held_x.1)

  pub undoing-IsSound :
      (c : Choice) (todo : List WriteSetValue)
      → At s i (undoing todo)
      → IsSound (move c i (undoing todo) s)
  unfolding move Local Held Loaded
  undoing-IsSound c [] a = go s i (undoing []) idle a refl (λ y m h. tt) tt tt (λ w. w)
  undoing-IsSound c (e ∷ todo) a =
      let x = e.dest_var in
      let own = owned s i (undoing (e ∷ todo)) x a (has-head e todo) in
      let held_x = a.cell x own in
      let small : s.stamp x < 2 ^ 63 = omega (arith, (a.sound.last x).past, a.bound) in
      release (undoing (e ∷ todo)) (undoing todo) e todo
        (record (s.var x) { version_lock = bit_xor (s.var x).version_lock lock_bit }) a refl refl
        refl (λ y h. h) tt tt
        (ap (λ k. bit_xor k lock_bit) held_x.0 ∙ (bit_at 63 (s.stamp x) small).xor_set, held_x.1)
