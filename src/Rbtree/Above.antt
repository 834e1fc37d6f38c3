-- ===== src/Rbtree/Above.antt =====
-- What a rotation leaves of the nodes above it.
use mathlib.Core.Path.{subst}
use lockfree_stm.Common.{
  ℕ, ◌≡◌, ◌≢◌, inl, inr, sym, ap, ◌∙◌, Bool, true, false, not, ◌&&◌, ◌==◌, arith, Bool-cases,
}
use lockfree_stm.Rbtree.{Tree, Node}
use lockfree_stm.Rbtree.Lookup.{member}
use lockfree_stm.Rbtree.Rotate.{
  Linked, Linked-frame, turned, apart_from, turned-other, turned-left, turned-right, turned-root,
  turned-top, first-member, member-nonzero,
}
use lockfree_stm.Rbtree.Focus.{
  Context, top, in_left, in_right, surrounds, IsApart, Around, Around-frame,
}

module _ {K V : Type 0} where
  pub Around-nonzero :
      (m : ℕ → Node K V) (root : ℕ) (k : Context) (p a z : ℕ)
      → Around m root k p a
      → surrounds k z ≡ true
      → z ≢ 0
  unfolding Around
  Around-nonzero m root top p a z h i d = absurd (cc)
  Around-nonzero m root (in_left k x r) p a z (e, nz, f, hr, around) i d =
      elim (Bool-cases (member z r)) [
        | inl j ↦ member-nonzero m x (m x).right z r hr j d
        | inr j ↦ elim (Bool-cases (surrounds k z)) [
          | inl g ↦ Around-nonzero m root k (m x).parent x z around g d
          | inr g ↦ absurd (ground arith)
        ]
      ]
  Around-nonzero m root (in_right k l x) p a z (e, nz, f, hl, around) i d =
      elim (Bool-cases (member z l)) [
        | inl j ↦ member-nonzero m x (m x).left z l hl j d
        | inr j ↦ elim (Bool-cases (surrounds k z)) [
          | inl g ↦ Around-nonzero m root k (m x).parent x z around g d
          | inr g ↦ absurd (ground arith)
        ]
      ]

  module _ (t : Tree K V) (n q pl p : ℕ) (left : Bool) where
    -- The rotation changes nothing above the parent.
    pub Around-turned :
        (k : Context)
        → n ≢ 0
        → surrounds k n ≡ false
        → surrounds k q ≡ false
        → surrounds k pl ≡ false
        → IsApart k
        → (left ≡ (not (p == 0) && ((t.node p).left == n)))
        → Around t.node t.root k p n
        → Around (turned n q p pl left t).node (turned n q p pl left t).root k p q
    unfolding Around IsApart
    Around-turned top n0 on oq opl apart flag (e, f) = (e, turned-top n q p pl left t e)
    Around-turned (in_left k x r) n0 on oq opl (xr, out, far, apart) flag (e, nz, f, hr, around) =
        let m = t.node in
        let w = turned n q p pl left t in
        let other : (z : ℕ) → surrounds (in_left k x r) z ≡ true → z ≢ p → w.node z ≡ m z = λ z i d.
          turned-other n q p pl left t z (ground (arith, i, on)) (ground (arith, i, oq))
            (ground (arith, i, opl)) d in
        let p0 : p ≢ 0 = λ d. nz (sym e ∙ d) in
        let n_p : n ≢ p = ground (arith, on, e) in
        let q_p : q ≢ p = ground (arith, oq, e) in
        let pl_p : pl ≢ p = ground (arith, opl, e) in
        let hangs : left ≡ true =
          let here : (m p).left ≡ n = ap (λ y. (m y).left) e ∙ f in
          flag ∙ ground (arith, p0, here) in
        let at_x : w.node x ≡ record (m x) { left = q } =
          subst (λ y. w.node y ≡ record (m y) { left = q }) e
            (turned-left n q p pl left t p0 n_p q_p pl_p hangs) in
        (
          e,
          nz,
          ap (λ (d : Node K V). d.left) at_x,
          subst (λ b. Linked w.node x b r) (sym (ap (λ (d : Node K V). d.right) at_x))
              (Linked-frame m w.node x (m x).right r
                (λ z i. other z (ground (arith, i)) (apart_from z p x r e xr i)) hr),
          subst (λ b. Around w.node w.root k b x) (sym (ap (λ (d : Node K V). d.parent) at_x))
              (Around-frame m w.node t.root w.root k (m x).parent x (turned-root n q p pl left t p0)
                (λ z i. other z (ground (arith, i)) (λ d.
                  let there : surrounds k x ≡ true = ap (surrounds k) (sym (d ∙ e)) ∙ i in
                  absurd (cc)))
                around),
        )
    Around-turned (in_right k l x) n0 on oq opl (xl, out, far, apart) flag (e, nz, f, hl, around) =
        let m = t.node in
        let w = turned n q p pl left t in
        let other : (z : ℕ) → surrounds (in_right k l x) z ≡ true → z ≢ p → w.node z ≡ m z =
          λ z i d.
            turned-other n q p pl left t z (ground (arith, i, on)) (ground (arith, i, oq))
              (ground (arith, i, opl)) d in
        let p0 : p ≢ 0 = λ d. nz (sym e ∙ d) in
        let n_p : n ≢ p = ground (arith, on, e) in
        let q_p : q ≢ p = ground (arith, oq, e) in
        let pl_p : pl ≢ p = ground (arith, opl, e) in
        let hangs : left ≡ false =
          let elsewhere : (m p).left ≢ n = (λ d.
            let at_n : (m x).left ≡ n = ap (λ y. (m y).left) (sym e) ∙ d in
            let inside : member n l ≡ true =
              ap (λ y. member y l) (sym at_n)
              ∙ first-member m x (m x).left l hl (λ z. n0 (sym at_n ∙ z)) in
            absurd (ground (arith, on, inside))) in
          flag ∙ ground (arith, p0, elsewhere) in
        let at_x : w.node x ≡ record (m x) { right = q } =
          subst (λ y. w.node y ≡ record (m y) { right = q }) e
            (turned-right n q p pl left t p0 n_p q_p pl_p hangs) in
        (
          e,
          nz,
          ap (λ (d : Node K V). d.right) at_x,
          subst (λ b. Linked w.node x b l) (sym (ap (λ (d : Node K V). d.left) at_x))
              (Linked-frame m w.node x (m x).left l
                (λ z i. other z (ground (arith, i)) (apart_from z p x l e xl i)) hl),
          subst (λ b. Around w.node w.root k b x) (sym (ap (λ (d : Node K V). d.parent) at_x))
              (Around-frame m w.node t.root w.root k (m x).parent x (turned-root n q p pl left t p0)
                (λ z i. other z (ground (arith, i)) (λ d.
                  let there : surrounds k x ≡ true = ap (surrounds k) (sym (d ∙ e)) ∙ i in
                  absurd (cc)))
                around),
        )
