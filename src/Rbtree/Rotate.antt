-- ===== src/Rbtree/Rotate.antt =====
-- The rotations, on the shape of the nodes in memory with their parents.
use mathlib.Core.Path.{subst}
use lockfree_stm.Common.{
  ℕ, ◌≡◌, ◌≢◌, inl, inr, refl, sym, ap, ◌∙◌, Bool, true, false, arith, Bool-cases,
}
use lockfree_stm.Common.Update.{update}
use lockfree_stm.Rbtree.{Tree, Node, set_left, set_right, set_parent, adopt, relink}
use lockfree_stm.Rbtree.Lookup.{Shape, leaf, fork, member}
use lockfree_stm.Rbtree.Freed.{IsUnique}

pub apart_from : (z a x : ℕ) (s : Shape) → a ≡ x → member x s ≡ false → member z s ≡ true → z ≢ a
apart_from z a x s e n i d =
    let there : member x s ≡ true = ap (λ k. member k s) (sym (d ∙ e)) ∙ i in absurd (cc)

module _ {K V : Type 0} where
  -- The nodes at and under the address `a` have this shape, the parent of the first is `p`.
  unfoldable pub Linked : (ℕ → Node K V) → ℕ → ℕ → Shape → Type 0
  Linked m p a leaf = a ≡ 0
  Linked m p a (fork l x r) =
      (a ≡ x) × (x ≢ 0) × ((m x).parent ≡ p) × Linked m x (m x).left l × Linked m x (m x).right r

  pub Linked-frame :
      (m m' : ℕ → Node K V) (p a : ℕ) (s : Shape)
      → ((z : ℕ) → member z s ≡ true → m' z ≡ m z)
      → Linked m p a s
      → Linked m' p a s
  unfolding Linked
  Linked-frame m m' p a leaf f h = h
  Linked-frame m m' p a (fork l x r) f (e, nz, up, hl, hr) =
      let same : m' x ≡ m x = f x (ground arith) in
      rw same (
        e,
        nz,
        up,
        Linked-frame m m' x (m x).left l (λ z i. f z (ground arith)) hl,
        Linked-frame m m' x (m x).right r (λ z i. f z (ground arith)) hr,
      )

  pub member-nonzero :
      (m : ℕ → Node K V) (p a z : ℕ) (s : Shape) → Linked m p a s → member z s ≡ true → z ≢ 0
  unfolding Linked
  member-nonzero m p a z leaf h i d = absurd (cc)
  member-nonzero m p a z (fork l x r) (e, nz, up, hl, hr) i d = elim (Bool-cases (member z l)) [
    | inl f ↦ member-nonzero m x (m x).left z l hl f d
    | inr f ↦ elim (Bool-cases (member z r)) [
      | inl g ↦ member-nonzero m x (m x).right z r hr g d
      | inr g ↦ absurd (ground arith)
    ]
  ]

  pub first-member :
      (m : ℕ → Node K V) (p a : ℕ) (s : Shape) → Linked m p a s → a ≢ 0 → member a s ≡ true
  unfolding Linked
  first-member m p a leaf h nz = absurd (nz h)
  first-member m p a (fork l x r) h nz = ground (arith, h.0)

  -- A tree whose first node gets another parent.
  Linked-adopt :
      (m m' : ℕ → Node K V) (p p' a : ℕ) (s : Shape)
      → IsUnique s
      → ((z : ℕ) → member z s ≡ true → z ≢ a → m' z ≡ m z)
      → (a ≢ 0 → m' a ≡ record (m a) { parent = p' })
      → Linked m p a s
      → Linked m' p' a s
  unfolding Linked IsUnique
  Linked-adopt m m' p p' a leaf u f g h = h
  Linked-adopt m m' p p' a (fork l x r) (ul, ur, nl, nr, far) f g (e, nz, up, hl, hr) =
      let same : m' x ≡ record (m x) { parent = p' } =
        ap m' (sym e) ∙ g (rw e nz) ∙ ap (λ k. record (m k) { parent = p' }) e in
      rw same (
        e,
        nz,
        refl,
        Linked-frame m m' x (m x).left l (λ z i. f z (ground arith) (apart_from z a x l e nl i)) hl,
        Linked-frame m m' x (m x).right r (λ z i. f z (ground arith) (apart_from z a x r e nr i))
            hr,
      )

  module _ (n q p pl : ℕ) (left : Bool) (t : Tree K V) where
    unfoldable pub turned : Tree K V
    turned =
        relink p left q
          (set_parent q p (set_parent n q (set_left q n (adopt pl n (set_right n pl t)))))

    pub relink-ne : (z : ℕ) (w : Tree K V) → z ≢ p → (relink p left q w).node z ≡ w.node z
    unfolding update
    relink-ne z w h = ground arith

    pub turned-n :
        n ≢ q → n ≢ pl → n ≢ p → turned.node n ≡ record (t.node n) { right = pl; parent = q }
    unfolding update turned
    turned-n a b c = ground arith

    pub turned-q :
        n ≢ q → q ≢ pl → q ≢ p → turned.node q ≡ record (t.node q) { left = n; parent = p }
    unfolding update turned
    turned-q a b c = ground arith

    pub turned-pl :
        pl ≢ 0 → n ≢ pl → q ≢ pl → pl ≢ p → turned.node pl ≡ record (t.node pl) { parent = n }
    unfolding update turned
    turned-pl a b c d = ground arith

    pub turned-other : (z : ℕ) → z ≢ n → z ≢ q → z ≢ pl → z ≢ p → turned.node z ≡ t.node z
    unfolding update turned
    turned-other z a b c d = ground arith

    pub turned-left :
        p ≢ 0
        → n ≢ p
        → q ≢ p
        → pl ≢ p
        → left ≡ true
        → turned.node p ≡ record (t.node p) { left = q }
    unfolding update turned
    turned-left a b c d e = ground arith

    pub turned-right :
        p ≢ 0
        → n ≢ p
        → q ≢ p
        → pl ≢ p
        → left ≡ false
        → turned.node p ≡ record (t.node p) { right = q }
    unfolding update turned
    turned-right a b c d e = ground arith

    pub turned-root : p ≢ 0 → turned.root ≡ t.root
    unfolding turned
    turned-root a = ground arith

    pub turned-top : p ≡ 0 → turned.root ≡ q
    unfolding turned
    turned-top a = ground arith

  module _ (t : Tree K V) (n q p : ℕ) (a b c : Shape) where
    pub turned-Linked :
        (left : Bool)
        → IsUnique (fork a n (fork b q c))
        → member p (fork a n (fork b q c)) ≡ false
        → Linked t.node p n (fork a n (fork b q c))
        → Linked (turned n q p (t.node q).left left t).node p q (fork (fork a n b) q c)
    unfolding Linked IsUnique
    turned-Linked left (ua, (ub, uc, qb, qc, bc), na, nr, far) np
          (e, nz, up, ha, (er, qz, uq, hb, hc)) =
        let m = t.node in
        let pl = (m q).left in
        let m' = (turned n q p pl left t).node in
        let in_b : pl ≢ 0 → member pl b ≡ true = first-member m q pl b hb in
        let off : (z : ℕ) → z ≢ 0 → member z b ≡ false → z ≢ pl = λ z z0 i d.
          let j : member z b ≡ true = ap (λ k. member k b) d ∙ in_b (λ f. z0 (d ∙ f)) in
          absurd (cc) in
        let n_q : n ≢ q = ground (arith, nr) in
        let n_pl : n ≢ pl = off n nz (ground (arith, nr)) in
        let q_pl : q ≢ pl = off q qz qb in
        let n_p : n ≢ p = ground (arith, np) in
        let q_p : q ≢ p = ground (arith, np) in
        let at_n = turned-n n q p pl left t n_q n_pl n_p in
        let at_q = turned-q n q p pl left t n_q q_pl q_p in
        let in_a : (z : ℕ) → member z a ≡ true → m' z ≡ m z = λ z i.
          turned-other n q p pl left t z (ground (arith, na, i)) (ground (arith, far z i))
            (off z (member-nonzero m n (m n).left z a ha i) (ground (arith, far z i)))
            (ground (arith, np, i)) in
        let in_c : (z : ℕ) → member z c ≡ true → m' z ≡ m z = λ z i.
          turned-other n q p pl left t z (ground (arith, nr, i)) (ground (arith, qc, i))
            (off z (member-nonzero m q (m q).right z c hc i) (elim (Bool-cases (member z b)) [
              | inl j ↦ absurd (ground (arith, bc z j))
              | inr j ↦ j
            ]))
            (ground (arith, np, i)) in
        let b' =
          Linked-adopt m m' q n pl b ub
            (λ z i d.
              turned-other n q p pl left t z (ground (arith, nr, i)) (ground (arith, qb, i)) d
                (ground (arith, np, i)))
            (λ f.
              turned-pl n q p pl left t f n_pl q_pl (λ d. let j = in_b f in ground (arith, np, j)))
            hb in
        (
          refl,
          qz,
          ap (λ (d : Node K V). d.parent) at_q,
          (
            ap (λ (d : Node K V). d.left) at_q,
            nz,
            ap (λ (d : Node K V). d.parent) at_n,
            subst (λ k. Linked m' n k a) (sym (ap (λ (d : Node K V). d.left) at_n))
                (Linked-frame m m' n (m n).left a in_a ha),
            subst (λ k. Linked m' n k b) (sym (ap (λ (d : Node K V). d.right) at_n)) b',
          ),
          subst (λ k. Linked m' q k c) (sym (ap (λ (d : Node K V). d.right) at_q))
              (Linked-frame m m' q (m q).right c in_c hc),
        )
