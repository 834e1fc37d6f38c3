-- ===== src/Rbtree/Cases.antt =====
-- `insert_case4` in a whole tree, for the four ways in which a node hangs under its grandparent.
use mathlib.Core.Path.{subst}
use mathlib.Core.List.{append_assoc}
use lockfree_stm.Common.{
  ℕ, ◌≡◌, ◌≢◌, inl, inr, refl, sym, ap, ◌∙◌, fun_ext, true, false, ◌&&◌, ◌∷◌, ◌==◌, arith,
  if◌then◌else◌, Bool-cases,
}
use lockfree_stm.Rbtree.{Tree, Node, red, grandparent}
use lockfree_stm.Rbtree.Insert.{insert_case4, insert_case5, turn_left, turn_right}
use lockfree_stm.Rbtree.Lookup.{Shape, fork, member}
use lockfree_stm.Rbtree.Freed.{IsUnique}
use lockfree_stm.Rbtree.Rotate.{Linked, first-member}
use lockfree_stm.Rbtree.Focus.{Context, in_left, in_right, plug, plug-IsApart, focus}
use lockfree_stm.Rbtree.Order.{inorder, plug-inorder}
use lockfree_stm.Rbtree.Distinct.{IsUnique-inorder}
use lockfree_stm.Rbtree.Balance.{is_black_at, is_even, is_red_apart, is_red_apart_around}
use lockfree_stm.Rbtree.Turns.{turn_left-Linked, turn_right-Linked}
use lockfree_stm.Rbtree.Paint.{
  color_at, SameKeys, SameKeys-trans, SameLabels, SameLabels-SameKeys, SameLabels-color,
  turn_left-SameLabels, turn_right-SameLabels,
}
use lockfree_stm.Rbtree.Recolor.{turn_left-colors, turn_right-colors}
use lockfree_stm.Rbtree.Repair.{
  Repaired, grandparent-above, case5_left-Repaired, case5_right-Repaired,
}

module _ {K V : Type 0} where
  insert_case4-branches :
      (t : Tree K V) (n g p : ℕ)
      → grandparent n t ≡ g
      → (t.node n).parent ≡ p
      → insert_case4 n t ≡ (
          if (n == (t.node p).right) && (p == (t.node g).left)
          then insert_case5 (t.node g).left (turn_left g n t)
          else if (n == (t.node p).left) && (p == (t.node g).right)
          then insert_case5 (t.node g).right (turn_right g n t)
          else insert_case5 n t)
  unfolding insert_case4
  insert_case4-branches t n g p a b = rw (a, b) refl

  -- A node outside of a tree is not its first.
  pub not_first :
      (m : ℕ → Node K V) (p a z : ℕ) (s : Shape)
      → Linked m p a s
      → z ≢ 0
      → member z s ≡ false
      → (z == a) ≡ false
  not_first m p a z s h z0 out = elim (Bool-cases (z == a)) [
    | inr d ↦ d
    | inl d ↦
        let same : a ≡ z = ground arith in
        let inside : member z s ≡ true =
          ap (λ y. member y s) (sym same) ∙ first-member m p a s h (λ e. z0 (sym same ∙ e)) in
        absurd (cc)
  ]

  -- What is repaired after a step that keeps the order and the labels is repaired.
  pub Repaired-after :
      (t w : Tree K V) (s s' : Shape) (v : Tree K V)
      → inorder s' ≡ inorder s
      → SameKeys t w
      → Repaired w s' v
      → Repaired t s v
  unfolding Repaired
  Repaired-after t w s s' v e keys (s'', links, order, colors, same) =
      (s'', links, order ∙ e, colors, SameKeys-trans t w v keys same)

  same_paint : (t w : Tree K V) → SameLabels t w → color_at t ≡ color_at w
  same_paint t w h = fun_ext λ z. sym (SameLabels-color t w h z)

  module _ (t : Tree K V) (k : Context) (g p n : ℕ) (a b c u : Shape) where
    left_left-case4 :
        (up at : ℕ)
        → IsUnique (fork (fork (fork a n c) p b) g u)
        → Linked t.node up at (fork (fork (fork a n c) p b) g u)
        → insert_case4 n t ≡ insert_case5 n t
    unfolding Linked IsUnique
    left_left-case4 up at ((ux, ub, px, pb, fp), uu, gp, gu, fg)
          (e, g0, eg, (gl, p0, ep, (pl, n0, en, ha, hc), hb), hu) =
        let not_right = not_first t.node p (t.node p).right n b hb n0 (fp n (ground arith)) in
        let not_far = not_first t.node g (t.node g).right p u hu p0 (fg p (ground arith)) in
        let one : ((n == (t.node p).right) && (p == (t.node g).left)) ≡ false =
          ground (arith, not_right) in
        let two : ((n == (t.node p).left) && (p == (t.node g).right)) ≡ false =
          ground (arith, not_far) in
        insert_case4-branches t n g p (grandparent-above t n g p n0 p0 en ep) en
        ∙ rw (one, two) refl

    left_right-case4 :
        (up at : ℕ)
        → Linked t.node up at (fork (fork b p (fork a n c)) g u)
        → insert_case4 n t ≡ insert_case5 p (turn_left g n t)
    unfolding Linked
    left_right-case4 up at (e, g0, eg, (gl, p0, ep, hb, (pr, n0, en, ha, hc)), hu) =
        let one : ((n == (t.node p).right) && (p == (t.node g).left)) ≡ true =
          ground (arith, pr, gl) in
        insert_case4-branches t n g p (grandparent-above t n g p n0 p0 en ep) en ∙ rw (one, gl) refl

    right_left-case4 :
        (up at : ℕ)
        → IsUnique (fork u g (fork (fork c n a) p b))
        → Linked t.node up at (fork u g (fork (fork c n a) p b))
        → insert_case4 n t ≡ insert_case5 p (turn_right g n t)
    unfolding Linked IsUnique
    right_left-case4 up at (uu, (ux, ub, px, pb, fp), gu, gp, fg)
          (e, g0, eg, hu, (gr, p0, ep, (pl, n0, en, hc, ha), hb)) =
        let not_right = not_first t.node p (t.node p).right n b hb n0 (fp n (ground arith)) in
        let one : ((n == (t.node p).right) && (p == (t.node g).left)) ≡ false =
          ground (arith, not_right) in
        let two : ((n == (t.node p).left) && (p == (t.node g).right)) ≡ true =
          ground (arith, pl, gr) in
        insert_case4-branches t n g p (grandparent-above t n g p n0 p0 en ep) en
        ∙ rw (one, two, gr) refl

    right_right-case4 :
        (up at : ℕ)
        → IsUnique (fork u g (fork b p (fork a n c)))
        → Linked t.node up at (fork u g (fork b p (fork a n c)))
        → insert_case4 n t ≡ insert_case5 n t
    unfolding Linked IsUnique
    right_right-case4 up at (uu, (ub, ux, pb, px, fp), gu, gp, fg)
          (e, g0, eg, hu, (gr, p0, ep, hb, (pr, n0, en, ha, hc))) =
        let not_left : (n == (t.node p).left) ≡ false =
          not_first t.node p (t.node p).left n b hb n0 (elim (Bool-cases (member n b)) [
            | inr i ↦ i
            | inl i ↦ absurd (ground (arith, fp n i))
          ]) in
        let not_far : (p == (t.node g).left) ≡ false =
          not_first t.node g (t.node g).left p u hu p0 (elim (Bool-cases (member p u)) [
            | inr i ↦ i
            | inl i ↦ absurd (ground (arith, fg p i))
          ]) in
        let one : ((n == (t.node p).right) && (p == (t.node g).left)) ≡ false =
          ground (arith, not_far) in
        let two : ((n == (t.node p).left) && (p == (t.node g).right)) ≡ false =
          ground (arith, not_left) in
        insert_case4-branches t n g p (grandparent-above t n g p n0 p0 en ep) en
        ∙ rw (one, two) refl

    pub case4_left_left :
        IsUnique (plug k (fork (fork (fork a n c) p b) g u))
        → Linked t.node 0 t.root (plug k (fork (fork (fork a n c) p b) g u))
        → color_at t p ≡ red
        → is_black_at (color_at t) u ≡ true
        → is_red_apart_around (color_at t) (in_left (in_left k g u) p b) ≡ true
        → is_red_apart (color_at t) (fork a n c) ≡ true
        → is_even (color_at t) (plug k (fork (fork (fork a n c) p b) g u)) ≡ true
        → Repaired t (plug k (fork (fork (fork a n c) p b) g u)) (insert_case4 n t)
    case4_left_left un h pr bu around rx e =
        let s = fork (fork (fork a n c) p b) g u in
        let us = (plug-IsApart k s un).0 in
        let (up, at, above, here) = focus t.node t.root k s h in
        subst (Repaired t (plug k s)) (sym (left_left-case4 up at us here))
          (case5_left-Repaired t k g p n a b c u un h pr bu around rx e)

    pub case4_right_right :
        IsUnique (plug k (fork u g (fork b p (fork a n c))))
        → Linked t.node 0 t.root (plug k (fork u g (fork b p (fork a n c))))
        → color_at t p ≡ red
        → is_black_at (color_at t) u ≡ true
        → is_red_apart_around (color_at t) (in_right (in_right k u g) b p) ≡ true
        → is_red_apart (color_at t) (fork a n c) ≡ true
        → is_even (color_at t) (plug k (fork u g (fork b p (fork a n c)))) ≡ true
        → Repaired t (plug k (fork u g (fork b p (fork a n c)))) (insert_case4 n t)
    case4_right_right un h pr bu around rx e =
        let s = fork u g (fork b p (fork a n c)) in
        let us = (plug-IsApart k s un).0 in
        let (up, at, above, here) = focus t.node t.root k s h in
        subst (Repaired t (plug k s)) (sym (right_right-case4 up at us here))
          (case5_right-Repaired t k g p n a b c u un h pr bu around rx e)

    pub case4_left_right :
        IsUnique (plug k (fork (fork b p (fork a n c)) g u))
        → Linked t.node 0 t.root (plug k (fork (fork b p (fork a n c)) g u))
        → color_at t p ≡ red
        → color_at t n ≡ red
        → is_black_at (color_at t) u ≡ true
        → is_red_apart_around (color_at t) (in_right (in_left k g u) b p) ≡ true
        → is_red_apart (color_at t) (fork a n c) ≡ true
        → is_even (color_at t) (plug k (fork (fork b p (fork a n c)) g u)) ≡ true
        → Repaired t (plug k (fork (fork b p (fork a n c)) g u)) (insert_case4 n t)
    unfolding plug
    case4_left_right un h pr nr bu around rx e =
        let s = fork (fork b p (fork a n c)) g u in
        let s' = fork (fork (fork b p a) n c) g u in
        let (up, at, above, here) = focus t.node t.root k s h in
        let w = turn_left g n t in
        let labels = turn_left-SameLabels g n t in
        let paint = same_paint t w labels in
        let order : inorder (plug k s') ≡ inorder (plug k s) =
          plug-inorder (in_left k g u) (fork (fork b p a) n c) (fork b p (fork a n c))
            (append_assoc (inorder b) (p ∷ inorder a) (n ∷ inorder c)) in
        let (ar, xr, ev) = turn_left-colors (color_at t) k g p n a b c u pr nr around rx e in
        subst (Repaired t (plug k s)) (sym (left_right-case4 up at here)) (
          Repaired-after t w (plug k s) (plug k s') (insert_case5 p w) order
            (SameLabels-SameKeys t w labels)
            (case5_left-Repaired w k g n p b c a u
              (IsUnique-inorder (plug k s) (plug k s') order un)
              (turn_left-Linked t k g p n a b c u un h) (subst (λ d. d n ≡ red) paint nr)
              (subst (λ d. is_black_at d u ≡ true) paint bu)
              (subst (λ d. is_red_apart_around d (in_left (in_left k g u) n c) ≡ true) paint ar)
              (subst (λ d. is_red_apart d (fork b p a) ≡ true) paint xr)
              (subst (λ d. is_even d (plug k s') ≡ true) paint ev)))

    pub case4_right_left :
        IsUnique (plug k (fork u g (fork (fork c n a) p b)))
        → Linked t.node 0 t.root (plug k (fork u g (fork (fork c n a) p b)))
        → color_at t p ≡ red
        → color_at t n ≡ red
        → is_black_at (color_at t) u ≡ true
        → is_red_apart_around (color_at t) (in_left (in_right k u g) p b) ≡ true
        → is_red_apart (color_at t) (fork c n a) ≡ true
        → is_even (color_at t) (plug k (fork u g (fork (fork c n a) p b))) ≡ true
        → Repaired t (plug k (fork u g (fork (fork c n a) p b))) (insert_case4 n t)
    unfolding plug
    case4_right_left un h pr nr bu around rx e =
        let s = fork u g (fork (fork c n a) p b) in
        let s' = fork u g (fork c n (fork a p b)) in
        let us = (plug-IsApart k s un).0 in
        let (up, at, above, here) = focus t.node t.root k s h in
        let w = turn_right g n t in
        let labels = turn_right-SameLabels g n t in
        let paint = same_paint t w labels in
        let order : inorder (plug k s') ≡ inorder (plug k s) =
          plug-inorder (in_right k u g) (fork c n (fork a p b)) (fork (fork c n a) p b)
            (sym (append_assoc (inorder c) (n ∷ inorder a) (p ∷ inorder b))) in
        let (ar, xr, ev) = turn_right-colors (color_at t) k g p n a b c u pr nr around rx e in
        subst (Repaired t (plug k s)) (sym (right_left-case4 up at us here)) (
          Repaired-after t w (plug k s) (plug k s') (insert_case5 p w) order
            (SameLabels-SameKeys t w labels)
            (case5_right-Repaired w k g n p a c b u
              (IsUnique-inorder (plug k s) (plug k s') order un)
              (turn_right-Linked t k g p n a b c u un h) (subst (λ d. d n ≡ red) paint nr)
              (subst (λ d. is_black_at d u ≡ true) paint bu)
              (subst (λ d. is_red_apart_around d (in_right (in_right k u g) c n) ≡ true) paint ar)
              (subst (λ d. is_red_apart d (fork a p b) ≡ true) paint xr)
              (subst (λ d. is_even d (plug k s') ≡ true) paint ev)))
