-- ===== src/Rbtree/Repair.antt =====
-- `insert_case5` in a whole tree: a rotation and two colours give a red-black tree.
use mathlib.Core.Path.{subst}
use lockfree_stm.Common.{
  ℕ, ◌≡◌, ◌≢◌, refl, sym, ap, ◌∙◌, true, false, ◌==◌, arith, if◌then◌else◌, Bool-cases, inl, inr,
}
use lockfree_stm.Rbtree.{Tree, red, black, set_color, grandparent, rotate_left, rotate_right}
use lockfree_stm.Rbtree.Insert.{insert_case5}
use lockfree_stm.Rbtree.Lookup.{Shape, fork, member}
use lockfree_stm.Rbtree.Freed.{IsUnique}
use lockfree_stm.Rbtree.Rotate.{Linked, first-member}
use lockfree_stm.Rbtree.Focus.{Context, in_left, in_right, plug, plug-IsApart, focus}
use lockfree_stm.Rbtree.Order.{inorder, rotate_left-Linked}
use lockfree_stm.Rbtree.Mirror.{rotate_right-Linked}
use lockfree_stm.Rbtree.Balance.{is_black_at, is_even, is_red_apart, is_red_apart_around}
use lockfree_stm.Rbtree.Paint.{
  color_at, SameLinks, SameLinks-trans, SameKeys, SameKeys-trans, set_color-SameLinks,
  set_color-SameKeys, set_color_self, set_color_ne, painted-Linked, SameLabels-SameKeys,
  SameLabels-color, rotate_left-SameLabels, rotate_right-SameLabels,
}
use lockfree_stm.Rbtree.Recolor.{IsBalanced, case5_left-IsBalanced, case5_right-IsBalanced}

module _ {K V : Type 0} where
  -- The second tree is a red-black tree of the nodes of the shape, in order, with the keys and values of the first tree.
  unfoldable pub Repaired : Tree K V → Shape → Tree K V → Type 0
  Repaired t s w =
      (s' : Shape) × Linked w.node 0 w.root s'
      × (inorder s' ≡ inorder s)
      × IsBalanced (color_at w) s'
      × SameKeys t w

  -- `p` becomes black and `g` red.
  unfoldable exchanged : ℕ → ℕ → Tree K V → Tree K V
  exchanged g p t = set_color g red (set_color p black t)

  exchanged-SameLinks : (g p : ℕ) (t : Tree K V) → SameLinks t (exchanged g p t)
  unfolding exchanged
  exchanged-SameLinks g p t =
      SameLinks-trans t (set_color p black t) (set_color g red (set_color p black t))
        (set_color-SameLinks p black t) (set_color-SameLinks g red (set_color p black t))

  exchanged-SameKeys : (g p : ℕ) (t : Tree K V) → SameKeys t (exchanged g p t)
  unfolding exchanged
  exchanged-SameKeys g p t =
      SameKeys-trans t (set_color p black t) (set_color g red (set_color p black t))
        (set_color-SameKeys p black t) (set_color-SameKeys g red (set_color p black t))

  exchanged-g : (g p : ℕ) (t : Tree K V) → color_at (exchanged g p t) g ≡ red
  unfolding exchanged
  exchanged-g g p t = set_color_self g red (set_color p black t)

  exchanged-p : (g p : ℕ) (t : Tree K V) → p ≢ g → color_at (exchanged g p t) p ≡ black
  unfolding exchanged
  exchanged-p g p t d = set_color_ne g p red (set_color p black t) d ∙ set_color_self p black t

  exchanged-other :
      (g p : ℕ) (t : Tree K V) (z : ℕ) → z ≢ g → z ≢ p → color_at (exchanged g p t) z ≡ color_at t z
  unfolding exchanged
  exchanged-other g p t z a b =
      set_color_ne g z red (set_color p black t) a ∙ set_color_ne p z black t b

  insert_case5-sides :
      (t : Tree K V) (n g p l : ℕ)
      → grandparent n t ≡ g
      → (t.node n).parent ≡ p
      → (t.node p).left ≡ l
      → insert_case5 n t
        ≡ (if n == l then rotate_right g (exchanged g p t) else rotate_left g (exchanged g p t))
  unfolding insert_case5 exchanged SameLinks
  insert_case5-sides t n g p l a b c =
      let links = exchanged-SameLinks g p t in rw (a, b, links.1 n, b, links.2 p, c) refl

  pub grandparent-above :
      (t : Tree K V) (n g p : ℕ)
      → n ≢ 0
      → p ≢ 0
      → (t.node n).parent ≡ p
      → (t.node p).parent ≡ g
      → grandparent n t ≡ g
  unfolding grandparent
  grandparent-above t n g p n0 p0 a b =
      let no_n : (n == 0) ≡ false = ground arith in
      let no_p : (p == 0) ≡ false = ground arith in rw (no_n, a, no_p, b) refl

  module _ (t : Tree K V) (k : Context) (g p n : ℕ) (a b c u : Shape) where
    insert_case5_left :
        (up at : ℕ)
        → Linked t.node up at (fork (fork (fork a n c) p b) g u)
        → insert_case5 n t ≡ rotate_right g (exchanged g p t)
    unfolding Linked
    insert_case5_left up at (e, g0, eg, (gl, p0, ep, (pl, n0, en, ha, hc), hb), hu) =
        let self : (n == n) ≡ true = ground arith in
        insert_case5-sides t n g p n (grandparent-above t n g p n0 p0 en ep) en pl ∙ rw self refl

    -- Where `n` and its parent `p` are left children, both red, and the uncle is black: case 5 gives a
    -- red-black tree.
    pub case5_left-Repaired :
        IsUnique (plug k (fork (fork (fork a n c) p b) g u))
        → Linked t.node 0 t.root (plug k (fork (fork (fork a n c) p b) g u))
        → color_at t p ≡ red
        → is_black_at (color_at t) u ≡ true
        → is_red_apart_around (color_at t) (in_left (in_left k g u) p b) ≡ true
        → is_red_apart (color_at t) (fork a n c) ≡ true
        → is_even (color_at t) (plug k (fork (fork (fork a n c) p b) g u)) ≡ true
        → Repaired t (plug k (fork (fork (fork a n c) p b) g u)) (insert_case5 n t)
    unfolding IsUnique Repaired
    case5_left-Repaired un h pr bu around rx e =
        let x = fork a n c in
        let s = fork (fork x p b) g u in
        let s' = fork x p (fork b g u) in
        let ((ux, ub, px, pb, fp), uu, gp, gu, fg) = (plug-IsApart k s un).0 in
        let out = (plug-IsApart k s un).1 in
        let (up, at, above, here) = focus t.node t.root k s h in
        let w = exchanged g p t in
        let v = rotate_right g w in
        let (links, order) =
          rotate_right-Linked w k g p x b u un
            (painted-Linked t w (plug k s) (exchanged-SameLinks g p t) h) in
        let colors = SameLabels-color w v (rotate_right-SameLabels g w) in
        let kept : (z : ℕ) → z ≢ g → z ≢ p → color_at v z ≡ color_at t z =
          λ z i j. colors z ∙ exchanged-other g p t z i j in
        let done : Repaired t (plug k s) v = (
          plug k s',
          links,
          order,
          case5_left-IsBalanced (color_at t) (color_at v) k g p x b u
              (λ z i. kept z (ground (arith, out z, i)) (ground (arith, out z, i)))
              (λ z i. kept z (ground (arith, gp, i)) (ground (arith, px, i)))
              (λ z i. kept z (ground (arith, gp, i)) (ground (arith, pb, i)))
              (λ z i. kept z (ground (arith, gu, i)) (ground (arith, fg z, i)))
              (colors p ∙ exchanged-p g p t (ground (arith, gp))) (colors g ∙ exchanged-g g p t) pr
              bu around rx e,
          SameKeys-trans t w v (exchanged-SameKeys g p t)
              (SameLabels-SameKeys w v (rotate_right-SameLabels g w)),
        ) in
        subst (Repaired t (plug k s)) (sym (insert_case5_left up at here)) done

    insert_case5_right :
        IsUnique (fork u g (fork b p (fork a n c)))
        → (up at : ℕ) → Linked t.node up at (fork u g (fork b p (fork a n c)))
        → insert_case5 n t ≡ rotate_left g (exchanged g p t)
    unfolding Linked IsUnique
    insert_case5_right (uu, (ub, ux, pb, px, fp), gu, gp, fg) up at
          (e, g0, eg, hu, (gr, p0, ep, hb, (pr, n0, en, ha, hc))) =
        let in_b = first-member t.node p (t.node p).left b hb in
        let other : (n == (t.node p).left) ≡ false = elim (Bool-cases (n == (t.node p).left)) [
          | inr d ↦ d
          | inl d ↦
              let same : (t.node p).left ≡ n = ground arith in
              let inside : member n b ≡ true =
                ap (λ z. member z b) (sym same) ∙ in_b (λ z. n0 (sym same ∙ z)) in
              absurd (ground (arith, fp n inside))
        ] in
        insert_case5-sides t n g p (t.node p).left (grandparent-above t n g p n0 p0 en ep) en refl
        ∙ rw other refl

    -- Where `n` and its parent `p` are right children, both red, and the uncle is black: case 5 gives a
    -- red-black tree.
    pub case5_right-Repaired :
        IsUnique (plug k (fork u g (fork b p (fork a n c))))
        → Linked t.node 0 t.root (plug k (fork u g (fork b p (fork a n c))))
        → color_at t p ≡ red
        → is_black_at (color_at t) u ≡ true
        → is_red_apart_around (color_at t) (in_right (in_right k u g) b p) ≡ true
        → is_red_apart (color_at t) (fork a n c) ≡ true
        → is_even (color_at t) (plug k (fork u g (fork b p (fork a n c)))) ≡ true
        → Repaired t (plug k (fork u g (fork b p (fork a n c)))) (insert_case5 n t)
    unfolding IsUnique Repaired
    case5_right-Repaired un h pr bu around rx e =
        let x = fork a n c in
        let s = fork u g (fork b p x) in
        let s' = fork (fork u g b) p x in
        let us = (plug-IsApart k s un).0 in
        let (uu, (ub, ux, pb, px, fp), gu, gp, fg) = us in
        let out = (plug-IsApart k s un).1 in
        let (up, at, above, here) = focus t.node t.root k s h in
        let w = exchanged g p t in
        let v = rotate_left g w in
        let (links, order) =
          rotate_left-Linked w k g p u b x un
            (painted-Linked t w (plug k s) (exchanged-SameLinks g p t) h) in
        let colors = SameLabels-color w v (rotate_left-SameLabels g w) in
        let kept : (z : ℕ) → z ≢ g → z ≢ p → color_at v z ≡ color_at t z =
          λ z i j. colors z ∙ exchanged-other g p t z i j in
        let done : Repaired t (plug k s) v = (
          plug k s',
          links,
          order,
          case5_right-IsBalanced (color_at t) (color_at v) k g p x b u
              (λ z i. kept z (ground (arith, out z, i)) (ground (arith, out z, i)))
              (λ z i. kept z (ground (arith, gp, i)) (ground (arith, px, i)))
              (λ z i. kept z (ground (arith, gp, i)) (ground (arith, pb, i)))
              (λ z i. kept z (ground (arith, gu, i)) (ground (arith, fg z i)))
              (colors p ∙ exchanged-p g p t (ground (arith, gp))) (colors g ∙ exchanged-g g p t) pr
              bu around rx e,
          SameKeys-trans t w v (exchanged-SameKeys g p t)
              (SameLabels-SameKeys w v (rotate_left-SameLabels g w)),
        ) in
        subst (Repaired t (plug k s)) (sym (insert_case5_right us up at here)) done
