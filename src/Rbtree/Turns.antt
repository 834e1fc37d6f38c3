-- ===== src/Rbtree/Turns.antt =====
-- The two turns written out in `insert_case4` are the rotations of the parent.
use mathlib.Core.Path.{subst}
use lockfree_stm.Common.{
  ℕ, ◌≡◌, ◌≢◌, inl, inr, refl, sym, ap, ◌∙◌, true, false, not, ◌&&◌, ◌==◌, arith, Bool-cases,
}
use lockfree_stm.Common.Update.{update}
use lockfree_stm.Rbtree.{Tree, set_left, set_right, set_parent, rotate_left, adopt}
use lockfree_stm.Rbtree.Insert.{turn_left, turn_right}
use lockfree_stm.Rbtree.Lookup.{Shape, fork, member}
use lockfree_stm.Rbtree.Freed.{IsUnique}
use lockfree_stm.Rbtree.Focus.{Context, in_left, plug, plug-IsApart, focus}
use lockfree_stm.Rbtree.Mirror.{
  flip, flip_context, plug-flip, IsUnique-flip, flip_node, mirror, Linked-mirror, mirror-Linked,
  mirror-set_left, mirror-set_right, mirror-set_parent, mirror-adopt,
}
use lockfree_stm.Rbtree.Order.{rotate_left-Linked}
use lockfree_stm.Rbtree.Rotate.{
  Linked, Linked-frame, first-member, turned, turned-n, turned-q, turned-pl, turned-left,
  turned-other, turned-root,
}

left_flag : (g p l : ℕ) → g ≢ 0 → l ≡ p → (not (g == 0) && (l == p)) ≡ true
left_flag g p l g0 a = ground arith

module _ {K V : Type 0} where
  module _ (g p n pl : ℕ) (t : Tree K V) where
    -- `turn_left` with the saved pointers as arguments.
    unfoldable spun : Tree K V
    spun =
        adopt pl p
          (set_right p pl (set_parent p n (set_left n p (set_parent n g (set_left g n t)))))

    spun-g : g ≢ p → g ≢ n → pl ≢ g → spun.node g ≡ record (t.node g) { left = n }
    unfolding spun update
    spun-g a b c = ground arith

    spun-n : g ≢ n → p ≢ n → pl ≢ n → spun.node n ≡ record (t.node n) { left = p; parent = g }
    unfolding spun update
    spun-n a b c = ground arith

    spun-p : g ≢ p → p ≢ n → pl ≢ p → spun.node p ≡ record (t.node p) { right = pl; parent = n }
    unfolding spun update
    spun-p a b c = ground arith

    spun-pl : pl ≢ 0 → pl ≢ g → pl ≢ p → pl ≢ n → spun.node pl ≡ record (t.node pl) { parent = p }
    unfolding spun update
    spun-pl a b c d = ground arith

    spun-other : (z : ℕ) → z ≢ g → z ≢ p → z ≢ n → z ≢ pl → spun.node z ≡ t.node z
    unfolding spun update
    spun-other z a b c d = ground arith

    spun-none : (z : ℕ) → z ≢ g → z ≢ p → z ≢ n → pl ≡ 0 → spun.node z ≡ t.node z
    unfolding spun update
    spun-none z a b c d = ground arith

    turned-none :
        (z : ℕ) → z ≢ g → z ≢ p → z ≢ n → pl ≡ 0 → (turned p n g pl true t).node z ≡ t.node z
    unfolding turned update
    turned-none z a b c d = ground arith

    spun-root : spun.root ≡ t.root
    unfolding spun
    spun-root = ground arith

    spun-turned :
        g ≢ 0
        → g ≢ p
        → g ≢ n
        → p ≢ n
        → pl ≢ g
        → pl ≢ p
        → pl ≢ n
        → (z : ℕ) → spun.node z ≡ (turned p n g pl true t).node z
    spun-turned g0 gp gn pn x y w z = elim (Bool-cases (z == g)) [
      | inl e ↦
          let d : g ≡ z = ground arith in
          ap spun.node (sym d)
          ∙ spun-g gp gn x
          ∙ sym (turned-left p n g pl true t g0 (λ f. gp (sym f)) (λ f. gn (sym f)) x refl)
          ∙ ap (turned p n g pl true t).node d
      | inr e ↦ elim (Bool-cases (z == p)) [
        | inl f ↦
            let d : p ≡ z = ground arith in
            ap spun.node (sym d)
            ∙ spun-p gp pn y
            ∙ sym (turned-n p n g pl true t pn (λ h. y (sym h)) (λ h. gp (sym h)))
            ∙ ap (turned p n g pl true t).node d
        | inr f ↦ elim (Bool-cases (z == n)) [
          | inl h ↦
              let d : n ≡ z = ground arith in
              ap spun.node (sym d)
              ∙ spun-n gn pn w
              ∙ sym (turned-q p n g pl true t pn (λ i. w (sym i)) (λ i. gn (sym i)))
              ∙ ap (turned p n g pl true t).node d
          | inr h ↦ elim (Bool-cases (z == pl)) [
            | inl i ↦ elim (Bool-cases (pl == 0)) [
              | inl j ↦
                  spun-none z (ground arith) (ground arith) (ground arith) (ground arith)
                  ∙ sym (turned-none z (ground arith) (ground arith) (ground arith) (ground arith))
              | inr j ↦
                  let d : pl ≡ z = ground arith in
                  ap spun.node (sym d)
                  ∙ spun-pl (ground arith) x y w
                  ∙ sym
                      (turned-pl p n g pl true t (ground arith) (λ k. y (sym k)) (λ k. w (sym k)) x)
                  ∙ ap (turned p n g pl true t).node d
            ]
            | inr i ↦
                spun-other z (ground arith) (ground arith) (ground arith) (ground arith)
                ∙ sym (
                    turned-other p n g pl true t z (ground arith) (ground arith) (ground arith)
                      (ground arith))
          ]
        ]
      ]
    ]

  turn_left-spun :
      (t : Tree K V) (g n p : ℕ)
      → (t.node g).left ≡ p
      → turn_left g n t ≡ spun g p n (t.node n).left t
  unfolding turn_left spun
  turn_left-spun t g n p e = rw e refl

  rotate_left-spun :
      (t : Tree K V) (g n p : ℕ)
      → g ≢ 0
      → (t.node g).left ≡ p
      → (t.node p).right ≡ n
      → (t.node p).parent ≡ g
      → rotate_left p t ≡ turned p n g (t.node n).left true t
  unfolding rotate_left turned
  rotate_left-spun t g n p g0 a b c = rw (b, c, left_flag g p (t.node g).left g0 a) refl

  turn_left-rotation :
      (t : Tree K V) (g p n : ℕ) (a b c u : Shape)
      → IsUnique (fork (fork b p (fork a n c)) g u)
      → (up at : ℕ) → Linked t.node up at (fork (fork b p (fork a n c)) g u)
      → ((turn_left g n t).root ≡ (rotate_left p t).root)
        × ((z : ℕ) → (turn_left g n t).node z ≡ (rotate_left p t).node z)
  unfolding Linked IsUnique
  turn_left-rotation t g p n a b c u ((ub, (ua, uc, na, nc, fa), pb, pn, fb), uu, gp, gu, fg) up at
        (e, g0, eg, (gl, p0, ep, hb, (pr, n0, en, ha, hc)), hu) =
      let pl = (t.node n).left in
      let in_a : pl ≢ 0 → member pl a ≡ true = first-member t.node n pl a ha in
      let off : (z : ℕ) → z ≢ 0 → member z a ≡ false → pl ≢ z = λ z z0 i d.
        let j : member z a ≡ true = ap (λ k. member k a) (sym d) ∙ in_a (λ f. z0 (sym d ∙ f)) in
        absurd (cc) in
      let one = turn_left-spun t g n p gl in
      let two = rotate_left-spun t g n p g0 gl pr ep in
      (
        ap (λ (w : Tree K V). w.root) one
            ∙ spun-root g p n pl t
            ∙ sym (ap (λ (w : Tree K V). w.root) two ∙ turned-root p n g pl true t g0),
        λ z.
            ap (λ (w : Tree K V). w.node z) one
            ∙ spun-turned g p n pl t g0 (ground (arith, gp)) (ground (arith, gp))
                (ground (arith, pn)) (off g g0 (ground (arith, gp))) (off p p0 (ground (arith, pn)))
                (off n n0 na) z
            ∙ sym (ap (λ (w : Tree K V). w.node z) two),
      )

  Linked-copy :
      (t w : Tree K V) (s : Shape)
      → (w.root ≡ t.root) × ((z : ℕ) → w.node z ≡ t.node z)
      → Linked t.node 0 t.root s
      → Linked w.node 0 w.root s
  Linked-copy t w s (e, f) h =
      subst (λ b. Linked w.node 0 b s) (sym e)
        (Linked-frame t.node w.node 0 t.root s (λ z i. f z) h)

  -- Where `n` is the right child of `p`, and `p` the left child of `g`: `turn_left` turns `n` over `p`
  -- and links the same tree around them.
  pub turn_left-Linked :
      (t : Tree K V) (k : Context) (g p n : ℕ) (a b c u : Shape)
      → IsUnique (plug k (fork (fork b p (fork a n c)) g u))
      → Linked t.node 0 t.root (plug k (fork (fork b p (fork a n c)) g u))
      → Linked
          (turn_left g n t).node
          0
          (turn_left g n t).root
          (plug k (fork (fork (fork b p a) n c) g u))
  unfolding plug
  turn_left-Linked t k g p n a b c u un h =
      let s = fork (fork b p (fork a n c)) g u in
      let (us, out, apart) = plug-IsApart k s un in
      let (up, at, around, here) = focus t.node t.root k s h in
      Linked-copy (rotate_left p t) (turn_left g n t) (plug k (fork (fork (fork b p a) n c) g u))
        (turn_left-rotation t g p n a b c u us up at here)
        (rotate_left-Linked t (in_left k g u) p n b a c un h).0

  mirror-turn_right :
      (t : Tree K V) (g n : ℕ) → turn_right g n t ≡ mirror (turn_left g n (mirror t))
  unfolding turn_left turn_right mirror flip_node
  mirror-turn_right t g n =
      let p = (t.node g).right in
      let pr = (t.node n).right in
      let w₁ = set_left g n (mirror t) in
      let w₂ = set_parent n g w₁ in
      let w₃ = set_left n p w₂ in
      let w₄ = set_parent p n w₃ in
      let w₅ = set_right p pr w₄ in
      let e₁ = mirror-set_left g n (mirror t) in
      let e₂ = mirror-set_parent n g w₁ ∙ ap (set_parent n g) e₁ in
      let e₃ = mirror-set_left n p w₂ ∙ ap (set_right n p) e₂ in
      let e₄ = mirror-set_parent p n w₃ ∙ ap (set_parent p n) e₃ in
      let e₅ = mirror-set_right p pr w₄ ∙ ap (set_left p pr) e₄ in
      sym (mirror-adopt pr p w₅ ∙ ap (adopt pr p) e₅)

  -- Where `n` is the left child of `p`, and `p` the right child of `g`: `turn_right` turns `n` over `p`
  -- and links the same tree around them.
  pub turn_right-Linked :
      (t : Tree K V) (k : Context) (g p n : ℕ) (a b c u : Shape)
      → IsUnique (plug k (fork u g (fork (fork c n a) p b)))
      → Linked t.node 0 t.root (plug k (fork u g (fork (fork c n a) p b)))
      → Linked
          (turn_right g n t).node
          0
          (turn_right g n t).root
          (plug k (fork u g (fork c n (fork a p b))))
  unfolding flip mirror
  turn_right-Linked t k g p n a b c u un h =
      let s = fork u g (fork (fork c n a) p b) in
      let s' = fork u g (fork c n (fork a p b)) in
      let w = turn_left g n (mirror t) in
      let turned =
        turn_left-Linked (mirror t) (flip_context k) g p n (flip a) (flip b) (flip c) (flip u)
          (subst IsUnique (plug-flip k s) (IsUnique-flip (plug k s) un))
          (subst (Linked (mirror t).node 0 t.root) (plug-flip k s)
            (Linked-mirror t.node 0 t.root (plug k s) h)) in
      subst (λ (v : Tree K V). Linked v.node 0 v.root (plug k s')) (sym (mirror-turn_right t g n))
        (mirror-Linked w (plug k s') (subst (Linked w.node 0 w.root) (sym (plug-flip k s')) turned))
