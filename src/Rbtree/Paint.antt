-- ===== src/Rbtree/Paint.antt =====
-- What the pieces of insertion leave alone: painting keeps every link, turning keeps keys and colours.
use mathlib.Core.Path.{subst}
use lockfree_stm.Common.{
  ℕ, ◌≡◌, ◌≢◌, inl, inr, refl, sym, ◌∙◌, Bool, not, ◌&&◌, ◌==◌, arith, Bool-cases,
}
use lockfree_stm.Common.Update.{update}
use lockfree_stm.Rbtree.{
  Tree, Color, set_root, set_left, set_right, set_parent, set_color, adopt, relink, rotate_left,
  rotate_right,
}
use lockfree_stm.Rbtree.Insert.{turn_left, turn_right}
use lockfree_stm.Rbtree.Lookup.{Shape, leaf, fork}
use lockfree_stm.Rbtree.Rotate.{Linked}

module _ {K V : Type 0} where
  abbrev pub color_at : Tree K V → ℕ → Color
  color_at t z = (t.node z).color

  -- The nodes hang together the same way.
  unfoldable pub SameLinks : Tree K V → Tree K V → Type 0
  SameLinks t w =
      (w.root ≡ t.root)
      × ((z : ℕ) → (w.node z).parent ≡ (t.node z).parent)
      × ((z : ℕ) → (w.node z).left ≡ (t.node z).left)
      × ((z : ℕ) → (w.node z).right ≡ (t.node z).right)

  -- The nodes have the same keys and values.
  unfoldable pub SameKeys : Tree K V → Tree K V → Type 0
  SameKeys t w =
      ((z : ℕ) → (w.node z).key ≡ (t.node z).key) × ((z : ℕ) → (w.node z).value ≡ (t.node z).value)

  pub SameKeys-refl : (t : Tree K V) → SameKeys t t
  unfolding SameKeys
  SameKeys-refl t = (λ z. refl, λ z. refl)

  pub SameKeys-trans : (t w v : Tree K V) → SameKeys t w → SameKeys w v → SameKeys t v
  unfolding SameKeys
  SameKeys-trans t w v a b = (λ z. b.0 z ∙ a.0 z, λ z. b.1 z ∙ a.1 z)

  pub SameLinks-refl : (t : Tree K V) → SameLinks t t
  unfolding SameLinks
  SameLinks-refl t = (refl, λ z. refl, λ z. refl, λ z. refl)

  pub SameLinks-trans : (t w v : Tree K V) → SameLinks t w → SameLinks w v → SameLinks t v
  unfolding SameLinks
  SameLinks-trans t w v a b =
      (b.0 ∙ a.0, λ z. b.1 z ∙ a.1 z, λ z. b.2 z ∙ a.2 z, λ z. b.3 z ∙ a.3 z)

  pub set_color-SameLinks : (n : ℕ) (c : Color) (t : Tree K V) → SameLinks t (set_color n c t)
  unfolding SameLinks update
  set_color-SameLinks n c t = (refl, λ z. ground arith, λ z. ground arith, λ z. ground arith)

  pub set_color-SameKeys : (n : ℕ) (c : Color) (t : Tree K V) → SameKeys t (set_color n c t)
  unfolding SameKeys update
  set_color-SameKeys n c t = (λ z. ground arith, λ z. ground arith)

  pub set_color_self : (n : ℕ) (c : Color) (t : Tree K V) → color_at (set_color n c t) n ≡ c
  unfolding update
  set_color_self n c t = ground arith

  pub set_color_ne :
      (n z : ℕ) (c : Color) (t : Tree K V) → z ≢ n → color_at (set_color n c t) z ≡ color_at t z
  unfolding update
  set_color_ne n z c t d = ground arith

  Linked-links :
      (t w : Tree K V) (p a : ℕ) (s : Shape)
      → SameLinks t w
      → Linked t.node p a s
      → Linked w.node p a s
  unfolding Linked SameLinks
  Linked-links t w p a leaf f h = h
  Linked-links t w p a (fork l x r) f (e, nz, up, hl, hr) = (
    e,
    nz,
    f.1 x ∙ up,
    subst (λ b. Linked w.node x b l) (sym (f.2 x)) (Linked-links t w x (t.node x).left l f hl),
    subst (λ b. Linked w.node x b r) (sym (f.3 x)) (Linked-links t w x (t.node x).right r f hr),
  )

  pub painted-Linked :
      (t w : Tree K V) (s : Shape)
      → SameLinks t w
      → Linked t.node 0 t.root s
      → Linked w.node 0 w.root s
  unfolding SameLinks
  painted-Linked t w s f h =
      subst (λ b. Linked w.node 0 b s) (sym f.0) (Linked-links t w 0 t.root s f h)

  -- The labels of a node: all of it that is not a link.
  unfoldable pub SameLabels : Tree K V → Tree K V → Type 0
  SameLabels t w =
      ((z : ℕ) → (w.node z).key ≡ (t.node z).key)
      × ((z : ℕ) → (w.node z).value ≡ (t.node z).value)
      × ((z : ℕ) → (w.node z).color ≡ (t.node z).color)

  pub SameLabels-SameKeys : (t w : Tree K V) → SameLabels t w → SameKeys t w
  unfolding SameKeys SameLabels
  SameLabels-SameKeys t w f = (f.0, f.1)

  pub SameLabels-color : (t w : Tree K V) → SameLabels t w → (z : ℕ) → color_at w z ≡ color_at t z
  unfolding SameLabels
  SameLabels-color t w f = f.2

  labels_trans : (t w v : Tree K V) → SameLabels t w → SameLabels w v → SameLabels t v
  unfolding SameLabels
  labels_trans t w v a b = (λ z. b.0 z ∙ a.0 z, λ z. b.1 z ∙ a.1 z, λ z. b.2 z ∙ a.2 z)

  pub left_labels : (t w : Tree K V) (n p : ℕ) → SameLabels t w → SameLabels t (set_left n p w)
  unfolding SameLabels update
  left_labels t w n p a =
      labels_trans t w (set_left n p w) a (λ z. ground arith, λ z. ground arith, λ z. ground arith)

  pub right_labels : (t w : Tree K V) (n p : ℕ) → SameLabels t w → SameLabels t (set_right n p w)
  unfolding SameLabels update
  right_labels t w n p a =
      labels_trans t w (set_right n p w) a (λ z. ground arith, λ z. ground arith, λ z. ground arith)

  pub parent_labels : (t w : Tree K V) (n p : ℕ) → SameLabels t w → SameLabels t (set_parent n p w)
  unfolding SameLabels update
  parent_labels t w n p a =
      labels_trans t w (set_parent n p w) a
        (λ z. ground arith, λ z. ground arith, λ z. ground arith)

  adopt_labels : (t w : Tree K V) (n p : ℕ) → SameLabels t w → SameLabels t (adopt n p w)
  adopt_labels t w n p a = elim (Bool-cases (n == 0)) [
    | inl e ↦ rw e a
    | inr e ↦ rw e (parent_labels t w n p a)
  ]

  pub same_labels : (t : Tree K V) → SameLabels t t
  unfolding SameLabels
  same_labels t = (λ z. refl, λ z. refl, λ z. refl)

  pub root_labels : (t w : Tree K V) (n : ℕ) → SameLabels t w → SameLabels t (set_root n w)
  unfolding SameLabels
  root_labels t w n a = a

  relink_labels :
      (t w : Tree K V) (n p : ℕ) (b : Bool) → SameLabels t w → SameLabels t (relink n b p w)
  relink_labels t w n p b a = elim (Bool-cases (n == 0)) [
    | inl e ↦ rw e (root_labels t w p a)
    | inr e ↦ elim (Bool-cases b) [
      | inl f ↦ rw (e, f) (left_labels t w n p a)
      | inr f ↦ rw (e, f) (right_labels t w n p a)
    ]
  ]

  pub rotate_left-SameLabels : (n : ℕ) (t : Tree K V) → SameLabels t (rotate_left n t)
  unfolding rotate_left
  rotate_left-SameLabels n t =
      let p = (t.node n).right in
      let pl = (t.node p).left in
      let up = (t.node n).parent in
      relink_labels t _ up p (not (up == 0) && ((t.node up).left == n)) (
        parent_labels t _ p up (
          parent_labels t _ n p
            (left_labels t _ p n (adopt_labels t _ pl n (right_labels t _ n pl (same_labels t))))))

  pub rotate_right-SameLabels : (n : ℕ) (t : Tree K V) → SameLabels t (rotate_right n t)
  unfolding rotate_right
  rotate_right-SameLabels n t =
      let p = (t.node n).left in
      let pr = (t.node p).right in
      let up = (t.node n).parent in
      relink_labels t _ up p (not (up == 0) && ((t.node up).left == n)) (
        parent_labels t _ p up (
          parent_labels t _ n p
            (right_labels t _ p n (adopt_labels t _ pr n (left_labels t _ n pr (same_labels t))))))

  pub turn_left-SameLabels : (g n : ℕ) (t : Tree K V) → SameLabels t (turn_left g n t)
  unfolding turn_left
  turn_left-SameLabels g n t =
      let p = (t.node g).left in
      let pl = (t.node n).left in
      adopt_labels t _ pl p (
        right_labels t _ p pl (
          parent_labels t _ p n
            (left_labels t _ n p (parent_labels t _ n g (left_labels t _ g n (same_labels t))))))

  pub turn_right-SameLabels : (g n : ℕ) (t : Tree K V) → SameLabels t (turn_right g n t)
  unfolding turn_right
  turn_right-SameLabels g n t =
      let p = (t.node g).right in
      let pr = (t.node n).right in
      adopt_labels t _ pr p (
        left_labels t _ p pr (
          parent_labels t _ p n
            (right_labels t _ n p (parent_labels t _ n g (right_labels t _ g n (same_labels t))))))
