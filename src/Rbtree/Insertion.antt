-- ===== src/Rbtree/Insertion.antt =====
-- `insert_case1` gives a red-black tree, from any node of a tree whose only fault is there.
use mathlib.Core.Path.{subst}
use lockfree_stm.Common.{
  ℕ, zero, suc, ◌<◌, ◌≡◌, ◌≢◌, inl, inr, refl, sym, ◌∙◌, true, ◌&&◌, arith, Bool-cases,
}
use lockfree_stm.Rbtree.{Tree, red, black, is_black, set_color}
use lockfree_stm.Rbtree.Insert.{insert_case1, insert_case4}
use lockfree_stm.Rbtree.Lookup.{Shape, fork}
use lockfree_stm.Rbtree.Freed.{IsUnique}
use lockfree_stm.Rbtree.Rotate.{Linked}
use lockfree_stm.Rbtree.Focus.{Context, top, in_left, in_right, plug, plug-IsApart, focus}
use lockfree_stm.Rbtree.Balance.{
  is_black_at, is_even, is_red_apart, is_red_apart_around, is_black_above, plug-is_red_apart,
}
use lockfree_stm.Rbtree.Paint.{
  color_at, set_color-SameLinks, set_color-SameKeys, set_color_self, set_color_ne, painted-Linked,
}
use lockfree_stm.Rbtree.Recolor.{IsBalanced, Blackened, fork-Blackened}
use lockfree_stm.Rbtree.Repair.{Repaired}
use lockfree_stm.Rbtree.Cases.{
  Repaired-after, case4_left_left, case4_left_right, case4_right_left, case4_right_right,
}
use lockfree_stm.Rbtree.Family.{
  IsFamily, left-IsFamily, right-IsFamily, recolored, recolored-SameKeys, recolored-g, case1-root,
  case1-black, case1-case4, case1-case3-again,
}
use lockfree_stm.Rbtree.Ascent.{
  Color-cases, depth, red_root, IsClimbing, settled, recolored-left, recolored-right,
}

module _ {K V : Type 0} where
  -- The node is a red one with `a` and `c` under it.
  at_root :
      (t : Tree K V) (n : ℕ) (a c : Shape) (fuel : ℕ)
      → IsClimbing t top (fork a n c)
      → color_at t n ≡ red
      → Repaired t (plug top (fork a n c)) (insert_case1 (suc fuel) n t)
  unfolding Repaired IsBalanced Blackened plug IsUnique Linked
  at_root t n a c fuel h nr =
      let (ua, uc, na, nc, far) = h.unique in
      let (e, nz, up, ha, hc) = h.links in
      let w = set_color n black t in
      let (height, even, apart, rooted) =
        fork-Blackened (color_at t) (color_at w) a n c
          (λ z i. set_color_ne n z black t (ground (arith, na, i)))
          (λ z i. set_color_ne n z black t (ground (arith, nc, i))) nr (set_color_self n black t)
          (ground (arith, h.inside)) (ground (arith, h.inside)) in
      subst (Repaired t (fork a n c)) (sym (case1-root fuel n t up)) (
        fork a n c,
        painted-Linked t w (fork a n c) (set_color-SameLinks n black t) h.links,
        refl,
        (even ∙ h.even, apart, rooted),
        set_color-SameKeys n black t,
      )

  -- Under a black parent nothing is left to do.
  under_black :
      (t : Tree K V) (k : Context) (s : Shape) (n p : ℕ) (fuel : ℕ)
      → IsClimbing t k s
      → (t.node n).parent ≡ p
      → p ≢ 0
      → color_at t p ≡ black
      → (is_black_above (color_at t) k ≡ true)
      → Repaired t (plug k s) (insert_case1 (suc fuel) n t)
  under_black t k s n p fuel h e p0 b above =
      let both = plug-is_red_apart (color_at t) k s in
      let all : (is_red_apart (color_at t) (plug k s) && is_black_at (color_at t) (plug k s))
          ≡ true =
        both ∙ ground (arith, h.around, h.inside, above) in
      subst (Repaired t (plug k s)) (sym (case1-black fuel n p t e p0 b))
        (settled t k s h (ground (arith, all)) (ground (arith, all)))

  hanging_left :
      (t : Tree K V) (k : Context) (p n : ℕ) (a c r : Shape)
      → Linked t.node 0 t.root (plug (in_left k p r) (fork a n c))
      → ((t.node n).parent ≡ p) × (p ≢ 0) × (n ≢ 0)
  unfolding plug Linked
  hanging_left t k p n a c r h =
      let (up, at, above, (e, p0, ep, (pl, n0, en, ha, hc), hr)) =
        focus t.node t.root k (fork (fork a n c) p r) h in
      (en, p0, n0)

  hanging_right :
      (t : Tree K V) (k : Context) (p n : ℕ) (a c l : Shape)
      → Linked t.node 0 t.root (plug (in_right k l p) (fork a n c))
      → ((t.node n).parent ≡ p) × (p ≢ 0) × (n ≢ 0)
  unfolding plug Linked
  hanging_right t k p n a c l h =
      let (up, at, above, (e, p0, ep, hl, (pr, n0, en, ha, hc))) =
        focus t.node t.root k (fork l p (fork a n c)) h in
      (en, p0, n0)

  -- Under a red parent on the left of the grandparent: `again` is the rest of the climb.
  module _ (t : Tree K V) (k : Context) (g p n : ℕ) (l r u : Shape) (fuel : ℕ) where
    parent_left :
        IsUnique (plug k (fork (fork l p r) g u))
        → Linked t.node 0 t.root (plug k (fork (fork l p r) g u))
        → is_even (color_at t) (plug k (fork (fork l p r) g u)) ≡ true
        → is_red_apart_around (color_at t) k ≡ true
        → is_black (color_at t g) ≡ true
        → (is_red_apart (color_at t) l ≡ true) × (is_red_apart (color_at t) r ≡ true)
        → is_red_apart (color_at t) u ≡ true
        → color_at t p ≡ red
        → ((t.node n).parent ≡ p) × (p ≢ 0) × (n ≢ 0)
        → ((w : Tree K V)
            → IsClimbing w k (fork (fork l p r) g u)
            → color_at w g ≡ red
            → Repaired w (plug k (fork (fork l p r) g u)) (insert_case1 fuel g w))
        → (is_black_at (color_at t) u ≡ true
            → Repaired t (plug k (fork (fork l p r) g u)) (insert_case4 n t))
        → Repaired t (plug k (fork (fork l p r) g u)) (insert_case1 (suc fuel) n t)
    parent_left un h e around bg rs ru pr (en, p0, n0) again turn =
        let s = fork (fork l p r) g u in
        let (up, at, above, here) = focus t.node t.root k s h in
        let family = left-IsFamily t g p n l r u up at here n0 en in
        elim (Bool-cases (is_black_at (color_at t) u)) [
          | inl b ↦
              subst (Repaired t (plug k s)) (sym (case1-case4 fuel n p g u t family pr b)) (turn b)
          | inr b ↦
              let (ul, y, ur, same, yr) = red_root (color_at t) u b in
              let w = recolored g y p t in
              let climbing : IsClimbing w k s =
                subst (λ v. IsClimbing w k (fork (fork l p r) g v)) (sym same)
                  (recolored-left t k g p y l r ul ur
                    (subst (λ v. IsUnique (plug k (fork (fork l p r) g v))) same un)
                    (subst (λ v. Linked t.node 0 t.root (plug k (fork (fork l p r) g v))) same h)
                    (subst (λ v. is_even (color_at t) (plug k (fork (fork l p r) g v)) ≡ true) same
                      e)
                    around bg rs (subst (λ v. is_red_apart (color_at t) v ≡ true) same ru) pr yr) in
              subst (Repaired t (plug k s))
                (sym (
                  case1-case3-again fuel n p g y ul ur t (subst (IsFamily t n p g) same family) pr
                    yr))
                (Repaired-after t w (plug k s) (plug k s) (insert_case1 fuel g w) refl
                  (recolored-SameKeys g y p t) (again w climbing (recolored-g g y p t)))
        ]

    parent_right :
        IsUnique (plug k (fork u g (fork l p r)))
        → Linked t.node 0 t.root (plug k (fork u g (fork l p r)))
        → is_even (color_at t) (plug k (fork u g (fork l p r))) ≡ true
        → is_red_apart_around (color_at t) k ≡ true
        → is_black (color_at t g) ≡ true
        → (is_red_apart (color_at t) l ≡ true) × (is_red_apart (color_at t) r ≡ true)
        → is_red_apart (color_at t) u ≡ true
        → color_at t p ≡ red
        → ((t.node n).parent ≡ p) × (p ≢ 0) × (n ≢ 0)
        → ((w : Tree K V)
            → IsClimbing w k (fork u g (fork l p r))
            → color_at w g ≡ red
            → Repaired w (plug k (fork u g (fork l p r))) (insert_case1 fuel g w))
        → (is_black_at (color_at t) u ≡ true
            → Repaired t (plug k (fork u g (fork l p r))) (insert_case4 n t))
        → Repaired t (plug k (fork u g (fork l p r))) (insert_case1 (suc fuel) n t)
    parent_right un h e around bg rs ru pr (en, p0, n0) again turn =
        let s = fork u g (fork l p r) in
        let (up, at, above, here) = focus t.node t.root k s h in
        let family = right-IsFamily t g p n l r u up at (plug-IsApart k s un).0 here n0 en in
        elim (Bool-cases (is_black_at (color_at t) u)) [
          | inl b ↦
              subst (Repaired t (plug k s)) (sym (case1-case4 fuel n p g u t family pr b)) (turn b)
          | inr b ↦
              let (ul, y, ur, same, yr) = red_root (color_at t) u b in
              let w = recolored g y p t in
              let climbing : IsClimbing w k s =
                subst (λ v. IsClimbing w k (fork v g (fork l p r))) (sym same)
                  (recolored-right t k g p y l r ul ur
                    (subst (λ v. IsUnique (plug k (fork v g (fork l p r)))) same un)
                    (subst (λ v. Linked t.node 0 t.root (plug k (fork v g (fork l p r)))) same h)
                    (subst (λ v. is_even (color_at t) (plug k (fork v g (fork l p r))) ≡ true) same
                      e)
                    around bg rs (subst (λ v. is_red_apart (color_at t) v ≡ true) same ru) pr yr) in
              subst (Repaired t (plug k s))
                (sym (
                  case1-case3-again fuel n p g y ul ur t (subst (IsFamily t n p g) same family) pr
                    yr))
                (Repaired-after t w (plug k s) (plug k s) (insert_case1 fuel g w) refl
                  (recolored-SameKeys g y p t) (again w climbing (recolored-g g y p t)))
        ]

  -- A red parent has a parent itself, so the climb has a side to go by.
  module _ (fuel : ℕ)
      (again : (t : Tree K V) (k : Context) (n : ℕ) (a c : Shape)
        → IsClimbing t k (fork a n c)
        → color_at t n ≡ red
        → depth k < fuel
        → Repaired t (plug k (fork a n c)) (insert_case1 fuel n t)) where
    under_red_left :
        (t : Tree K V) (k : Context) (p n : ℕ) (a c r : Shape)
        → IsClimbing t (in_left k p r) (fork a n c)
        → color_at t n ≡ red
        → color_at t p ≡ red
        → ((t.node n).parent ≡ p) × (p ≢ 0) × (n ≢ 0)
        → depth k < fuel
        → Repaired t (plug (in_left k p r) (fork a n c)) (insert_case1 (suc fuel) n t)
    unfolding plug
    under_red_left t top p n a c r h nr pr at b = absurd (ground (arith, h.around, pr))
    under_red_left t (in_left k g u) p n a c r h nr pr at b =
        parent_left t k g p n (fork a n c) r u fuel h.unique h.links h.even
          (ground (arith, h.around)) (ground (arith, h.around, pr))
          (h.inside, ground (arith, h.around)) (ground (arith, h.around)) pr at
          (λ w f e. again w k g (fork (fork a n c) p r) u f e (omega arith))
          (λ d. case4_left_left t k g p n a r c u h.unique h.links pr d h.around h.inside h.even)
    under_red_left t (in_right k u g) p n a c r h nr pr at b =
        parent_right t k g p n (fork a n c) r u fuel h.unique h.links h.even
          (ground (arith, h.around)) (ground (arith, h.around, pr))
          (h.inside, ground (arith, h.around)) (ground (arith, h.around)) pr at
          (λ w f e. again w k g u (fork (fork a n c) p r) f e (omega arith))
          (λ d.
            case4_right_left t k g p n c r a u h.unique h.links pr nr d h.around h.inside h.even)

    under_red_right :
        (t : Tree K V) (k : Context) (p n : ℕ) (a c l : Shape)
        → IsClimbing t (in_right k l p) (fork a n c)
        → color_at t n ≡ red
        → color_at t p ≡ red
        → ((t.node n).parent ≡ p) × (p ≢ 0) × (n ≢ 0)
        → depth k < fuel
        → Repaired t (plug (in_right k l p) (fork a n c)) (insert_case1 (suc fuel) n t)
    unfolding plug
    under_red_right t top p n a c l h nr pr at b = absurd (ground (arith, h.around, pr))
    under_red_right t (in_left k g u) p n a c l h nr pr at b =
        parent_left t k g p n l (fork a n c) u fuel h.unique h.links h.even
          (ground (arith, h.around)) (ground (arith, h.around, pr))
          (ground (arith, h.around), h.inside) (ground (arith, h.around)) pr at
          (λ w f e. again w k g (fork l p (fork a n c)) u f e (omega arith))
          (λ d.
            case4_left_right t k g p n a l c u h.unique h.links pr nr d h.around h.inside h.even)
    under_red_right t (in_right k u g) p n a c l h nr pr at b =
        parent_right t k g p n l (fork a n c) u fuel h.unique h.links h.even
          (ground (arith, h.around)) (ground (arith, h.around, pr))
          (ground (arith, h.around), h.inside) (ground (arith, h.around)) pr at
          (λ w f e. again w k g u (fork l p (fork a n c)) f e (omega arith))
          (λ d. case4_right_right t k g p n a l c u h.unique h.links pr d h.around h.inside h.even)

  -- In a tree of distinct, linked addresses where no red node hangs under a red one but `n` perhaps, the root is
  -- black but where it is `n`, and all paths have as many black nodes: with more fuel than nodes above the red
  -- node `n`, `insert_case1` gives a red-black tree of the same nodes in the same order.
  pub insert_case1-Repaired :
      (fuel : ℕ) (t : Tree K V) (k : Context) (n : ℕ) (a c : Shape)
      → IsClimbing t k (fork a n c)
      → color_at t n ≡ red
      → depth k < fuel
      → Repaired t (plug k (fork a n c)) (insert_case1 fuel n t)
  unfolding plug
  insert_case1-Repaired zero t k n a c h nr b = absurd (omega arith)
  insert_case1-Repaired (suc fuel) t top n a c h nr b = at_root t n a c fuel h nr
  insert_case1-Repaired (suc fuel) t (in_left k p r) n a c h nr b =
      let (en, p0, n0) = hanging_left t k p n a c r h.links in
      elim (Color-cases (color_at t p)) [
        | inr e ↦ under_black t (in_left k p r) (fork a n c) n p fuel h en p0 e (ground (arith, e))
        | inl e ↦
            under_red_left fuel (insert_case1-Repaired fuel) t k p n a c r h nr e (en, p0, n0)
              (omega arith)
      ]
  insert_case1-Repaired (suc fuel) t (in_right k l p) n a c h nr b =
      let (en, p0, n0) = hanging_right t k p n a c l h.links in
      elim (Color-cases (color_at t p)) [
        | inr e ↦ under_black t (in_right k l p) (fork a n c) n p fuel h en p0 e (ground (arith, e))
        | inl e ↦
            under_red_right fuel (insert_case1-Repaired fuel) t k p n a c l h nr e (en, p0, n0)
              (omega arith)
      ]
