-- ===== src/Rbtree/Family.antt =====
-- The parent, the grandparent and the uncle of a node, and what `insert_case1` does by their colours.
use mathlib.Core.Path.{subst}
use lockfree_stm.Common.{
  ℕ, suc, ◌≡◌, ◌≢◌, inl, inr, refl, sym, ap, ◌∙◌, true, false, not, ◌&&◌, ◌==◌, arith, Bool-cases,
}
use lockfree_stm.Rbtree.{Tree, red, black, is_red, set_color, grandparent, uncle}
use lockfree_stm.Rbtree.Insert.{insert_case1, insert_case2, insert_case3, insert_case4}
use lockfree_stm.Rbtree.Lookup.{Shape, leaf, fork, member}
use lockfree_stm.Rbtree.Freed.{IsUnique}
use lockfree_stm.Rbtree.Rotate.{Linked}
use lockfree_stm.Rbtree.Balance.{is_black_at}
use lockfree_stm.Rbtree.Paint.{
  color_at, SameLinks, SameLinks-trans, SameKeys, SameKeys-trans, set_color-SameLinks,
  set_color-SameKeys, set_color_self, set_color_ne,
}
use lockfree_stm.Rbtree.Repair.{grandparent-above}
use lockfree_stm.Rbtree.Cases.{not_first}

module _ {K V : Type 0} where
  unfoldable pub IsFamily : Tree K V → ℕ → ℕ → ℕ → Shape → Type 0
  IsFamily t n p g u =
      ((t.node n).parent ≡ p) × (p ≢ 0) × (grandparent n t ≡ g) × Linked t.node g (uncle n t) u

  uncle-left :
      (t : Tree K V) (n g p : ℕ)
      → grandparent n t ≡ g
      → g ≢ 0
      → (t.node n).parent ≡ p
      → (t.node g).left ≡ p
      → uncle n t ≡ (t.node g).right
  unfolding uncle
  uncle-left t n g p a g0 b c =
      let some_g : (g == 0) ≡ false = ground arith in
      let same : (p == p) ≡ true = ground arith in rw (a, some_g, b, c, same) refl

  uncle-right :
      (t : Tree K V) (n g p : ℕ)
      → grandparent n t ≡ g
      → g ≢ 0
      → (t.node n).parent ≡ p
      → (p == (t.node g).left) ≡ false
      → uncle n t ≡ (t.node g).left
  unfolding uncle
  uncle-right t n g p a g0 b c =
      let some_g : (g == 0) ≡ false = ground arith in rw (a, some_g, b, c) refl

  module _ (t : Tree K V) (g p n : ℕ) (l r u : Shape) where
    pub left-IsFamily :
        (up at : ℕ)
        → Linked t.node up at (fork (fork l p r) g u)
        → n ≢ 0
        → (t.node n).parent ≡ p
        → IsFamily t n p g u
    unfolding Linked IsFamily
    left-IsFamily up at (e, g0, eg, (gl, p0, ep, hl, hr), hu) n0 en =
        let grand = grandparent-above t n g p n0 p0 en ep in
        (
          en,
          p0,
          grand,
          subst (λ b. Linked t.node g b u) (sym (uncle-left t n g p grand g0 en gl)) hu,
        )

    pub right-IsFamily :
        (up at : ℕ)
        → IsUnique (fork u g (fork l p r))
        → Linked t.node up at (fork u g (fork l p r))
        → n ≢ 0
        → (t.node n).parent ≡ p
        → IsFamily t n p g u
    unfolding Linked IsFamily IsUnique
    right-IsFamily up at (uu, up', gu, gp, fg) (e, g0, eg, hu, (gr, p0, ep, hl, hr)) n0 en =
        let grand = grandparent-above t n g p n0 p0 en ep in
        let p_out : member p u ≡ false = elim (Bool-cases (member p u)) [
          | inr i ↦ i
          | inl i ↦ absurd (ground (arith, fg p i))
        ] in
        let far = not_first t.node g (t.node g).left p u hu p0 p_out in
        (
          en,
          p0,
          grand,
          subst (λ b. Linked t.node g b u) (sym (uncle-right t n g p grand g0 en far)) hu,
        )

  red_first :
      (t : Tree K V) (p a : ℕ) (s : Shape)
      → Linked t.node p a s
      → (not (a == 0) && is_red (t.node a).color) ≡ not (is_black_at (color_at t) s)
  unfolding Linked
  red_first t p a leaf h = ground (arith, h)
  red_first t p a (fork l x r) (e, nz, up, hl, hr) =
      let some_x : (x == 0) ≡ false = ground arith in rw (e, some_x) (ground arith)

  -- The three colours of case 3.
  unfoldable pub recolored : ℕ → ℕ → ℕ → Tree K V → Tree K V
  recolored g y p t = set_color g red (set_color y black (set_color p black t))

  pub recolored-SameLinks : (g y p : ℕ) (t : Tree K V) → SameLinks t (recolored g y p t)
  unfolding recolored
  recolored-SameLinks g y p t =
      let w₁ = set_color p black t in
      let w₂ = set_color y black w₁ in
      SameLinks-trans t w₂ (set_color g red w₂)
        (SameLinks-trans t w₁ w₂ (set_color-SameLinks p black t) (set_color-SameLinks y black w₁))
        (set_color-SameLinks g red w₂)

  pub recolored-SameKeys : (g y p : ℕ) (t : Tree K V) → SameKeys t (recolored g y p t)
  unfolding recolored
  recolored-SameKeys g y p t =
      let w₁ = set_color p black t in
      let w₂ = set_color y black w₁ in
      SameKeys-trans t w₂ (set_color g red w₂)
        (SameKeys-trans t w₁ w₂ (set_color-SameKeys p black t) (set_color-SameKeys y black w₁))
        (set_color-SameKeys g red w₂)

  pub recolored-g : (g y p : ℕ) (t : Tree K V) → color_at (recolored g y p t) g ≡ red
  unfolding recolored
  recolored-g g y p t = set_color_self g red (set_color y black (set_color p black t))

  pub recolored-y : (g y p : ℕ) (t : Tree K V) → y ≢ g → color_at (recolored g y p t) y ≡ black
  unfolding recolored
  recolored-y g y p t d =
      set_color_ne g y red (set_color y black (set_color p black t)) d
      ∙ set_color_self y black (set_color p black t)

  pub recolored-p :
      (g y p : ℕ) (t : Tree K V) → p ≢ g → p ≢ y → color_at (recolored g y p t) p ≡ black
  unfolding recolored
  recolored-p g y p t d e =
      set_color_ne g p red (set_color y black (set_color p black t)) d
      ∙ set_color_ne y p black (set_color p black t) e
      ∙ set_color_self p black t

  pub recolored-other :
      (g y p : ℕ) (t : Tree K V) (z : ℕ)
      → z ≢ g
      → z ≢ y
      → z ≢ p
      → color_at (recolored g y p t) z ≡ color_at t z
  unfolding recolored
  recolored-other g y p t z a b d =
      set_color_ne g z red (set_color y black (set_color p black t)) a
      ∙ set_color_ne y z black (set_color p black t) b
      ∙ set_color_ne p z black t d

  pub case1-root :
      (fuel n : ℕ) (t : Tree K V)
      → (t.node n).parent ≡ 0
      → insert_case1 (suc fuel) n t ≡ set_color n black t
  unfolding insert_case1
  case1-root fuel n t e = rw e refl

  pub case1-black :
      (fuel n p : ℕ) (t : Tree K V)
      → (t.node n).parent ≡ p
      → p ≢ 0
      → color_at t p ≡ black
      → insert_case1 (suc fuel) n t ≡ t
  unfolding insert_case1 insert_case2
  case1-black fuel n p t e p0 b =
      let some_p : (p == 0) ≡ false = ground arith in rw (e, some_p, b) refl

  case1-case3 :
      (fuel n p : ℕ) (t : Tree K V)
      → (t.node n).parent ≡ p
      → p ≢ 0
      → color_at t p ≡ red
      → insert_case1 (suc fuel) n t ≡ insert_case3 (insert_case1 fuel) n t
  unfolding insert_case1 insert_case2
  case1-case3 fuel n p t e p0 b =
      let some_p : (p == 0) ≡ false = ground arith in rw (e, some_p, b) refl

  pub case1-case4 :
      (fuel n p g : ℕ) (u : Shape) (t : Tree K V)
      → IsFamily t n p g u
      → color_at t p ≡ red
      → is_black_at (color_at t) u ≡ true
      → insert_case1 (suc fuel) n t ≡ insert_case4 n t
  unfolding insert_case3 IsFamily
  case1-case4 fuel n p g u t (en, p0, grand, hu) pr bu =
      let no : (not (uncle n t == 0) && is_red (t.node (uncle n t)).color) ≡ false =
        red_first t g (uncle n t) u hu ∙ ap not bu in
      case1-case3 fuel n p t en p0 pr ∙ rw no refl

  grandparent-links : (n : ℕ) (t w : Tree K V) → SameLinks t w → grandparent n w ≡ grandparent n t
  unfolding grandparent SameLinks
  grandparent-links n t w h = rw (h.1 n, h.1 (t.node n).parent) refl

  uncle-fork : (t : Tree K V) (g a y : ℕ) (ul ur : Shape) → Linked t.node g a (fork ul y ur) → a ≡ y
  unfolding Linked
  uncle-fork t g a y ul ur h = h.0

  pub case1-case3-again :
      (fuel n p g y : ℕ) (ul ur : Shape) (t : Tree K V)
      → IsFamily t n p g (fork ul y ur)
      → color_at t p ≡ red
      → color_at t y ≡ red
      → insert_case1 (suc fuel) n t ≡ insert_case1 fuel g (recolored g y p t)
  unfolding insert_case3 IsFamily recolored
  case1-case3-again fuel n p g y ul ur t (en, p0, grand, hu) pr yr =
      let at_y = uncle-fork t g (uncle n t) y ul ur hu in
      let yes : (not (uncle n t == 0) && is_red (t.node (uncle n t)).color) ≡ true =
        red_first t g (uncle n t) (fork ul y ur) hu ∙ rw yr refl in
      let w₁ = set_color p black t in
      let links : SameLinks t (set_color y black w₁) =
        SameLinks-trans t w₁ (set_color y black w₁) (set_color-SameLinks p black t)
          (set_color-SameLinks y black w₁) in
      let grand' = grandparent-links n t (set_color y black w₁) links ∙ grand in
      case1-case3 fuel n p t en p0 pr ∙ rw (yes, at_y, en, grand') refl
