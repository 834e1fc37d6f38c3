-- ===== src/Rbtree/Climb.antt =====
-- How far insertion climbs: the calls of `insert_case1` from case 3.
use lockfree_stm.Common.{
  ℕ, zero, suc, ◌+◌, ◌<◌, ◌≡◌, ◌≢◌, inl, inr, refl, ◌∙◌, not, ◌&&◌, ◌==◌, arith, Bool-cases,
}
use lockfree_stm.Common.Update.{update}
use lockfree_stm.Rbtree.{Tree, Node, Color, red, black, is_red, set_color, uncle, grandparent}
use lockfree_stm.Rbtree.Insert.{insert_case1, insert_case2, insert_case3}

module _ {K V : Type 0} where
  -- The node has `d` nodes above it.
  unfoldable pub HasDepth : (ℕ → Node K V) → ℕ → ℕ → Type 0
  HasDepth m n zero = (m n).parent ≡ 0
  HasDepth m n (suc d) = ((m n).parent ≢ 0) × HasDepth m (m n).parent d

  HasDepth-parents :
      (m m' : ℕ → Node K V) (n d : ℕ)
      → ((k : ℕ) → (m' k).parent ≡ (m k).parent)
      → HasDepth m n d
      → HasDepth m' n d
  unfolding HasDepth
  HasDepth-parents m m' n zero f h = f n ∙ h
  HasDepth-parents m m' n (suc d) f (nz, h) =
      rw (f n) (nz, HasDepth-parents m m' (m n).parent d f h)

  parent-set_color :
      (n : ℕ) (c : Color) (t : Tree K V) (k : ℕ)
      → ((set_color n c t).node k).parent ≡ (t.node k).parent
  unfolding update
  parent-set_color n c t k = ground arith

  -- The tree after the three colours of case 3, and the node at which it goes on.
  recolored : ℕ → Tree K V → Tree K V
  recolored n t = set_color (uncle n t) black (set_color (t.node n).parent black t)

  grandparent-parents :
      (n : ℕ) (t t' : Tree K V)
      → ((k : ℕ) → (t'.node k).parent ≡ (t.node k).parent)
      → grandparent n t' ≡ grandparent n t
  unfolding grandparent
  grandparent-parents n t t' f = rw (f n, f (t.node n).parent) refl

  parents-recolored :
      (n : ℕ) (t : Tree K V) (k : ℕ) → ((recolored n t).node k).parent ≡ (t.node k).parent
  unfolding recolored
  parents-recolored n t k =
      parent-set_color (uncle n t) black (set_color (t.node n).parent black t) k
      ∙ parent-set_color (t.node n).parent black t k

  uncle-none : (n : ℕ) (t : Tree K V) → grandparent n t ≡ 0 → uncle n t ≡ 0
  unfolding uncle
  uncle-none n t e = rw e refl

  grandparent-zero : (n : ℕ) (t : Tree K V) → n ≡ 0 → grandparent n t ≡ 0
  unfolding grandparent
  grandparent-zero n t e = rw e refl

  grandparent-top : (n : ℕ) (t : Tree K V) → (t.node n).parent ≡ 0 → grandparent n t ≡ 0
  unfolding grandparent
  grandparent-top n t e = ground (arith, e)

  grandparent-below :
      (n : ℕ) (t : Tree K V)
      → n ≢ 0
      → (t.node n).parent ≢ 0
      → grandparent n t ≡ (t.node (t.node n).parent).parent
  unfolding grandparent
  grandparent-below n t e f = ground (arith, e, f)

  -- A node with an uncle has two nodes above it.
  grandparent-depth :
      (n d : ℕ) (t : Tree K V)
      → (uncle n t ≢ 0)
      → HasDepth t.node n d
      → (c : ℕ) × (d ≡ c + 2) × HasDepth t.node (grandparent n t) c
  unfolding HasDepth
  grandparent-depth n zero t u h = absurd (u (uncle-none n t (grandparent-top n t h)))
  grandparent-depth n (suc d) t u h = elim (Bool-cases (n == 0)) [
    | inl z ↦ absurd (u (uncle-none n t (grandparent-zero n t (ground arith))))
    | inr z ↦ above d h (grandparent-below n t (ground arith) h.0)
  ]
    where
      above :
          (d : ℕ)
          → HasDepth t.node n (suc d)
          → grandparent n t ≡ (t.node (t.node n).parent).parent
          → (c : ℕ) × (suc d ≡ c + 2) × HasDepth t.node (grandparent n t) c
      above zero (np, top) e = absurd (u (uncle-none n t (e ∙ top)))
      above (suc c) (np, h) e = (c, omega arith, rw e h.1)

  case3-again :
      (f g : ℕ → Tree K V → Tree K V) (n : ℕ) (t : Tree K V)
      → (uncle n t ≢ 0
          → f
              (grandparent n (recolored n t))
              (set_color (grandparent n (recolored n t)) red (recolored n t))
            ≡ g
                (grandparent n (recolored n t))
                (set_color (grandparent n (recolored n t)) red (recolored n t)))
      → insert_case3 f n t ≡ insert_case3 g n t
  unfolding insert_case3 recolored
  case3-again f g n t h =
      elim (Bool-cases (not (uncle n t == 0) && is_red (t.node (uncle n t)).color)) [
        | inl e ↦ rw e (h (ground arith))
        | inr e ↦ rw e refl
      ]

  case2-again :
      (f g : ℕ → Tree K V → Tree K V) (n : ℕ) (t : Tree K V)
      → insert_case3 f n t ≡ insert_case3 g n t
      → insert_case2 f n t ≡ insert_case2 g n t
  unfolding insert_case2
  case2-again f g n t h = rw h refl

  -- Insertion ends: `insert_case1` at a node with `d` nodes above it gives the same tree with any two
  -- amounts of fuel above `d`.
  pub insert_case1-fuel :
      (f g d n : ℕ) (t : Tree K V)
      → HasDepth t.node n d
      → d < f
      → d < g
      → insert_case1 f n t ≡ insert_case1 g n t
  unfolding insert_case1
  insert_case1-fuel zero g d n t h b c = absurd (omega arith)
  insert_case1-fuel (suc f) zero d n t h b c = absurd (omega arith)
  insert_case1-fuel (suc f) (suc g) d n t h b c = elim (Bool-cases ((t.node n).parent == 0)) [
    | inl e ↦ rw e refl
    | inr e ↦
        let on = λ (u : uncle n t ≢ 0).
          let (k, same, above) = grandparent-depth n d t u h in
          let w = recolored n t in
          let a = grandparent n w in
          insert_case1-fuel f g k a (set_color a red w)
            (rw (grandparent-parents n t w (parents-recolored n t)) (
              HasDepth-parents t.node (set_color (grandparent n t) red w).node (grandparent n t) k
                (λ j. parent-set_color (grandparent n t) red w j ∙ parents-recolored n t j) above))
            (omega arith) (omega arith) in
        rw e (
          case2-again (insert_case1 f) (insert_case1 g) n t
            (case3-again (insert_case1 f) (insert_case1 g) n t (λ u. on u)))
  ]
