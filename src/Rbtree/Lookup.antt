-- ===== src/Rbtree/Lookup.antt =====
-- The loops that walk down the tree, against the shape of the nodes in memory.
use lockfree_stm.Common.{
  ℕ, zero, suc, ◌+◌, ◌≤◌, ◌<◌, max, ◌≡◌, ◌≢◌, ◌⊎◌, inl, inr, refl, sym, Bool, true, false, not,
  ◌&&◌, ◌||◌, ◌==◌, arith, Bool-cases,
}
use lockfree_stm.Rbtree.{Tree, Node, find, find_from, min_node}

-- The addresses of a tree, in order.
pub data Shape : Type 0 where
  leaf : Shape
  fork : Shape → ℕ → Shape → Shape

abbrev pub height : Shape → ℕ
height leaf = 0
height (fork l x r) = max (height l) (height r) + 1

abbrev pub member : ℕ → Shape → Bool
member a leaf = false
member a (fork l x r) = member a l || ((a == x) || member a r)

module _ {K V : Type 0} where
  -- The nodes at and under the address `a` have this shape.
  unfoldable pub Holds : (ℕ → Node K V) → ℕ → Shape → Type 0
  Holds m a leaf = a ≡ 0
  Holds m a (fork l x r) = (a ≡ x) × (a ≢ 0) × Holds m (m x).left l × Holds m (m x).right r

-- What `Compare` must be: a strict weak order.
pub record IsWeakOrder {K : Type 0} (compare : K → K → Bool) : Type 0 where
  pub irreflexive : (a : K) → compare a a ≡ false
  pub asymmetric : (a b : K) → compare a b ≡ true → compare b a ≡ false
  pub splits : (a b c : K) → compare a b ≡ true → (compare a c ≡ true) ⊎ (compare c b ≡ true)

module _ {K V : Type 0} (compare : K → K → Bool) (m : ℕ → Node K V) where
  abbrev pub equal : K → K → Bool
  equal a b = not (compare a b) && not (compare b a)

  -- No key on the left comes after the node, and none on the right before it.
  abbrev pub none_after : K → Shape → Bool
  none_after k leaf = true
  none_after k (fork l x r) = none_after k l && (not (compare k (m x).key) && none_after k r)

  abbrev pub none_before : K → Shape → Bool
  none_before k leaf = true
  none_before k (fork l x r) = none_before k l && (not (compare (m x).key k) && none_before k r)

  abbrev pub is_sorted : Shape → Bool
  is_sorted leaf = true
  is_sorted (fork l x r) =
      (is_sorted l && is_sorted r) && (none_after (m x).key l && none_before (m x).key r)

  abbrev pub has_key : K → Shape → Bool
  has_key u leaf = false
  has_key u (fork l x r) = has_key u l || (equal u (m x).key || has_key u r)

  module _ (order : IsWeakOrder compare) (u k : K) where
    before_none : (s : Shape) → compare u k ≡ true → none_before k s ≡ true → has_key u s ≡ false
    before_none leaf h n = refl
    before_none (fork l x r) h n =
        let left = before_none l h (ground arith) in
        let right = before_none r h (ground arith) in
        elim (order.splits u k (m x).key h) [ inl e ↦ ground arith | inr e ↦ absurd (ground arith) ]

    after_none : (s : Shape) → compare k u ≡ true → none_after k s ≡ true → has_key u s ≡ false
    after_none leaf h n = refl
    after_none (fork l x r) h n =
        let left = after_none l h (ground arith) in
        let right = after_none r h (ground arith) in
        elim (order.splits k u (m x).key h) [ inl e ↦ absurd (ground arith) | inr e ↦ ground arith ]

module _ {K V : Type 0} (compare : K → K → Bool) (order : IsWeakOrder compare) (u : K) where
  -- The node has the key `u` up to the order and stands in the shape, or there is none.
  unfoldable pub Found : (ℕ → Node K V) → Shape → ℕ → Type 0
  Found m s a =
      ((a ≡ 0) × (has_key compare m u s ≡ false))
      ⊎ ((a ≢ 0) × (member a s ≡ true) × (equal compare m u (m a).key ≡ true))

  Found-wide :
      (m : ℕ → Node K V) (s s' : Shape) (a : ℕ)
      → Found m s a
      → (has_key compare m u s ≡ false → has_key compare m u s' ≡ false)
      → (member a s ≡ true → member a s' ≡ true)
      → Found m s' a
  unfolding Found
  Found-wide m s s' a (inl (z, none)) f g = inl (z, f none)
  Found-wide m s s' a (inr (nz, mem, eq)) f g = inr (nz, g mem, eq)

  Found-leaf : (m : ℕ → Node K V) → Found m leaf 0
  unfolding Found
  Found-leaf m = inl (refl, refl)

  Found-here :
      (m : ℕ → Node K V) (s : Shape) (a : ℕ)
      → a ≢ 0
      → member a s ≡ true
      → equal compare m u (m a).key ≡ true
      → Found m s a
  unfolding Found
  Found-here m s a n mem eq = inr (n, mem, eq)

  find_from-Found :
      (t : Tree K V) (fuel a : ℕ) (s : Shape)
      → Holds t.node a s
      → is_sorted compare t.node s ≡ true
      → height s < fuel
      → Found t.node s (find_from compare fuel u a t)
  unfolding find_from Holds
  find_from-Found t zero a s h o b = absurd (omega arith)
  find_from-Found t (suc fuel) a leaf h o b = rw h (Found-leaf t.node)
  find_from-Found t (suc fuel) a (fork l x r) (e, n, hl, hr) o b =
      let nz : x ≢ 0 = rw (sym e) n in
      let here : (x == 0) ≡ false = ground (arith, nz) in
      let self : (x == x) ≡ true = ground arith in
      let m = t.node in
      let k = (m x).key in
      let sl : is_sorted compare m l ≡ true = ground arith in
      let sr : is_sorted compare m r ≡ true = ground arith in
      let al : none_after compare m k l ≡ true = ground arith in
      let br : none_before compare m k r ≡ true = ground arith in
      rw e (elim (Bool-cases (compare u k)) [
        | inl lt ↦
            let others = before_none compare m order u k r lt br in
            rw (here, lt)
              (Found-wide m l (fork l x r) (find_from compare fuel u (m x).left t)
                (find_from-Found t fuel (m x).left l hl sl (omega arith)) (λ f. ground arith)
                (λ f. ground arith))
        | inr ge ↦ elim (Bool-cases (compare k u)) [
          | inl gt ↦
              let others = after_none compare m order u k l gt al in
              rw (here, ge, gt)
                (Found-wide m r (fork l x r) (find_from compare fuel u (m x).right t)
                  (find_from-Found t fuel (m x).right r hr sr (omega arith)) (λ f. ground arith)
                  (λ f. ground arith))
          | inr le ↦
              rw (here, ge, le) (Found-here m (fork l x r) x nz (ground arith) (ground arith))
        ]
      ])

  -- In a tree of sorted keys under a strict weak order, with more fuel than the tree is high: `find` gives a node of the tree
  -- whose key is equivalent to `u`, or null where no key of the tree is.
  pub find-Found :
      (t : Tree K V) (fuel : ℕ) (s : Shape)
      → Holds t.node t.root s
      → is_sorted compare t.node s ≡ true
      → height s < fuel
      → Found t.node s (find compare fuel u t)
  unfolding find
  find-Found t fuel s h o b = find_from-Found t fuel t.root s h o b

-- The first address of a tree in order, and `d` for no tree.
unfoldable pub leftmost : ℕ → Shape → ℕ
leftmost d leaf = d
leftmost d (fork l x r) = leftmost x l

module _ {K V : Type 0} where
  -- With fuel for its height, `min_node` of a tree is its first node in order.
  pub min_node-leftmost :
      (t : Tree K V) (fuel a : ℕ) (l : Shape) (x : ℕ) (r : Shape)
      → Holds t.node a (fork l x r)
      → height l ≤ fuel
      → min_node fuel a t ≡ leftmost 0 (fork l x r)
  unfolding Holds min_node leftmost
  min_node-leftmost t zero a leaf x r (e, n, hl, hr) b = e
  min_node-leftmost t (suc fuel) a leaf x r (e, n, hl, hr) b =
      let none : ((t.node x).left == 0) ≡ true = ground (arith, hl) in rw (e, none) refl
  min_node-leftmost t zero a (fork ll y lr) x r h b = absurd (omega arith)
  min_node-leftmost t (suc fuel) a (fork ll y lr) x r (e, n, hl, hr) b =
      let some_left : ((t.node x).left == 0) ≡ false = ground (arith, hl.1) in
      rw (e, some_left) (min_node-leftmost t fuel (t.node x).left ll y lr hl (omega arith))
