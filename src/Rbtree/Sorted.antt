-- ===== src/Rbtree/Sorted.antt =====
-- Sorted trees by their nodes in order: the shape does not matter.
use lockfree_stm.Common.{
  ℕ, ◌≡◌, inl, inr, refl, sym, ap, ◌∙◌, Bool, true, false, not, ◌&&◌, ◌||◌, List, [], ◌∷◌, ◌++◌,
  ◌==◌, arith, Bool-cases,
}
use lockfree_stm.Rbtree.{Node}
use lockfree_stm.Rbtree.Lookup.{
  Shape, leaf, fork, member, IsWeakOrder, none_after, none_before, is_sorted,
}
use lockfree_stm.Rbtree.Order.{inorder}
use lockfree_stm.Rbtree.Attach.{attach}

module _ {K V : Type 0} (compare : K → K → Bool) (m : ℕ → Node K V) where
  none_above : K → List ℕ → Bool
  none_above k [] = true
  none_above k (x ∷ xs) = not (compare k (m x).key) && none_above k xs

  none_below : K → List ℕ → Bool
  none_below k [] = true
  none_below k (x ∷ xs) = not (compare (m x).key k) && none_below k xs

  -- Every later key comes after, or is equivalent.
  is_ordered : List ℕ → Bool
  is_ordered [] = true
  is_ordered (x ∷ xs) = none_below (m x).key xs && is_ordered xs

  none_above-append :
      (k : K) (xs ys : List ℕ) → none_above k (xs ++ ys) ≡ (none_above k xs && none_above k ys)
  unfolding none_above
  none_above-append k [] ys = refl
  none_above-append k (x ∷ xs) ys = ground (arith, none_above-append k xs ys)

  none_below-append :
      (k : K) (xs ys : List ℕ) → none_below k (xs ++ ys) ≡ (none_below k xs && none_below k ys)
  unfolding none_below
  none_below-append k [] ys = refl
  none_below-append k (x ∷ xs) ys = ground (arith, none_below-append k xs ys)

  none_after-inorder : (k : K) (s : Shape) → none_above k (inorder s) ≡ none_after compare m k s
  unfolding none_above
  none_after-inorder k leaf = refl
  none_after-inorder k (fork l x r) =
      none_above-append k (inorder l) (x ∷ inorder r)
      ∙ ground (arith, none_after-inorder k l, none_after-inorder k r)

  none_before-inorder : (k : K) (s : Shape) → none_below k (inorder s) ≡ none_before compare m k s
  unfolding none_below
  none_before-inorder k leaf = refl
  none_before-inorder k (fork l x r) =
      none_below-append k (inorder l) (x ∷ inorder r)
      ∙ ground (arith, none_before-inorder k l, none_before-inorder k r)

  ordered-parts :
      (xs : List ℕ) (x : ℕ) (ys : List ℕ)
      → is_ordered (xs ++ (x ∷ ys)) ≡ true
      → (is_ordered xs ≡ true)
        × (is_ordered ys ≡ true)
        × (none_above (m x).key xs ≡ true)
        × (none_below (m x).key ys ≡ true)
  unfolding is_ordered none_above none_below
  ordered-parts [] x ys h = (refl, ground arith, refl, ground arith)
  ordered-parts (y ∷ xs) x ys h =
      let (a, b, c, d) = ordered-parts xs x ys (ground arith) in
      let here = none_below-append (m y).key xs (x ∷ ys) in
      (ground (arith, a, here), b, ground (arith, c, here), d)

  module _ (order : IsWeakOrder compare) where
    -- What comes after a key comes after all that the key comes after.
    none_below_trans :
        (a b : K) (ys : List ℕ)
        → compare b a ≡ false
        → none_below b ys ≡ true
        → none_below a ys ≡ true
    unfolding none_below
    none_below_trans a b [] h n = refl
    none_below_trans a b (y ∷ ys) h n =
        let rest = none_below_trans a b ys h (ground arith) in
        elim (Bool-cases (compare (m y).key a)) [
          | inr e ↦ ground (arith, e, rest)
          | inl e ↦ elim (order.splits (m y).key a b e) [
            | inl f ↦ absurd (ground (arith, f, n))
            | inr f ↦ absurd (ground (arith, f, h))
          ]
        ]

    parts-ordered :
        (xs : List ℕ) (x : ℕ) (ys : List ℕ)
        → is_ordered xs ≡ true
        → is_ordered ys ≡ true
        → none_above (m x).key xs ≡ true
        → none_below (m x).key ys ≡ true
        → is_ordered (xs ++ (x ∷ ys)) ≡ true
    unfolding is_ordered none_above none_below
    parts-ordered [] x ys a b c d = ground (arith, b, d)
    parts-ordered (y ∷ xs) x ys a b c d =
        let rest = parts-ordered xs x ys (ground arith) b (ground arith) d in
        let below = none_below_trans (m y).key (m x).key ys (ground arith) d in
        ground (arith, rest, below, none_below-append (m y).key xs (x ∷ ys))

    sorted-ordered : (s : Shape) → is_sorted compare m s ≡ true → is_ordered (inorder s) ≡ true
    unfolding is_ordered
    sorted-ordered leaf h = refl
    sorted-ordered (fork l x r) h =
        parts-ordered (inorder l) x (inorder r) (sorted-ordered l (ground arith))
          (sorted-ordered r (ground arith)) (none_after-inorder (m x).key l ∙ ground arith)
          (none_before-inorder (m x).key r ∙ ground arith)

    ordered-sorted : (s : Shape) → is_ordered (inorder s) ≡ true → is_sorted compare m s ≡ true
    ordered-sorted leaf h = refl
    ordered-sorted (fork l x r) h =
        let (a, b, c, d) = ordered-parts (inorder l) x (inorder r) h in
        let above = sym (none_after-inorder (m x).key l) ∙ c in
        let below = sym (none_before-inorder (m x).key r) ∙ d in
        ground (arith, ordered-sorted l a, ordered-sorted r b, above, below)

    -- Trees with the same nodes in order are sorted together.
    pub is_sorted-inorder :
        (s s' : Shape)
        → inorder s' ≡ inorder s
        → is_sorted compare m s ≡ true
        → is_sorted compare m s' ≡ true
    is_sorted-inorder s s' e h = ordered-sorted s' (ap is_ordered e ∙ sorted-ordered s h)

  module _ (u : K) (p : ℕ) (kp : (m p).key ≡ u) where
    none_after-attach :
        (k : K) (s : Shape)
        → none_after compare m k (attach compare (λ z. (m z).key) u p s)
          ≡ (none_after compare m k s && not (compare k u))
    none_after-attach k leaf = ground (arith, kp)
    none_after-attach k (fork l x r) = elim (Bool-cases (compare u (m x).key)) [
      | inl e ↦ rw e (ground (arith, none_after-attach k l))
      | inr e ↦ rw e (ground (arith, none_after-attach k r))
    ]

    none_before-attach :
        (k : K) (s : Shape)
        → none_before compare m k (attach compare (λ z. (m z).key) u p s)
          ≡ (none_before compare m k s && not (compare u k))
    none_before-attach k leaf = ground (arith, kp)
    none_before-attach k (fork l x r) = elim (Bool-cases (compare u (m x).key)) [
      | inl e ↦ rw e (ground (arith, none_before-attach k l))
      | inr e ↦ rw e (ground (arith, none_before-attach k r))
    ]

    -- The new node keeps the tree sorted.
    pub attach-is_sorted :
        IsWeakOrder compare
        → (s : Shape) → is_sorted compare m s ≡ true
        → is_sorted compare m (attach compare (λ z. (m z).key) u p s) ≡ true
    attach-is_sorted order leaf h = refl
    attach-is_sorted order (fork l x r) h = elim (Bool-cases (compare u (m x).key)) [
      | inl e ↦
          let rest = attach-is_sorted order l (ground arith) in
          let other = order.asymmetric u (m x).key e in
          rw e (ground (arith, rest, other, none_after-attach (m x).key l))
      | inr e ↦
          let rest = attach-is_sorted order r (ground arith) in
          rw e (ground (arith, rest, none_before-attach (m x).key r))
    ]

pub member-attach :
    {K : Type 0} (compare : K → K → Bool) (key : ℕ → K) (u : K) (p : ℕ) (s : Shape) (z : ℕ)
    → member z (attach compare key u p s) ≡ (member z s || (z == p))
member-attach compare key u p leaf z = ground arith
member-attach compare key u p (fork l x r) z = elim (Bool-cases (compare u (key x))) [
  | inl e ↦ rw e (ground (arith, member-attach compare key u p l z))
  | inr e ↦ rw e (ground (arith, member-attach compare key u p r z))
]
