-- ===== src/Rbtree/Keys.antt =====
-- What depends on the keys of a tree's own nodes alone.
use lockfree_stm.Common.{ℕ, ◌≡◌, refl, Bool, true, arith}
use lockfree_stm.Rbtree.{Node}
use lockfree_stm.Rbtree.Lookup.{Shape, leaf, fork, member, none_after, none_before, is_sorted}
use lockfree_stm.Rbtree.Attach.{attach}

module _ {K V : Type 0} (compare : K → K → Bool) (m m' : ℕ → Node K V) where
  none_after-frame :
      (k : K) (s : Shape)
      → ((z : ℕ) → member z s ≡ true → (m' z).key ≡ (m z).key)
      → none_after compare m' k s ≡ none_after compare m k s
  none_after-frame k leaf f = refl
  none_after-frame k (fork l x r) f =
      rw
        (
          f x (ground arith),
          none_after-frame k l (λ z i. f z (ground (arith, i))),
          none_after-frame k r (λ z i. f z (ground (arith, i))),
        )
        refl

  none_before-frame :
      (k : K) (s : Shape)
      → ((z : ℕ) → member z s ≡ true → (m' z).key ≡ (m z).key)
      → none_before compare m' k s ≡ none_before compare m k s
  none_before-frame k leaf f = refl
  none_before-frame k (fork l x r) f =
      rw
        (
          f x (ground arith),
          none_before-frame k l (λ z i. f z (ground (arith, i))),
          none_before-frame k r (λ z i. f z (ground (arith, i))),
        )
        refl

  pub is_sorted-frame :
      (s : Shape)
      → ((z : ℕ) → member z s ≡ true → (m' z).key ≡ (m z).key)
      → is_sorted compare m' s ≡ is_sorted compare m s
  is_sorted-frame leaf f = refl
  is_sorted-frame (fork l x r) f =
      let fl : (z : ℕ) → member z l ≡ true → (m' z).key ≡ (m z).key =
        λ z i. f z (ground (arith, i)) in
      let fr : (z : ℕ) → member z r ≡ true → (m' z).key ≡ (m z).key =
        λ z i. f z (ground (arith, i)) in
      rw
        (
          f x (ground arith),
          is_sorted-frame l fl,
          is_sorted-frame r fr,
          none_after-frame (m x).key l fl,
          none_before-frame (m x).key r fr,
        )
        refl

  pub attach-frame :
      (u : K) (p : ℕ) (s : Shape)
      → ((z : ℕ) → member z s ≡ true → (m' z).key ≡ (m z).key)
      → attach compare (λ z. (m' z).key) u p s ≡ attach compare (λ z. (m z).key) u p s
  attach-frame u p leaf f = refl
  attach-frame u p (fork l x r) f =
      rw
        (
          f x (ground arith),
          attach-frame u p l (λ z i. f z (ground (arith, i))),
          attach-frame u p r (λ z i. f z (ground (arith, i))),
        )
        refl
