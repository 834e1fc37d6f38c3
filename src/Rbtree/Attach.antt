-- ===== src/Rbtree/Attach.antt =====
-- The place that `push_impl` finds for a new node: the insertion in a search tree, on shapes.
use lockfree_stm.Common.{
  ℕ, zero, suc, ◌+◌, ◌≤◌, ◌<◌, ◌≡◌, ◌≢◌, inl, inr, refl, sym, ap, ◌∙◌, Bool, true, false, ◌||◌,
  ◌==◌, arith, if◌then◌else◌, Bool-cases,
}
use lockfree_stm.Rbtree.{Tree, Place, at_root, left_of, right_of, get_place}
use lockfree_stm.Rbtree.Insert.{descend}
use lockfree_stm.Rbtree.Lookup.{Shape, leaf, fork, height, member}
use lockfree_stm.Rbtree.Freed.{IsUnique}
use lockfree_stm.Rbtree.Rotate.{Linked}
use lockfree_stm.Rbtree.Focus.{
  Context, top, in_left, in_right, plug, surrounds, plug-IsApart, Around, focus,
}
use lockfree_stm.Rbtree.Ascent.{depth}

-- The reference: before the first node on the way whose key comes after `u`, else behind.
abbrev pub attach : {K : Type 0} → (K → K → Bool) → (ℕ → K) → K → ℕ → Shape → Shape
attach compare key u p leaf = fork leaf p leaf
attach compare key u p (fork l x r) =
    if compare u (key x)
    then fork (attach compare key u p l) x r
    else fork l x (attach compare key u p r)

pub member-plug :
    (k : Context) (s : Shape) (z : ℕ) → member z (plug k s) ≡ (member z s || surrounds k z)
unfolding plug
member-plug top s z = ground arith
member-plug (in_left k x r) s z = member-plug k (fork s x r) z ∙ ground arith
member-plug (in_right k l x) s z = member-plug k (fork l x s) z ∙ ground arith

pub depth-height : (k : Context) (s : Shape) → depth k + height s ≤ height (plug k s)
unfolding plug
depth-height top s = omega arith
depth-height (in_left k x r) s = let above = depth-height k (fork s x r) in ground (arith, above)
depth-height (in_right k l x) s = let above = depth-height k (fork l x s) in ground (arith, above)

-- A tree with one more address, where there was part of it.
pub grow-IsUnique :
    (k : Context) (s s' : Shape) (p : ℕ)
    → ((z : ℕ) → member z s' ≡ (member z s || (z == p)))
    → IsUnique s'
    → member p (plug k s) ≡ false
    → IsUnique (plug k s)
    → IsUnique (plug k s')
unfolding plug IsUnique
grow-IsUnique top s s' p more u out h = u
grow-IsUnique (in_left k x r) s s' p more u out h =
    let ((us, ur, xs, xr, far), out_s, apart) = plug-IsApart k (fork s x r) h in
    let there = member-plug k (fork s x r) p in
    let new : member x s' ≡ false = ground (arith, more x, xs, there, out) in
    let away : (z : ℕ) → member z s' ≡ true → member z r ≡ false = λ z i.
      elim (Bool-cases (member z s)) [
        | inl j ↦ far z j
        | inr j ↦
            let same : z ≡ p = ground (arith, more z, i, j) in
            ap (λ y. member y r) same ∙ ground (arith, there, out)
      ] in
    grow-IsUnique k (fork s x r) (fork s' x r) p (λ z. ground (arith, more z))
      (u, ur, new, xr, away) out h
grow-IsUnique (in_right k l x) s s' p more u out h =
    let ((ul, us, xl, xs, far), out_s, apart) = plug-IsApart k (fork l x s) h in
    let there = member-plug k (fork l x s) p in
    let new : member x s' ≡ false = ground (arith, more x, xs, there, out) in
    let away : (z : ℕ) → member z l ≡ true → member z s' ≡ false = λ z i.
      elim (Bool-cases (z == p)) [
        | inl j ↦
            let same : z ≡ p = ground arith in
            let inside : member p l ≡ true = ap (λ y. member y l) (sym same) ∙ i in
            absurd (ground (arith, there, out, inside))
        | inr j ↦ more z ∙ ground (arith, far z i, j)
      ] in
    grow-IsUnique k (fork l x s) (fork l x s') p (λ z. ground (arith, more z))
      (ul, u, xl, new, away) out h

-- The variable that holds the tree in the hole, and the node it belongs to.
unfoldable pub IsPlace : Context → ℕ → Place → Type 0
IsPlace top parent cur = (parent ≡ 0) × (cur ≡ at_root)
IsPlace (in_left k x r) parent cur = (parent ≡ x) × (cur ≡ left_of x)
IsPlace (in_right k l x) parent cur = (parent ≡ x) × (cur ≡ right_of x)

-- The empty place that was found, with what it is for a new node `n`.
unfoldable pub IsFree : Shape → Shape → ℕ → ℕ × Place → Type 0
IsFree s s' n (parent, cur) =
    (k : Context) × (plug k leaf ≡ s) × (plug k (fork leaf n leaf) ≡ s') × IsPlace k parent cur

module _ {K V : Type 0} where
  pub place-Around :
      (t : Tree K V) (k : Context) (parent : ℕ) (cur : Place) (p a : ℕ)
      → IsPlace k parent cur
      → Around t.node t.root k p a
      → get_place cur t ≡ a
  unfolding IsPlace Around
  place-Around t top parent cur p a (e, f) h = rw f h.1
  place-Around t (in_left k x r) parent cur p a (e, f) h = rw f h.2
  place-Around t (in_right k l x) parent cur p a (e, f) h = rw f h.2

  module _ (compare : K → K → Bool) (t : Tree K V) (u : K) (n : ℕ) where
    -- The loop of `push_impl` finds the place where the reference puts the new node.
    pub descend-IsFree :
        (fuel : ℕ) (k : Context) (s : Shape) (parent : ℕ) (cur : Place)
        → Linked t.node 0 t.root (plug k s)
        → IsPlace k parent cur
        → height s < fuel
        → IsFree
            (plug k s)
            (plug k (attach compare (λ z. (t.node z).key) u n s))
            n
            (descend compare fuel u parent cur t)
    unfolding descend IsFree Linked IsPlace plug
    descend-IsFree zero k s parent cur h place b = absurd (omega arith)
    descend-IsFree (suc fuel) k leaf parent cur h place b =
        let (p, a, above, here) = focus t.node t.root k leaf h in
        let none : get_place cur t ≡ 0 = place-Around t k parent cur p a place above ∙ here in
        rw none (k, refl, refl, place)
    descend-IsFree (suc fuel) k (fork l x r) parent cur h place b =
        let (p, a, above, here) = focus t.node t.root k (fork l x r) h in
        let next : get_place cur t ≡ x = place-Around t k parent cur p a place above ∙ here.0 in
        let x0 : x ≢ 0 = here.1 in
        let some_x : (x == 0) ≡ false = ground (arith, x0) in
        elim (Bool-cases (compare u (t.node x).key)) [
          | inl lt ↦
              rw (next, some_x, lt)
                (descend-IsFree fuel (in_left k x r) l x (left_of x) h (refl, refl) (ground arith))
          | inr ge ↦
              rw (next, some_x, ge)
                (descend-IsFree fuel (in_right k l x) r x (right_of x) h (refl, refl)
                  (ground arith))
        ]
