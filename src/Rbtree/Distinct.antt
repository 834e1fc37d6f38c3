-- ===== src/Rbtree/Distinct.antt =====
-- A tree of distinct addresses, by its list of addresses in order.
use lockfree_stm.Common.{ℕ, ◌≡◌, inl, inr, refl, ap, ◌∙◌, sym, true, false, ◌∷◌, arith, Bool-cases}
use lockfree_stm.Common.Distinct.{
  contains, is_distinct, contains-append, distinct-append, append-distinct,
}
use lockfree_stm.Rbtree.Lookup.{Shape, leaf, fork, member}
use lockfree_stm.Rbtree.Freed.{IsUnique}
use lockfree_stm.Rbtree.Order.{inorder}

pub contains-inorder : (z : ℕ) (s : Shape) → contains z (inorder s) ≡ member z s
contains-inorder z leaf = refl
contains-inorder z (fork l x r) =
    contains-append z (inorder l) (x ∷ inorder r)
    ∙ ground (arith, contains-inorder z l, contains-inorder z r)

inorder-distinct : (s : Shape) → IsUnique s → is_distinct (inorder s) ≡ true
unfolding IsUnique
inorder-distinct leaf u = refl
inorder-distinct (fork l x r) (ul, ur, xl, xr, far) =
    let dl = inorder-distinct l ul in
    let dr = inorder-distinct r ur in
    let out : contains x (inorder r) ≡ false = contains-inorder x r ∙ xr in
    append-distinct (inorder l) (x ∷ inorder r) dl (ground (arith, dr, out)) (λ z i.
      let il : member z l ≡ true = sym (contains-inorder z l) ∙ i in
      let ir : contains z (inorder r) ≡ false = contains-inorder z r ∙ far z il in
      ground (arith, il, ir, xl))

distinct-inorder : (s : Shape) → is_distinct (inorder s) ≡ true → IsUnique s
unfolding IsUnique
distinct-inorder leaf d = tt
distinct-inorder (fork l x r) d =
    let (dl, dr, far) = distinct-append (inorder l) (x ∷ inorder r) d in
    (
      distinct-inorder l dl,
      distinct-inorder r (ground (arith, dr)),
      elim (Bool-cases (member x l)) [
        | inr i ↦ i
        | inl i ↦ absurd (ground (arith, far x (contains-inorder x l ∙ i)))
      ],
      sym (contains-inorder x r) ∙ ground (arith, dr),
      λ z i. sym (contains-inorder z r) ∙ ground (arith, far z (contains-inorder z l ∙ i)),
    )

-- What is in order the same way has the same nodes, each once.
pub IsUnique-inorder : (s s' : Shape) → inorder s' ≡ inorder s → IsUnique s → IsUnique s'
IsUnique-inorder s s' e u = distinct-inorder s' (ap is_distinct e ∙ inorder-distinct s u)

pub member-inorder : (s s' : Shape) (z : ℕ) → inorder s' ≡ inorder s → member z s' ≡ member z s
member-inorder s s' z e = sym (contains-inorder z s') ∙ ap (contains z) e ∙ contains-inorder z s
