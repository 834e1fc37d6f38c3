-- ===== src/Rbtree/Order.antt =====
-- A rotation in a whole tree keeps the nodes in order.
use mathlib.Core.Path.{subst}
use mathlib.Core.List.{append_assoc}
use lockfree_stm.Common.{
  ℕ, ◌≡◌, ◌⊎◌, inl, inr, refl, sym, ap, true, false, not, ◌&&◌, List, [], ◌∷◌, ◌++◌, ◌==◌, arith,
  Bool-cases,
}
use lockfree_stm.Rbtree.{Tree, Node, rotate_left}
use lockfree_stm.Rbtree.Lookup.{Shape, leaf, fork, member}
use lockfree_stm.Rbtree.Freed.{IsUnique}
use lockfree_stm.Rbtree.Rotate.{Linked, turned, turned-Linked, first-member, member-nonzero}
use lockfree_stm.Rbtree.Above.{Around-nonzero}
use lockfree_stm.Rbtree.Above.{Around-turned}
use lockfree_stm.Rbtree.Focus.{
  Context, top, in_left, in_right, plug, surrounds, plug-IsApart, Around, focus, unfocus,
}

abbrev pub inorder : Shape → List ℕ
inorder leaf = []
inorder (fork l x r) = inorder l ++ (x ∷ inorder r)

pub plug-inorder :
    (k : Context) (s s' : Shape) → inorder s ≡ inorder s' → inorder (plug k s) ≡ inorder (plug k s')
unfolding plug
plug-inorder top s s' e = e
plug-inorder (in_left k x r) s s' e =
    plug-inorder k (fork s x r) (fork s' x r) (ap (λ ys. ys ++ (x ∷ inorder r)) e)
plug-inorder (in_right k l x) s s' e =
    plug-inorder k (fork l x s) (fork l x s') (ap (λ ys. inorder l ++ (x ∷ ys)) e)

module _ {K V : Type 0} where
  parent-outside :
      (m : ℕ → Node K V) (root : ℕ) (k : Context) (p a : ℕ)
      → Around m root k p a
      → (p ≡ 0) ⊎ (surrounds k p ≡ true)
  unfolding Around
  parent-outside m root top p a h = inl h.0
  parent-outside m root (in_left k x r) p a h = inr (ground (arith, h.0))
  parent-outside m root (in_right k l x) p a h = inr (ground (arith, h.0))

  outside :
      (m : ℕ → Node K V) (root : ℕ) (k : Context) (p a : ℕ) (s : Shape)
      → Around m root k p a
      → Linked m p a s
      → ((z : ℕ) → member z s ≡ true → surrounds k z ≡ false)
      → member p s ≡ false
  outside m root k p a s around h out = elim (Bool-cases (member p s)) [
    | inr i ↦ i
    | inl i ↦ elim (parent-outside m root k p a around) [
      | inl z ↦ absurd (member-nonzero m p a p s h i z)
      | inr j ↦ absurd (ground (arith, out p i))
    ]
  ]

  rotate_left-turned :
      (t : Tree K V) (n q p : ℕ)
      → (t.node n).right ≡ q
      → (t.node n).parent ≡ p
      → rotate_left n t ≡ turned n q p (t.node q).left (not (p == 0) && ((t.node p).left == n)) t
  unfolding rotate_left turned
  rotate_left-turned t n q p e f = rw (e, f) refl

  -- For a tree of distinct addresses that is linked in memory, children and parents, from the root on: where a node `n` has a
  -- right child `q`, `rotate_left` turns the two and links the same tree around them, with all nodes
  -- in the same order.
  pub rotate_left-Linked :
      (t : Tree K V) (k : Context) (n q : ℕ) (a b c : Shape)
      → IsUnique (plug k (fork a n (fork b q c)))
      → Linked t.node 0 t.root (plug k (fork a n (fork b q c)))
      → Linked (rotate_left n t).node 0 (rotate_left n t).root (plug k (fork (fork a n b) q c))
        × (inorder (plug k (fork (fork a n b) q c)) ≡ inorder (plug k (fork a n (fork b q c))))
  unfolding Linked
  rotate_left-Linked t k n q a b c u h =
      let s = fork a n (fork b q c) in
      let (us, out, apart) = plug-IsApart k s u in
      let (p, at, around, here) = focus t.node t.root k s h in
      let (e, nz, up, ha, (er, qz, uq, hb, hc)) = here in
      let pl = (t.node q).left in
      let left = not (p == 0) && ((t.node p).left == n) in
      let no_pl : surrounds k pl ≡ false = elim (Bool-cases (surrounds k pl)) [
        | inr i ↦ i
        | inl i ↦
            let pl0 = Around-nonzero t.node t.root k p at pl around i in
            let in_b = first-member t.node q pl b hb pl0 in
            absurd (ground (arith, out pl (ground (arith, in_b)), i))
      ] in
      let around_n : Around t.node t.root k p n =
        subst (λ y. Around t.node t.root k p y) e around in
      let here_n : Linked t.node p n s = (refl, nz, up, ha, (er, qz, uq, hb, hc)) in
      let w = turned n q p pl left t in
      let done =
        unfocus w.node w.root k (fork (fork a n b) q c) p q
          (Around-turned t n q pl p left k nz (out n (ground arith)) (out q (ground arith)) no_pl
            apart refl around_n)
          (turned-Linked t n q p a b c left us (outside t.node t.root k p at s around here out)
            here_n) in
      (
        subst (λ (v : Tree K V). Linked v.node 0 v.root (plug k (fork (fork a n b) q c)))
            (sym (rotate_left-turned t n q p er up)) done,
        plug-inorder k (fork (fork a n b) q c) s
            (append_assoc (inorder a) (n ∷ inorder b) (q ∷ inorder c)),
      )
