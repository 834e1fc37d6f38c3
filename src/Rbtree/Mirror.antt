-- ===== src/Rbtree/Mirror.antt =====
-- The two sides of a tree exchanged: what holds of `rotate_left` holds of `rotate_right`.
use mathlib.Core.Path.{subst}
use mathlib.Core.List.{append_assoc}
use lockfree_stm.Common.{
  ℕ, ◌≡◌, ◌≢◌, ◌⊎◌, inl, inr, refl, sym, ap, ◌∙◌, fun_ext, Bool, true, false, not, ◌&&◌, ◌∷◌, ◌==◌,
  arith, Bool-cases,
}
use lockfree_stm.Common.Update.{update}
use lockfree_stm.Rbtree.{
  Tree, Node, set_left, set_right, set_parent, adopt, relink, rotate_left, rotate_right,
}
use lockfree_stm.Rbtree.Lookup.{Shape, leaf, fork, member}
use lockfree_stm.Rbtree.Freed.{IsUnique}
use lockfree_stm.Rbtree.Rotate.{Linked, first-member}
use lockfree_stm.Rbtree.Focus.{
  Context, top, in_left, in_right, plug, surrounds, plug-IsApart, Around, focus,
}
use lockfree_stm.Rbtree.Order.{inorder, plug-inorder, rotate_left-Linked}

unfoldable pub flip : Shape → Shape
flip leaf = leaf
flip (fork l x r) = fork (flip r) x (flip l)

unfoldable pub flip_context : Context → Context
flip_context top = top
flip_context (in_left k x r) = in_right (flip_context k) (flip r) x
flip_context (in_right k l x) = in_left (flip_context k) x (flip l)

pub plug-flip : (k : Context) (s : Shape) → flip (plug k s) ≡ plug (flip_context k) (flip s)
unfolding plug flip flip_context
plug-flip top s = refl
plug-flip (in_left k x r) s = plug-flip k (fork s x r)
plug-flip (in_right k l x) s = plug-flip k (fork l x s)

flip-flip : (s : Shape) → flip (flip s) ≡ s
unfolding flip
flip-flip leaf = refl
flip-flip (fork l x r) = rw (flip-flip l, flip-flip r) refl

member-flip : (z : ℕ) (s : Shape) → member z (flip s) ≡ member z s
unfolding flip
member-flip z leaf = refl
member-flip z (fork l x r) = rw (member-flip z l, member-flip z r) (ground arith)

pub IsUnique-flip : (s : Shape) → IsUnique s → IsUnique (flip s)
unfolding flip IsUnique
IsUnique-flip leaf u = tt
IsUnique-flip (fork l x r) (ul, ur, xl, xr, far) = (
  IsUnique-flip r ur,
  IsUnique-flip l ul,
  member-flip x r ∙ xr,
  member-flip x l ∙ xl,
  λ z i. member-flip z l ∙ (elim (Bool-cases (member z l)) [
    | inl j ↦ absurd (ground (arith, far z j, member-flip z r, i))
    | inr j ↦ j
  ]),
)

module _ {K V : Type 0} where
  unfoldable pub flip_node : Node K V → Node K V
  flip_node d = record d { left = d.right; right = d.left }

  unfoldable pub mirror : Tree K V → Tree K V
  mirror t = record t { node = λ x. flip_node (t.node x) }

  pub Linked-mirror :
      (m : ℕ → Node K V) (p a : ℕ) (s : Shape)
      → Linked m p a s
      → Linked (λ x. flip_node (m x)) p a (flip s)
  unfolding Linked flip flip_node
  Linked-mirror m p a leaf h = h
  Linked-mirror m p a (fork l x r) (e, nz, up, hl, hr) =
      (e, nz, up, Linked-mirror m x (m x).right r hr, Linked-mirror m x (m x).left l hl)

  -- Mirrored twice, a tree is what it was.
  pub mirror-Linked :
      (w : Tree K V) (s : Shape)
      → Linked w.node 0 w.root (flip s)
      → Linked (mirror w).node 0 w.root s
  unfolding mirror
  mirror-Linked w s h =
      subst (Linked (mirror w).node 0 w.root) (flip-flip s)
        (Linked-mirror w.node 0 w.root (flip s) h)

  flip-update :
      (m : ℕ → Node K V) (n : ℕ) (d : Node K V)
      → (λ x. flip_node (update m n d x)) ≡ update (λ x. flip_node (m x)) n (flip_node d)
  unfolding update
  flip-update m n d =
      fun_ext λ x. elim (Bool-cases (n == x)) [ inl e ↦ rw e refl | inr e ↦ rw e refl ]

  pub mirror-set_left :
      (n p : ℕ) (t : Tree K V) → mirror (set_left n p t) ≡ set_right n p (mirror t)
  unfolding mirror flip_node
  mirror-set_left n p t =
      ap (λ m. record t { node = m }) (flip-update t.node n (record (t.node n) { left = p }))

  pub mirror-set_right :
      (n p : ℕ) (t : Tree K V) → mirror (set_right n p t) ≡ set_left n p (mirror t)
  unfolding mirror flip_node
  mirror-set_right n p t =
      ap (λ m. record t { node = m }) (flip-update t.node n (record (t.node n) { right = p }))

  pub mirror-set_parent :
      (n p : ℕ) (t : Tree K V) → mirror (set_parent n p t) ≡ set_parent n p (mirror t)
  unfolding mirror flip_node
  mirror-set_parent n p t =
      ap (λ m. record t { node = m }) (flip-update t.node n (record (t.node n) { parent = p }))

  pub mirror-adopt : (n p : ℕ) (t : Tree K V) → mirror (adopt n p t) ≡ adopt n p (mirror t)
  mirror-adopt n p t = elim (Bool-cases (n == 0)) [
    | inl e ↦ rw e refl
    | inr e ↦ rw e (mirror-set_parent n p t)
  ]

  mirror-relink :
      (p : ℕ) (left : Bool) (q : ℕ) (t : Tree K V)
      → mirror (relink p left q t) ≡ relink p (not left) q (mirror t)
  unfolding mirror
  mirror-relink p left q t = elim (Bool-cases (p == 0)) [
    | inl e ↦ rw e refl
    | inr e ↦ rw e (elim (Bool-cases left) [
      | inl f ↦ rw f (mirror-set_left p q t)
      | inr f ↦ rw f (mirror-set_right p q t)
    ])
  ]

  relink-side :
      (p : ℕ) (left left' : Bool) (q : ℕ) (t : Tree K V)
      → (p ≡ 0) ⊎ (left ≡ left')
      → relink p left q t ≡ relink p left' q t
  relink-side p left left' q t (inl e) = rw e refl
  relink-side p left left' q t (inr e) = rw e refl

  -- A node hangs on one side of its parent.
  rotate_right-mirror :
      (t : Tree K V) (n : ℕ)
      → ((t.node n).parent ≡ 0)
        ⊎ ((not ((t.node n).parent == 0) && ((t.node (t.node n).parent).left == n))
            ≡ not (not ((t.node n).parent == 0) && ((t.node (t.node n).parent).right == n)))
      → rotate_right n t ≡ mirror (rotate_left n (mirror t))
  unfolding rotate_right rotate_left mirror flip_node
  rotate_right-mirror t n h =
      let q = (t.node n).left in
      let pl = (t.node q).right in
      let p = (t.node n).parent in
      let left = not (p == 0) && ((t.node p).left == n) in
      let right = not (p == 0) && ((t.node p).right == n) in
      let w₁ = set_right n pl (mirror t) in
      let w₂ = adopt pl n w₁ in
      let w₃ = set_left q n w₂ in
      let w₄ = set_parent n q w₃ in
      let w₅ = set_parent q p w₄ in
      let e₁ : mirror w₁ ≡ set_left n pl t = mirror-set_right n pl (mirror t) in
      let e₂ : mirror w₂ ≡ adopt pl n (set_left n pl t) =
        mirror-adopt pl n w₁ ∙ ap (adopt pl n) e₁ in
      let e₃ : mirror w₃ ≡ set_right q n (adopt pl n (set_left n pl t)) =
        mirror-set_left q n w₂ ∙ ap (set_right q n) e₂ in
      let e₄ = mirror-set_parent n q w₃ ∙ ap (set_parent n q) e₃ in
      let e₅ = mirror-set_parent q p w₄ ∙ ap (set_parent q p) e₄ in
      relink-side p left (not right) q
        (set_parent q p (set_parent n q (set_right q n (adopt pl n (set_left n pl t))))) h
      ∙ sym (mirror-relink p right q w₅ ∙ ap (relink p (not right) q) e₅)

  Linked-root :
      (m : ℕ → Node K V) (p a : ℕ) (l : Shape) (x : ℕ) (r : Shape)
      → Linked m p a (fork l x r)
      → (a ≡ x) × (x ≢ 0) × ((m x).parent ≡ p)
  unfolding Linked
  Linked-root m p a l x r h = (h.0, h.1, h.2)

  one_side :
      (m : ℕ → Node K V) (root : ℕ) (k : Context) (p n : ℕ)
      → Around m root k p n
      → n ≢ 0
      → surrounds k n ≡ false
      → (p ≡ 0) ⊎ ((not (p == 0) && ((m p).left == n)) ≡ not (not (p == 0) && ((m p).right == n)))
  unfolding Around
  one_side m root top p n h nz out = inl h.0
  one_side m root (in_left k x r) p n (e, xz, f, hr, around) nz out =
      let other : (m x).right ≢ n = λ d.
        let inside : member n r ≡ true =
          ap (λ y. member y r) (sym d) ∙ first-member m x (m x).right r hr (λ z. nz (sym d ∙ z)) in
        absurd (ground (arith, out, inside)) in
      inr (rw e (ground (arith, f, other, xz)))
  one_side m root (in_right k l x) p n (e, xz, f, hl, around) nz out =
      let other : (m x).left ≢ n = λ d.
        let inside : member n l ≡ true =
          ap (λ y. member y l) (sym d) ∙ first-member m x (m x).left l hl (λ z. nz (sym d ∙ z)) in
        absurd (ground (arith, out, inside)) in
      inr (rw e (ground (arith, f, other, xz)))

  -- For a tree of distinct addresses that is linked in memory, children and parents, from the root on:
  -- where a node `n` has a left child `q`, `rotate_right` turns the two and links the same tree around
  -- them, with all nodes in the same order.
  pub rotate_right-Linked :
      (t : Tree K V) (k : Context) (n q : ℕ) (a b c : Shape)
      → IsUnique (plug k (fork (fork a q b) n c))
      → Linked t.node 0 t.root (plug k (fork (fork a q b) n c))
      → Linked (rotate_right n t).node 0 (rotate_right n t).root (plug k (fork a q (fork b n c)))
        × (inorder (plug k (fork a q (fork b n c))) ≡ inorder (plug k (fork (fork a q b) n c)))
  unfolding flip mirror
  rotate_right-Linked t k n q a b c u h =
      let s = fork (fork a q b) n c in
      let s' = fork a q (fork b n c) in
      let (us, out, apart) = plug-IsApart k s u in
      let (p, at, around, here) = focus t.node t.root k s h in
      let (e, nz, up) = Linked-root t.node p at (fork a q b) n c here in
      let around_n : Around t.node t.root k p n =
        subst (λ y. Around t.node t.root k p y) e around in
      let side = one_side t.node t.root k p n around_n nz (out n (ground arith)) in
      let w = rotate_left n (mirror t) in
      let turned =
        (rotate_left-Linked (mirror t) (flip_context k) n q (flip c) (flip b) (flip a)
          (subst IsUnique (plug-flip k s) (IsUnique-flip (plug k s) u))
          (subst (Linked (mirror t).node 0 t.root) (plug-flip k s)
            (Linked-mirror t.node 0 t.root (plug k s) h))).0 in
      let back : Linked (mirror w).node 0 w.root (plug k s') =
        mirror-Linked w (plug k s')
          (subst (Linked w.node 0 w.root) (sym (plug-flip k s')) turned) in
      (
        subst (λ (v : Tree K V). Linked v.node 0 v.root (plug k s'))
            (sym (rotate_right-mirror t n (rw up side))) back,
        plug-inorder k s' s (sym (append_assoc (inorder a) (q ∷ inorder b) (n ∷ inorder c))),
      )
