-- ===== src/Rbtree/Link.antt =====
-- A new node linked in at the place that `descend` found, in memory.
use mathlib.Core.Path.{subst}
use lockfree_stm.Common.{ℕ, ◌≡◌, ◌≢◌, refl, sym, ap, false, arith}
use lockfree_stm.Common.Update.{update, update_self}
use lockfree_stm.Rbtree.{Tree, Node, Place, set_place, set_parent, set_left, set_right, set_root}
use lockfree_stm.Rbtree.Lookup.{Shape, leaf, fork}
use lockfree_stm.Rbtree.Rotate.{Linked, Linked-frame}
use lockfree_stm.Rbtree.Focus.{
  Context, top, in_left, in_right, plug, surrounds, IsApart, Around, Around-frame, focus, unfocus,
}
use lockfree_stm.Rbtree.Attach.{IsPlace}

module _ {K V : Type 0} where
  module _ (t : Tree K V) (x n : ℕ) where
    left_at-n : x ≢ n → (set_left x n (set_parent n x t)).node n ≡ record (t.node n) { parent = x }
    unfolding update
    left_at-n d = ground arith

    left_at-x : x ≢ n → (set_left x n (set_parent n x t)).node x ≡ record (t.node x) { left = n }
    unfolding update
    left_at-x d = ground arith

    left_at-other : (z : ℕ) → z ≢ x → z ≢ n → (set_left x n (set_parent n x t)).node z ≡ t.node z
    unfolding update
    left_at-other z d e = ground arith

    right_at-n :
        x ≢ n → (set_right x n (set_parent n x t)).node n ≡ record (t.node n) { parent = x }
    unfolding update
    right_at-n d = ground arith

    right_at-x : x ≢ n → (set_right x n (set_parent n x t)).node x ≡ record (t.node x) { right = n }
    unfolding update
    right_at-x d = ground arith

    right_at-other : (z : ℕ) → z ≢ x → z ≢ n → (set_right x n (set_parent n x t)).node z ≡ t.node z
    unfolding update
    right_at-other z d e = ground arith

  -- A node without children.
  Linked-single :
      (m : ℕ → Node K V) (d : Node K V) (p n : ℕ)
      → m n ≡ record d { parent = p }
      → n ≢ 0
      → d.left ≡ 0
      → d.right ≡ 0
      → Linked m p n (fork leaf n leaf)
  unfolding Linked
  Linked-single m d p n e n0 l r = rw e (refl, n0, refl, l, r)

  module _ (t : Tree K V) (n : ℕ) (n0 : n ≢ 0) (nl : (t.node n).left ≡ 0)
      (nr : (t.node n).right ≡ 0) where
    at_top : Linked (set_root n (set_parent n 0 t)).node 0 n (fork leaf n leaf)
    at_top =
        Linked-single (set_parent n 0 t).node (t.node n) 0 n
          (update_self t.node n (record (t.node n) { parent = 0 })) n0 nl nr

    at_left :
        (k : Context) (x : ℕ) (r : Shape)
        → Linked t.node 0 t.root (plug (in_left k x r) leaf)
        → surrounds (in_left k x r) n ≡ false
        → IsApart (in_left k x r)
        → let w = set_left x n (set_parent n x t) in
          Linked w.node 0 w.root (plug (in_left k x r) (fork leaf n leaf))
    unfolding Around IsApart
    at_left k x r h out (xr, far, away, apart) =
        let w = set_left x n (set_parent n x t) in
        let m = t.node in
        let (p, a, (e, x0, f, hr, around), here) = focus m t.root (in_left k x r) leaf h in
        let x_n : x ≢ n = ground (arith, out) in
        let same = left_at-x t x n x_n in
        unfocus w.node w.root (in_left k x r) (fork leaf n leaf) x n
          (
            refl,
            x0,
            ap (λ (d : Node K V). d.left) same,
            subst (λ b. Linked w.node x b r) (sym (ap (λ (d : Node K V). d.right) same))
                (Linked-frame m w.node x (m x).right r
                  (λ z i. left_at-other t x n z (ground (arith, xr, i)) (ground (arith, out, i)))
                  hr),
            subst (λ b. Around w.node w.root k b x) (sym (ap (λ (d : Node K V). d.parent) same))
                (Around-frame m w.node t.root w.root k (m x).parent x refl
                  (λ z i. left_at-other t x n z (ground (arith, far, i)) (ground (arith, out, i)))
                  around),
          )
          (Linked-single w.node (m n) x n (left_at-n t x n x_n) n0 nl nr)

    at_right :
        (k : Context) (l : Shape) (x : ℕ)
        → Linked t.node 0 t.root (plug (in_right k l x) leaf)
        → surrounds (in_right k l x) n ≡ false
        → IsApart (in_right k l x)
        → let w = set_right x n (set_parent n x t) in
          Linked w.node 0 w.root (plug (in_right k l x) (fork leaf n leaf))
    unfolding Around IsApart
    at_right k l x h out (xl, far, away, apart) =
        let w = set_right x n (set_parent n x t) in
        let m = t.node in
        let (p, a, (e, x0, f, hl, around), here) = focus m t.root (in_right k l x) leaf h in
        let x_n : x ≢ n = ground (arith, out) in
        let same = right_at-x t x n x_n in
        unfocus w.node w.root (in_right k l x) (fork leaf n leaf) x n
          (
            refl,
            x0,
            ap (λ (d : Node K V). d.right) same,
            subst (λ b. Linked w.node x b l) (sym (ap (λ (d : Node K V). d.left) same))
                (Linked-frame m w.node x (m x).left l
                  (λ z i. right_at-other t x n z (ground (arith, xl, i)) (ground (arith, out, i)))
                  hl),
            subst (λ b. Around w.node w.root k b x) (sym (ap (λ (d : Node K V). d.parent) same))
                (Around-frame m w.node t.root w.root k (m x).parent x refl
                  (λ z i. right_at-other t x n z (ground (arith, far, i)) (ground (arith, out, i)))
                  around),
          )
          (Linked-single w.node (m n) x n (right_at-n t x n x_n) n0 nl nr)

    -- The tree with the new node linked in at a free place.
    pub attached-Linked :
        (k : Context) (parent : ℕ) (cur : Place)
        → IsPlace k parent cur
        → Linked t.node 0 t.root (plug k leaf)
        → surrounds k n ≡ false
        → IsApart k
        → let w = set_place cur n (set_parent n parent t) in
          Linked w.node 0 w.root (plug k (fork leaf n leaf))
    unfolding IsPlace plug
    attached-Linked top parent cur (e, f) h out apart = rw (f, e) at_top
    attached-Linked (in_left k x r) parent cur (e, f) h out apart =
        rw (f, e) (at_left k x r h out apart)
    attached-Linked (in_right k l x) parent cur (e, f) h out apart =
        rw (f, e) (at_right k l x h out apart)
