-- ===== src/Rbtree/Emplace.antt =====
-- `emplace` on a red-black search tree in memory.
use mathlib.Core.Path.{subst}
use lockfree_stm.Common.{ℕ, ◌<◌, ◌≡◌, ◌≢◌, refl, sym, ap, ◌∙◌, Bool, true, false, arith}
use lockfree_stm.Common.Update.{update_self, update_ne}
use lockfree_stm.Rbtree.{
  Tree, Node, red, Place, at_root, left_of, right_of, set_place, set_parent, set_node, rb_node,
}
use lockfree_stm.Rbtree.Insert.{emplace, push_impl, descend, insert_case1}
use lockfree_stm.Rbtree.Lookup.{Shape, leaf, fork, height, member, IsWeakOrder, is_sorted}
use lockfree_stm.Rbtree.Freed.{IsUnique}
use lockfree_stm.Rbtree.Rotate.{Linked, Linked-frame}
use lockfree_stm.Rbtree.Focus.{Context, top, plug, surrounds, plug-IsApart}
use lockfree_stm.Rbtree.Order.{inorder}
use lockfree_stm.Rbtree.Distinct.{IsUnique-inorder}
use lockfree_stm.Rbtree.Balance.{
  is_even, is_red_apart, is_black_at, is_red_apart_around, is_red_apart_around-frame,
  plug-is_red_apart, plug-is_even,
}
use lockfree_stm.Rbtree.Paint.{
  color_at, SameLabels, SameLabels-color, SameLabels-SameKeys, SameKeys, SameKeys-trans,
  same_labels, left_labels, right_labels, parent_labels, root_labels,
}
use lockfree_stm.Rbtree.Recolor.{IsBalanced}
use lockfree_stm.Rbtree.Repair.{Repaired}
use lockfree_stm.Rbtree.Ascent.{depth, IsClimbing}
use lockfree_stm.Rbtree.Insertion.{insert_case1-Repaired}
use lockfree_stm.Rbtree.Attach.{
  attach, member-plug, depth-height, grow-IsUnique, IsPlace, IsFree, descend-IsFree,
}
use lockfree_stm.Rbtree.Keys.{is_sorted-frame, attach-frame}
use lockfree_stm.Rbtree.Link.{attached-Linked}
use lockfree_stm.Rbtree.Sorted.{is_sorted-inorder, attach-is_sorted}

module _ {K V : Type 0} where
  -- The nodes of the shape are a red-black search tree: distinct, linked to their children and parents,
  -- sorted, with a black root, no red node under a red one and as many black nodes on every path.
  pub record IsRbtree (compare : K → K → Bool) (t : Tree K V) (s : Shape) : Type 0 where
    pub unique : IsUnique s
    pub links : Linked t.node 0 t.root s
    pub sorted : is_sorted compare t.node s ≡ true
    pub balanced : IsBalanced (color_at t) s

  place_labels :
      (t w : Tree K V) (cur : Place) (p : ℕ) → SameLabels t w → SameLabels t (set_place cur p w)
  place_labels t w at_root p a = root_labels t w p a
  place_labels t w (left_of n) p a = left_labels t w n p a
  place_labels t w (right_of n) p a = right_labels t w n p a

  module _ (compare : K → K → Bool) where
    -- The new node linked in, before the colours are repaired.
    module _ (t : Tree K V) (s : Shape) (p : ℕ) (u : K) (v : V) (h : IsRbtree compare t s)
        (p0 : p ≢ 0) (out : member p s ≡ false) where
      planted : Tree K V
      planted = set_node p (rb_node u v) t

      planted-p : planted.node p ≡ rb_node u v
      unfolding planted
      planted-p = update_self t.node p (rb_node u v)

      planted-other : (z : ℕ) → z ≢ p → planted.node z ≡ t.node z
      unfolding planted
      planted-other z d = update_ne t.node p z (rb_node u v) (λ e. d (sym e))

      planted-member : (z : ℕ) → member z s ≡ true → planted.node z ≡ t.node z
      planted-member z i = planted-other z (ground (arith, i, out))

      planted-Linked : Linked planted.node 0 planted.root s
      unfolding planted
      planted-Linked = Linked-frame t.node planted.node 0 t.root s planted-member h.links

      linked_in-IsClimbing :
          (k : Context) (parent : ℕ) (cur : Place)
          → plug k leaf ≡ s
          → IsPlace k parent cur
          → IsClimbing (set_place cur p (set_parent p parent planted)) k (fork leaf p leaf)
            × SameLabels planted (set_place cur p (set_parent p parent planted))
      unfolding IsUnique IsBalanced
      linked_in-IsClimbing k parent cur e place =
          let w = set_place cur p (set_parent p parent planted) in
          let c = color_at t in
          let (even, apart, rooted) = h.balanced in
          let labels =
            place_labels planted (set_parent p parent planted) cur p
              (parent_labels planted planted p parent (same_labels planted)) in
          let away : surrounds k p ≡ false =
            let there = member-plug k leaf p in ground (arith, there, ap (member p) e, out) in
          let red_p : color_at w p ≡ red =
            SameLabels-color planted w labels p ∙ ap (λ (d : Node K V). d.color) planted-p in
          let kept : (z : ℕ) → surrounds k z ≡ true → color_at w z ≡ c z = λ z i.
            SameLabels-color planted w labels z
            ∙ ap (λ (d : Node K V). d.color) (planted-other z (ground (arith, i, away))) in
          let unique : IsUnique (plug k leaf) = subst IsUnique (sym e) h.unique in
          let whole = plug-is_red_apart c k leaf in
          let around : is_red_apart_around c k ≡ true =
            ground (arith, whole, ap (is_red_apart c) e, ap (is_black_at c) e, apart, rooted) in
          (
            record {
              unique =
                  grow-IsUnique k leaf (fork leaf p leaf) p (λ z. ground arith)
                    (tt, tt, refl, refl, λ z i. refl) (ap (member p) e ∙ out) unique;
              links =
                  attached-Linked planted p p0 (ap (λ (d : Node K V). d.left) planted-p)
                    (ap (λ (d : Node K V). d.right) planted-p) k parent cur place
                    (subst (Linked planted.node 0 planted.root) (sym e) planted-Linked) away
                    (plug-IsApart k leaf unique).2;
              around = is_red_apart_around-frame c (color_at w) k kept ∙ around;
              inside = ground (arith, red_p);
              even =
                  plug-is_even c (color_at w) k leaf (fork leaf p leaf) kept (rw red_p refl)
                    (λ i. refl) (ap (is_even c) e ∙ even);
            },
            labels,
          )

      emplaced-IsRbtree :
          IsWeakOrder compare
          → (k : Context) (parent : ℕ) (cur : Place) (fuel : ℕ) → plug k leaf ≡ s
          → plug k (fork leaf p leaf) ≡ attach compare (λ z. (planted.node z).key) u p s
          → IsPlace k parent cur
          → height s < fuel
          → let w = insert_case1 fuel p (set_place cur p (set_parent p parent planted)) in
            (s' : Shape) × IsRbtree compare w s'
            × (inorder s' ≡ inorder (attach compare (λ z. (planted.node z).key) u p s))
            × SameKeys planted w
      unfolding Repaired SameKeys
      emplaced-IsRbtree order k parent cur fuel e e' place b =
          let w = set_place cur p (set_parent p parent planted) in
          let (climbing, labels) = linked_in-IsClimbing k parent cur e place in
          let red_p : color_at w p ≡ red =
            SameLabels-color planted w labels p ∙ ap (λ (d : Node K V). d.color) planted-p in
          let low : depth k < fuel =
            let above = depth-height k leaf in ground (arith, above, ap height e) in
          let (s', links, same, balanced, keys) =
            insert_case1-Repaired fuel w k p leaf leaf climbing red_p low in
          let all =
            SameKeys-trans planted w (insert_case1 fuel p w) (SameLabels-SameKeys planted w labels)
              keys in
          let grown = attach compare (λ z. (planted.node z).key) u p s in
          let sorted : is_sorted compare planted.node grown ≡ true =
            attach-is_sorted compare planted.node u p (ap (λ (d : Node K V). d.key) planted-p) order
              s
              (is_sorted-frame compare t.node planted.node s
                  (λ z i. ap (λ (d : Node K V). d.key) (planted-member z i))
                ∙ h.sorted) in
          (
            s',
            record {
              unique = IsUnique-inorder (plug k (fork leaf p leaf)) s' same climbing.unique;
              links = links;
              sorted =
                  is_sorted-inorder compare (insert_case1 fuel p w).node order grown s'
                    (same ∙ ap inorder e')
                    (is_sorted-frame compare planted.node (insert_case1 fuel p w).node grown
                        (λ z i. all.0 z)
                      ∙ sorted);
              balanced = balanced;
            },
            same ∙ ap inorder e',
            all,
          )

    -- The second tree is a red-black search tree of the nodes of the first and `p`, in the order that
    -- insertion in a search tree without colours gives. The key and the value of `p` are the given ones,
    -- all other nodes have theirs.
    unfoldable pub Emplaced : Tree K V → Shape → ℕ → K → V → Tree K V → Type 0
    Emplaced t s p k v w =
        (s' : Shape) × IsRbtree compare w s'
        × (inorder s' ≡ inorder (attach compare (λ z. (t.node z).key) k p s))
        × ((w.node p).key ≡ k)
        × ((w.node p).value ≡ v)
        × ((z : ℕ)
            → z ≢ p
            → ((w.node z).key ≡ (t.node z).key) × ((w.node z).value ≡ (t.node z).value))

    -- For a strict weak order on the keys, a red-black search tree, an address `p` that is not null and not
    -- in the tree, and more fuel than the tree is high: `emplace` gives a red-black search tree. Its nodes
    -- are in the order that insertion in a search tree without colours gives, the new node has the key
    -- and the value of the call, and all others keep theirs.
    pub emplace-IsRbtree :
        IsWeakOrder compare
        → (fuel : ℕ) (t : Tree K V) (s : Shape) (p : ℕ) (k : K) (v : V) → IsRbtree compare t s
        → p ≢ 0
        → member p s ≡ false
        → height s < fuel
        → Emplaced t s p k v (emplace compare fuel p k v t)
    unfolding Emplaced emplace push_impl IsFree IsPlace SameKeys plug planted
    emplace-IsRbtree order fuel t s p k v h p0 out b =
        let w = planted t s p k v h p0 out in
        let at_p = planted-p t s p k v h p0 out in
        let other = planted-other t s p k v h p0 out in
        let same =
          attach-frame compare t.node w.node k p s
            (λ z i. ap (λ (d : Node K V). d.key) (planted-member t s p k v h p0 out z i)) in
        let (parent, cur) = descend compare fuel k 0 at_root w in
        let (place, here, there, is_place) =
          descend-IsFree compare w k p fuel top s 0 at_root (planted-Linked t s p k v h p0 out)
            (refl, refl) b in
        let (s', tree, inside, (keys, values)) =
          emplaced-IsRbtree t s p k v h p0 out order place parent cur fuel here there is_place b in
        let final = insert_case1 fuel p (set_place cur p (set_parent p parent w)) in
        let start : push_impl compare fuel p w ≡ final =
          ap
            (λ (u : K).
              let (q, c) = descend compare fuel u 0 at_root w in
              insert_case1 fuel p (set_place c p (set_parent p q w)))
            (ap (λ (d : Node K V). d.key) at_p) in
        subst (Emplaced t s p k v) (sym start) (
          s',
          tree,
          inside ∙ ap inorder same,
          keys p ∙ ap (λ (d : Node K V). d.key) at_p,
          values p ∙ ap (λ (d : Node K V). d.value) at_p,
          λ z d. (
            keys z ∙ ap (λ (d : Node K V). d.key) (other z d),
            values z ∙ ap (λ (d : Node K V). d.value) (other z d),
          ),
        )
