-- ===== src/Rbtree/Insert.antt =====
-- Insertion in the tree: `push_impl` and the cases that repair the colours.
use lockfree_stm.Common.{ℕ, zero, suc, Bool, not, ◌&&◌, ◌==◌, if◌then◌else◌}
use lockfree_stm.Rbtree.{
  red, black, is_red, Tree, Place, at_root, left_of, right_of, rb_node, set_node, set_parent,
  set_left, set_right, set_color, adopt, get_place, set_place, grandparent, uncle, rotate_left,
  rotate_right,
}

module _ {K V : Type 0} where
  unfoldable pub insert_case5 : ℕ → Tree K V → Tree K V
  insert_case5 n t =
      let g = grandparent n t in
      let t₁ = set_color (t.node n).parent black t in
      let t₂ = set_color g red t₁ in
      if n == (t₂.node (t₂.node n).parent).left then rotate_right g t₂ else rotate_left g t₂

  -- The rotation of `n` over its parent, on the left of `g`.
  unfoldable pub turn_left : ℕ → ℕ → Tree K V → Tree K V
  turn_left g n t =
      let saved_p = (t.node g).left in
      let saved_left_n = (t.node n).left in
      adopt saved_left_n saved_p (
        set_right saved_p saved_left_n
          (set_parent saved_p n (set_left n saved_p (set_parent n g (set_left g n t)))))

  unfoldable pub turn_right : ℕ → ℕ → Tree K V → Tree K V
  turn_right g n t =
      let saved_p = (t.node g).right in
      let saved_right_n = (t.node n).right in
      adopt saved_right_n saved_p (
        set_left saved_p saved_right_n
          (set_parent saved_p n (set_right n saved_p (set_parent n g (set_right g n t)))))

  unfoldable pub insert_case4 : ℕ → Tree K V → Tree K V
  insert_case4 n t =
      let g = grandparent n t in
      let p = (t.node n).parent in
      if (n == (t.node p).right) && (p == (t.node g).left)
      then insert_case5 (t.node g).left (turn_left g n t)
      else if (n == (t.node p).left) && (p == (t.node g).right)
      then insert_case5 (t.node g).right (turn_right g n t)
      else insert_case5 n t

  -- `again` is `insert_case1`.
  unfoldable pub insert_case3 : (ℕ → Tree K V → Tree K V) → ℕ → Tree K V → Tree K V
  insert_case3 again n t =
      let u = uncle n t in
      let t₁ = set_color u black (set_color (t.node n).parent black t) in
      let g = grandparent n t₁ in
      if not (u == 0) && is_red (t.node u).color
      then again g (set_color g red t₁)
      else insert_case4 n t

  unfoldable pub insert_case2 : (ℕ → Tree K V → Tree K V) → ℕ → Tree K V → Tree K V
  insert_case2 again n t =
      if is_red (t.node (t.node n).parent).color then insert_case3 again n t else t

  -- The calls from case 3 run on fuel.
  unfoldable pub insert_case1 : ℕ → ℕ → Tree K V → Tree K V
  insert_case1 zero n t = t
  insert_case1 (suc fuel) n t =
      if (t.node n).parent == 0 then set_color n black t else insert_case2 (insert_case1 fuel) n t

  -- The loop of `push_impl`, on fuel: the last node on the way and the empty place under it.
  unfoldable pub descend : (K → K → Bool) → ℕ → K → ℕ → Place → Tree K V → ℕ × Place
  descend compare zero key parent cur t = (parent, cur)
  descend compare (suc fuel) key parent cur t =
      let next = get_place cur t in
      let in_left = descend compare fuel key next (left_of next) t in
      let in_right = descend compare fuel key next (right_of next) t in
      if next == 0
      then (parent, cur)
      else if compare key (t.node next).key
      then in_left
      else in_right

  -- The reads that only enter variables in the read set are left out.
  unfoldable pub push_impl : (K → K → Bool) → ℕ → ℕ → Tree K V → Tree K V
  push_impl compare fuel new_node t =
      let (parent, cur) = descend compare fuel (t.node new_node).key 0 at_root t in
      insert_case1 fuel new_node (set_place cur new_node (set_parent new_node parent t))

  -- `emplace` with the address that the allocator returned.
  unfoldable pub emplace : (K → K → Bool) → ℕ → ℕ → K → V → Tree K V → Tree K V
  emplace compare fuel p k v t = push_impl compare fuel p (set_node p (rb_node k v) t)
