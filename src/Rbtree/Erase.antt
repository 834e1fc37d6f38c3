-- ===== src/Rbtree/Erase.antt =====
-- Erasure from the tree: `erase_one` and the cases that repair the colours.
use lockfree_stm.Common.{
  ℕ, zero, suc, Bool, true, false, not, ◌&&◌, ◌||◌, [], ◌∷◌, ◌++◌, ◌==◌, if◌then◌else◌,
}
use lockfree_stm.Rbtree.{
  red, black, is_red, is_black, Tree, set_root, set_node, set_left, set_right, set_color, adopt,
  sibling, rotate_left, rotate_right, color_of, min_node, find,
}

module _ {K V : Type 0} where
  unfoldable pub replace_node : ℕ → ℕ → Tree K V → Tree K V
  replace_node n child t =
      let parent = (t.node n).parent in
      adopt child parent (
        if parent == 0
        then set_root child t
        else if (t.node parent).left == n
        then set_left parent child t
        else set_right parent child t)

  unfoldable pub delete_case6 : ℕ → ℕ → Tree K V → Tree K V
  delete_case6 parent n t =
      let s = sibling parent n t in
      let t₁ = set_color parent black (set_color s (t.node parent).color t) in
      if n == (t₁.node parent).left
      then rotate_left parent (set_color (t₁.node s).right black t₁)
      else rotate_right parent (set_color (t₁.node s).left black t₁)

  unfoldable pub delete_case5 : ℕ → ℕ → Tree K V → Tree K V
  delete_case5 parent n t =
      let s = sibling parent n t in
      let s_left = (t.node s).left in
      let s_right = (t.node s).right in
      let t₁ = set_color s red t in
      delete_case6 parent n (
        if is_black (t.node s).color
        then (if (n == (t.node parent).left)
              && (is_black (color_of s_right t) && is_red (color_of s_left t))
            then rotate_right s (set_color s_left black t₁)
            else if (n == (t.node parent).right)
                && (is_black (color_of s_left t) && is_red (color_of s_right t))
            then rotate_left s (set_color s_right black t₁)
            else t)
        else t)

  unfoldable pub delete_case4 : ℕ → ℕ → Tree K V → Tree K V
  delete_case4 parent n t =
      let s = sibling parent n t in
      if is_red (t.node parent).color
        && (is_black (t.node s).color
            && (is_black (color_of (t.node s).left t) && is_black (color_of (t.node s).right t)))
      then set_color parent black (set_color s red t)
      else delete_case5 parent n t

  -- `again` is `delete_case1`.
  unfoldable pub delete_case3 : (ℕ → ℕ → Tree K V → Tree K V) → ℕ → ℕ → Tree K V → Tree K V
  delete_case3 again parent n t =
      let s = sibling parent n t in
      if is_black (t.node parent).color
        && (is_black (color_of s t)
            && (((s == 0) || is_black (color_of (t.node s).left t))
                && ((s == 0) || is_black (color_of (t.node s).right t))))
      then again (t.node parent).parent parent (set_color s red t)
      else delete_case4 parent n t

  unfoldable pub delete_case2 : (ℕ → ℕ → Tree K V → Tree K V) → ℕ → ℕ → Tree K V → Tree K V
  delete_case2 again parent n t =
      let s = sibling parent n t in
      let t₁ = set_color s black (set_color parent red t) in
      delete_case3 again parent n (
        if is_red (color_of s t)
        then (if n == (t₁.node parent).left then rotate_left parent t₁ else rotate_right parent t₁)
        else t)

  -- The calls from case 3 run on fuel.
  unfoldable pub delete_case1 : ℕ → ℕ → ℕ → Tree K V → Tree K V
  delete_case1 zero parent n t = t
  delete_case1 (suc fuel) parent n t =
      if parent == 0 then t else delete_case2 (delete_case1 fuel) parent n t

  abbrev pub retire : ℕ → Tree K V → Tree K V
  retire n t = record t { retired = t.retired ++ n ∷ [] }

  unfoldable pub delete_one_child : ℕ → ℕ → Tree K V → Tree K V
  delete_one_child fuel n t =
      let right = (t.node n).right in
      let child = if right == 0 then (t.node n).left else right in
      let t₁ = replace_node n child t in
      retire n (
        if is_black (t₁.node n).color
        then (if is_red (color_of child t₁)
            then set_color child black t₁
            else delete_case1 fuel (t₁.node n).parent child t₁)
        else t₁)

  unfoldable pub erase_impl : ℕ → ℕ → Tree K V → Tree K V
  erase_impl fuel to_erase t =
      let d = t.node to_erase in
      let temp = min_node fuel d.right t in
      let t₁ =
        set_node to_erase (record d { key = (t.node temp).key; value = (t.node temp).value }) t in
      if not (d.left == 0) && not (d.right == 0)
      then delete_one_child fuel temp t₁
      else delete_one_child fuel to_erase t

  unfoldable pub erase_one : (K → K → Bool) → ℕ → K → Tree K V → Bool × Tree K V
  erase_one compare fuel key t =
      let to_erase = find compare fuel key t in
      if not (to_erase == 0) then (true, erase_impl fuel to_erase t) else (false, t)
