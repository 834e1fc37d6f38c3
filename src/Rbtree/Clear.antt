-- ===== src/Rbtree/Clear.antt =====
-- The end of a tree: `clear`, the destructor and `destroy_deallocate_subtree`, which run when no other
-- section can see the nodes.
use lockfree_stm.Common.{ℕ, zero, suc, List, [], ◌∷◌, ◌++◌, ◌==◌, if◌then◌else◌}
use lockfree_stm.Common.Update.{update}
use lockfree_stm.Rbtree.{Tree, Node}

module _ {K V : Type 0} where
  -- The inner loop, on fuel: the last node on the left, and its parent.
  unfoldable pub last_left : ℕ → ℕ → ℕ → (ℕ → Node K V) → ℕ × ℕ
  last_left zero parent leaf_ m = (parent, leaf_)
  last_left (suc fuel) parent leaf_ m =
      let rest = last_left fuel leaf_ (m leaf_).left m in
      if (m leaf_).left == 0 then (parent, leaf_) else rest

  abbrev pub unlink : ℕ → (ℕ → Node K V) → ℕ → Node K V
  unlink p m = update m p (record (m p) { left = (m p).right; right = 0 })

  -- `destroy_deallocate_subtree`, on fuel for both loops: the nodes that are freed, the first one first.
  unfoldable pub destroy_deallocate_subtree : ℕ → ℕ → (ℕ → Node K V) → List ℕ
  destroy_deallocate_subtree zero n m = n ∷ []
  destroy_deallocate_subtree (suc fuel) n m =
      let (parent, leaf_) = last_left fuel n (m n).left m in
      let rest = destroy_deallocate_subtree fuel n (unlink parent m) in
      if (m n).left == 0 then n ∷ [] else leaf_ ∷ rest

  unfoldable pub clear : Tree K V → Tree K V
  clear t = if t.root == 0 then t else record t { root = 0; cleared = t.cleared ++ t.root ∷ [] }

  unfoldable pub destroy : ℕ → Tree K V → List ℕ
  destroy fuel t = if t.root == 0 then [] else destroy_deallocate_subtree fuel t.root t.node
