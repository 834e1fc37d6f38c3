-- ===== src/Rbtree/Verify.antt =====
-- `verify` and `minmax_height`, the check of a whole tree that debug builds compile. An assertion that
-- fails ends the program: the result is `some` where every assertion holds.
use lockfree_stm.Common.{
  ℕ, zero, suc, ◌+◌, ◌*◌, Bool, false, not, ◌&&◌, ◌||◌, Option, none, some, leb, ◌==◌,
  if◌then◌else◌, and_then, max,
}
use Prim.Native.Nat.{min}
use lockfree_stm.Rbtree.{Tree, is_red, is_black}

pub record HeightInfo : Type 0 where
  pub min_height : ℕ
  pub max_height : ℕ
  pub black_height : ℕ

module _ {K V : Type 0} where
  -- The assertions on a node between its children, but for the one on the black heights.
  unfoldable pub node_holds : (K → K → Bool) → ℕ → Tree K V → Bool
  node_holds compare node t =
      let d = t.node node in
      let left = d.left in
      let right = d.right in
      (((left == 0) || ((t.node left).parent == node))
        && ((right == 0) || ((t.node right).parent == node)))
      && ((((left == 0) || not (compare d.key (t.node left).key))
            && ((right == 0) || not (compare (t.node right).key d.key)))
          && (not (is_red d.color)
              || (((left == 0) || is_black (t.node left).color)
                  && ((right == 0) || is_black (t.node right).color))))

  -- The recursion on the nodes, on fuel.
  unfoldable pub minmax_height : (K → K → Bool) → ℕ → ℕ → Tree K V → Option HeightInfo
  minmax_height compare zero node t = none
  minmax_height compare (suc fuel) node t =
      let height_l = minmax_height compare fuel (t.node node).left t in
      let height_r = minmax_height compare fuel (t.node node).right t in
      if node == 0
      then some (record { min_height = 0; max_height = 0; black_height = 0 })
      else and_then height_l (λ l. and_then height_r (λ r.
        if (l.black_height == r.black_height) && node_holds compare node t
        then some (record {
          min_height = min l.min_height r.min_height + 1;
          max_height = max l.max_height r.max_height + 1;
          black_height = l.black_height + (if is_black (t.node node).color then 1 else 0);
        })
        else none))

  unfoldable pub verify : (K → K → Bool) → ℕ → Tree K V → Bool
  verify compare fuel t =
      ((t.root == 0) || is_black (t.node t.root).color)
      && holds (minmax_height compare fuel t.root t)
    where
      holds : Option HeightInfo → Bool
      holds none = false
      holds (some heights) = leb heights.max_height (heights.min_height * 2)
