-- ===== src/Tests/Trees.antt =====
-- Trees in memory: insertions, searches, and what is freed.
use lockfree_stm.Common.{ℕ, ◌≡◌, ◌≢◌, refl, Bool-cases, true, inl, inr, ltb, arith}
use lockfree_stm.Common.Update.{update}
use lockfree_stm.Rbtree.{
  Tree, rb_node, empty, find, find_from, min_node, grandparent, uncle, rotate_left, rotate_right,
}
use lockfree_stm.Rbtree.Insert.{
  emplace, push_impl, descend, insert_case1, insert_case2, insert_case3, insert_case4, insert_case5,
  turn_left, turn_right,
}
use lockfree_stm.Rbtree.Lookup.{Shape, leaf, fork, Holds, IsWeakOrder, Found, is_sorted}
use lockfree_stm.Rbtree.Clear.{destroy_deallocate_subtree}
use lockfree_stm.Rbtree.Freed.{IsUnique, destroy_deallocate_subtree-reached, reached}
use lockfree_stm.Rbtree.Rotate.{Linked}
use lockfree_stm.Rbtree.Focus.{plug, top}
use lockfree_stm.Rbtree.Verify.{verify, minmax_height, node_holds}
use lockfree_stm.Rbtree.Recolor.{IsBalanced}
use lockfree_stm.Rbtree.Emplace.{IsRbtree, Emplaced, emplace-IsRbtree}
use lockfree_stm.Rbtree.Verified.{verify-IsRbtree, find-logarithmic}
use lockfree_stm.Rbtree.Erase.{erase_one, erase_impl, delete_one_child, replace_node}
use lockfree_stm.Rbtree.Climb.{HasDepth, insert_case1-fuel}

-- The keys 10, 20 and 30 at the addresses 1, 2 and 3: the third insertion turns the tree to the left.
three : Tree ℕ ℕ
three =
    emplace ltb 9 3 30 0 (emplace ltb 9 2 20 0 (emplace ltb 9 1 10 0 (empty (λ p. rb_node 0 0))))

abbrev three_shape : Shape
three_shape = fork (fork leaf 1 leaf) 2 (fork leaf 3 leaf)

three-Holds : Holds three.node three.root three_shape
unfolding three Holds emplace push_impl descend insert_case1 insert_case2 insert_case3 insert_case4
    insert_case5 turn_left turn_right grandparent uncle rotate_left rotate_right update empty
three-Holds = (refl, omega arith, (refl, omega arith, refl, refl), (refl, omega arith, refl, refl))

ltb-IsWeakOrder : IsWeakOrder ltb
ltb-IsWeakOrder = record {
  irreflexive = λ a. ground arith;
  asymmetric = λ a b h. ground arith;
  splits = λ a b c h. elim (Bool-cases (ltb a c)) [ inl e ↦ inl e | inr e ↦ inr (ground arith) ];
}

three-sorted : is_sorted ltb three.node three_shape ≡ true
unfolding three emplace push_impl descend insert_case1 insert_case2 insert_case3 insert_case4
    insert_case5 turn_left turn_right grandparent uncle rotate_left rotate_right update empty
three-sorted = refl

three-IsUnique : IsUnique three_shape
unfolding IsUnique
three-IsUnique = (
  (tt, tt, refl, refl, λ a h. refl),
  (tt, tt, refl, refl, λ a h. refl),
  refl,
  refl,
  λ a h. ground arith,
)

three-root : three.root ≢ 0
unfolding three emplace push_impl descend insert_case1 insert_case2 insert_case3 insert_case4
    insert_case5 turn_left turn_right grandparent uncle rotate_left rotate_right update empty
three-root = omega arith

destroy_deallocate_subtree-reached_example :
    destroy_deallocate_subtree 3 three.root three.node ≡ reached three_shape
destroy_deallocate_subtree-reached_example =
    destroy_deallocate_subtree-reached 3 three.node three.root three_shape three-root three-IsUnique
      three-Holds (omega arith)

-- `three` turned at its root, to the left and back.
three-Linked :
    Linked three.node 0 three.root (plug top (fork (fork leaf 1 leaf) 2 (fork leaf 3 leaf)))
unfolding three Linked plug emplace push_impl descend insert_case1 insert_case2 insert_case3
    insert_case4 insert_case5 turn_left turn_right grandparent uncle rotate_left rotate_right update
    empty
three-Linked = (
  refl,
  omega arith,
  refl,
  (refl, omega arith, refl, refl, refl),
  (refl, omega arith, refl, refl, refl),
)

-- The tree `three` is red and black, so another key can go in, and any key be found.
three-IsRbtree : IsRbtree ltb three three_shape
unfolding three IsBalanced plug emplace push_impl descend insert_case1 insert_case2 insert_case3
    insert_case4 insert_case5 turn_left turn_right grandparent uncle rotate_left rotate_right update
    empty
three-IsRbtree = record {
  unique = three-IsUnique;
  links = three-Linked;
  sorted = three-sorted;
  balanced = (refl, refl, refl);
}

emplace-IsRbtree_example : Emplaced ltb three three_shape 4 40 7 (emplace ltb 3 4 40 7 three)
emplace-IsRbtree_example =
    emplace-IsRbtree ltb ltb-IsWeakOrder 3 three three_shape 4 40 7 three-IsRbtree (omega arith)
      refl (omega arith)

verify-IsRbtree_example : verify ltb 3 three ≡ true
verify-IsRbtree_example = verify-IsRbtree ltb three three_shape 3 three-IsRbtree (omega arith)

find-logarithmic_example : Found ltb ltb-IsWeakOrder 25 three.node three_shape (find ltb 6 25 three)
find-logarithmic_example =
    find-logarithmic ltb ltb-IsWeakOrder 25 three three_shape 3 three-IsRbtree (omega arith)

-- The keys 10 and 20: the root has a right child only.
two : Tree ℕ ℕ
two = emplace ltb 9 2 20 0 (emplace ltb 9 1 10 0 (empty (λ p. rb_node 0 0)))

depth_1 : HasDepth two.node 2 1
unfolding HasDepth two emplace push_impl descend insert_case1 insert_case2 insert_case3 insert_case4
    insert_case5 turn_left turn_right grandparent uncle rotate_left rotate_right update empty
depth_1 = (omega arith, refl)

insert_case1-fuel_example : insert_case1 2 2 two ≡ insert_case1 9 2 two
insert_case1-fuel_example = insert_case1-fuel 2 9 1 2 two depth_1 (omega arith) (omega arith)

-- The debug check passes, and after the removal of a key.
three-verify : verify ltb 4 three ≡ true
unfolding verify minmax_height node_holds three emplace push_impl descend insert_case1 insert_case2
    insert_case3 insert_case4 insert_case5 turn_left turn_right grandparent uncle rotate_left
    rotate_right update empty
three-verify = refl

less-verify : verify ltb 4 (erase_one ltb 4 10 three).1 ≡ true
unfolding verify minmax_height node_holds erase_one erase_impl delete_one_child replace_node find
    find_from min_node three emplace push_impl descend insert_case1 insert_case2 insert_case3
    insert_case4 insert_case5 turn_left turn_right grandparent uncle rotate_left rotate_right update
    empty
less-verify = refl
