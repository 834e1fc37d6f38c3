-- ===== src/Tests/LinkedLists.antt =====
-- A list of two nodes.
use lockfree_stm.Common.{ℕ, ◌≡◌, refl, [], ◌∷◌, arith, some}
use lockfree_stm.Common.Word.{add_signed}
use lockfree_stm.Common.Update.{update}
use lockfree_stm.LinkedList.{LinkedList, new, push_front, emplace_front, destroy_deallocate_sublist}
use lockfree_stm.LinkedList.Nodes.{
  Chain, IsList, values, emplace_front-IsList, destroy_deallocate_sublist-nodes,
}

abbrev nothing : LinkedList ℕ
nothing = new (λ p. record { value = 0; prev = 0; next = 0 })

-- The value 8 at the address 4, and the list of it.
abbrev one : LinkedList ℕ
one = push_front 4 8 1 nothing

one-pushed : emplace_front 4 8 nothing ≡ some one
unfolding new emplace_front push_front add_signed
one-pushed = refl

one-IsList : IsList one (4 ∷ [])
unfolding Chain new push_front update
one-IsList = record { chain = (refl, omega arith, refl); distinct = refl; size = refl }

emplace_front-IsList_example :
    (l' : LinkedList ℕ) × (emplace_front 6 9 one ≡ some l')
    × IsList l' (6 ∷ 4 ∷ [])
    × (values l'.node (6 ∷ 4 ∷ []) ≡ 9 ∷ values one.node (4 ∷ []))
emplace_front-IsList_example =
    emplace_front-IsList 6 9 one (4 ∷ []) one-IsList (omega arith) refl (omega arith)

destroy_deallocate_sublist-nodes_example : destroy_deallocate_sublist 2 one.head one.node ≡ 4 ∷ []
destroy_deallocate_sublist-nodes_example =
    destroy_deallocate_sublist-nodes 2 one.node one.head (4 ∷ []) one-IsList.chain (omega arith)
