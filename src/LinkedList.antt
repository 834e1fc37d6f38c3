-- ===== src/LinkedList.antt =====
-- The list of include/lstm/containers/list.hpp. As with the tree, an operation runs inside one
-- transaction: it reads and writes one memory, a function from addresses to nodes, where 0 is the null
-- pointer.
pub mod Nodes
use lockfree_stm.Common.{
  ℕ, zero, suc, ◌+◌, ◌^◌, ◌≤◌, ◌<◌, ◌≡◌, ◌≢◌, refl, sym, ap, ap₂, ◌∙◌, Bool, true, false, not, ◌&&◌,
  ◌||◌, List, [], ◌∷◌, ◌++◌, map, ◌==◌, if◌then◌else◌, Option, none, some, and_then, arith, length,
  Bool-cases, inl, inr,
}
use lockfree_stm.Common.Update.{update, update_self, update_ne}
use lockfree_stm.Common.Word.{add_signed}

pub record ListNode (A : Type 0) : Type 0 where
  pub value : A
  pub prev : ℕ
  pub next : ℕ

-- `size` is the field `size_`, a signed word that is never negative: it starts at 0 and only grows until
-- `clear` sets it to 0. `cleared` are the heads that `clear` took off, for a callback to free their nodes
-- later.
pub record LinkedList (A : Type 0) : Type 0 where
  pub head : ℕ
  pub size : ℕ
  pub node : ℕ → ListNode A
  pub cleared : List ℕ

module _ {A : Type 0} where
  -- The loop of `destroy_deallocate_sublist`, on fuel: the nodes that are freed, the first one first.
  unfoldable pub destroy_deallocate_sublist : ℕ → ℕ → (ℕ → ListNode A) → List ℕ
  destroy_deallocate_sublist zero n m = []
  destroy_deallocate_sublist (suc fuel) n m =
      let rest = destroy_deallocate_sublist fuel (m n).next m in if n == 0 then [] else n ∷ rest

  unfoldable pub clear : LinkedList A → LinkedList A
  clear l = record l {
    size = 0;
    head = 0;
    cleared = if l.head == 0 then l.cleared else l.cleared ++ l.head ∷ [];
  }

  -- What `emplace_front` writes, where it ends with the size `n`.
  unfoldable pub push_front : ℕ → A → ℕ → LinkedList A → LinkedList A
  push_front p v n l =
      let m = update l.node p (record (l.node p) { value = v; next = l.head }) in
      record l {
        node = if l.head == 0 then m else update m l.head (record (m l.head) { prev = p });
        size = n;
        head = p;
      }

  -- `emplace_front` with the address that the allocator returned. The constructor of a node sets its
  -- value only. `none`: the sum of the signed size and 1 overflows, which is undefined.
  unfoldable pub emplace_front : ℕ → A → LinkedList A → Option (LinkedList A)
  unfolding push_front
  emplace_front p v l = and_then (add_signed l.size 1) λ n. some (push_front p v n l)

  -- The constructor, with what the memory holds.
  unfoldable pub new : (ℕ → ListNode A) → LinkedList A
  new memory = record { head = 0; size = 0; node = memory; cleared = [] }
