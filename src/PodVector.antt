-- ===== src/PodVector.antt =====
-- include/lstm/detail/pod_vector.hpp. `elems` are the objects in `[begin_, end_)`, and `last_valid`
-- is `last_valid_address_ - begin_`; the addresses themselves are the allocator's.
pub mod Laws
use lockfree_stm.Common.{
  ℕ, zero, suc, ◌+◌, ◌-◌, ◌*◌, ◌%◌, ◌^◌, Bool, List, [], ◌∷◌, ◌++◌, ltb, ◌==◌, if◌then◌else◌,
  length, set,
}
use lockfree_stm.Common.Word.{add_word, sub_word, double_word}

pub record PodVector {ℓ} (A : Type ℓ) : Type ℓ where
  pub elems : List A
  pub last_valid : ℕ

abbrev pub start_size : ℕ
start_size = 1024

module _ {ℓ} {A : Type ℓ} where
  abbrev pub size : PodVector A → ℕ
  size v = length v.elems

  unfoldable pub capacity : PodVector A → ℕ
  capacity v = add_word v.last_valid 1

  unfoldable pub empty : PodVector A → Bool
  empty v = size v == 0

  unfoldable pub allocates_on_next_push : PodVector A → Bool
  allocates_on_next_push v = size v == v.last_valid

  -- A new block of twice the capacity, the objects copied over.
  unfoldable pub reserve_more : PodVector A → PodVector A
  unfolding capacity
  reserve_more v = record v { last_valid = sub_word (double_word (capacity v)) 1 }

  unfoldable pub unchecked_emplace_back : PodVector A → A → PodVector A
  unchecked_emplace_back v a = record v { elems = v.elems ++ a ∷ [] }

  unfoldable pub emplace_back : PodVector A → A → PodVector A
  unfolding unchecked_emplace_back reserve_more
  emplace_back v a =
      let pushed = unchecked_emplace_back v a in
      if ltb v.last_valid (size pushed) then reserve_more pushed else pushed

  -- `back`, the object at `end_[-1]`, of a vector that is not empty.
  unfoldable pub back : A → List A → A
  back x [] = x
  back x (y ∷ xs) = back y xs

  unfoldable pub drop_last : A → List A → List A
  drop_last x [] = []
  drop_last x (y ∷ xs) = x ∷ drop_last y xs

  -- `--end_`, then the object at `end_` over the one at `begin_ + i`. Where `i` was the last index
  -- the copy goes to the slot that was given up.
  unfoldable pub move_back : List A → ℕ → List A
  unfolding back drop_last
  move_back [] i = []
  move_back (x ∷ xs) i = set (drop_last x xs) i (back x xs)

  unfoldable pub unordered_erase : PodVector A → ℕ → PodVector A
  unfolding move_back
  unordered_erase v i = record v { elems = move_back v.elems i }

  unfoldable pub clear : PodVector A → PodVector A
  clear v = record v { elems = [] }

  unfoldable pub shrink_to_fit : PodVector A → PodVector A
  unfolding capacity
  shrink_to_fit v =
      let new_capacity = size v + 1 in
      if new_capacity == capacity v then v else record v { last_valid = new_capacity - 1 }

unfoldable pub new {ℓ} : {A : Type ℓ} → PodVector A
new = record { elems = []; last_valid = start_size - 1 }
