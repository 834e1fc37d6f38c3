-- ===== src/WriteSet.antt =====
-- The write set: include/lstm/detail/pod_hash_set.hpp, write_set_value_type.hpp and
-- write_set_lookup.hpp. A `var_base` is named by its address, a `var_storage` is a word, and an
-- iterator is an index, `none` for `end()`.
pub mod Hash
pub mod Filter
pub mod Entries
use lockfree_stm.Common.{
  ℕ, zero, suc, ◌+◌, ◌*◌, ◌%◌, ◌^◌, Bool, not, List, [], ◌∷◌, Option, none, some, map, ◌==◌,
  if◌then◌else◌, bit_and, bit_or, length, get_elem?, set,
}
use lockfree_stm.PodVector
use lockfree_stm.PodVector.{PodVector}
use lockfree_stm.WriteSet.Hash.{var_hash}

pub record WriteSetValue : Type 0 where
  pub dest_var : ℕ
  pub pending_write : ℕ

pub record PodHashSet : Type 0 where
  pub filter : ℕ
  pub elems : PodVector WriteSetValue

-- `hash` is 0 exactly in a lookup that found the variable, whose entry is at `pending_write`.
pub record WriteSetLookup : Type 0 where
  pub hash : ℕ
  pub pending_write : Option ℕ

abbrev pub success : WriteSetLookup → Bool
success l = l.hash == 0

abbrev pub is_empty : PodHashSet → Bool
is_empty s = PodVector.empty s.elems

-- The loop of `find_impl`: the index of the first entry for `x`.
unfoldable pub find_impl : ℕ → List WriteSetValue → Option ℕ
find_impl x [] = none
find_impl x (e ∷ es) =
    if x == e.dest_var
    then some 0
    else elim (find_impl x es) [ none ↦ none | some i ↦ some (suc i) ]

unfoldable pub find : PodHashSet → ℕ → Option ℕ
find s x = if bit_and s.filter (var_hash x) == 0 then none else find_impl x s.elems.elems

unfoldable pub lookup_slow_path : PodHashSet → ℕ → ℕ → WriteSetLookup
lookup_slow_path s x hash = elim (find_impl x s.elems.elems) [
  | some i ↦ record { hash = 0; pending_write = some i }
  | none ↦ record { hash = hash; pending_write = none }
]

unfoldable pub lookup : PodHashSet → ℕ → WriteSetLookup
unfolding lookup_slow_path
lookup s x =
    let hash = var_hash x in
    if bit_and s.filter hash == 0
    then record { hash = hash; pending_write = none }
    else lookup_slow_path s x hash

abbrev pub entry : ℕ → ℕ → WriteSetValue
entry x w = record { dest_var = x; pending_write = w }

unfoldable pub push_back : PodHashSet → ℕ → ℕ → ℕ → PodHashSet
push_back s x w hash = record {
  filter = bit_or s.filter hash;
  elems = PodVector.emplace_back s.elems (entry x w);
}

unfoldable pub unchecked_push_back : PodHashSet → ℕ → ℕ → ℕ → PodHashSet
unchecked_push_back s x w hash = record {
  filter = bit_or s.filter hash;
  elems = PodVector.unchecked_emplace_back s.elems (entry x w);
}

unfoldable pub clear : PodHashSet → PodHashSet
clear s = record { filter = 0; elems = PodVector.clear s.elems }

unfoldable pub reset_filter : PodHashSet → ℕ → PodHashSet
reset_filter s new_filter = record s { filter = new_filter }

unfoldable pub unordered_erase : PodHashSet → ℕ → PodHashSet
unordered_erase s i = record s { elems = PodVector.unordered_erase s.elems i }

unfoldable pub shrink_to_fit : PodHashSet → PodHashSet
shrink_to_fit s = record s { elems = PodVector.shrink_to_fit s.elems }

abbrev pub allocates_on_next_push : PodHashSet → Bool
allocates_on_next_push s = PodVector.allocates_on_next_push s.elems

-- `*iter` and a write through `pending_write()`. An index of the set is always in range: `find` and
-- `lookup` give no other.
unfoldable pub pending_at : List WriteSetValue → ℕ → ℕ
pending_at [] i = 0
pending_at (e ∷ es) zero = e.pending_write
pending_at (e ∷ es) (suc i) = pending_at es i

unfoldable pub set_pending : List WriteSetValue → ℕ → ℕ → List WriteSetValue
set_pending [] i w = []
set_pending (e ∷ es) zero w = entry e.dest_var w ∷ es
set_pending (e ∷ es) (suc i) w = e ∷ set_pending es i w

unfoldable pub new : PodHashSet
new = record { filter = 0; elems = PodVector.new }
