-- ===== src/Tests/Variables.antt =====
-- Variables of both sorts, made, set and read.
use lockfree_stm.Common.{ℕ, ◌≡◌, ◌≢◌, refl, true, false, none, some}
use lockfree_stm.WriteSet.Hash.{var_hash, reference_hash}
use lockfree_stm.Machine.{World, free, value}
use lockfree_stm.Transaction.{HeapVar}
use lockfree_stm.Var.{
  Var, VarType, heap, atomic, heap_allocate_construct, allocate_construct, load, get, set,
  var_type_switch,
}
use lockfree_stm.Var.Access.{get-set_var, allocate_construct-outcome, IsKept, new_var-IsKept}
use lockfree_stm.Tests.{fresh, fresh-IsValid, fresh-Room, tx, version_2}

abbrev place : HeapVar
place = record { base = 32; self = 32; align = 16 }

abbrev in_heap : Var
in_heap = record { type = heap; place = place }

same_hash : reference_hash 16 32 ≡ var_hash 32
same_hash = refl

get-set_var_example :
    ((set in_heap tx 9 fresh).0 ≡ value tt)
    × ((get in_heap tx (set in_heap tx 9 fresh).1).0 ≡ value (some 9))
get-set_var_example =
    get-set_var in_heap tx 9 fresh fresh-IsValid fresh-Room version_2 (λ e. same_hash)

allocate_construct-outcome_example :
    let w = fresh.world in
    (heap_allocate_construct none w ≡ none)
    × ((type : VarType) (u : ℕ)
        → (storage : ℕ) × (w' : World) × (allocate_construct type (some u) w
            ≡ some (some storage, w'))
          × (load type storage w' ≡ some u)
          × ((p : ℕ) → p ≢ w.next_block → w'.block p ≡ w.block p)
          × (w'.var ≡ w.var))
allocate_construct-outcome_example = allocate_construct-outcome fresh.world

next_free : fresh.world.block fresh.world.next_block ≡ free
next_free = refl

new_var-IsKept_example : IsKept in_heap 5 6 fresh.world
new_var-IsKept_example = new_var-IsKept in_heap 5 6 fresh.world next_free

-- An `int` goes into the storage, a `std::string` into the heap.
int_type :
    var_type_switch (record {
      size = 4;
      align = 4;
      is_trivially_copy_constructible = true;
      is_trivially_move_constructible = true;
      is_trivially_copy_assignable = true;
      is_trivially_move_assignable = true;
      is_trivially_destructible = true;
    })
    ≡ atomic
unfolding var_type_switch
int_type = refl

string_type :
    var_type_switch (record {
      size = 32;
      align = 8;
      is_trivially_copy_constructible = false;
      is_trivially_move_constructible = false;
      is_trivially_copy_assignable = false;
      is_trivially_move_assignable = false;
      is_trivially_destructible = false;
    })
    ≡ heap
unfolding var_type_switch
string_type = refl
