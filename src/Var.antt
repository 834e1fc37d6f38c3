-- ===== src/Var.antt =====
-- `var` (include/lstm/var.hpp): the variable that a client uses, with the storage of its value
-- (`var_alloc_policy` of include/lstm/detail/var_detail.hpp) and the reads and writes of
-- include/lstm/detail/transaction_base.hpp that are made for a type. A value is a number. What a
-- constructor does that throws is an outcome `none`; a destructor that runs where no object stands is
-- undefined, and so is a read through a pointer to none.
pub mod Access
use lockfree_stm.Common.{ℕ, ◌+◌, Bool, true, false, ◌&&◌, Option, none, some, leb, if◌then◌else◌}
use lockfree_stm.Common.Update.{update}
use lockfree_stm.Machine.{
  Callback, VarBase, Block, free, raw, object, World, State, Outcome, value, M, ◌>>=◌,
}
use lockfree_stm.Transaction.{
  Transaction, HeapVar, rw_read_base, rw_untracked_read_base, ro_read_base, ro_untracked_read_base,
  rw_write, rw_atomic_write_base,
}

pub data VarType : Type 0 where
  heap atomic : VarType

-- What the compiler knows of the type of a value.
pub record TypeTraits : Type 0 where
  pub size : ℕ
  pub align : ℕ
  pub is_trivially_copy_constructible : Bool
  pub is_trivially_move_constructible : Bool
  pub is_trivially_copy_assignable : Bool
  pub is_trivially_move_assignable : Bool
  pub is_trivially_destructible : Bool

-- The size and the alignment of `var_storage`, a pointer of 64 bits.
abbrev pub storage_size : ℕ
storage_size = 8

unfoldable pub var_type_switch : TypeTraits → VarType
var_type_switch t =
    if leb t.size storage_size
      && (leb t.align storage_size
          && (t.is_trivially_copy_constructible
              && (t.is_trivially_move_constructible
                  && (t.is_trivially_copy_assignable
                      && (t.is_trivially_move_assignable && t.is_trivially_destructible)))))
    then atomic
    else heap

-- The type decides between a value in the storage and a pointer to one.
pub record Var : Type 0 where
  pub type : VarType
  pub place : HeapVar

-- A destructor runs on an object, and on nothing else; its block is freed.
unfoldable pub destroy_deallocate : ℕ → World → Option World
destroy_deallocate p w = elim (w.block p) [
  | object u ↦ some (record w { block = update w.block p free })
  | _ ↦ none
]

-- `allocate_construct` with what the constructor does: a value, or it throws. The result is undefined, or
-- the storage where the constructor returned, and the memory.
unfoldable pub heap_allocate_construct : Option ℕ → World → Option (Option ℕ × World)
heap_allocate_construct made w =
    let p = w.next_block in
    let w₁ = record w { block = update w.block p raw; next_block = p + 1 } in
    elim made [
      | some u ↦ some (some p, record w₁ { block = update w₁.block p (object u) })
      | none ↦ rethrow (destroy_deallocate p w₁)
    ]
  where
    rethrow : Option World → Option (Option ℕ × World)
    rethrow none = none
    rethrow (some w₂) = some (none, w₂)

unfoldable pub atomic_allocate_construct : Option ℕ → World → Option (Option ℕ × World)
atomic_allocate_construct made w = some (made, w)

unfoldable pub allocate_construct : VarType → Option ℕ → World → Option (Option ℕ × World)
allocate_construct heap made w = heap_allocate_construct made w
allocate_construct atomic made w = atomic_allocate_construct made w

-- `load`: the object behind the storage, or the value in it.
unfoldable pub heap_load : ℕ → World → Option ℕ
heap_load storage w = elim (w.block storage) [ object u ↦ some u | _ ↦ none ]

unfoldable pub atomic_load : ℕ → World → Option ℕ
atomic_load storage w = some storage

unfoldable pub load : VarType → ℕ → World → Option ℕ
load heap storage w = heap_load storage w
load atomic storage w = atomic_load storage w

-- `store` on the storage of the variable `x`.
unfoldable pub heap_store : ℕ → ℕ → World → World
heap_store x u w = record w { block = update w.block (w.var x).storage (object u) }

unfoldable pub atomic_store : ℕ → ℕ → World → World
atomic_store x u w = record w { var = update w.var x (record (w.var x) { storage = u }) }

-- The constructor of `var_base`.
abbrev pub var_base : ℕ → VarBase
var_base in_storage = record { version_lock = 0; storage = in_storage }

-- The constructors of `var_alloc_policy`, one for each way to pass arguments and an allocator: a variable
-- comes to be where the constructor of its value returned.
unfoldable pub var_alloc_policy : Var → Option ℕ → World → Option (Bool × World)
var_alloc_policy v made w = elim (allocate_construct v.type made w) [
  | none ↦ none
  | some (none, w₁) ↦ some (false, w₁)
  | some (some storage, w₁) ↦
      some (true, record w₁ { var = update w₁.var v.place.base (var_base storage) })
]

-- The constructors of `var` pass their arguments on.
unfoldable pub new_var : Var → Option ℕ → World → Option (Bool × World)
new_var v made w = var_alloc_policy v made w

-- The destructor.
unfoldable pub delete_var : Var → World → Option World
delete_var v w = elim v.type [
  | heap ↦ destroy_deallocate (w.var v.place.base).storage w
  | atomic ↦ some w
]

unfoldable pub unsafe_get : Var → World → Option ℕ
unsafe_get v w = load v.type (w.var v.place.base).storage w

unfoldable pub unsafe_set : Var → ℕ → World → World
unsafe_set v u w = elim v.type [
  | heap ↦ heap_store v.place.base u w
  | atomic ↦ atomic_store v.place.base u w
]

-- The value behind the storage that a read of a transaction gave.
abbrev pub loaded : VarType → ℕ → M (Option ℕ)
loaded type storage s = (value (load type storage s.world), s)

unfoldable pub rw_read : Transaction → Var → M (Option ℕ)
rw_read tx v = rw_read_base tx v.place.base >>= loaded v.type

unfoldable pub rw_untracked_read : Transaction → Var → M (Option ℕ)
rw_untracked_read tx v = rw_untracked_read_base tx v.place.base >>= loaded v.type

unfoldable pub ro_read : Transaction → Var → M (Option ℕ)
ro_read tx v = ro_read_base tx v.place.base >>= loaded v.type

unfoldable pub ro_untracked_read : Transaction → Var → M (Option ℕ)
ro_untracked_read tx v = ro_untracked_read_base tx v.place.base >>= loaded v.type

-- The second overload of `rw_write`, for a value in the storage.
unfoldable pub rw_atomic_write : Transaction → Var → ℕ → M (Unit {0})
rw_atomic_write tx v u = rw_atomic_write_base tx v.place.base u

-- The members that a client calls with its transaction, for a `transaction` and a `read_transaction`.
unfoldable pub get : Var → Transaction → M (Option ℕ)
get v tx = rw_read tx v

unfoldable pub get_read_only : Var → Transaction → M (Option ℕ)
get_read_only v tx = ro_read tx v

unfoldable pub untracked_get : Var → Transaction → M (Option ℕ)
untracked_get v tx = rw_untracked_read tx v

unfoldable pub untracked_get_read_only : Var → Transaction → M (Option ℕ)
untracked_get_read_only v tx = ro_untracked_read tx v

unfoldable pub set : Var → Transaction → ℕ → M (Unit {0})
set v tx u s = elim v.type [ heap ↦ rw_write tx v.place u s | atomic ↦ rw_atomic_write tx v u s ]
