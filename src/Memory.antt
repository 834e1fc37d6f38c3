-- ===== src/Memory.antt =====
-- include/lstm/memory.hpp: allocation and destruction that a transaction can undo or put off. An object
-- is a number, and `trivial` says whether its type is trivially destructible. The allocator gives a
-- fresh block and does not fail; the number of objects in a block is only passed on to it.
pub mod Undo
use lockfree_stm.Common.{ℕ, ◌+◌, Bool, true, false, if◌then◌else◌}
use lockfree_stm.Common.Update.{update}
use lockfree_stm.Machine.{Callback, Block, raw, object, World, State}
use lockfree_stm.ThreadData.{in_critical_section, after_fail, sometime_synchronized_after}

-- `AllocTraits::allocate` and `AllocTraits::construct`.
abbrev pub new_block : World → ℕ × World
new_block w = (
  w.next_block,
  record w { block = update w.block w.next_block raw; next_block = w.next_block + 1 },
)

abbrev pub construct_at : ℕ → ℕ → World → World
construct_at p u w = record w { block = update w.block p (object u) }

abbrev pub on_fail : Callback → State → State
on_fail c s = record s { td = after_fail c s.td }

abbrev pub on_success : Callback → State → State
on_success c s = record s { td = sometime_synchronized_after c s.td }

-- The functions that take the record of the thread, in or outside of a transaction.
abbrev pub if_critical : (State → State) → State → State
if_critical f s = if in_critical_section s.td then f s else s

unfoldable pub thread_allocate : State → ℕ × State
thread_allocate s =
    let (p, w) = new_block s.world in
    (p, if_critical (on_fail (Callback.deallocate p)) (record s { world = w }))

unfoldable pub thread_construct : Bool → ℕ → ℕ → State → State
thread_construct trivial p u s =
    let s' = record s { world = construct_at p u s.world } in
    if trivial then s' else if_critical (on_fail (Callback.destroy p)) s'

-- The callback that takes an object and its block back.
abbrev pub dispose : Bool → ℕ → Callback
dispose trivial p = if trivial then Callback.deallocate p else Callback.destroy_deallocate p

unfoldable pub thread_allocate_construct : Bool → ℕ → State → ℕ × State
thread_allocate_construct trivial u s =
    let (p, w) = new_block s.world in
    (p, if_critical (on_fail (dispose trivial p)) (record s { world = construct_at p u w }))

-- The functions that take a transaction.
unfoldable pub allocate : State → ℕ × State
allocate s =
    let (p, w) = new_block s.world in (p, on_fail (Callback.deallocate p) (record s { world = w }))

unfoldable pub deallocate : ℕ → State → State
deallocate p s = on_success (Callback.deallocate p) s

unfoldable pub construct : Bool → ℕ → ℕ → State → State
construct trivial p u s =
    let s' = record s { world = construct_at p u s.world } in
    if trivial then s' else on_fail (Callback.destroy p) s'

unfoldable pub destroy : Bool → ℕ → State → State
destroy trivial p s = if trivial then s else on_success (Callback.destroy p) s

unfoldable pub allocate_construct : Bool → ℕ → State → ℕ × State
allocate_construct trivial u s =
    let (p, w) = new_block s.world in
    (p, on_fail (dispose trivial p) (record s { world = construct_at p u w }))

unfoldable pub destroy_deallocate : Bool → ℕ → State → State
destroy_deallocate trivial p s = on_success (dispose trivial p) s
