-- ===== src/Tests/Memory.antt =====
-- Allocations of a transaction that fails, and of a critical section.
use lockfree_stm.Common.{◌≡◌, refl, true, false, [], ◌∷◌}
use lockfree_stm.ThreadData
use lockfree_stm.ThreadData.{do_fail_callbacks, access_lock, access_unlock}
use lockfree_stm.Machine.{State, free, object}
use lockfree_stm.PodVector
use lockfree_stm.Memory.{thread_allocate_construct}
use lockfree_stm.Memory.Undo.{
  block_only, object_of, serve, IsFresh, serve-undo, relative_allocation,
}
use lockfree_stm.Tests.{fresh}

memory-IsFresh : IsFresh fresh.world
unfolding IsFresh
memory-IsFresh p h = refl

serve-undo_example :
    (do_fail_callbacks
      (serve (block_only ∷ object_of false 8 ∷ object_of true 9 ∷ []) fresh)).world.block
    ≡ (do_fail_callbacks fresh).world.block
serve-undo_example =
    serve-undo (block_only ∷ object_of false 8 ∷ object_of true 9 ∷ []) fresh memory-IsFresh

-- In a critical section at epoch 7.
abbrev in_section : State
in_section = record fresh { td = access_lock 7 fresh.td }

no_callbacks : in_section.td.fail_callbacks.elems ≡ []
unfolding ThreadData.new PodVector.new
no_callbacks = refl

no_transaction : ThreadData.in_transaction in_section.td ≡ false
unfolding ThreadData.new
no_transaction = refl

relative_allocation_example :
    let (p, t) = thread_allocate_construct true 8 in_section in
    (t.world.block p ≡ object 8)
    × ((do_fail_callbacks (record t { td = access_unlock t.td })).world.block p ≡ free)
relative_allocation_example = relative_allocation true 8 in_section refl no_transaction no_callbacks
