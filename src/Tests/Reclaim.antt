-- ===== src/Tests/Reclaim.antt =====
-- A thread with one chunk that waits, and a transaction that fails.
use mathlib.Core.List.{reverse}
use lockfree_stm.Common.{◌≡◌, true, [], ◌∷◌, ◌++◌, arith, ℕ, ◌<◌, ◌≤◌, get_elem?, some}
use lockfree_stm.QuiescenceBuffer
use lockfree_stm.QuiescenceBuffer.{QuiescenceBuffer}
use lockfree_stm.QuiescenceBuffer.Layout.{Chunk, Queue}
use lockfree_stm.QuiescenceBuffer.Queue.{Holds, close, emplace_back-Holds, finalize_epoch-Holds}
use lockfree_stm.QuiescenceBuffer.Run.{new-Holds}
use lockfree_stm.ThreadData
use lockfree_stm.Common.Update.{update}
use lockfree_stm.ThreadData.{reclaim_slow_path, synchronize_min_epoch}
use lockfree_stm.ThreadData.Reclaim.{Reclaimed, due, left, reclaim_slow_path-Reclaimed}
use lockfree_stm.ThreadData.Epoch.{synchronize_min_epoch-bounds}
use lockfree_stm.Machine.{Callback, closure, State, off_state, run_callbacks, World}
use lockfree_stm.PodVector
use lockfree_stm.Atomic.{writer, tx_failure, valid_start_state}
use lockfree_stm.Atomic.Finish.{tx_failure-valid_start}
use lockfree_stm.Tests.{memory}

abbrev pushed : QuiescenceBuffer Callback
pushed = QuiescenceBuffer.emplace_back QuiescenceBuffer.new (closure 5)

abbrev one_callback : Queue Callback
one_callback = record { finished = []; working = closure 5 ∷ [] }

pushed-Holds : Holds pushed 0 one_callback
unfolding QuiescenceBuffer.new
pushed-Holds =
    emplace_back-Holds QuiescenceBuffer.new 0 (record { finished = []; working = [] }) (closure 5)
      new-Holds (omega arith)

abbrev closed_ring : QuiescenceBuffer Callback
closed_ring = (QuiescenceBuffer.finalize_epoch pushed 7).1

closed-Holds : Holds closed_ring 0 (close 7 one_callback)
unfolding QuiescenceBuffer.new QuiescenceBuffer.emplace_back QuiescenceBuffer.unchecked_emplace_back
    QuiescenceBuffer.reserve_more
closed-Holds = (finalize_epoch-Holds pushed 0 7 one_callback pushed-Holds (omega arith)).0

abbrev chunk : Chunk Callback
chunk = record { epoch = 7; callbacks = closure 5 ∷ [] }

-- The other thread is in epoch 9.
abbrev waiting : State
waiting = record { world = memory; td = record ThreadData.new { succ_callbacks = closed_ring } }

reclaim_slow_path-Reclaimed_example :
    let min_epoch = synchronize_min_epoch 7 (9 ∷ []) in
    Reclaimed waiting
      (reclaim_slow_path (9 ∷ []) waiting)
      (closure 5 ∷ [] ++ due min_epoch [])
      (left min_epoch [])
reclaim_slow_path-Reclaimed_example =
    reclaim_slow_path-Reclaimed (9 ∷ []) waiting 0 chunk [] closed-Holds

abbrev running : State
running = record {
  world = memory;
  td = record ThreadData.new {
    succ_callbacks = pushed;
    fail_callbacks = PodVector.emplace_back PodVector.new (closure 6);
    active = 7;
  };
}

tx_failure-valid_start_example :
    let t = tx_failure writer running in
    (t.world ≡ run_callbacks (reverse running.td.fail_callbacks.elems) memory)
    × (valid_start_state t.td ≡ true)
    × (t.td.active ≡ off_state)
    × Holds t.td.succ_callbacks 0 (record { finished = []; working = [] })
tx_failure-valid_start_example = tx_failure-valid_start running 0 one_callback pushed-Holds

-- While this thread waits for an epoch, another one stores it in variable 3.
abbrev other : ℕ → World → World
other epoch w = record w { var = update w.var 3 (record { version_lock = 0; storage = epoch }) }

synchronize_min_epoch-bounds_example :
    (7 < synchronize_min_epoch 7 (9 ∷ []))
    × ((i e : ℕ) → get_elem? (9 ∷ []) i ≡ some e → 7 < e → synchronize_min_epoch 7 (9 ∷ []) ≤ e)
synchronize_min_epoch-bounds_example = synchronize_min_epoch-bounds 7 (9 ∷ []) (omega arith)
