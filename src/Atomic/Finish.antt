-- ===== src/Atomic/Finish.antt =====
-- How an attempt that fails leaves the thread.
use mathlib.Core.List.{reverse}
use lockfree_stm.Common.{ℕ, ◌≡◌, refl, true, []}
use lockfree_stm.PodVector
use lockfree_stm.WriteSet
use lockfree_stm.QuiescenceBuffer
use lockfree_stm.QuiescenceBuffer.Layout.{Queue}
use lockfree_stm.QuiescenceBuffer.Queue.{Holds, clear_working_epoch-Holds, empty-working}
use lockfree_stm.Machine.{Callback, State, off_state, run_callbacks}
use lockfree_stm.ThreadData.{clear_read_write_sets, do_fail_callbacks}
use lockfree_stm.Atomic.{writer, tx_failure, tx_failure_no_backoff, valid_start_state}

-- A failed attempt of a writer runs the callbacks of failures from the newest to the oldest and
-- changes no other shared memory; it drops the callbacks that waited for the commit, keeps those of
-- earlier transactions, leaves the critical section, and the thread can start over.
pub tx_failure-valid_start :
    (s : State) (prev : ℕ) (q : Queue Callback)
    → Holds s.td.succ_callbacks prev q
    → let t = tx_failure writer s in
      (t.world ≡ run_callbacks (reverse s.td.fail_callbacks.elems) s.world)
      × (valid_start_state t.td ≡ true)
      × (t.td.active ≡ off_state)
      × Holds t.td.succ_callbacks prev (record q { working = [] })
unfolding tx_failure_no_backoff valid_start_state clear_read_write_sets do_fail_callbacks
    PodVector.clear PodVector.empty WriteSet.clear
tx_failure-valid_start s prev q v =
    let cleared = clear_working_epoch-Holds s.td.succ_callbacks prev q v in
    (
      refl,
      empty-working (QuiescenceBuffer.clear_working_epoch s.td.succ_callbacks) prev
          (record q { working = [] }) cleared,
      refl,
      cleared,
    )
