-- ===== src/ThreadData.antt =====
-- The operations of `thread_data` (include/lstm/thread_data.hpp), with `wait_min_epoch` of
-- include/lstm/detail/thread_synchronization.hpp. A wait is over when the other thread has left the
-- old epoch; what this thread learns is the list of the epochs that it loaded, one for each node.
pub mod Epoch
pub mod Reclaim
use lockfree_stm.Common.{
  ℕ, zero, suc, Bool, true, false, not, ◌&&◌, List, [], ◌∷◌, ltb, leb, ◌==◌, if◌then◌else◌,
}
use mathlib.Core.List.{reverse}
use lockfree_stm.PodVector
use lockfree_stm.WriteSet
use lockfree_stm.QuiescenceBuffer
use lockfree_stm.TxKind.{TxKind}
use lockfree_stm.Machine.{Callback, World, ThreadData, State, off_state, run_callbacks}

abbrev pub in_transaction : ThreadData → Bool
in_transaction td = elim td.tx_state [ TxKind.none ↦ false | _ ↦ true ]

abbrev pub in_critical_section : ThreadData → Bool
in_critical_section td = not (td.active == off_state)

abbrev pub access_lock : ℕ → ThreadData → ThreadData
access_lock epoch td = record td { active = epoch }

abbrev pub access_unlock : ThreadData → ThreadData
access_unlock td = record td { active = off_state }

unfoldable pub add_write_set : ℕ → ℕ → ℕ → ThreadData → ThreadData
add_write_set x w hash td = record td { write_set = WriteSet.push_back td.write_set x w hash }

unfoldable pub add_write_set_unchecked : ℕ → ℕ → ℕ → ThreadData → ThreadData
add_write_set_unchecked x w hash td = record td {
  write_set = WriteSet.unchecked_push_back td.write_set x w hash;
}

unfoldable pub clear_read_write_sets : ThreadData → ThreadData
clear_read_write_sets td = record td {
  read_set = PodVector.clear td.read_set;
  write_set = WriteSet.clear td.write_set;
}

unfoldable pub sometime_synchronized_after : Callback → ThreadData → ThreadData
sometime_synchronized_after c td = record td {
  succ_callbacks = QuiescenceBuffer.emplace_back td.succ_callbacks c;
}

unfoldable pub after_fail : Callback → ThreadData → ThreadData
after_fail c td = record td { fail_callbacks = PodVector.emplace_back td.fail_callbacks c }

-- The callbacks run from the newest to the oldest.
unfoldable pub do_fail_callbacks : State → State
do_fail_callbacks s = record {
  world = run_callbacks (reverse s.td.fail_callbacks.elems) s.world;
  td = record (s.td) { fail_callbacks = PodVector.clear s.td.fail_callbacks };
}

unfoldable pub do_succ_callbacks_front : State → State
do_succ_callbacks_front s =
    let (ran, rest) = QuiescenceBuffer.do_first_epoch_callbacks s.td.succ_callbacks in
    record { world = run_callbacks ran s.world; td = record (s.td) { succ_callbacks = rest } }

-- The least of the loaded epochs that lie past `epoch`; those that do not are waited for.
unfoldable pub wait_min_epoch : ℕ → List ℕ → ℕ → ℕ
wait_min_epoch epoch [] result = result
wait_min_epoch epoch (e ∷ es) result =
    wait_min_epoch epoch es (if leb e epoch then result else if ltb e result then e else result)

unfoldable pub synchronize_min_epoch : ℕ → List ℕ → ℕ
unfolding wait_min_epoch
synchronize_min_epoch epoch loaded = wait_min_epoch epoch loaded off_state

-- `do … while (!empty && front_epoch < min_epoch)`, on fuel.
unfoldable pub reclaim_all_possible : ℕ → ℕ → State → State
unfolding do_succ_callbacks_front
reclaim_all_possible zero min_epoch s = s
reclaim_all_possible (suc fuel) min_epoch s =
    let s' = do_succ_callbacks_front s in
    let rest = reclaim_all_possible fuel min_epoch s' in
    if not (QuiescenceBuffer.empty s'.td.succ_callbacks)
      && ltb (QuiescenceBuffer.front_epoch s'.td.succ_callbacks) min_epoch
    then rest
    else s'

-- `do … while (!empty)`, on fuel.
unfoldable pub reclaim_loop : ℕ → State → State
unfolding do_succ_callbacks_front
reclaim_loop zero s = s
reclaim_loop (suc fuel) s =
    let s' = do_succ_callbacks_front s in
    let rest = reclaim_loop fuel s' in
    if not (QuiescenceBuffer.empty s'.td.succ_callbacks) then rest else s'

-- `synchronize_min_epoch` where its result is not used: `others epoch` is what the other threads make of
-- the shared memory until the grace period of `epoch` is over. This thread is in no section and changes
-- nothing.
abbrev pub synchronize : (ℕ → World → World) → ℕ → State → State
synchronize others epoch s = record s { world = others epoch s.world }

-- Each round of the loop takes a chunk of at least one element off the ring.
unfoldable pub reclaim_all : (ℕ → World → World) → State → State
unfolding reclaim_loop
reclaim_all others s =
    let b = s.td.succ_callbacks in
    reclaim_loop (QuiescenceBuffer.size b) (synchronize others (QuiescenceBuffer.back_epoch b) s)

-- Each round of reclamation takes a chunk of at least one element off the ring.
unfoldable pub reclaim_slow_path : List ℕ → State → State
unfolding reclaim_all_possible synchronize_min_epoch
reclaim_slow_path loaded s =
    let front = QuiescenceBuffer.front_epoch s.td.succ_callbacks in
    reclaim_all_possible (QuiescenceBuffer.size s.td.succ_callbacks)
      (synchronize_min_epoch front loaded) s

unfoldable pub reclaim : ℕ → List ℕ → State → State
unfolding reclaim_slow_path
reclaim sync_epoch loaded s =
    let (due, buffer) = QuiescenceBuffer.finalize_epoch s.td.succ_callbacks sync_epoch in
    let s' = record s { td = record (s.td) { succ_callbacks = buffer } } in
    if due then reclaim_slow_path loaded s' else s'

-- The destructor: a thread that ends reclaims every chunk.
unfoldable pub destroy : (ℕ → World → World) → State → State
unfolding reclaim_all
destroy others s =
    if not (QuiescenceBuffer.empty s.td.succ_callbacks) then reclaim_all others s else s

abbrev pub access_relock : ℕ → ThreadData → ThreadData
access_relock epoch td = record td { active = epoch }

abbrev pub epoch_less_equal_to : ThreadData → ℕ → Bool
epoch_less_equal_to td epoch = leb td.active epoch

unfoldable pub new : ThreadData
new = record {
  read_set = PodVector.new;
  write_set = WriteSet.new;
  fail_callbacks = PodVector.new;
  succ_callbacks = QuiescenceBuffer.new;
  tx_state = TxKind.none;
  active = off_state;
}
