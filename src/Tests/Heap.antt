-- ===== src/Tests/Heap.antt =====
-- Writes of heap variables, without and with a stateful allocator.
use lockfree_stm.Common.{◌≡◌, refl, true, bit_and, bit_or}
use lockfree_stm.PodVector
use lockfree_stm.WriteSet
use lockfree_stm.QuiescenceBuffer
use lockfree_stm.WriteSet.Hash.{var_hash, reference_hash, calc_shift}
use lockfree_stm.ThreadData
use lockfree_stm.Machine.{value}
use lockfree_stm.Transaction.{HeapVar, rw_valid, storage_of, rw_write, rw_read_base}
use lockfree_stm.Transaction.HeapWrites.{Reads, is_fast, rw_write-Reads, rw_write-stale}
use lockfree_stm.Tests.{fresh, fresh-IsValid, fresh-Room, tx, version_2}

abbrev plain : HeapVar
plain = record { base = 32; self = 32; align = 16 }

same_hash : reference_hash 16 32 ≡ var_hash 32
same_hash = refl

rw_write-Reads_example :
    ((rw_write tx plain 9 fresh).0 ≡ value tt) × Reads tx 32 9 (rw_write tx plain 9 fresh).1
rw_write-Reads_example =
    rw_write-Reads tx plain 9 fresh fresh-IsValid fresh-Room same_hash version_2

-- The allocator's state stands in the first 16 bytes of the variable.
abbrev with_state : HeapVar
with_state = record { base = 48; self = 32; align = 16 }

takes_fast : is_fast tx with_state fresh ≡ true
unfolding rw_valid ThreadData.new PodVector.new WriteSet.new QuiescenceBuffer.new
    PodVector.allocates_on_next_push reference_hash calc_shift
takes_fast = refl

apart : bit_and (bit_or fresh.td.write_set.filter (reference_hash 16 32)) (var_hash 48) ≡ 0
unfolding ThreadData.new WriteSet.new reference_hash calc_shift
apart = refl

rw_write-stale_example :
    ((rw_write tx with_state 9 fresh).0 ≡ value tt)
    × ((rw_read_base tx 48 (rw_write tx with_state 9 fresh).1).0 ≡ value (storage_of fresh 48))
rw_write-stale_example = rw_write-stale tx with_state 9 fresh takes_fast apart
