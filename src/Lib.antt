-- ===== src/Lib.antt =====
-- A model of lockfree-stm, a software transactional memory of header files (include/lstm), with the
-- theorems that make it correct.
--
-- A thread keeps a record (`thread_data`) of the variables that the running transaction has read and
-- written, and the callbacks that wait for its end. A variable holds a word and a version, whose top
-- bit is a lock. A transaction takes the clock of the domain as its version, reads variables that are
-- no newer, keeps its writes aside, and at its end locks the variables to write, tests those that it
-- read, stores, bumps the clock and publishes the new version. What it replaced is freed after every
-- section that could still see it has ended.
--
-- The parts, by file:
--   Common.antt and Common/: names of the libraries, tests on numbers, lists, functions changed at a
--     point, machine words of 64 bits.
--   PodVector.antt: include/lstm/detail/pod_vector.hpp. Laws: its invariant.
--   WriteSet.antt: include/lstm/detail/pod_hash_set.hpp, write_set_value_type.hpp and
--     write_set_lookup.hpp. Hash: `calcShift` and `dumb_reference_hash`. Entries and Filter: the
--     entries as a map, and the Bloom filter.
--   QuiescenceBuffer.antt: include/lstm/detail/quiescence_buffer.hpp. Wrap and Ring: its indices, and
--     its elements as a list; Layout, Queue, Run and Newest: the ring as a queue of chunks.
--   TxKind.antt and Machine.antt: the state, that is the record of a thread and the shared memory,
--     and how a piece of a transaction ends.
--   ThreadData.antt: include/lstm/thread_data.hpp, and the wait for a grace period of
--     include/lstm/detail/thread_synchronization.hpp. Epoch and
--     Reclaim: the least epoch found, and the loop of reclamation.
--   Transaction.antt: include/lstm/detail/transaction_base.hpp. Reads, Writes and
--     HeapWrites: its laws.
--   Commit.antt: include/lstm/detail/commit_algorithm.hpp and transaction_domain.hpp. Modify, Locks
--     and Reads: its loops; Spec: the specification of a commit.
--   Atomic.antt: include/lstm/detail/atomic_base.hpp, read_write.hpp, read_only.hpp, relative.hpp and
--     atomic.hpp of include/lstm. Loop: the retry loop; Finish: a failed attempt.
--   RwMutex.antt: include/lstm/detail/fast_rw_mutex.hpp, in small steps of many threads. Count, Moves
--     and Laws: its invariant.
--   Epochs.antt: include/lstm/detail/thread_synchronization.hpp, in small steps of many threads. Grace
--     and Steps: the grace period; Alive, Owners, Removal, Listing and Locking: the list under a scan.
--   Var.antt: include/lstm/var.hpp and include/lstm/detail/var_detail.hpp, with the reads and writes of
--     transaction_base.hpp for a type. Access: what a client of a variable relies on.
--   Protocol.antt: transactions of many threads, interleaved at the atomic operations of
--     transaction_base.hpp and commit_algorithm.hpp. Invariant: what holds between the moves; Frame,
--     Steps, Reading, Committing, Storing and Bump: every move keeps it; Kept: a commit forgets none
--     of its reads; Safety: every schedule.
--   Memory.antt: include/lstm/memory.hpp. Undo: a transaction that fails.
--   Rbtree.antt: include/lstm/containers/rbtree.hpp. Insert, Erase and Clear: its operations; Lookup
--     and Climb: its loops down and up the tree; Rotate, Focus, Above, Order and Mirror: a
--     rotation in a whole tree; Balance, Recolor, Paint, Turns, Repair, Cases, Family, Ascent,
--     Insertion, Attach, Link, Keys, Sorted, Distinct and Emplace: insertion keeps a red-black search
--     tree; Verified: its debug check passes; Freed: what the end of a tree frees; Verify: its debug check.
--   LinkedList.antt: include/lstm/containers/list.hpp. Nodes: its nodes in memory.
--   PrivatizedFuture.antt: include/lstm/privatized_future.hpp.
--   Tests.antt and Tests/: the theorems at concrete inputs.
--
-- Words are natural numbers below 2 ^ 64, and the sums and differences that can wrap are written with
-- the remainder (Common/Word.antt). Addresses are numbers; memory is a function from them. A loop over
-- a range is a recursion on its list or on what is left of it. `calcShift` runs on fuel 65, one round
-- more than a word has bits (calc_shift-pow). The retry loop runs over a list of rounds, each with what
-- other threads did before it, and the loops of reclamation on the number of elements of the ring,
-- each chunk having its header at least. The loop in which a thread that ends waits for a grace period
-- is that of Epochs.antt; in ThreadData.antt it is a function that says what the other threads do
-- meanwhile.
--
-- The loops of the tree run on fuel too: a search with more than the height of the tree, the repair of
-- an insertion with more than the depth of the node, the end of a tree with the number of its nodes.
--
-- The mutex is interleaved at each atomic operation, and so are the sections with those who wait
-- for them, where a mutex is what it promises: held by one thread, shared, or free. Transactions
-- are modelled twice: in the detail of their sets, filters and vectors, each read, write and
-- commit with no other thread in between (Transaction.antt, Commit.antt); and with their sets as
-- lists, interleaved at the atomic operations on the clock, a version lock or a storage, the load
-- and the store of `unlock` on a locked variable being one (Protocol.antt). The tree and the list
-- read and write one memory, as a transaction lets them; a pointer is a number, and reading
-- through null gives what the memory holds at 0. Not modelled: orders of memory, the cost of
-- waiting, the counters of perf_stats.hpp, allocators that throw, the operators of easy_var.hpp,
-- and the hardware transactions of htm.hpp.
pub mod Common
pub mod PodVector
pub mod WriteSet
pub mod QuiescenceBuffer
pub mod TxKind
pub mod Machine
pub mod ThreadData
pub mod Transaction
pub mod Commit
pub mod Atomic
pub mod RwMutex
pub mod Epochs
pub mod LinkedList
pub mod Memory
pub mod PrivatizedFuture
pub mod Protocol
pub mod Rbtree
pub mod Tests
pub mod Var
