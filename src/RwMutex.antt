-- ===== src/RwMutex.antt =====
-- `fast_rw_mutex` (include/lstm/detail/fast_rw_mutex.hpp), in small steps: each step of a thread is one
-- atomic operation on the word `read_count`, whose top bit is the writer's. A schedule says which
-- thread moves, what an idle thread calls, and whether a weak exchange fails for no reason.
pub mod Count
pub mod Moves
pub mod Laws
use lockfree_stm.Common.{
  ℕ, zero, suc, ◌+◌, ◌-◌, ◌*◌, ◌^◌, Bool, true, false, not, ◌&&◌, ◌||◌, List, [], ◌∷◌, none, some,
  ◌==◌, if◌then◌else◌, bit_and, bit_or, get_elem?, set, replicate,
}
use lockfree_stm.Common.Word.{add_word, sub_word}

abbrev pub write_bit : ℕ
write_bit = 2 ^ 63

-- `~write_bit`
abbrev pub read_mask : ℕ
read_mask = 2 ^ 63 - 1

unfoldable pub write_locked : ℕ → Bool
write_locked state = not (bit_and state write_bit == 0)

unfoldable pub read_locked : ℕ → Bool
read_locked state = not (bit_and state read_mask == 0)

-- Where a thread stands. `backing_out`: its increment met a writer. `waiting` and `loaded`: the loop of
-- `lock_shared_slow_path`, before and after its load. `requesting` and `requested`: the loop of
-- `request_write_lock`. `draining`: `wait_for_readers`, with the count that it last saw.
pub data Pc : Type 0 where
  idle backing_out waiting sharing requesting writing : Pc
  loaded requested draining : ℕ → Pc

pub record Choice : Type 0 where
  pub shared : Bool
  pub fails : Bool

-- `compare_exchange_weak`, and where the thread goes on success and on failure.
unfoldable pub compare_exchange_weak : Bool → ℕ → ℕ → ℕ → Pc → Pc → ℕ × Pc
compare_exchange_weak fails word expected desired won lost =
    if not fails && word == expected then (desired, won) else (word, lost)

unfoldable pub lock_shared : ℕ → ℕ × Pc
lock_shared word = (add_word word 1, if write_locked word then backing_out else sharing)

unfoldable pub lock : Bool → ℕ → ℕ × Pc
lock fails word = compare_exchange_weak fails word 0 write_bit writing requesting

unfoldable pub unlock_shared : ℕ → ℕ × Pc
unlock_shared word = (sub_word word 1, idle)

unfoldable pub unlock : ℕ → ℕ × Pc
unlock word = (bit_and word read_mask, idle)

-- One atomic operation of a thread at a place, by the operation that the place lies in.
unfoldable pub step : Choice → ℕ → Pc → ℕ × Pc
step c word idle = if c.shared then lock_shared word else lock c.fails word
step c word backing_out = (sub_word word 1, waiting)
step c word waiting = (word, loaded word)
step c word (loaded r) =
    if write_locked r
    then (word, waiting)
    else compare_exchange_weak c.fails word r (add_word r 1) sharing waiting
step c word sharing = unlock_shared word
step c word requesting = (word, requested word)
step c word (requested r) =
    if write_locked r
    then (word, requesting)
    else compare_exchange_weak c.fails word r (bit_or r write_bit) (draining r) requesting
step c word (draining r) = if read_locked r then (word, draining word) else (word, writing)
step c word writing = unlock word

pub record System : Type 0 where
  pub word : ℕ
  pub threads : List Pc

unfoldable pub step_at : ℕ × Choice → System → System
step_at (i, c) s = elim (get_elem? s.threads i) [
  | none ↦ s
  | some p ↦ let (word, q) = step c s.word p in record { word = word; threads = set s.threads i q }
]

unfoldable pub run : List (ℕ × Choice) → System → System
run [] s = s
run (m ∷ ms) s = run ms (step_at m s)

-- The mutex as constructed, and `n` threads outside it.
unfoldable pub start : ℕ → System
start n = record { word = 0; threads = replicate n idle }
