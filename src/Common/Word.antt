-- ===== src/Common/Word.antt =====
-- `uword`, `epoch_t` and `hash_t`: unsigned 64-bit integers (include/lstm/detail/lstm_fwd.hpp), kept
-- below `2 ^ 64`, with the wrap-around of `+`, `-` and `<<` written out. `word` is signed; of it only
-- numbers from 0 on occur.
use Prim.Native.Nat.{ℕ, ◌+◌, ◌-◌, ◌*◌, ◌%◌, ◌^◌}
use mathlib.Core.Option.{Option, none, some}
use lockfree_stm.Common.Tests.{ltb, if◌then◌else◌}

abbrev pub word_mod : ℕ
word_mod = 2 ^ 64

abbrev pub add_word : ℕ → ℕ → ℕ
add_word a b = (a + b) % 2 ^ 64

abbrev pub sub_word : ℕ → ℕ → ℕ
sub_word a b = (a + 2 ^ 64 - b) % 2 ^ 64

-- `a << 1`
abbrev pub double_word : ℕ → ℕ
double_word a = a * 2 % 2 ^ 64

-- The sum of two words that are not negative, where it does not overflow.
unfoldable pub add_signed : ℕ → ℕ → Option ℕ
add_signed a b = if ltb (a + b) (2 ^ 63) then some (a + b) else none
