-- ===== src/Machine.antt =====
-- The state that the operations of a transaction work on: the clock of the domain
-- (include/lstm/detail/transaction_domain.hpp), the shared variables (`var_base` of
-- include/lstm/detail/var_detail.hpp), the objects that heap variables point to, and the record that
-- a thread keeps (include/lstm/thread_data.hpp).
use lockfree_stm.Common.{ℕ, ◌+◌, ◌-◌, ◌^◌, Bool, List, [], ◌∷◌, ◌++◌, ◌==◌, bit_and, bit_or, not}
use lockfree_stm.Common.Update.{update}
use lockfree_stm.PodVector.{PodVector}
use lockfree_stm.WriteSet.{PodHashSet}
use lockfree_stm.QuiescenceBuffer.{QuiescenceBuffer}
use lockfree_stm.TxKind.{TxKind}

-- The callbacks that the library makes over a storage, and those of a client, by a number.
pub data Callback : Type 0 where
  destroy_deallocate : ℕ → Callback
  destroy : ℕ → Callback
  deallocate : ℕ → Callback
  closure : ℕ → Callback

pub record VarBase : Type 0 where
  pub version_lock : ℕ
  pub storage : ℕ

-- An allocated block holds a value or, before construction and after destruction, none.
pub data Block : Type 0 where
  free raw : Block
  object : ℕ → Block

-- The memory that threads share. `ran` lists the callbacks that have run, the oldest first.
pub record World : Type 0 where
  pub clock : ℕ
  pub var : ℕ → VarBase
  pub block : ℕ → Block
  pub next_block : ℕ
  pub ran : List Callback

-- `thread_data`. `active` is the epoch of its `synchronization_node`.
pub record ThreadData : Type 0 where
  pub read_set : PodVector ℕ
  pub write_set : PodHashSet
  pub fail_callbacks : PodVector Callback
  pub succ_callbacks : QuiescenceBuffer Callback
  pub tx_state : TxKind
  pub active : ℕ

pub record State : Type 0 where
  pub world : World
  pub td : ThreadData

-- How a piece of a transaction ends: with a value, by `throw tx_retry{}`, or by an exception of the
-- client's function. What it did to the state stays done in each case.
pub data Outcome {ℓ} (A : Type ℓ) : Type ℓ where
  value : A → Outcome A
  retry : Outcome A
  exception : ℕ → Outcome A

abbrev pub M {ℓ} : Type ℓ → Type ℓ
M A = State → Outcome A × State

abbrev pub bind_outcome {ℓ κ} :
    {A : Type ℓ} {B : Type κ} → Outcome A × State → (A → M B) → Outcome B × State
bind_outcome (value a, s) f = f a s
bind_outcome (retry, s) f = (retry, s)
bind_outcome (exception e, s) f = (exception e, s)

infixl 5 ◌>>=◌ ◌>>◌
abbrev pub ◌>>=◌ {ℓ κ} : {A : Type ℓ} {B : Type κ} → M A → (A → M B) → M B
◌>>=◌ m f s = bind_outcome (m s) f

abbrev pub ◌>>◌ {ℓ κ} : {A : Type ℓ} {B : Type κ} → M A → M B → M B
m >> k = m >>= λ _. k

abbrev pub pure {ℓ} : {A : Type ℓ} → A → M A
pure a s = (value a, s)

-- `off_state`, `lock_bit`, `locked` and `as_locked`.
abbrev pub off_state : ℕ
off_state = 2 ^ 64 - 1

abbrev pub lock_bit : ℕ
lock_bit = 2 ^ 63

unfoldable pub locked : ℕ → Bool
locked version = not (bit_and version lock_bit == 0)

unfoldable pub as_locked : ℕ → ℕ
as_locked version = bit_or version lock_bit

-- Running a callback: the destructors and the deallocator act on the block, a client's closure is
-- only recorded.
unfoldable pub run_callback : Callback → World → World
run_callback (destroy_deallocate p) w = record w {
  block = update w.block p Block.free;
  ran = w.ran ++ destroy_deallocate p ∷ [];
}
run_callback (destroy p) w = record w {
  block = update w.block p raw;
  ran = w.ran ++ destroy p ∷ [];
}
run_callback (deallocate p) w = record w {
  block = update w.block p Block.free;
  ran = w.ran ++ deallocate p ∷ [];
}
run_callback (closure k) w = record w { ran = w.ran ++ closure k ∷ [] }

unfoldable pub run_callbacks : List Callback → World → World
unfolding run_callback
run_callbacks [] w = w
run_callbacks (c ∷ cs) w = run_callbacks cs (run_callback c w)

-- `allocate` and `construct` of a heap variable: a fresh block that holds the value.
unfoldable pub allocate_construct : ℕ → World → ℕ × World
allocate_construct u w = (
  w.next_block,
  record w { block = update w.block w.next_block (object u); next_block = w.next_block + 1 },
)
