-- ===== src/TxKind.antt =====
-- `enum class tx_kind` of include/lstm/thread_data.hpp.
pub data TxKind : Type 0 where
  none read_write read_only : TxKind
