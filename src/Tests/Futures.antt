-- ===== src/Tests/Futures.antt =====
-- A future that gets its value.
use lockfree_stm.Common.{ℕ, ◌≡◌, true, some, none}
use lockfree_stm.PrivatizedFuture
use lockfree_stm.PrivatizedFuture.{FutureData, Got, set_value, set_exception, set-asserts}

abbrev waiting : FutureData ℕ
waiting = PrivatizedFuture.new

set-asserts_example :
    (set_value true 7 waiting ≡ none) × (set_exception true (some 3) waiting ≡ none)
set-asserts_example = set-asserts waiting 7 (some 3)
