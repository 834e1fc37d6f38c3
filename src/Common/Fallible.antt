-- ===== src/Common/Fallible.antt =====
-- What may stop: `none` is a failed assertion or behaviour that is undefined.
use mathlib.Core.Option.{Option, none, some}

abbrev pub and_then {ℓ κ} : {A : Type ℓ} {B : Type κ} → Option A → (A → Option B) → Option B
and_then none f = none
and_then (some a) f = f a
