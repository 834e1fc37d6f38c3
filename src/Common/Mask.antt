-- ===== src/Common/Mask.antt =====
-- `&` with a mask of low bits is a remainder.
use Prim.Native.Nat.{ℕ, zero, suc, ◌+◌, ◌-◌, ◌*◌, ◌/◌, ◌%◌, ◌^◌, ◌<◌, bit_and}
use mathlib.Core.Path.{◌≡◌, ap}
use native.Mathlib.Nat.{pow-suc, one-le-pow}
use native.Mathlib.Omega.{arith}
use lockfree_stm.Common.Bits.{and_digit, and_none}

-- The low `k` bits of `q * 2 ^ k + r`.
and_low : (k q r : ℕ) → r < 2 ^ k → bit_and (q * 2 ^ k + r) (2 ^ k - 1) ≡ r
and_low zero q r h = rw (and_none (q * 2 ^ 0 + r)) (omega arith)
and_low (suc k) q r h =
    let two : q * 2 ^ suc k ≡ (q * 2 ^ k) * 2 =
      omega (arith, ap (λ (t : ℕ). q * t) (pow-suc 2 k)) in
    ground (
      arith,
      two,
      pow-suc 2 k,
      one-le-pow k 2,
      and_digit (q * 2 ^ suc k + r) (2 ^ suc k - 1),
      and_low k q (r / 2) (omega (arith, pow-suc 2 k)),
    )

pub and_mask : (k a : ℕ) → bit_and a (2 ^ k - 1) ≡ a % 2 ^ k
and_mask k a = ground (arith, one-le-pow k 2, and_low k (a / 2 ^ k) (a % 2 ^ k))
