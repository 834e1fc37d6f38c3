-- ===== src/Common/Bits.antt =====
-- `&`, `|` and `^` on words at variables: when a conjunction is zero, and one bit set or cleared.
use Prim.Native.Nat.{
  ℕ, zero, suc, ◌+◌, ◌*◌, ◌/◌, ◌%◌, ◌^◌, ◌≤◌, ◌<◌, min, max, differ, bit_and, bit_or, bit_xor,
  digits, bitwise, bit_and-bitwise, bit_or-bitwise, bit_xor-bitwise,
}
use mathlib.Core.Path.{◌≡◌, refl}
use mathlib.Core.Logic.{◌↔◌}
use native.Mathlib.Nat.{pow-suc}
use native.Mathlib.Omega.{arith}

-- The fuel of the library's recursion on digits does not matter once it covers the first number.
module _ (z : ℕ → ℕ) (f : ℕ → ℕ → ℕ) where
  digits_fuel : (n m a b : ℕ) → a ≤ n → a ≤ m → digits z f n a b ≡ digits z f m a b
  digits_fuel (suc n) (suc m) (suc a) b p q =
      rw (digits_fuel n m (suc a / 2) (b / 2) (omega arith) (omega arith))
  digits_fuel zero (suc m) (suc a) b p q = absurd (omega arith)
  digits_fuel (suc n) zero (suc a) b p q = absurd (omega arith)
  digits_fuel zero zero (suc a) b p q = absurd (omega arith)
  digits_fuel zero zero zero b p q = refl
  digits_fuel zero (suc m) zero b p q = refl
  digits_fuel (suc n) zero zero b p q = refl
  digits_fuel (suc n) (suc m) zero b p q = refl

  low_digit :
      (a b : ℕ)
      → bitwise z f (suc a) b ≡ bitwise z f (suc a / 2) (b / 2) * 2 + f (suc a % 2) (b % 2)
  low_digit a b =
      omega (arith, digits_fuel a (suc a / 2) (suc a / 2) (b / 2) (omega arith) (omega arith))

pub or_digit : (a b : ℕ) → bit_or a b ≡ bit_or (a / 2) (b / 2) * 2 + max (a % 2) (b % 2)
or_digit zero b = simp bit_or-bitwise (omega arith)
or_digit (suc a) b = simp bit_or-bitwise (low_digit (λ y. y) max a b)

pub and_digit : (a b : ℕ) → bit_and a b ≡ bit_and (a / 2) (b / 2) * 2 + min (a % 2) (b % 2)
and_digit zero b = simp bit_and-bitwise (omega arith)
and_digit (suc a) b = simp bit_and-bitwise (low_digit (λ y. 0) min a b)

pub xor_digit : (a b : ℕ) → bit_xor a b ≡ bit_xor (a / 2) (b / 2) * 2 + differ (a % 2) (b % 2)
xor_digit zero b = simp bit_xor-bitwise (omega arith)
xor_digit (suc a) b = simp bit_xor-bitwise (low_digit (λ y. y) differ a b)

zero-bit_and : (b : ℕ) → bit_and 0 b ≡ 0
zero-bit_and b = bit_and-bitwise 0 b

zero-bit_or : (b : ℕ) → bit_or 0 b ≡ b
zero-bit_or b = bit_or-bitwise 0 b

-- A mask misses a union exactly when it misses both parts.
and-or_fuel :
    (n a b m : ℕ)
    → a + b ≤ n
    → (bit_and (bit_or a b) m ≡ 0) ↔ ((bit_and a m ≡ 0) × (bit_and b m ≡ 0))
and-or_fuel zero zero zero m h = ground (arith, zero-bit_and m)
and-or_fuel zero zero (suc b) m h = absurd (omega arith)
and-or_fuel zero (suc a) b m h = absurd (omega arith)
and-or_fuel (suc n) zero b m h = rw zero-bit_or (ground (arith, zero-bit_and m))
and-or_fuel (suc n) (suc a) b m h =
    let a' : ℕ = suc a in
    let ih = and-or_fuel n (a' / 2) (b / 2) (m / 2) (omega arith) in
    ground (arith, ih, or_digit a' b, and_digit (bit_or a' b) m, and_digit a' m, and_digit b m)

pub and-or : (a b m : ℕ) → (bit_and (bit_or a b) m ≡ 0) ↔ ((bit_and a m ≡ 0) × (bit_and b m ≡ 0))
and-or a b m = and-or_fuel (a + b) a b m (omega arith)

and_self_fuel : (n a : ℕ) → a ≤ n → bit_and a a ≡ a
and_self_fuel n zero h = zero-bit_and 0
and_self_fuel zero (suc a) h = absurd (omega arith)
and_self_fuel (suc n) (suc a) h =
    omega (arith, and_digit (suc a) (suc a), and_self_fuel n (suc a / 2) (omega arith))

pub and_self : (a : ℕ) → bit_and a a ≡ a
and_self a = and_self_fuel a a (omega arith)

and_none_fuel : (n a : ℕ) → a ≤ n → bit_and a 0 ≡ 0
and_none_fuel n zero h = zero-bit_and 0
and_none_fuel zero (suc a) h = absurd (omega arith)
and_none_fuel (suc n) (suc a) h =
    omega (arith, and_digit (suc a) 0, and_none_fuel n (suc a / 2) (omega arith))

pub and_none : (a : ℕ) → bit_and a 0 ≡ 0
and_none a = and_none_fuel a a (omega arith)

-- One bit of weight `2 ^ k` over a number below it.
pub record IsTopBit (k a : ℕ) : Type 0 where
  pub and_clear : bit_and a (2 ^ k) ≡ 0
  pub and_set : bit_and (a + 2 ^ k) (2 ^ k) ≡ 2 ^ k
  pub or_clear : bit_or a (2 ^ k) ≡ a + 2 ^ k
  pub xor_set : bit_xor (a + 2 ^ k) (2 ^ k) ≡ a

differ-zero : (b : ℕ) → b < 2 → differ b 0 ≡ b
differ-zero zero h = refl
differ-zero (suc zero) h = refl
differ-zero (suc (suc b)) h = absurd (omega arith)

IsTopBit-step :
    (k a : ℕ) → a < 2 ^ suc k → (2 ^ suc k ≡ 2 ^ k * 2) → IsTopBit k (a / 2) → IsTopBit (suc k) a
IsTopBit-step k a h p b =
    let two : ℕ = 2 ^ suc k in
    let low : a % 2 < 2 = omega arith in
    let half : two / 2 ≡ 2 ^ k = omega arith in
    let halves : (a + two) / 2 ≡ a / 2 + 2 ^ k = omega arith in
    let same : (a + two) % 2 ≡ a % 2 = omega arith in
    let even : two % 2 ≡ 0 = omega arith in
    record {
      and_clear = rw (and_digit a two, half, b.and_clear, even) (omega arith);
      and_set = rw (and_digit (a + two) two, half, halves, b.and_set, even) (omega arith);
      or_clear = rw (or_digit a two, half, b.or_clear, even) (ground arith);
      xor_set =
          rw (xor_digit (a + two) two, half, halves, b.xor_set, same, even)
            (omega (arith, differ-zero (a % 2) low));
    }

pub bit_at : (k a : ℕ) → a < 2 ^ k → IsTopBit k a
bit_at zero a h =
    let z : a ≡ 0 = omega arith in
    rw z (record { and_clear = refl; and_set = refl; or_clear = refl; xor_set = refl })
bit_at (suc k) a h =
    let p : 2 ^ suc k ≡ 2 ^ k * 2 = pow-suc 2 k in
    IsTopBit-step k a h p (bit_at k (a / 2) (omega arith))
