-- ===== src/WriteSet/Hash.antt =====
-- `calcShift` and `dumb_reference_hash` of include/lstm/detail/pod_hash_set.hpp: one bit of 64,
-- chosen by the address of a variable.
use native.Mathlib.Nat.{pow-suc}
use lockfree_stm.Common.{ℕ, zero, suc, ◌+◌, ◌/◌, ◌%◌, ◌^◌, ◌<◌, ◌≡◌, arith, if◌then◌else◌, ltb}
use lockfree_stm.Common.Word.{sub_word}

-- `while (foo > 0) { foo >>= 1; ++l; }` on fuel.
shift_loop : ℕ → ℕ → ℕ → ℕ
shift_loop zero foo l = l
shift_loop (suc fuel) foo l =
    let rest = shift_loop fuel (foo / 2) (l + 1) in if ltb 0 foo then rest else l

-- A word takes at most 64 rounds to shift out.
unfoldable pub calc_shift : ℕ → ℕ
unfolding shift_loop
calc_shift align = sub_word (shift_loop 65 align 0) 1

unfoldable pub reference_hash : ℕ → ℕ → ℕ
reference_hash align address = 2 ^ (address / 2 ^ calc_shift align % 64)

-- `alignof(var_base)`, twice that of a word.
abbrev pub var_align : ℕ
var_align = 16

abbrev pub var_hash : ℕ → ℕ
var_hash x = reference_hash var_align x

pub pow_pos : (k : ℕ) → 0 < 2 ^ k
pow_pos zero = omega arith
pow_pos (suc k) = omega (arith, pow-suc 2 k, pow_pos k)

shift_loop-pow : (k fuel l : ℕ) → k + 1 < fuel → shift_loop fuel (2 ^ k) l ≡ l + k + 1
unfolding shift_loop
shift_loop-pow k zero l h = absurd (omega arith)
shift_loop-pow zero (suc zero) l h = absurd (omega arith)
shift_loop-pow zero (suc (suc fuel)) l h = omega arith
shift_loop-pow (suc k) (suc fuel) l h =
    let p : 2 ^ suc k / 2 ≡ 2 ^ k = omega (arith, pow-suc 2 k) in
    ground (arith, p, pow_pos (suc k), shift_loop-pow k fuel (l + 1))

-- At an alignment of `2 ^ k` bytes the shift is `k`, so the hash drops the bits that are always 0.
pub calc_shift-pow : (k : ℕ) → k < 64 → calc_shift (2 ^ k) ≡ k
unfolding calc_shift
calc_shift-pow k h = rw (shift_loop-pow k 65 0 (omega arith)) (omega arith)

pub reference_hash-pos : (align x : ℕ) → 0 < reference_hash align x
unfolding reference_hash
reference_hash-pos align x = pow_pos (x / 2 ^ calc_shift align % 64)
