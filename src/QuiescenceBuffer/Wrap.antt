-- ===== src/QuiescenceBuffer/Wrap.antt =====
-- Indices of the ring: `wrap` of what the operations pass to it, as a step round the ring. The
-- capacity is `c`, a power of two.
use Prim.Native.Nat.{◌∣◌}
use native.Mathlib.Nat.{
  mod-mod_of_dvd, mod-eq-zero_of_dvd, mod-eq-sub-mod, mod-eq_of_lt, mod-lt, add-mod, mod-add-mod,
  pow-suc, dvd_refl, dvd-mul_right_of_dvd, one-le-pow, pow-le-pow_right,
}
use lockfree_stm.Common.{
  ℕ, zero, suc, ◌+◌, ◌-◌, ◌*◌, ◌%◌, ◌^◌, ◌≤◌, ◌<◌, ◌≡◌, ◌≢◌, sym, ap, ◌∙◌, ltb, leb, if◌then◌else◌,
  bit_and, arith, Bool-cases, inl, inr,
}
use lockfree_stm.Common.Mask.{and_mask}
use lockfree_stm.Common.Word.{add_word, sub_word}

-- The index `i` places after `b`.
unfoldable pub slot : ℕ → ℕ → ℕ → ℕ
slot c b i = if ltb (b + i) c then b + i else b + i - c

pub slot-lt : (c b i : ℕ) → b < c → i ≤ c → slot c b i < c
unfolding slot
slot-lt c b i h k = ground arith

pub slot_inj : (c b i j : ℕ) → b < c → i < j → j < c → slot c b i ≢ slot c b j
unfolding slot
slot_inj c b i j h k l = λ e. ground arith

pub slot_start : (c i : ℕ) → i < c → slot c 0 i ≡ i
unfolding slot
slot_start c i h = ground arith

pub slot_ne : (c b i j : ℕ) → b < c → i ≢ j → i < c → j < c → slot c b i ≢ slot c b j
slot_ne c b i j h n k l = elim (Bool-cases (ltb i j)) [
  | inl t ↦ slot_inj c b i j h (ground arith) l
  | inr t ↦ λ e. slot_inj c b j i h (ground arith) k (sym e)
]

pub slot-slot : (c b i j : ℕ) → b < c → i < c → i + j ≤ c → slot c (slot c b i) j ≡ slot c b (i + j)
unfolding slot
slot-slot c b i j h k l = ground arith

pub mod-slot : (c b i : ℕ) → b < c → i ≤ c → (b + i) % c ≡ slot c b i
unfolding slot
mod-slot c b i h k = elim (Bool-cases (ltb (b + i) c)) [
  | inl l ↦ let lt : b + i < c = ground arith in ground (arith, mod-eq_of_lt lt)
  | inr l ↦
      let le : c ≤ b + i = ground arith in
      let lt : b + i - c < c = ground arith in ground (arith, mod-eq-sub-mod le, mod-eq_of_lt lt)
]

pub slot_zero : (c b : ℕ) → b < c → slot c b 0 ≡ b
unfolding slot
slot_zero c b h = ground arith

pow-dvd : (k n : ℕ) → k ≤ n → 2 ^ k ∣ 2 ^ n
pow-dvd k zero h = let e : k ≡ 0 = omega arith in rw e (dvd_refl (2 ^ 0))
pow-dvd k (suc n) h = elim (Bool-cases (leb k n)) [
  | inl l ↦ rw (pow-suc 2 n) (dvd-mul_right_of_dvd (2 ^ k) (pow-dvd k n (ground arith)) 2)
  | inr l ↦ let e : k ≡ suc n = ground arith in rw e (dvd_refl (2 ^ suc n))
]

-- The capacity `c` of a ring.
pub record IsCapacity (c : ℕ) : Type 0 where
  pub bits : ℕ
  pub power : c ≡ 2 ^ bits
  pub small : bits < 63

pub pos : (c : ℕ) → IsCapacity c → 0 < c
pos c h = rw h.power (omega (arith, one-le-pow h.bits 2))

pub small : (c : ℕ) → IsCapacity c → c ≤ 2 ^ 62
small c h =
    let one : 0 < 2 = omega arith in
    rw h.power (pow-le-pow_right one {j = 62} (omega (arith, h.small)))

dvd-word : (c : ℕ) → IsCapacity c → c ∣ 2 ^ 64
dvd-word c h = rw h.power (pow-dvd h.bits 64 (omega (arith, h.small)))

-- `& (capacity - 1)` is the remainder by the capacity.
pub and-capacity : (c x : ℕ) → IsCapacity c → bit_and x (c - 1) ≡ x % c
and-capacity c x h = rw h.power (and_mask h.bits x)

-- A word that is one more lies one place further round the ring.
pub mod-add_word :
    (c b i w : ℕ)
    → IsCapacity c
    → b < c
    → i < c
    → w % c ≡ slot c b i
    → add_word w 1 % c ≡ slot c b (i + 1)
mod-add_word c b i w h k l e =
    let lt : slot c b i < c = slot-lt c b i k (omega arith) in
    rw (mod-mod_of_dvd c (w + 1) (dvd-word c h), sym (mod-add-mod w c 1), e)
      (mod-slot c (slot c b i) 1 lt (omega arith) ∙ slot-slot c b i 1 k l (omega arith))

slot_distance :
    (c b i j y : ℕ)
    → b < c
    → j ≤ i
    → i < c + j
    → i ≤ c
    → y < c
    → slot c y (slot c b j) ≡ slot c b i
    → y ≡ i - j
unfolding slot
slot_distance c b i j y k l m n o e = ground arith

-- What is subtracted comes back, modulo the capacity.
sub_mod : (c a w : ℕ) → IsCapacity c → a < c → (sub_word w a % c + a) % c ≡ w % c
sub_mod c a w h k =
    let low : a < 2 ^ 63 = omega (arith, small c h) in
    let back : w + 2 ^ 64 - a + a ≡ w + 2 ^ 64 = omega arith in
    let none : 2 ^ 64 % c ≡ 0 = mod-eq-zero_of_dvd c (dvd-word c h) in
    let lt : w % c < c = mod-lt w (pos c h) in
    let same : (w % c + 0) % c ≡ slot c (w % c) 0 = mod-slot c (w % c) 0 lt (omega arith) in
    rw (mod-mod_of_dvd c (w + 2 ^ 64 - a) (dvd-word c h), mod-add-mod (w + 2 ^ 64 - a) c a, back)
      (add-mod w (2 ^ 64) c ∙ rw none (same ∙ slot_zero c (w % c) lt))

-- The distance from `j` places after `b` to `i` places after `b`.
pub mod-sub_word :
    (c b i j w : ℕ)
    → IsCapacity c
    → b < c
    → j ≤ i
    → i < c + j
    → i ≤ c
    → w % c ≡ slot c b i
    → sub_word w (slot c b j) % c ≡ i - j
mod-sub_word c b i j w h k l m n e =
    let a = slot c b j in
    let la : a < c = slot-lt c b j k (omega arith) in
    let y = sub_word w a % c in
    let ly : y < c = mod-lt (sub_word w a) (pos c h) in
    let same : slot c y a ≡ slot c b i =
      sym (mod-slot c y a ly (omega arith)) ∙ sub_mod c a w h la ∙ e in
    slot_distance c b i j y k l m n ly same

pub mod-sub_begin :
    (c b i w : ℕ) → IsCapacity c → b < c → i < c → w % c ≡ slot c b i → sub_word w b % c ≡ i
mod-sub_begin c b i w h k l e =
    ap (λ a. sub_word w a % c) (sym (slot_zero c b k))
    ∙ mod-sub_word c b i 0 w h k (omega arith) (omega arith) (omega arith) e
    ∙ omega arith

slot_back :
    (c b o m y : ℕ) → b < c → m ≤ o → o < c → y < c → slot c y m ≡ slot c b o → y ≡ slot c b (o - m)
unfolding slot
slot_back c b o m y h k l n e = ground arith

-- `m` places before `o` places after `b`.
pub mod-sub_back :
    (c b o m w : ℕ)
    → IsCapacity c
    → b < c
    → m ≤ o
    → o < c
    → w ≡ slot c b o
    → sub_word w m % c ≡ slot c b (o - m)
mod-sub_back c b o m w h k l n e =
    let y = sub_word w m % c in
    let ly : y < c = mod-lt (sub_word w m) (pos c h) in
    let lw : slot c b o < c = slot-lt c b o k (omega arith) in
    let same : slot c y m ≡ slot c b o =
      sym (mod-slot c y m ly (omega arith))
      ∙ sub_mod c m w h (omega arith)
      ∙ ap (λ k. k % c) e
      ∙ mod-eq_of_lt lw in
    slot_back c b o m y k l n ly same

pub double-IsCapacity : (c : ℕ) → IsCapacity c → c < 2 ^ 62 → IsCapacity (c * 2)
double-IsCapacity c h l =
    let ne : h.bits ≢ 62 = λ q. omega (arith, l, h.power, ap (λ (n : ℕ). 2 ^ n) q) in
    record {
      bits = suc h.bits;
      power = omega (arith, h.power, pow-suc 2 h.bits);
      small = ground (arith, h.small, ne);
    }
