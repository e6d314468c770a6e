-- ===== src/Bits/Single.antt =====
-- Setting, clearing and testing one bit of a word, and the concatenation of two words.
use native.Mathlib.Nat.{pow-suc, pow-le-pow_right, mod-eq_of_lt}
use ymirc.Prelude.{ℕ, suc, ◌+◌, ◌*◌, ◌/◌, ◌%◌, ◌^◌, ◌<◌, bit_and, bit_or}
use ymirc.Prelude.{◌≡◌, not, ◌&&◌, ◌||◌, arith, ◌==◌}
use ymirc.Prelude.{shr, shl, not_64, truth}
use ymirc.Prelude.{bit, bit-lt_two, bit-pow, bit_eq_div, bit-bit_and, bit-bit_or, bit-complement}
use ymirc.Prelude.{bit_and-pow, bit_and-ones, bit_or-add, pow_pos}
use ymirc.Bits.{tobit, isset, concat_64}

pow_below : (n w : ℕ) → n < w → 2 ^ n < 2 ^ w
pow_below n w h =
    omega (arith, pow-le-pow_right {n = 2} (omega arith) {i = suc n} h, pow-suc 2 n, pow_pos n)

pub tobit-eq-pow : (n : ℕ) → n < 64 → tobit n ≡ 2 ^ n
unfolding tobit
tobit-eq-pow n h = ground (
  arith,
  pow_below n 64 h,
  mod-eq_of_lt {n = 1 * 2 ^ n} {m = 2 ^ 64} (omega (arith, pow_below n 64 h)),
)

pub isset-eq-bit : (v n : ℕ) → n < 64 → isset v n ≡ (bit v n == 1)
unfolding isset
isset-eq-bit v n h = ground (arith, bit_and-ones 1 (shr v n), bit_eq_div v n, bit-lt_two v n)

-- `v & tobit(n)` as a condition is `isset`.
pub truth-bit_and-tobit : (v n : ℕ) → n < 64 → truth (bit_and v (tobit n)) ≡ isset v n
truth-bit_and-tobit v n h =
    rw (tobit-eq-pow n h, isset-eq-bit v n h, bit_and-pow n v) (by_value (bit v n) (bit-lt_two v n))
  where
    by_value : (b : ℕ) → b < 2 → truth (b * 2 ^ n) ≡ (b == 1)
    by_value b lt = grind (arith, pow_pos n)

-- `v | tobit(k)` has bit `k` set and every other bit as in `v`, for places below 64.
pub isset-set : (v k i : ℕ) → k < 64 → i < 64 → isset (bit_or v (tobit k)) i ≡ (k == i || isset v i)
isset-set v k i hk hi =
    rw (tobit-eq-pow k hk, isset-eq-bit _ i hi, isset-eq-bit v i hi)
      (ground (arith, bit-bit_or v (2 ^ k) i, bit-pow k i, bit-lt_two v i))

-- `v & ~tobit(k)` has bit `k` clear and every other bit as in `v`, for places below 64.
pub isset-clear :
    (v k i : ℕ)
    → k < 64
    → i < 64
    → isset (bit_and v (not_64 (tobit k))) i ≡ (not (k == i) && isset v i)
isset-clear v k i hk hi =
    rw (tobit-eq-pow k hk, isset-eq-bit _ i hi, isset-eq-bit v i hi)
      (ground (
        arith,
        bit-bit_and v (not_64 (2 ^ k)) i,
        bit-complement 64 (2 ^ k) i (pow_below k 64 hk) hi,
        bit-pow k i,
        bit-lt_two v i,
      ))

-- The upper half of `concat_64(a, b)` is the low half of `a`, its lower half the low half of `b`.
pub concat_64_halves :
    (a b : ℕ) → (concat_64 a b / 2 ^ 32 ≡ a % 2 ^ 32) × (concat_64 a b % 2 ^ 32 ≡ b % 2 ^ 32)
unfolding concat_64
concat_64_halves a b = omega (arith, joined)
  where
    low : bit_and b 0xFFFFFFFF ≡ b % 2 ^ 32
    low = bit_and-ones 32 b

    high : bit_and a 0xFFFFFFFF ≡ a % 2 ^ 32
    high = bit_and-ones 32 a

    shifted : shl (bit_and a 0xFFFFFFFF) 32 ≡ a % 2 ^ 32 * 2 ^ 32
    shifted = rw high (omega arith)

    joined : concat_64 a b ≡ a % 2 ^ 32 * 2 ^ 32 + b % 2 ^ 32
    joined = rw (shifted, low) (bit_or-add 32 (a % 2 ^ 32) (b % 2 ^ 32) (omega arith))
