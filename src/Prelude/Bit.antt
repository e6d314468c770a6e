-- ===== src/Prelude/Bit.antt =====
-- The bits of a number, and what the bitwise operations, shifts and complements do to each.
use Prim.Native.Nat.{ℕ, zero, suc, ◌+◌, ◌-◌, ◌*◌, ◌/◌, ◌%◌, ◌^◌, ◌≤◌, ◌<◌, min, max}
use Prim.Native.Nat.{bit_and, bit_or, bit_and-bitwise}
use mathlib.Core.Path.{◌≡◌, refl, sym, ap, ap₂, ◌∙◌}
use native.Mathlib.Nat.{
  pow-suc, pow-succ', div-div-eq-div-mul, one-le-pow, mul-div_cancel, div-add-mod,
}
use native.Mathlib.Omega.{arith}
use ymirc.Prelude.Digit.{bit_and_digit, bit_or_digit}
use ymirc.Prelude.Tests.{◌==◌, if◌then◌else◌}

-- Bit `i` of `x`, 0 or 1.
unfoldable pub bit : ℕ → ℕ → ℕ
bit x zero = x % 2
bit x (suc i) = bit (x / 2) i

pub bit-lt_two : (x i : ℕ) → bit x i < 2
unfolding bit
bit-lt_two x zero = omega arith
bit-lt_two x (suc i) = bit-lt_two (x / 2) i

pub bit-zero : (i : ℕ) → bit 0 i ≡ 0
unfolding bit
bit-zero zero = refl
bit-zero (suc i) = bit-zero i

pub bit_eq_div : (x i : ℕ) → bit x i ≡ x / 2 ^ i % 2
unfolding bit
bit_eq_div x zero = omega arith
bit_eq_div x (suc i) = rw (pow-succ' 2 i, ← div-div-eq-div-mul x 2 (2 ^ i)) (bit_eq_div (x / 2) i)

pub bit-bit_and : (x y i : ℕ) → bit (bit_and x y) i ≡ min (bit x i) (bit y i)
unfolding bit
bit-bit_and x y zero = omega (arith, bit_and_digit x y)
bit-bit_and x y (suc i) =
    ap (λ t. bit t i) (omega (arith, bit_and_digit x y)) ∙ bit-bit_and (x / 2) (y / 2) i

pub bit-bit_or : (x y i : ℕ) → bit (bit_or x y) i ≡ max (bit x i) (bit y i)
unfolding bit
bit-bit_or x y zero = omega (arith, bit_or_digit x y)
bit-bit_or x y (suc i) =
    ap (λ t. bit t i) (omega (arith, bit_or_digit x y)) ∙ bit-bit_or (x / 2) (y / 2) i

pub pow_pos : (k : ℕ) → 0 < 2 ^ k
pow_pos k = one-le-pow k 2 (omega arith)

bit-half : (x k i : ℕ) → bit (x / 2) (k + i) ≡ bit x (suc k + i)
bit-half x k i = let e : suc k + i ≡ suc (k + i) = omega arith in rw e (unfold bit in refl)

pub bit-div_pow : (k x i : ℕ) → bit (x / 2 ^ k) i ≡ bit x (k + i)
bit-div_pow zero x i = ap₂ bit {x = x / 1} {y = x} {u = i} {v = 0 + i} (omega arith) (omega arith)
bit-div_pow (suc k) x i =
    rw (pow-succ' 2 k, ← div-div-eq-div-mul x 2 (2 ^ k), bit-div_pow k (x / 2) i) (bit-half x k i)

pub bit-mul_pow_high : (k x i : ℕ) → bit (x * 2 ^ k) (k + i) ≡ bit x i
bit-mul_pow_high k x i =
    sym (bit-div_pow k (x * 2 ^ k) i) ∙ ap (λ t. bit t i) (mul-div_cancel x (pow_pos k))

pub bit-mul_pow_low : (k x i : ℕ) → i < k → bit (x * 2 ^ k) i ≡ 0
unfolding bit
bit-mul_pow_low zero x i h = absurd (omega arith)
bit-mul_pow_low (suc k) x zero h = omega (arith, ap (λ (t : ℕ). x * t) (pow-suc 2 k))
bit-mul_pow_low (suc k) x (suc i) h =
    ap (λ t. bit t i) (omega (arith, ap (λ (t : ℕ). x * t) (pow-suc 2 k)))
    ∙ bit-mul_pow_low k x i (omega arith)

pub bit-pow : (k i : ℕ) → bit (2 ^ k) i ≡ (if k == i then 1 else 0)
unfolding bit
bit-pow zero zero = refl
bit-pow zero (suc i) = bit-zero i ∙ ground arith
bit-pow (suc k) zero =
    let even : 2 ^ suc k % 2 ≡ 0 = omega (arith, pow-suc 2 k) in even ∙ ground arith
bit-pow (suc k) (suc i) =
    ap (λ t. bit t i) (omega (arith, pow-suc 2 k)) ∙ bit-pow k i ∙ ground arith

pub bit_of_lt : (w x i : ℕ) → x < 2 ^ w → w ≤ i → bit x i ≡ 0
unfolding bit
bit_of_lt zero x i h le = ap (λ t. bit t i) (omega arith) ∙ bit-zero i
bit_of_lt (suc w) x zero h le = absurd (omega arith)
bit_of_lt (suc w) x (suc i) h le = bit_of_lt w (x / 2) i (omega (arith, pow-suc 2 w)) (omega arith)

pub bit-complement : (w x i : ℕ) → x < 2 ^ w → i < w → bit (2 ^ w - 1 - x) i ≡ 1 - bit x i
unfolding bit
bit-complement zero x i h lt = absurd (omega arith)
bit-complement (suc w) x zero h lt = omega (arith, pow-suc 2 w)
bit-complement (suc w) x (suc i) h lt =
    ap (λ t. bit t i) (omega (arith, pow-suc 2 w))
    ∙ bit-complement w (x / 2) i (omega (arith, pow-suc 2 w)) (omega arith)

-- The bits below `w` determine a number below `2 ^ w`.
pub bit_ext : (w x y : ℕ) → x < 2 ^ w → y < 2 ^ w → ((i : ℕ) → i < w → bit x i ≡ bit y i) → x ≡ y
unfolding bit
bit_ext zero x y hx hy same = omega arith
bit_ext (suc w) x y hx hy same = omega (
  arith,
  bit_ext w (x / 2) (y / 2) (omega (arith, pow-suc 2 w)) (omega (arith, pow-suc 2 w))
      (λ i h. same (suc i) (omega arith)),
  same 0 (omega arith),
)

zero-bit_and : (y : ℕ) → bit_and 0 y ≡ 0
zero-bit_and y = bit_and-bitwise 0 y

bit_and-le_fuel : (f x y : ℕ) → x ≤ f → bit_and x y ≤ x
bit_and-le_fuel f zero y h = omega (arith, zero-bit_and y)
bit_and-le_fuel zero (suc x) y h = absurd (omega arith)
bit_and-le_fuel (suc f) (suc x) y h =
    omega (arith, bit_and_digit (suc x) y, bit_and-le_fuel f (suc x / 2) (y / 2) (omega arith))

pub bit_and-le : (x y : ℕ) → bit_and x y ≤ x
bit_and-le x y = bit_and-le_fuel x x y (omega arith)

pub bit_or-lt : (w x y : ℕ) → x < 2 ^ w → y < 2 ^ w → bit_or x y < 2 ^ w
bit_or-lt zero x y hx hy =
    let ex : x ≡ 0 = omega arith in let ey : y ≡ 0 = omega arith in rw (ex, ey) (omega arith)
bit_or-lt (suc w) x y hx hy = omega (
  arith,
  pow-suc 2 w,
  bit_or_digit x y,
  bit_or-lt w (x / 2) (y / 2) (omega (arith, pow-suc 2 w)) (omega (arith, pow-suc 2 w)),
)

bit_and-zero_fuel : (f x : ℕ) → x ≤ f → bit_and x 0 ≡ 0
bit_and-zero_fuel f zero h = refl
bit_and-zero_fuel zero (suc x) h = absurd (omega arith)
bit_and-zero_fuel (suc f) (suc x) h =
    omega (arith, bit_and_digit (suc x) 0, bit_and-zero_fuel f (suc x / 2) (omega arith))

pub bit_and-zero : (x : ℕ) → bit_and x 0 ≡ 0
bit_and-zero x = bit_and-zero_fuel x x (omega arith)

-- Masking with a single bit.
pub bit_and-pow : (k x : ℕ) → bit_and x (2 ^ k) ≡ bit x k * 2 ^ k
unfolding bit
bit_and-pow zero x = omega (arith, bit_and_digit x 1, bit_and-zero (x / 2))
bit_and-pow (suc k) x =
    let half : 2 ^ suc k / 2 ≡ 2 ^ k = omega (arith, pow-suc 2 k) in
    let even : 2 ^ suc k % 2 ≡ 0 = omega (arith, pow-suc 2 k) in
    bit_and_digit x (2 ^ suc k) ∙ rw (half, even, bit_and-pow k (x / 2), pow-suc 2 k) (grind arith)

-- `x % 2 ^ suc w` in terms of the half of `x`.
mod_pow_suc : (w x : ℕ) → x % 2 ^ suc w ≡ 2 * (x / 2 % 2 ^ w) + x % 2
mod_pow_suc w x = omega (
  arith,
  div-add-mod x (2 ^ suc w),
  div-add-mod (x / 2) (2 ^ w),
  ap (λ (t : ℕ). t * (x / 2 / 2 ^ w)) (pow-suc 2 w),
  ap (λ (t : ℕ). 2 ^ suc w * t) same,
)
  where
    same : x / 2 ^ suc w ≡ x / 2 / 2 ^ w
    same = rw (pow-succ' 2 w) (sym (div-div-eq-div-mul x 2 (2 ^ w)))

pub bit-mod_low : (w x i : ℕ) → i < w → bit (x % 2 ^ w) i ≡ bit x i
unfolding bit
bit-mod_low zero x i h = absurd (omega arith)
bit-mod_low (suc w) x zero h = omega (arith, mod_pow_suc w x)
bit-mod_low (suc w) x (suc i) h =
    let half : x % 2 ^ suc w / 2 ≡ x / 2 % 2 ^ w = omega (arith, mod_pow_suc w x) in
    rw half (bit-mod_low w (x / 2) i (omega arith))

pub pow_add : (m n : ℕ) → 2 ^ (m + n) ≡ 2 ^ m * 2 ^ n
pow_add zero n = ap (λ t. 2 ^ t) {x = 0 + n} {y = n} (omega arith) ∙ omega arith
pow_add (suc m) n =
    let e : suc m + n ≡ suc (m + n) = omega arith in
    rw (e, pow-suc 2 (m + n), pow_add m n, pow-suc 2 m) (grind arith)

-- Masking with `w` ones is the remainder by `2 ^ w`.
pub bit_and-ones : (w x : ℕ) → bit_and x (2 ^ w - 1) ≡ x % 2 ^ w
bit_and-ones zero x = bit_and-zero x ∙ omega arith
bit_and-ones (suc w) x =
    let half : (2 ^ suc w - 1) / 2 ≡ 2 ^ w - 1 = omega (arith, pow-suc 2 w, pow_pos w) in
    let odd : (2 ^ suc w - 1) % 2 ≡ 1 = omega (arith, pow-suc 2 w, pow_pos w) in
    bit_and_digit x (2 ^ suc w - 1)
    ∙ rw (half, odd, bit_and-ones w (x / 2)) (omega (arith, mod_pow_suc w x))

bit_or-zero_fuel : (f x : ℕ) → x ≤ f → bit_or x 0 ≡ x
bit_or-zero_fuel f zero h = refl
bit_or-zero_fuel zero (suc x) h = absurd (omega arith)
bit_or-zero_fuel (suc f) (suc x) h =
    omega (arith, bit_or_digit (suc x) 0, bit_or-zero_fuel f (suc x / 2) (omega arith))

-- Two numbers that share no bit place: the upper one a multiple of `2 ^ k`, the lower one below.
pub bit_or-add : (k x y : ℕ) → y < 2 ^ k → bit_or (x * 2 ^ k) y ≡ x * 2 ^ k + y
bit_or-add zero x y h =
    let e : y ≡ 0 = omega arith in
    rw e (bit_or-zero_fuel (x * 1) (x * 1) (omega arith) ∙ omega arith)
bit_or-add (suc k) x y h =
    let twice : x * 2 ^ suc k ≡ 2 * (x * 2 ^ k) =
      omega (arith, ap (λ (t : ℕ). x * t) (pow-suc 2 k)) in
    let half : x * 2 ^ suc k / 2 ≡ x * 2 ^ k = omega arith in
    bit_or_digit (x * 2 ^ suc k) y
    ∙ rw half (omega (arith, bit_or-add k x (y / 2) (omega (arith, pow-suc 2 k))))
