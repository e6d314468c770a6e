-- ===== src/Bits/Fields.antt =====
-- Masking a field out of a word, and storing into the upper part of one, as arithmetic.
use native.Mathlib.Nat.{div-mul-le_self, mod-lt, mod-le}
use ymirc.Prelude.{
  ℕ, ◌+◌, ◌-◌, ◌*◌, ◌/◌, ◌%◌, ◌^◌, ◌≤◌, ◌<◌, ◌≡◌, ap, ◌∙◌, arith, bit_and, bit_or, ◌&&◌, leb, ltb,
  if◌then◌else◌,
}
use ymirc.Prelude.{
  bit, bit-lt_two, bit-bit_and, bit-bit_or, bit_ext, bit_and-le, bit_or-lt, pow_pos,
}
use ymirc.Prelude.{bit-mul_pow_low, bit-mul_pow_high, bit-mod_low, bit-div_pow, bit_of_lt}
use ymirc.Bits.Mask.{field_mask, bit-field_mask}

-- The parts of a word below bit `s`, and above.
bit-split : (s x i : ℕ) → s ≤ i → bit (x * 2 ^ s) i ≡ bit x (i - s)
bit-split s x i h =
    let e : i ≡ s + (i - s) = omega arith in ap (bit (x * 2 ^ s)) e ∙ bit-mul_pow_high s x (i - s)

pub bit-slice :
    (s n x i : ℕ)
    → bit (x / 2 ^ s % 2 ^ n * 2 ^ s) i ≡ (if leb s i && ltb i (s + n) then bit x i else 0)
bit-slice s n x i = ground (
  arith,
  bit-mul_pow_low s (x / 2 ^ s % 2 ^ n) i,
  bit-split s (x / 2 ^ s % 2 ^ n) i,
  bit-mod_low n (x / 2 ^ s) (i - s),
  bit_of_lt n (x / 2 ^ s % 2 ^ n) (i - s) (mod-lt (x / 2 ^ s) (pow_pos n)),
  (λ (h : s ≤ i). bit-div_pow s x (i - s) ∙ ap (bit x) {x = s + (i - s)} {y = i} (omega arith)),
)

-- Masking with a field cuts it out.
pub bit_and-field_mask :
    (s n x : ℕ) → x < 2 ^ 64 → bit_and x (field_mask s n) ≡ x / 2 ^ s % 2 ^ n * 2 ^ s
bit_and-field_mask s n x h =
    bit_ext 64 (bit_and x (field_mask s n)) (x / 2 ^ s % 2 ^ n * 2 ^ s)
      (omega (arith, bit_and-le x (field_mask s n)))
      (omega (arith, div-mul-le_self x (2 ^ s), below))
      (λ i lt.
        bit-bit_and x (field_mask s n) i
        ∙ ground (arith, bit-field_mask s n i, bit-slice s n x i, bit-lt_two x i))
  where
    below : x / 2 ^ s % 2 ^ n * 2 ^ s ≤ x / 2 ^ s * 2 ^ s
    below = grind (arith, mod-le (x / 2 ^ s) (2 ^ n))

pub bit_or_comm : (x y : ℕ) → x < 2 ^ 64 → y < 2 ^ 64 → bit_or x y ≡ bit_or y x
bit_or_comm x y hx hy =
    bit_ext 64 (bit_or x y) (bit_or y x) (bit_or-lt 64 x y hx hy) (bit_or-lt 64 y x hy hx)
      (λ i lt. bit-bit_or x y i ∙ omega (arith, bit-bit_or y x i))
