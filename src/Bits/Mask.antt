-- ===== src/Bits/Mask.antt =====
-- What `set_masked_bits` and `get_lower_bits` do to the bits of a word.
use native.Mathlib.Nat.{
  pow-suc, div-mul-le_self, pow-le-pow_right, mod-eq_of_lt, mod-lt, div-le_self,
}
use native.Mathlib.Decide.{dec_lt}
use ymirc.Prelude.{min, ℕ, zero, suc, ◌+◌, ◌-◌, ◌*◌, ◌/◌, ◌%◌, ◌^◌, ◌≤◌, ◌<◌, bit_and}
use ymirc.Prelude.{
  ◌≡◌, sym, ap, ◌∙◌, some, ◌&&◌, arith, ltb, leb, leb→le, Bool-cases, inl, inr, if◌then◌else◌,
}
use ymirc.Prelude.{bit, bit-lt_two, bit-zero, bit-complement, bit_of_lt, bit-mul_pow_high}
use ymirc.Prelude.{
  bit-mul_pow_low, bit-bit_and, bit-bit_or, bit-mod_low, bit_ext, pow_pos, pow_add, shl, shr,
  bit_and-ones, bit-div_pow,
}
use ymirc.Prelude.{not_64, bit_or-lt, bit_and-le}
use ymirc.Bits.{trailing_zeros, ctz, masked, set_masked_bits, get_lower_bits}

-- `n` ones from bit `s` on.
abbrev pub field_mask : ℕ → ℕ → ℕ
field_mask s n = (2 ^ n - 1) * 2 ^ s

pub bit-ones_low : (n i : ℕ) → i < n → bit (2 ^ n - 1) i ≡ 1
bit-ones_low n i h =
    ap (λ t. bit t i) {x = 2 ^ n - 1} {y = 2 ^ n - 1 - 0} (omega arith)
    ∙ bit-complement n 0 i (pow_pos n) h
    ∙ rw bit-zero

pub bit-ones_high : (n i : ℕ) → n ≤ i → bit (2 ^ n - 1) i ≡ 0
bit-ones_high n i h = bit_of_lt n (2 ^ n - 1) i (omega (arith, pow_pos n)) h

-- A number that is at least `s` is `s` and a rest.
bit-mul_pow : (s x i : ℕ) → s ≤ i → bit (x * 2 ^ s) i ≡ bit x (i - s)
bit-mul_pow s x i h =
    let e : i ≡ s + (i - s) = omega arith in ap (bit (x * 2 ^ s)) e ∙ bit-mul_pow_high s x (i - s)

pub bit-field_mask :
    (s n i : ℕ) → bit (field_mask s n) i ≡ (if leb s i && ltb i (s + n) then 1 else 0)
bit-field_mask s n i = ground (
  arith,
  bit-mul_pow_low s (2 ^ n - 1) i,
  bit-mul_pow s (2 ^ n - 1) i,
  bit-ones_low n (i - s),
  bit-ones_high n (i - s),
)

field_mask-lt : (w s n : ℕ) → s + n ≤ w → field_mask s n < 2 ^ w
field_mask-lt w s n h = grind (
  arith,
  pow_add n s,
  pow_pos n,
  pow_pos s,
  pow-le-pow_right {n = 2} (omega arith) {i = n + s} {j = w} (omega arith),
)

trailing_zeros-field_mask : (f s n : ℕ) → s < f → 0 < n → trailing_zeros f (field_mask s n) ≡ s
unfolding trailing_zeros
trailing_zeros-field_mask zero s n h pos = absurd (omega arith)
trailing_zeros-field_mask (suc f) zero (suc n) h pos = ground (arith, pow-suc 2 n, pow_pos n)
trailing_zeros-field_mask (suc f) s zero h pos = absurd (omega arith)
trailing_zeros-field_mask (suc f) (suc s) n h pos =
    let e : field_mask (suc s) n ≡ field_mask s n * 2 =
      omega (arith, ap (λ (t : ℕ). (2 ^ n - 1) * t) (pow-suc 2 s)) in
    let half : field_mask s n * 2 / 2 ≡ field_mask s n = omega arith in
    rw (e, half) (ground (arith, trailing_zeros-field_mask f s n (omega arith) pos))

-- The masked store, bit by bit.
bit-masked :
    (target val s n i : ℕ)
    → s + n ≤ 64
    → i < 64
    → bit (masked target val (field_mask s n) s) i
      ≡ (if leb s i && ltb i (s + n) then bit val (i - s) else bit target i)
unfolding masked
bit-masked target val s n i fits h =
    bit-bit_or (bit_and target (not_64 (field_mask s n))) (bit_and (shl val s) (field_mask s n)) i
    ∙ ground (
      arith,
      bit-bit_and target (not_64 (field_mask s n)) i,
      bit-bit_and (shl val s) (field_mask s n) i,
      bit-complement 64 (field_mask s n) i (field_mask-lt 64 s n fits) h,
      bit-field_mask s n i,
      bit-mod_low 64 (val * 2 ^ s) i h,
      bit-mul_pow s val i,
      bit-lt_two val (i - s),
      bit-lt_two target i,
      bit-lt_two (shl val s) i,
    )

pub masked-lt :
    (target val mask shift : ℕ) → target < 2 ^ 64 → masked target val mask shift < 2 ^ 64
unfolding masked
masked-lt target val mask shift h =
    bit_or-lt 64 (bit_and target (not_64 mask)) (bit_and (shl val shift) mask)
      (omega (arith, bit_and-le target (not_64 mask)))
      (omega (arith, bit_and-le (shl val shift) mask))

field_mask_pos : (s n : ℕ) → 0 < n → 0 < field_mask s n
field_mask_pos s zero h = absurd (omega arith)
field_mask_pos s (suc n) h = grind (arith, pow_pos s, pow_pos n, pow-suc 2 n)

ctz-field_mask : (s n : ℕ) → s + n ≤ 64 → 0 < n → ctz (field_mask s n) ≡ some s
unfolding ctz
ctz-field_mask s n fits pos =
    ground (arith, trailing_zeros-field_mask 64 s n (omega arith) pos, field_mask_pos s n pos)

-- Storing `val` into a field of at least one bit inside the word, `n` bits from bit `s` on, is
-- defined, keeps the word a word, and gives each bit: those of the field from `val`, the others
-- from the old word.
pub set_masked_bits_lem :
    (target val s n : ℕ)
    → target < 2 ^ 64
    → s + n ≤ 64
    → 0 < n
    → (r : ℕ) × (set_masked_bits target val (field_mask s n) ≡ some r)
      × (r < 2 ^ 64)
      × ((i : ℕ)
          → i < 64
          → bit r i ≡ (if leb s i && ltb i (s + n) then bit val (i - s) else bit target i))
unfolding set_masked_bits
set_masked_bits_lem target val s n h fits pos = (
  masked target val (field_mask s n) s,
  rw (ctz-field_mask s n fits pos, set_masked_bits),
  masked-lt target val (field_mask s n) s h,
  λ i lt. bit-masked target val s n i fits lt,
)

-- `get_lower_bits` of a 64-bit word is the remainder by a power of two, whatever the number of bits
-- asked for.
pub get_lower_bits_lem : (val n : ℕ) → val < 2 ^ 64 → get_lower_bits val n ≡ val % 2 ^ n
unfolding get_lower_bits
get_lower_bits_lem val n v = elim (Bool-cases (leb 64 n)) [
  | inl wide ↦ rw wide (sym (mod-eq_of_lt (below n (leb→le 64 n wide))))
  | inr narrow ↦ rw narrow (bit_and-ones n val)
]
  where
    below : (n : ℕ) → 64 ≤ n → val < 2 ^ n
    below n h = omega (arith, pow-le-pow_right {n = 2} (omega arith) h)

-- A value that fits a field of `n` bits at `s`, a field of at least one bit inside the word, reads
-- back after it was stored there: the word shifted right by `s`, its low `n` bits.
pub get-set_masked_bits :
    (target val s n : ℕ) {r : ℕ}
    → target < 2 ^ 64
    → s + n ≤ 64
    → 0 < n
    → val < 2 ^ n
    → set_masked_bits target val (field_mask s n) ≡ some r
    → get_lower_bits (shr r s) n ≡ val
get-set_masked_bits target val s n {r} h fits pos v e =
    get_lower_bits_lem (shr r s) n (omega (arith, div-le_self r (2 ^ s), is_word))
    ∙ bit_ext n (shr r s % 2 ^ n) val (mod-lt (shr r s) (pow_pos n)) v bits
  where
    open set_masked_bits_lem target val s n h fits pos use {0 as t, 1 as stored, 2 as word, 3 as at}

    same : t ≡ r
    same = cc (stored, e)

    is_word : r < 2 ^ 64
    is_word = rw (← same) word

    bits : (i : ℕ) → i < n → bit (shr r s % 2 ^ n) i ≡ bit val i
    bits i lt =
        let gap : s + i - s ≡ i = omega arith in
        bit-mod_low n (shr r s) i lt
        ∙ bit-div_pow s r i
        ∙ rw (← same, at (s + i) (omega arith), gap) (ground arith)

-- Clearing the `k` low bits of a word rounds it down to a multiple of `2 ^ k`.
pub bit_and-not_ones :
    (k x : ℕ) → k ≤ 64 → x < 2 ^ 64 → bit_and x (not_64 (2 ^ k - 1)) ≡ x / 2 ^ k * 2 ^ k
bit_and-not_ones k x h word =
    bit_ext 64 (bit_and x (not_64 (2 ^ k - 1))) (x / 2 ^ k * 2 ^ k)
      (omega (arith, bit_and-le x (not_64 (2 ^ k - 1)))) (omega (arith, div-mul-le_self x (2 ^ k)))
      (λ i lt. bit-bit_and x (not_64 (2 ^ k - 1)) i ∙ masks i lt)
  where
    ones : 2 ^ k - 1 < 2 ^ 64
    ones = omega (arith, pow_pos k, pow-le-pow_right {n = 2} (omega arith) {i = k} {j = 64} h)

    masks :
        (i : ℕ) → i < 64 → min (bit x i) (bit (not_64 (2 ^ k - 1)) i) ≡ bit (x / 2 ^ k * 2 ^ k) i
    masks i lt = elim (dec_lt i k) [
      | yes low ↦ omega (
        arith,
        bit-complement 64 (2 ^ k - 1) i ones lt,
        bit-ones_low k i low,
        bit-mul_pow_low k (x / 2 ^ k) i low,
      )
      | no high ↦
          let e : k + (i - k) ≡ i = omega arith in
          omega (
            arith,
            bit-complement 64 (2 ^ k - 1) i ones lt,
            bit-ones_high k i (omega arith),
            bit-mul_pow k (x / 2 ^ k) i (omega arith),
            bit-lt_two x i,
            bit-div_pow k x (i - k) ∙ ap (bit x) e,
          )
    ]
