-- ===== src/Log/Numbers.antt =====
-- What `write_int`, `write_hex` and `write_ptr` write, read back.
use ymirc.Prelude.{
  ℕ, zero, suc, ◌+◌, ◌-◌, ◌*◌, ◌/◌, ◌%◌, ◌^◌, ◌≤◌, ◌<◌, ◌≡◌, ◌≢◌, refl, sym, ap, ◌∙◌, arith, Bool,
  true, false, Bool-cases, inl, inr, ◌==◌, ltb, leb, if◌then◌else◌, shr, bit_and, bit_and-ones,
  pow_add, pow_pos,
}
use ymirc.Prelude.{List, [], ◌∷◌, length, done}
use native.Mathlib.Nat.{pow-suc, div-div-eq-div-mul, div-add-mod}
use ymirc.Log.{push_char, digits, write_int, hex_digits, char_at, nibbles, write_hex, write_ptr}

-- Characters read as a decimal number, from the value `a` on.
abbrev pub decimal : ℕ → List ℕ → ℕ
decimal a [] = a
decimal a (c ∷ cs) = decimal (a * 10 + (c - 48)) cs

-- The sign, and the number.
abbrev pub is_negative : ℕ → Bool
is_negative val = leb (2 ^ 31) val

abbrev pub magnitude : ℕ → ℕ
magnitude val = if leb (2 ^ 31) val then 2 ^ 32 - val else val

abbrev pub read_signed : List ℕ → Bool × ℕ
read_signed [] = (false, 0)
read_signed (c ∷ cs) = if c == 45 then (true, decimal 0 cs) else (false, decimal 0 (c ∷ cs))

fuel-pos : (fuel v : ℕ) → 0 < v → v < 10 ^ fuel → 0 < fuel
fuel-pos zero v pos small = absurd (omega arith)
fuel-pos (suc fuel) v pos small = omega arith

-- With as many rounds as digits the loop ends, inside the buffer.
digits_lem :
    (fuel val : ℕ) (buf : List ℕ)
    → 0 < fuel
    → val < 10 ^ fuel
    → length buf + fuel ≤ 12
    → (text : List ℕ) × (digits fuel val buf ≡ done text)
      × (decimal 0 text ≡ decimal val buf)
      × (length text ≤ length buf + fuel)
      × (read_signed text ≡ (false, decimal 0 text))
unfolding digits push_char
digits_lem zero val buf pos small room = absurd (omega arith)
digits_lem (suc fuel) val buf pos small room =
    let free : leb 12 (length buf) ≡ false = ground arith in
    let one_digit : val / 10 * 10 + (val % 10 + 48 - 48) ≡ val = omega arith in
    rw free (elim (Bool-cases (ltb 0 (val / 10))) [
      | inl more ↦
          let bound : val < 10 * 10 ^ fuel = omega (arith, small, pow-suc 10 fuel) in
          let (text, e, value, short, unsigned) =
            digits_lem fuel (val / 10) ((val % 10 + 48) ∷ buf)
              (fuel-pos fuel (val / 10) (ground arith) (omega arith)) (omega arith) (omega arith) in
          (
            text,
            rw more e,
            value ∙ ap (λ v. decimal v buf) one_digit,
            omega (arith, short),
            unsigned,
          )
      | inr last ↦
          let zero_left : val / 10 ≡ 0 = ground arith in
          (
            (val % 10 + 48) ∷ buf,
            rw last refl,
            (let v : 0 * 10 + (val % 10 + 48 - 48) ≡ val = omega arith in
                ap (λ v. decimal v buf) v),
            omega arith,
            (let digit : (val % 10 + 48 == 45) ≡ false = ground arith in rw digit refl),
          )
    ])

-- For every 32-bit `int` but the least, `write_int` returns, its text fits in the buffer of 12
-- bytes, and read back it has the number's sign and its magnitude.
pub write_int_lem :
    (val : ℕ)
    → val < 2 ^ 32
    → val ≢ 2 ^ 31
    → (text : List ℕ) × (write_int val ≡ done text)
      × (read_signed text ≡ (is_negative val, magnitude val))
      × (length text ≤ 12)
unfolding write_int
write_int_lem val word least = elim (Bool-cases (leb (2 ^ 31) val)) [
  | inl negative ↦
      let ok : (val == 2 ^ 31) ≡ false = ground arith in
      let (text, e, value, short, _) =
        digits_lem 11 (2 ^ 32 - val) [] (omega arith) (omega arith) (omega arith) in
      let free : leb 12 (length text) ≡ false = ground arith in
      (
        45 ∷ text,
        rw (negative, ok, e) (unfold push_char in rw free refl),
        rw negative (ap (λ v. (true, v)) value),
        omega (arith, short),
      )
  | inr positive ↦
      let (text, e, value, short, unsigned) =
        digits_lem 11 val [] (omega arith) (omega arith) (omega arith) in
      (
        text,
        rw positive e,
        rw positive (unsigned ∙ ap (λ v. (false, v)) value),
        omega (arith, short),
      )
]

-- A digit, and characters read as a hexadecimal number.
abbrev pub hex_digit : ℕ → ℕ
hex_digit c = if ltb c 65 then c - 48 else c - 55

abbrev pub hexadecimal : ℕ → List ℕ → ℕ
hexadecimal a [] = a
hexadecimal a (c ∷ cs) = hexadecimal (a * 16 + hex_digit c) cs

hex_digit-char_at : (d : ℕ) → d < 16 → hex_digit (char_at hex_digits d) ≡ d
hex_digit-char_at zero h = refl
hex_digit-char_at (suc zero) h = refl
hex_digit-char_at (suc (suc zero)) h = refl
hex_digit-char_at (suc (suc (suc zero))) h = refl
hex_digit-char_at (suc (suc (suc (suc zero)))) h = refl
hex_digit-char_at (suc (suc (suc (suc (suc zero))))) h = refl
hex_digit-char_at (suc (suc (suc (suc (suc (suc zero)))))) h = refl
hex_digit-char_at (suc (suc (suc (suc (suc (suc (suc zero))))))) h = refl
hex_digit-char_at (suc (suc (suc (suc (suc (suc (suc (suc zero)))))))) h = refl
hex_digit-char_at (suc (suc (suc (suc (suc (suc (suc (suc (suc zero))))))))) h = refl
hex_digit-char_at (suc (suc (suc (suc (suc (suc (suc (suc (suc (suc zero)))))))))) h = refl
hex_digit-char_at (suc (suc (suc (suc (suc (suc (suc (suc (suc (suc (suc zero))))))))))) h = refl
hex_digit-char_at (suc (suc (suc (suc (suc (suc (suc (suc (suc (suc (suc (suc zero)))))))))))) h =
    refl
hex_digit-char_at (suc (suc (suc (suc (suc (suc (suc (suc (suc (suc (suc (suc (suc zero)))))))))))))
      h =
    refl
hex_digit-char_at
      (suc (suc (suc (suc (suc (suc (suc (suc (suc (suc (suc (suc (suc (suc zero)))))))))))))) h =
    refl
hex_digit-char_at
      (suc (suc (suc (suc (suc (suc (suc (suc (suc (suc (suc (suc (suc (suc (suc zero)))))))))))))))
      h =
    refl
hex_digit-char_at
      (suc
        (suc (suc (suc (suc (suc (suc (suc (suc (suc (suc (suc (suc (suc (suc (suc d))))))))))))))))
      h =
    absurd (omega arith)

-- Another digit.
mod_split : (p value : ℕ) → 0 < p → value % (p * 16) ≡ value / p % 16 * p + value % p
mod_split p value pos =
    let q = value / p in
    let same : value / (p * 16) ≡ q / 16 = sym (div-div-eq-div-mul value p 16) in
    let whole : p * 16 * (q / 16) + value % (p * 16) ≡ value =
      rw (← same) (div-add-mod value (p * 16)) in
    let digit : q ≡ 16 * (q / 16) + q % 16 = omega arith in
    let parts : p * q ≡ p * 16 * (q / 16) + q % 16 * p = ap (λ t. p * t) digit ∙ grind arith in
    omega (arith, whole, parts, div-add-mod value p)

nibbles_lem :
    (left a value : ℕ)
    → hexadecimal a (nibbles left value) ≡ a * 2 ^ (left * 4) + value % 2 ^ (left * 4)
unfolding nibbles
nibbles_lem zero a value = omega arith
nibbles_lem (suc left) a value =
    let p = 2 ^ (left * 4) in
    let d : bit_and (shr value (left * 4)) 15 ≡ value / p % 16 =
      bit_and-ones 4 (shr value (left * 4)) in
    let e : 2 ^ (suc left * 4) ≡ p * 16 =
      (let sum : suc left * 4 ≡ 4 + left * 4 = omega arith in
        rw (sum, pow_add 4 (left * 4)) (omega arith)) in
    rw
      (
        d,
        hex_digit-char_at (value / p % 16) (omega arith),
        e,
        mod_split p value (pow_pos (left * 4)),
      )
      (nibbles_lem left (a * 16 + value / p % 16) value ∙ grind arith)

-- `write_hex` of a 64-bit word writes 16 digits that read back as the word, and `write_ptr` writes
-- the same behind `0x`.
pub write_hex_lem :
    (value : ℕ)
    → value < 2 ^ 64
    → (hexadecimal 0 (write_hex value) ≡ value)
      × (length (write_hex value) ≡ 16)
      × (write_ptr value ≡ 48 ∷ 120 ∷ write_hex value)
unfolding write_hex write_ptr
write_hex_lem value word =
    ((let e = nibbles_lem 16 0 value in e ∙ omega arith), (unfold nibbles in refl), refl)
