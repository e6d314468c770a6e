-- ===== src/Bits.antt =====
-- ymirc/bits.h: single bits, masked fields and concatenation of machine words.
-- A pointer argument that is updated is returned; `none` is behaviour that C leaves undefined.
pub mod Mask
pub mod Single
pub mod Fields
use ymirc.Prelude.{ℕ, zero, suc, ◌+◌, ◌-◌, ◌*◌, ◌/◌, ◌%◌, ◌^◌, bit_and, bit_or}
use ymirc.Prelude.{List, [], ◌∷◌, Bool, false, Option, none, some, ◌==◌, leb, if◌then◌else◌}
use ymirc.Prelude.{u8, u16, u32, u64, shl, shr, not_64, truth}

-- `(uint64_t)1 << nth`, and the same at 16 and at 8 bits.
unfoldable pub tobit : ℕ → ℕ
tobit nth = if leb 64 nth then 0 else shl 1 nth

unfoldable pub tobit_16 : ℕ → ℕ
tobit_16 nth = if leb 16 nth then 0 else u16 (2 ^ nth)

unfoldable pub tobit_8 : ℕ → ℕ
tobit_8 nth = if leb 8 nth then 0 else u8 (2 ^ nth)

unfoldable pub isset : ℕ → ℕ → Bool
isset val nth = if leb 64 nth then false else truth (bit_and (shr val nth) 1)

unfoldable pub isset_8 : ℕ → ℕ → Bool
isset_8 val nth = if leb 8 nth then false else truth (bit_and (shr val nth) 1)

unfoldable pub isset_16 : ℕ → ℕ → Bool
isset_16 val nth = if leb 16 nth then false else truth (bit_and (shr val nth) 1)

-- The arguments of `concat` are 32 bits wide.
unfoldable pub concat : ℕ → ℕ → ℕ
concat a b = bit_or (shl a 32) b

unfoldable pub concat_64 : ℕ → ℕ → ℕ
concat_64 a b = bit_or (shl (bit_and a 0xFFFFFFFF) 32) (bit_and b 0xFFFFFFFF)

-- `__builtin_ctzll`: the trailing zeros of a word, undefined at 0.
unfoldable pub trailing_zeros : ℕ → ℕ → ℕ
trailing_zeros zero x = 0
trailing_zeros (suc f) x = if x % 2 == 1 then 0 else suc (trailing_zeros f (x / 2))

unfoldable pub ctz : ℕ → Option ℕ
ctz x = if x == 0 then none else some (trailing_zeros 64 x)

-- The store to `*target`, at a shift that is known.
unfoldable pub masked : ℕ → ℕ → ℕ → ℕ → ℕ
masked target val mask shift = bit_or (bit_and target (not_64 mask)) (bit_and (shl val shift) mask)

unfoldable pub set_masked_bits : ℕ → ℕ → ℕ → Option ℕ
set_masked_bits target val mask = elim (ctz mask) [
  | none ↦ none
  | some shift ↦ some (masked target val mask shift)
]

unfoldable pub get_lower_bits : ℕ → ℕ → ℕ
get_lower_bits val bits = if leb 64 bits then val else bit_and val (2 ^ bits - 1)

-- A run of `set_masked_bits` on one word: values and masks.
unfoldable pub set_fields : List (ℕ × ℕ) → ℕ → Option ℕ
set_fields [] word = some word
set_fields ((val, mask) ∷ rest) word = elim (set_masked_bits word val mask) [
  | some word' ↦ set_fields rest word'
  | none ↦ none
]
