-- ===== src/Prelude/Words.antt =====
-- The fixed-width unsigned types of C: casts, shifts, complements and truth values.
use Prim.Native.Nat.{ℕ, ◌+◌, ◌-◌, ◌*◌, ◌/◌, ◌%◌, ◌^◌}
use mathlib.Core.Bool.{Bool, not}
use ymirc.Prelude.Tests.{◌==◌}

abbrev pub u8 : ℕ → ℕ
u8 n = n % 2 ^ 8

abbrev pub u16 : ℕ → ℕ
u16 n = n % 2 ^ 16

abbrev pub u32 : ℕ → ℕ
u32 n = n % 2 ^ 32

abbrev pub u64 : ℕ → ℕ
u64 n = n % 2 ^ 64

-- `x << k` of a 64-bit `x`, and `x >> k`.
abbrev pub shl : ℕ → ℕ → ℕ
shl x k = u64 (x * 2 ^ k)

abbrev pub shr : ℕ → ℕ → ℕ
shr x k = x / 2 ^ k

-- `~x` of a 64-bit `x`.
abbrev pub not_64 : ℕ → ℕ
not_64 x = 2 ^ 64 - 1 - x

-- A number as a condition.
abbrev pub truth : ℕ → Bool
truth n = not (n == 0)

-- `a - b` of 64-bit numbers, which wraps.
abbrev pub sub_64 : ℕ → ℕ → ℕ
sub_64 a b = u64 (a + 2 ^ 64 - b)
