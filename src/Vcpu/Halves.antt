-- ===== src/Vcpu/Halves.antt =====
-- `setvalue` and `setvalue_safely`, which svm_msr.c and svm_cpuid.c both define: the low 32 bits
-- of a register are replaced.
use ymirc.Prelude.{
  ℕ, ◌+◌, ◌*◌, ◌/◌, ◌%◌, ◌^◌, ◌<◌, ◌≡◌, ◌∙◌, ap, arith, bit_and, bit_or, bit_or-add,
}
use ymirc.Bits.Mask.{bit_and-not_ones}

-- The store of a 32-bit value over the low half of the register in memory.
unfoldable pub setvalue : ℕ → ℕ → ℕ
setvalue reg val = reg / 2 ^ 32 * 2 ^ 32 + val % 2 ^ 32

-- Its version for a register that may be unaligned; `val` is converted to 32 bits.
unfoldable pub setvalue_safely : ℕ → ℕ → ℕ
setvalue_safely reg val = bit_or (bit_and reg 0xffffffff00000000) (val % 2 ^ 32)

-- On every 64-bit register `setvalue_safely` and `setvalue` store the same.
pub setvalue_safely-eq-setvalue :
    (reg val : ℕ) → reg < 2 ^ 64 → setvalue_safely reg val ≡ setvalue reg val
unfolding setvalue_safely setvalue
setvalue_safely-eq-setvalue reg val h =
    ap (λ t. bit_or t (val % 2 ^ 32)) (bit_and-not_ones 32 reg (omega arith) h)
    ∙ bit_or-add 32 (reg / 2 ^ 32) (val % 2 ^ 32) (omega arith)

-- The upper half stays, and the lower half is the value.
pub setvalue_halves :
    (reg val : ℕ)
    → (setvalue reg val / 2 ^ 32 ≡ reg / 2 ^ 32) × (setvalue reg val % 2 ^ 32 ≡ val % 2 ^ 32)
unfolding setvalue
setvalue_halves reg val = omega arith
