-- ===== src/Npt/Entries.antt =====
-- The values of page table entries.
use ymirc.Prelude.{
  ℕ, ◌+◌, ◌*◌, ◌/◌, ◌%◌, ◌^◌, ◌<◌, ◌≡◌, refl, ap, ◌∙◌, arith, ◌==◌, some, bit, bit_and, bit_or,
  bit_or-add, shl,
}
use ymirc.Bits.{tobit, isset, set_fields, set_masked_bits, ctz, trailing_zeros, masked}
use ymirc.Bits.Single.{isset-eq-bit}
use ymirc.Bits.Mask.{field_mask}
use ymirc.Bits.Fields.{bit_and-field_mask, bit_or_comm}
use ymirc.Npt.{entry_fields, phys_mask}

-- An entry that is present, writable and open to the guest, for a table.
abbrev pub table_entry : ℕ → ℕ
table_entry phys = 7 + phys

-- The same for a page, with the bit PS.
abbrev pub page_entry : ℕ → ℕ
page_entry phys = 0x87 + phys

-- Storing the address field of an entry whose low 12 bits are `flags`.
pub masked_phys :
    (flags phys : ℕ)
    → flags < 2 ^ 12
    → phys < 2 ^ 63
    → phys % 2 ^ 12 ≡ 0
    → bit_or flags (bit_and (shl (phys / 2 ^ 12) 12) (field_mask 12 51)) ≡ flags + phys
masked_phys flags phys small word aligned =
    let shifted : shl (phys / 2 ^ 12) 12 ≡ phys = omega arith in
    let field : bit_and phys (field_mask 12 51) ≡ phys / 2 ^ 12 * 2 ^ 12 =
      bit_and-field_mask 12 51 phys (omega arith) ∙ omega arith in
    rw (shifted, field)
      (bit_or_comm flags (phys / 2 ^ 12 * 2 ^ 12) (omega arith) (omega arith)
        ∙ bit_or-add 12 (phys / 2 ^ 12) flags small
        ∙ omega arith)

pub table_fields :
    (phys : ℕ)
    → phys < 2 ^ 63
    → phys % 2 ^ 12 ≡ 0
    → set_fields (entry_fields 0 phys) 0 ≡ some (table_entry phys)
unfolding set_fields set_masked_bits ctz trailing_zeros masked tobit
table_fields phys word aligned = ap some (masked_phys 7 phys (omega arith) word aligned)

pub page_fields :
    (phys : ℕ)
    → phys < 2 ^ 63
    → phys % 2 ^ 12 ≡ 0
    → set_fields (entry_fields 1 phys) 0 ≡ some (page_entry phys)
unfolding set_fields set_masked_bits ctz trailing_zeros masked tobit
page_fields phys word aligned = ap some (masked_phys 0x87 phys (omega arith) word aligned)

-- The address that an entry holds.
pub entry_address :
    (flags phys : ℕ)
    → flags < 2 ^ 12
    → phys < 2 ^ 63
    → phys % 2 ^ 12 ≡ 0
    → bit_and (flags + phys) phys_mask ≡ phys
entry_address flags phys small word aligned =
    bit_and-field_mask 12 51 (flags + phys) (omega arith) ∙ omega arith

pub present-isset : (v : ℕ) → isset v 0 ≡ (v % 2 == 1)
present-isset v = isset-eq-bit v 0 (omega arith) ∙ (unfold bit in refl)
