-- ===== src/Descriptors.antt =====
-- ymirc/arch/x86/gdt.c and idt.c: segment and gate descriptors. The tables are functions of the
-- index.
use ymirc.Prelude.{
  ℕ, ◌-◌, leb, ◌*◌, ◌%◌, ◌^◌, ◌≡◌, refl, Bool, true, false, ◌==◌, if◌then◌else◌, shr, bit_and,
  bit_or,
}
use ymirc.Prelude.{List, [], ◌∷◌, Option, some, none, Outcome, done, stop, undefined, ◌>>=◌}
use ymirc.Bits.{set_fields, set_masked_bits, masked, ctz, trailing_zeros, get_lower_bits}

abbrev pub kernel_ds_index : ℕ
kernel_ds_index = 0x01

abbrev pub kernel_cs_index : ℕ
kernel_cs_index = 0x02

abbrev pub segment_selector : ℕ → ℕ
segment_selector index = index * 2 ^ 3

-- The stores of `init_segment_descriptor`; of `executable` the value and its negation.
unfoldable pub descriptor_fields : ℕ → ℕ → ℕ → ℕ → ℕ → ℕ → ℕ → ℕ → List (ℕ × ℕ)
descriptor_fields rw dc executable not_executable base limit dpl granularity =
    (get_lower_bits limit 16, 0xFFFF)
    ∷ (get_lower_bits base 24, 0xFFFFFF * 2 ^ 16)
    ∷ (0, 2 ^ 40)
    ∷ (rw, 2 ^ 41)
    ∷ (dc, 2 ^ 42)
    ∷ (executable, 2 ^ 43)
    ∷ (1, 2 ^ 44)
    ∷ (dpl, 3 * 2 ^ 45)
    ∷ (1, 2 ^ 47)
    ∷ (get_lower_bits (shr limit 16) 4, 0xF * 2 ^ 48)
    ∷ (0, 2 ^ 52)
    ∷ (executable, 2 ^ 53)
    ∷ (not_executable, 2 ^ 54)
    ∷ (granularity, 2 ^ 55)
    ∷ (get_lower_bits (shr base 24) 8, 0xFF * 2 ^ 56)
    ∷ []

unfoldable pub init_segment_descriptor : ℕ → ℕ → Bool → ℕ → ℕ → ℕ → ℕ → ℕ → Outcome ℕ
init_segment_descriptor rw dc executable base limit dpl granularity desc =
    elim (set_fields
      (descriptor_fields rw dc (if executable then 1 else 0) (if executable then 0 else 1) base
        limit dpl granularity)
      desc) [ some value ↦ done value | none ↦ stop undefined ]

abbrev pub store_entry : ℕ → ℕ → (ℕ → ℕ) → ℕ → ℕ
store_entry index value table i = if i == index then value else table i

-- `gdt_init` up to the loading of the registers.
unfoldable pub gdt_init : (ℕ → ℕ) → Outcome (ℕ → ℕ)
gdt_init gdt = do
  cs ← init_segment_descriptor 1 0 true 0 0xFFFFF 0 1 (gdt kernel_cs_index)
  let gdt' = store_entry kernel_cs_index cs gdt
  ds ← init_segment_descriptor 1 0 false 0 0xFFFFF 0 1 (gdt' kernel_ds_index)
  done (store_entry kernel_ds_index ds gdt')

-- `set_masked_bits_128`: `__builtin_ctzll` takes the low 64 bits of the mask, and is undefined at 0.
unfoldable pub set_masked_bits_128 : ℕ → ℕ → ℕ → Option ℕ
set_masked_bits_128 target val mask = elim (ctz (mask % 2 ^ 64)) [
  | none ↦ none
  | some shift ↦
      some (bit_or (bit_and target (2 ^ 128 - 1 - mask)) (bit_and (val * 2 ^ shift % 2 ^ 128) mask))
]

-- `1ULL << bits` is defined for `bits` below 64 only, as they are here.
unfoldable pub get_lower_bits_128 : ℕ → ℕ → ℕ
get_lower_bits_128 val bits = if leb 128 bits then val else bit_and val (2 ^ bits - 1)

unfoldable pub set_fields_128 : List (ℕ × ℕ) → ℕ → Option ℕ
set_fields_128 [] word = some word
set_fields_128 ((val, mask) ∷ rest) word = elim (set_masked_bits_128 word val mask) [
  | some word' ↦ set_fields_128 rest word'
  | none ↦ none
]

unfoldable pub gate_fields : ℕ → ℕ → List (ℕ × ℕ)
gate_fields gate_type offset =
    (get_lower_bits_128 offset 16, 0xFFFF)
    ∷ (segment_selector kernel_cs_index, 0xFFFF * 2 ^ 16)
    ∷ (gate_type, 0xF * 2 ^ 40)
    ∷ (get_lower_bits_128 (shr offset 16) 16, 0xFFFF * 2 ^ 48)
    ∷ (get_lower_bits_128 (shr offset 32) 32, 0xFFFFFFFF * 2 ^ 64)
    ∷ (1, 2 ^ 47)
    ∷ []

unfoldable pub set_gate : ℕ → ℕ → ℕ → (ℕ → ℕ) → Outcome (ℕ → ℕ)
set_gate index gate_type offset idt =
    elim (set_fields_128 (gate_fields gate_type offset) (idt index)) [
      | some value ↦ done (store_entry index value idt)
      | none ↦ stop undefined
    ]

-- From empty descriptors `gdt_init` makes entry 1 a flat writable data segment and entry 2 a flat
-- 64-bit code segment, and no other entry changes.
pub gdt_init_lem :
    (gdt : ℕ → ℕ)
    → gdt 1 ≡ 0
    → gdt 2 ≡ 0
    → (gdt' : ℕ → ℕ) × (gdt_init gdt ≡ done gdt')
      × ((i : ℕ)
          → gdt' i
            ≡ (if i == 1 then 0x00CF92000000FFFF else if i == 2 then 0x00AF9A000000FFFF else gdt i))
unfolding gdt_init init_segment_descriptor descriptor_fields set_fields set_masked_bits ctz
    trailing_zeros masked get_lower_bits
gdt_init_lem gdt ds cs = (
  store_entry 1 0x00CF92000000FFFF (store_entry 2 0x00AF9A000000FFFF gdt),
  rw (cs, ds) refl,
  λ i. refl,
)

-- `set_gate` is undefined for every index, type and offset.
pub set_gate-undefined :
    (index gate_type offset : ℕ) (idt : ℕ → ℕ)
    → set_gate index gate_type offset idt ≡ stop undefined
unfolding set_gate gate_fields set_fields_128 set_masked_bits_128 ctz trailing_zeros
set_gate-undefined index gate_type offset idt = refl
