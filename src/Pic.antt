-- ===== src/Pic.antt =====
-- ymirc/arch/x86/pic.h and pic.c: the host's 8259 controllers. A function that writes ports
-- returns the history with its accesses in front.
pub mod Lines
use ymirc.Prelude.{ℕ, ◌+◌, ◌-◌, ◌*◌, ◌^◌, ◌%◌, Bool, true, false, not, bit_and, bit_or, ltb}
use ymirc.Prelude.{if◌then◌else◌, u16, not_64, ◌∷◌}
use ymirc.Bits.{tobit}
use ymirc.Ports.{History, Device, byte, cli, sti, in_port, out_port}

-- IRQ lines are the numbers 0 to 15 of `IrqLine`.
abbrev pub irq_timer : ℕ
irq_timer = 0

abbrev pub irq_secondary : ℕ
irq_secondary = 2

abbrev pub irq_serial1 : ℕ
irq_serial1 = 4

abbrev pub primary_vector_offset : ℕ
primary_vector_offset = 32

abbrev pub secondary_vector_offset : ℕ
secondary_vector_offset = primary_vector_offset + 8

abbrev pub is_primary : ℕ → Bool
is_primary irq = ltb irq 8

abbrev pub delta : ℕ → ℕ
delta irq = if is_primary irq then irq else irq - 8

abbrev pub primary_command_port : ℕ
primary_command_port = 0x20

abbrev pub primary_data_port : ℕ
primary_data_port = 0x21

abbrev pub secondary_command_port : ℕ
secondary_command_port = 0xA0

abbrev pub secondary_data_port : ℕ
secondary_data_port = 0xA1

unfoldable pub pic_init : History → History
pic_init h =
    let h = cli ∷ h in
    let h = out_port byte 0x11 primary_command_port h in
    let h = out_port byte 0x11 secondary_command_port h in
    let h = out_port byte primary_vector_offset primary_data_port h in
    let h = out_port byte secondary_vector_offset secondary_data_port h in
    let h = out_port byte 4 primary_data_port h in
    let h = out_port byte 2 secondary_data_port h in
    let h = out_port byte 0x01 primary_data_port h in
    let h = out_port byte 0x01 secondary_data_port h in
    let h = out_port byte 0xFF primary_data_port h in
    let h = out_port byte 0xFF secondary_data_port h in sti ∷ h

abbrev pub command_port : ℕ → ℕ
command_port irq = if is_primary irq then primary_command_port else secondary_command_port

abbrev pub data_port : ℕ → ℕ
data_port irq = if is_primary irq then primary_data_port else secondary_data_port

unfoldable pub set_mask : Device → ℕ → History → History
set_mask dev irq h =
    let (v, h') = in_port dev byte (data_port irq) h in
    out_port byte (bit_or v (tobit (delta irq))) (data_port irq) h'

unfoldable pub unset_mask : Device → ℕ → History → History
unset_mask dev irq h =
    let (v, h') = in_port dev byte (data_port irq) h in
    out_port byte (bit_and v (not_64 (tobit (delta irq)))) (data_port irq) h'

-- `OCW2_EOI | OCW2_SL` is 0x60.
unfoldable pub notify_eoi : ℕ → History → History
notify_eoi irq h =
    let h' = out_port byte (bit_or 0x60 (delta irq)) (command_port irq) h in
    if not (is_primary irq)
    then out_port byte (bit_or 0x60 irq_secondary) (command_port irq) h'
    else h'

-- `OCW3_READ_IRR | OCW3_REQUIRED` is 0x0A.
unfoldable pub pic_read_irr : Device → History → ℕ × History
pic_read_irr dev h =
    let h₁ = out_port byte 0x0A primary_command_port h in
    let h₂ = out_port byte 0x0A secondary_command_port h₁ in
    let (primary_irr, h₃) = in_port dev byte primary_command_port h₂ in
    let (secondary_irr, h₄) = in_port dev byte secondary_command_port h₃ in
    (bit_or (u16 (secondary_irr * 2 ^ 8)) primary_irr, h₄)
