-- ===== src/Serial.antt =====
-- ymirc/serial.h and ymirc/arch/x86/serial.c: the host's serial ports. A loop that polls the
-- line status register takes the number of polls as fuel. `Serial` is its port address, by which
-- `write_fn` and `read_fn` are chosen.
pub mod Polling
use ymirc.Prelude.{ℕ, zero, suc, ◌+◌, ◌/◌, bit_and, bit_or}
use ymirc.Prelude.{Option, none, some, if◌then◌else◌, ◌==◌, out_of_fuel, undefined}
use ymirc.Prelude.{Outcome, done, stop}
use ymirc.Bits.{isset_8}
use ymirc.Ports.{History, Device, byte, in_port, out_port}

abbrev pub com1 : ℕ
com1 = 0x3F8

abbrev pub com2 : ℕ
com2 = 0x2F8

abbrev pub com3 : ℕ
com3 = 0x3E8

pub data SerialPort : Type 0 where
  port_com1 port_com2 port_com3 : SerialPort

-- `write_byte`: polls until bit 5 of the line status register is set, then writes.
unfoldable pub write_byte : ℕ → Device → ℕ → ℕ → History → Outcome History
write_byte zero dev value addr h = stop out_of_fuel
write_byte (suc polls) dev value addr h =
    let (status, h') = in_port dev byte (addr + 5) h in
    let again = write_byte polls dev value addr h' in
    if isset_8 status 5 then done (out_port byte value addr h') else again

-- `try_read_byte`; `none` is -1.
unfoldable pub try_read_byte : Device → ℕ → History → Option ℕ × History
try_read_byte dev addr h =
    let (status, h') = in_port dev byte (addr + 5) h in
    let (value, h'') = in_port dev byte addr h' in
    if isset_8 status 0 then (some value, h'') else (none, h')

abbrev pub port_address : SerialPort → ℕ
port_address port_com1 = com1
port_address port_com2 = com2
port_address port_com3 = com3

-- `serial_init`: the address that is stored, and the accesses. A baud rate of 0 divides by zero.
unfoldable pub serial_init : Device → SerialPort → ℕ → History → Outcome (ℕ × History)
serial_init dev port baud h =
    let addr = port_address port in
    let h = out_port byte 3 (addr + 3) h in
    let h = out_port byte 0 (addr + 1) h in
    let h = out_port byte 0 (addr + 2) h in
    let divisor = 115200 / baud in
    let (c, h) = in_port dev byte (addr + 3) h in
    let h = out_port byte (bit_or c 0x80) (addr + 3) h in
    let h = out_port byte (bit_and divisor 0xFF) (addr + 0) h in
    let h = out_port byte (bit_and (divisor / 256) 0xFF) (addr + 1) h in
    let h = out_port byte (bit_and c 0x7F) (addr + 3) h in
    if baud == 0 then stop undefined else done (addr, h)

unfoldable pub enable_serial_interrupt : Device → ℕ → History → History
enable_serial_interrupt dev addr h =
    let (ie, h') = in_port dev byte (addr + 1) h in out_port byte (bit_or ie 3) (addr + 1) h'

-- `serial_read_blocking`
unfoldable pub serial_read_blocking : ℕ → Device → ℕ → History → Outcome (ℕ × History)
serial_read_blocking zero dev addr h = stop out_of_fuel
serial_read_blocking (suc polls) dev addr h =
    let (c, h') = try_read_byte dev addr h in
    elim c [ some v ↦ done (v, h') | none ↦ serial_read_blocking polls dev addr h' ]
