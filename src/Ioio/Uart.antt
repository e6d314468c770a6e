-- ===== src/Ioio/Uart.antt =====
-- `handle_serial_in` and `handle_serial_out`: the guest's first serial port.
use ymirc.Prelude.{ℕ, ◌==◌, if◌then◌else◌, u8, aborted, Outcome, done, stop, ◌>>=◌}
use ymirc.Ports.{Device, byte, in_port}
use ymirc.Serial.{write_byte}
use ymirc.Vcpu.{Machine, set_rax, set_guest}

-- `vmcb->rax = inb(port)`
abbrev pub pass_in : Device → ℕ → Machine → Machine
pass_in dev port m = let (v, h) = in_port dev byte port m.io in set_rax v (record m { io = h })

unfoldable pub handle_serial_in : Device → ℕ → Machine → Outcome Machine
handle_serial_in dev port m =
    if port == 0x3F8
    then done (pass_in dev port m)
    else if port == 0x3F9
    then done (set_rax m.vcpu.guest_ioio_state.ier m)
    else if port == 0x3FA
    then done (pass_in dev port m)
    else if port == 0x3FB
    then done (set_rax 0 m)
    else if port == 0x3FC
    then done (set_rax m.vcpu.guest_ioio_state.mcr m)
    else if port == 0x3FD
    then done (pass_in dev port m)
    else if port == 0x3FE
    then done (pass_in dev port m)
    else if port == 0x3FF
    then done (set_rax 0 m)
    else stop aborted

-- `serial_write` polls the line status register `polls` times at most.
unfoldable pub handle_serial_out : ℕ → Device → ℕ → Machine → Outcome Machine
handle_serial_out polls dev port m =
    let al = u8 m.vcpu.vmcb.rax in
    let g = m.vcpu.guest_ioio_state in
    if port == 0x3F8
    then (do h ← write_byte polls dev al m.vcpu.serial m.io; done (record m { io = h }))
    else if port == 0x3F9
    then done (set_guest (record g { ier = al }) m)
    else if port == 0x3FA
    then done m
    else if port == 0x3FB
    then done m
    else if port == 0x3FC
    then done (set_guest (record g { mcr = al }) m)
    else if port == 0x3FF
    then done m
    else stop aborted
