-- ===== src/Ioio/Dispatch.antt =====
-- `handle_ioio_in`, `handle_ioio_out` and `handle_svm_ioio_exit`: the ranges of ports.
use ymirc.Prelude.{ℕ, ◌==◌, ◌||◌, if◌then◌else◌, u32, aborted, Outcome, done, stop}
use ymirc.Ports.{Device}
use ymirc.Vcpu.{Machine, set_rax}
use ymirc.Ioio.Info.{IoioInfo, decode, in_range}
use ymirc.Ioio.Uart.{handle_serial_in, handle_serial_out}
use ymirc.Ioio.Pit.{handle_pit_in, handle_pit_out}
use ymirc.Ioio.Pic.{handle_pic_in, handle_pic_out}

unfoldable pub handle_ioio_in : Device → IoioInfo → Machine → Outcome Machine
handle_ioio_in dev info m =
    let port = info.port in
    if in_range 0x0020 0x0021 port
    then handle_pic_in info m
    else if in_range 0x0040 0x0047 port
    then done (handle_pit_in dev info m)
    else if in_range 0x0060 0x0064 port
    then done (set_rax 0 m)
    else if in_range 0x0070 0x0071 port
    then done (set_rax 0 m)
    else if in_range 0x0080 0x008F port
    then done m
    else if in_range 0x00A0 0x00A1 port
    then handle_pic_in info m
    else if in_range 0x02E8 0x02EF port
    then done m
    else if in_range 0x02F8 0x02FF port
    then done m
    else if in_range 0x03B0 0x03DF port
    then done (set_rax 0 m)
    else if in_range 0x03E8 0x03EF port
    then done m
    else if in_range 0x03F8 0x03FF port
    then handle_serial_in dev port m
    else if in_range 0xC000 0xCFFF port
    then done m
    else if in_range 0x0CF8 0x0CFF port
    then done (set_rax 0 m)
    else stop aborted

unfoldable pub handle_ioio_out : ℕ → Device → IoioInfo → Machine → Outcome Machine
handle_ioio_out polls dev info m =
    let port = info.port in
    if in_range 0x0020 0x0021 port
    then handle_pic_out info m
    else if in_range 0x0040 0x0047 port
    then done (handle_pit_out info m)
    else if in_range 0x0060 0x0064 port
        || in_range 0x0070 0x0071 port
        || in_range 0x0080 0x008F port
    then done m
    else if in_range 0x00A0 0x00A1 port
    then handle_pic_out info m
    else if in_range 0x02E8 0x02EF port
        || in_range 0x02F8 0x02FF port
        || in_range 0x03B0 0x03DF port
        || in_range 0x03E8 0x03EF port
    then done m
    else if in_range 0x03F8 0x03FF port
    then handle_serial_out polls dev port m
    else if in_range 0xC000 0xCFFF port || in_range 0x0CF8 0x0CFF port
    then done m
    else stop aborted

unfoldable pub handle_svm_ioio_exit : ℕ → Device → Machine → Outcome Machine
handle_svm_ioio_exit polls dev m =
    let info = decode (u32 m.vcpu.vmcb.exitinfo1) in
    if info.type == 0 then handle_ioio_out polls dev info m else handle_ioio_in dev info m
