-- ===== src/Ioio/Pit.antt =====
-- `handle_pit_in` and `handle_pit_out`: the timer's ports are passed through.
use ymirc.Prelude.{ℕ, truth, if◌then◌else◌}
use ymirc.Ports.{Device, Width, byte, word, dword, in_port, out_port}
use ymirc.Vcpu.{Machine, set_rax}
use ymirc.Ioio.Info.{IoioInfo}

abbrev read_at : Device → Width → ℕ → Machine → Machine
read_at dev w port m = let (v, h) = in_port dev w port m.io in set_rax v (record m { io = h })

unfoldable pub handle_pit_in : Device → IoioInfo → Machine → Machine
handle_pit_in dev info m =
    if truth info.sz8
    then read_at dev byte info.port m
    else if truth info.sz16
    then read_at dev word info.port m
    else if truth info.sz32
    then read_at dev dword info.port m
    else m

-- The written value is cut to the width of the instruction.
abbrev write_at : Width → ℕ → Machine → Machine
write_at w port m = record m { io = out_port w m.vcpu.vmcb.rax port m.io }

unfoldable pub handle_pit_out : IoioInfo → Machine → Machine
handle_pit_out info m =
    if truth info.sz8
    then write_at byte info.port m
    else if truth info.sz16
    then write_at word info.port m
    else if truth info.sz32
    then write_at dword info.port m
    else m
