-- ===== src/Ioio/Pic.antt =====
-- `handle_pic_in` and `handle_pic_out`: the two interrupt controllers that the guest sees.
use ymirc.Prelude.{ℕ, ◌==◌, not, truth, if◌then◌else◌, u8, aborted, Outcome, done, stop}
use ymirc.Vcpu.{Machine, IoioGuestState, set_rax, set_guest}
use ymirc.Vcpu.{PicInitPhase, uninitialized, phase1, phase2, phase3, inited}
use ymirc.Ioio.Info.{IoioInfo, in_range}

-- Reading a mask register: only outside the initialization sequence.
unfoldable pub read_mask : PicInitPhase → ℕ → Machine → Outcome Machine
read_mask uninitialized mask m = done (set_rax mask m)
read_mask inited mask m = done (set_rax mask m)
read_mask _ mask m = stop aborted

unfoldable pub handle_pic_in : IoioInfo → Machine → Outcome Machine
handle_pic_in info m =
    let g = m.vcpu.guest_ioio_state in
    if not (truth info.sz8)
    then stop aborted
    else if info.port == 0x21
    then read_mask g.primary_phase g.primary_mask m
    else if info.port == 0xA1
    then read_mask g.secondary_phase g.secondary_mask m
    else stop aborted

-- A byte to a command port: ICW1, or a specific EOI, which is ignored.
unfoldable pub primary_command : ℕ → IoioGuestState → Outcome IoioGuestState
primary_command dx g =
    if dx == 0x11
    then done (record g { primary_phase = phase1 })
    else if in_range 0x60 0x67 dx
    then done g
    else stop aborted

unfoldable pub secondary_command : ℕ → IoioGuestState → Outcome IoioGuestState
secondary_command dx g =
    if dx == 0x11
    then done (record g { secondary_phase = phase1 })
    else if in_range 0x60 0x67 dx
    then done g
    else stop aborted

-- A byte to a data port, by the phase that the controller is in.
unfoldable pub primary_data : PicInitPhase → ℕ → IoioGuestState → Outcome IoioGuestState
primary_data uninitialized dx g = done (record g { primary_mask = dx })
primary_data inited dx g = done (record g { primary_mask = dx })
primary_data phase1 dx g = done (record g { primary_base = dx; primary_phase = phase2 })
primary_data phase2 dx g =
    if not (dx == 4) then stop aborted else done (record g { primary_phase = phase3 })
primary_data phase3 dx g = done (record g { primary_phase = inited })

unfoldable pub secondary_data : PicInitPhase → ℕ → IoioGuestState → Outcome IoioGuestState
secondary_data uninitialized dx g = done (record g { secondary_mask = dx })
secondary_data inited dx g = done (record g { secondary_mask = dx })
secondary_data phase1 dx g = done (record g { secondary_base = dx; secondary_phase = phase2 })
secondary_data phase2 dx g =
    if not (dx == 2) then stop aborted else done (record g { secondary_phase = phase3 })
secondary_data phase3 dx g = done (record g { secondary_phase = inited })

-- The `switch` on the port.
unfoldable pub pic_write : ℕ → ℕ → IoioGuestState → Outcome IoioGuestState
unfolding primary_command secondary_command primary_data secondary_data
pic_write port dx g =
    if port == 0x20
    then primary_command dx g
    else if port == 0x21
    then primary_data g.primary_phase dx g
    else if port == 0xA0
    then secondary_command dx g
    else if port == 0xA1
    then secondary_data g.secondary_phase dx g
    else stop aborted

abbrev pub store_guest : Machine → Outcome IoioGuestState → Outcome Machine
store_guest m (done g) = done (set_guest g m)
store_guest m (stop r) = stop r

unfoldable pub handle_pic_out : IoioInfo → Machine → Outcome Machine
handle_pic_out info m =
    if not (truth info.sz8)
    then stop aborted
    else store_guest m (pic_write info.port (u8 m.vcpu.vmcb.rax) m.vcpu.guest_ioio_state)
