-- ===== src/Ioio/Contained/Handlers.antt =====
-- Every handler of a port instruction is contained.
use ymirc.Prelude.{ℕ, ◌≡◌, refl, arith, ◌∷◌, ◌^◌, ◌<◌, ◌||◌, ◌==◌, u8, u32}
use ymirc.Prelude.{true, not, truth, Outcome, done, stop, ◌>>=◌, if◌then◌else◌, aborted}
use ymirc.Prelude.{OnDone, OnDone-if, OnDone-cases, OnDone_elim, if_both}
use ymirc.Ports.{History, Device, Width, input, output}
use ymirc.Serial.{write_byte}
use ymirc.Vcpu.{Machine, IoioGuestState, PicInitPhase, set_rax}
use ymirc.Vcpu.{uninitialized, phase1, phase2, phase3, inited}
use ymirc.Ioio.Info.{IoioInfo, decode, in_range}
use ymirc.Ioio.Uart.{handle_serial_in, handle_serial_out}
use ymirc.Ioio.Pit.{handle_pit_in, handle_pit_out}
use ymirc.Ioio.Pic.{
  primary_data, secondary_data, pic_write, read_mask, handle_pic_in, handle_pic_out, store_guest,
}
use ymirc.Ioio.Dispatch.{handle_ioio_in, handle_ioio_out, handle_svm_ioio_exit}
use ymirc.Ioio.Contained.{IsBytes, IsContained, Touched, nothing, access, same_IsContained}
use ymirc.Ioio.Contained.{set_rax-IsContained, set_guest-IsContained, pass_in-IsContained}
use ymirc.Ioio.Contained.{write_byte-Touched, open_timer}

primary_data-IsBytes :
    (p : PicInitPhase) (dx : ℕ) (g : IoioGuestState)
    → dx < 2 ^ 8
    → IsBytes g
    → OnDone IsBytes (primary_data p dx g)
unfolding primary_data
primary_data-IsBytes uninitialized dx g small h = omega arith
primary_data-IsBytes inited dx g small h = omega arith
primary_data-IsBytes phase1 dx g small h = omega arith
primary_data-IsBytes phase2 dx g small h = OnDone-if IsBytes (not (dx == 4)) _ _ tt (omega arith)
primary_data-IsBytes phase3 dx g small h = omega arith

secondary_data-IsBytes :
    (p : PicInitPhase) (dx : ℕ) (g : IoioGuestState)
    → dx < 2 ^ 8
    → IsBytes g
    → OnDone IsBytes (secondary_data p dx g)
unfolding secondary_data
secondary_data-IsBytes uninitialized dx g small h = omega arith
secondary_data-IsBytes inited dx g small h = omega arith
secondary_data-IsBytes phase1 dx g small h = omega arith
secondary_data-IsBytes phase2 dx g small h = OnDone-if IsBytes (not (dx == 2)) _ _ tt (omega arith)
secondary_data-IsBytes phase3 dx g small h = omega arith

pic_write-IsBytes :
    (port dx : ℕ) (g : IoioGuestState)
    → dx < 2 ^ 8
    → IsBytes g
    → OnDone IsBytes (pic_write port dx g)
unfolding pic_write
pic_write-IsBytes port dx g small h =
    OnDone-if IsBytes (port == 0x20) _ _
      (OnDone-if IsBytes (dx == 0x11) _ _ (omega arith)
        (OnDone-if IsBytes (in_range 0x60 0x67 dx) _ _ h tt))
      (OnDone-if IsBytes (port == 0x21) _ _ (primary_data-IsBytes g.primary_phase dx g small h) (
        OnDone-if IsBytes (port == 0xA0) _ _
          (OnDone-if IsBytes (dx == 0x11) _ _ (omega arith)
            (OnDone-if IsBytes (in_range 0x60 0x67 dx) _ _ h tt))
          (OnDone-if IsBytes (port == 0xA1) _ _
            (secondary_data-IsBytes g.secondary_phase dx g small h) tt)))

module _ (dev : Device) (m : Machine) where
  abbrev Contained : Outcome Machine → Type 0
  Contained = OnDone (IsContained m)

  serial_in : (port : ℕ) → Contained (handle_serial_in dev port m)
  unfolding handle_serial_in
  serial_in port =
      OnDone-cases (IsContained m) (port == 0x3F8) _ _
        (λ e. pass_in-IsContained dev port m (ground arith))
        λ _. OnDone-if (IsContained m) (port == 0x3F9) _ _ (set_rax-IsContained _ m) (
          OnDone-cases (IsContained m) (port == 0x3FA) _ _
            (λ e. pass_in-IsContained dev port m (ground arith))
            λ _. OnDone-if (IsContained m) (port == 0x3FB) _ _ (set_rax-IsContained 0 m) (
              OnDone-if (IsContained m) (port == 0x3FC) _ _ (set_rax-IsContained _ m) (
                OnDone-cases (IsContained m) (port == 0x3FD) _ _
                  (λ e. pass_in-IsContained dev port m (ground arith))
                  λ _.
                    OnDone-cases (IsContained m) (port == 0x3FE) _ _
                      (λ e. pass_in-IsContained dev port m (ground arith))
                      λ _.
                        OnDone-if (IsContained m) (port == 0x3FF) _ _ (set_rax-IsContained 0 m)
                          tt)))

  transmit :
      (x : Outcome History)
      → OnDone (Touched m.vcpu.serial m.io) x
      → Contained (x >>= λ h. done (record m { io = h }))
  transmit (done h) t = record { io = t; frame = refl; bytes = λ h. h }
  transmit (stop r) t = tt

  serial_out : (polls port : ℕ) → Contained (handle_serial_out polls dev port m)
  unfolding handle_serial_out
  serial_out polls port =
      OnDone-if (IsContained m) (port == 0x3F8) _ _
        (transmit (write_byte polls dev (u8 m.vcpu.vmcb.rax) m.vcpu.serial m.io)
          (write_byte-Touched polls dev (u8 m.vcpu.vmcb.rax) m.vcpu.serial m.io))
        (OnDone-if (IsContained m) (port == 0x3F9) _ _
          (set_guest-IsContained _ m (λ h. omega arith))
          (OnDone-if (IsContained m) (port == 0x3FA) _ _ (same_IsContained m) (
            OnDone-if (IsContained m) (port == 0x3FB) _ _ (same_IsContained m) (
              OnDone-if (IsContained m) (port == 0x3FC) _ _
                (set_guest-IsContained _ m (λ h. omega arith))
                (OnDone-if (IsContained m) (port == 0x3FF) _ _ (same_IsContained m) tt)))))

  pit_in :
      (info : IoioInfo)
      → in_range 0x40 0x47 info.port ≡ true
      → IsContained m (handle_pit_in dev info m)
  unfolding handle_pit_in
  pit_in info h =
      if_both (IsContained m) (truth info.sz8) _ _
        (record { io = opened; frame = refl; bytes = λ h. h })
        (if_both (IsContained m) (truth info.sz16) _ _
          (record { io = opened; frame = refl; bytes = λ h. h })
          (if_both (IsContained m) (truth info.sz32) _ _
            (record { io = opened; frame = refl; bytes = λ h. h }) (same_IsContained m)))
    where
      opened : {w : Width} {v : ℕ} → Touched m.vcpu.serial m.io (input w info.port v ∷ m.io)
      opened {w} {v} = access (input w info.port v) (open_timer m.vcpu.serial info.port w h) nothing

  pit_out :
      (info : IoioInfo)
      → in_range 0x40 0x47 info.port ≡ true
      → IsContained m (handle_pit_out info m)
  unfolding handle_pit_out
  pit_out info h =
      if_both (IsContained m) (truth info.sz8) _ _
        (record { io = opened; frame = refl; bytes = λ h. h })
        (if_both (IsContained m) (truth info.sz16) _ _
          (record { io = opened; frame = refl; bytes = λ h. h })
          (if_both (IsContained m) (truth info.sz32) _ _
            (record { io = opened; frame = refl; bytes = λ h. h }) (same_IsContained m)))
    where
      opened : {w : Width} {v : ℕ} → Touched m.vcpu.serial m.io (output w info.port v ∷ m.io)
      opened {w} {v} =
          access (output w info.port v) (open_timer m.vcpu.serial info.port w h) nothing

  read_mask-Contained : (p : PicInitPhase) (mask : ℕ) → Contained (read_mask p mask m)
  unfolding read_mask
  read_mask-Contained uninitialized mask = set_rax-IsContained mask m
  read_mask-Contained inited mask = set_rax-IsContained mask m
  read_mask-Contained _ mask = tt

  pic_in : (info : IoioInfo) → Contained (handle_pic_in info m)
  unfolding handle_pic_in
  pic_in info = OnDone-if (IsContained m) (not (truth info.sz8)) _ _ tt (
      OnDone-if (IsContained m) (info.port == 0x21) _ _ (read_mask-Contained _ _)
        (OnDone-if (IsContained m) (info.port == 0xA1) _ _ (read_mask-Contained _ _) tt))

  stored :
      (x : Outcome IoioGuestState)
      → (IsBytes m.vcpu.guest_ioio_state → OnDone IsBytes x)
      → Contained (store_guest m x)
  stored (done g) bytes = set_guest-IsContained g m bytes
  stored (stop r) bytes = tt

  pic_out : (info : IoioInfo) → Contained (handle_pic_out info m)
  unfolding handle_pic_out
  pic_out info = OnDone-if (IsContained m) (not (truth info.sz8)) _ _ tt (
      stored (pic_write info.port (u8 m.vcpu.vmcb.rax) m.vcpu.guest_ioio_state) (λ h.
        pic_write-IsBytes info.port (u8 m.vcpu.vmcb.rax) m.vcpu.guest_ioio_state (omega arith) h))

  in_Contained : (info : IoioInfo) → Contained (handle_ioio_in dev info m)
  unfolding handle_ioio_in
  in_Contained info = OnDone-if (IsContained m) (in_range 0x20 0x21 info.port) _ _ (pic_in info) (
      OnDone-cases (IsContained m) (in_range 0x40 0x47 info.port) _ _ (pit_in info) λ _.
        OnDone-if (IsContained m) (in_range 0x60 0x64 info.port) _ _ zeroed (
          OnDone-if (IsContained m) (in_range 0x70 0x71 info.port) _ _ zeroed (
            OnDone-if (IsContained m) (in_range 0x80 0x8F info.port) _ _ same (
              OnDone-if (IsContained m) (in_range 0xA0 0xA1 info.port) _ _ (pic_in info) (
                OnDone-if (IsContained m) (in_range 0x2E8 0x2EF info.port) _ _ same (
                  OnDone-if (IsContained m) (in_range 0x2F8 0x2FF info.port) _ _ same (
                    OnDone-if (IsContained m) (in_range 0x3B0 0x3DF info.port) _ _ zeroed
                      (late info))))))))
    where
      same : IsContained m m
      same = same_IsContained m

      zeroed : IsContained m (set_rax 0 m)
      zeroed = set_rax-IsContained 0 m

      late :
          (info : IoioInfo)
          → Contained (
              if in_range 0x3E8 0x3EF info.port
              then done m
              else if in_range 0x3F8 0x3FF info.port
              then handle_serial_in dev info.port m
              else if in_range 0xC000 0xCFFF info.port
              then done m
              else if in_range 0xCF8 0xCFF info.port
              then done (set_rax 0 m)
              else stop aborted)
      late info = OnDone-if (IsContained m) (in_range 0x3E8 0x3EF info.port) _ _ same (
          OnDone-if (IsContained m) (in_range 0x3F8 0x3FF info.port) _ _ (serial_in info.port) (
            OnDone-if (IsContained m) (in_range 0xC000 0xCFFF info.port) _ _ same
              (OnDone-if (IsContained m) (in_range 0xCF8 0xCFF info.port) _ _ zeroed tt)))

  out_Contained : (polls : ℕ) (info : IoioInfo) → Contained (handle_ioio_out polls dev info m)
  unfolding handle_ioio_out
  out_Contained polls info =
      let same = same_IsContained m in
      OnDone-if (IsContained m) (in_range 0x20 0x21 info.port) _ _ (pic_out info) (
        OnDone-cases (IsContained m) (in_range 0x40 0x47 info.port) _ _ (pit_out info) λ _.
          OnDone-if (IsContained m)
            (in_range 0x60 0x64 info.port
              || in_range 0x70 0x71 info.port
              || in_range 0x80 0x8F info.port)
            _ _ same
            (OnDone-if (IsContained m) (in_range 0xA0 0xA1 info.port) _ _ (pic_out info) (
              OnDone-if (IsContained m)
                (in_range 0x2E8 0x2EF info.port
                  || in_range 0x2F8 0x2FF info.port
                  || in_range 0x3B0 0x3DF info.port
                  || in_range 0x3E8 0x3EF info.port)
                _ _ same
                (OnDone-if (IsContained m) (in_range 0x3F8 0x3FF info.port) _ _
                  (serial_out polls info.port)
                  (OnDone-if (IsContained m)
                    (in_range 0xC000 0xCFFF info.port || in_range 0xCF8 0xCFF info.port) _ _ same
                    tt)))))

-- A port instruction of the guest that is handled has the host access only bytes at the ports 0x40 to
-- 0x4A, at four registers of the first serial port and at two of the host's own: never its interrupt
-- controllers, keyboard, clock or PCI ports. Of the virtual CPU it changes RAX and the guest's
-- device registers, which stay bytes, and nothing else.
pub handle_svm_ioio_exit-IsContained :
    (polls : ℕ) (dev : Device) (m : Machine) {m' : Machine}
    → handle_svm_ioio_exit polls dev m ≡ done m'
    → IsContained m m'
handle_svm_ioio_exit-IsContained polls dev m =
    let info = decode (u32 m.vcpu.vmcb.exitinfo1) in
    OnDone_elim (IsContained m) (handle_svm_ioio_exit polls dev m) (
      unfold handle_svm_ioio_exit in
      OnDone-if (IsContained m) (info.type == 0) _ _ (out_Contained dev m polls info)
        (in_Contained dev m info))
