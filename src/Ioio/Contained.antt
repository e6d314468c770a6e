-- ===== src/Ioio/Contained.antt =====
-- What a port instruction of the guest can reach: which host ports, and which parts of the state.
pub mod Handlers
use ymirc.Prelude.{ℕ, zero, suc, ◌+◌, ◌^◌, ◌≤◌, ◌<◌, ◌≡◌, refl, arith, List, [], ◌∷◌, ◌||◌, ◌==◌}
use ymirc.Prelude.{
  Bool, true, false, not, truth, Outcome, done, stop, ◌>>=◌, if◌then◌else◌, aborted,
}
use ymirc.Prelude.{OnDone, OnDone-if, OnDone-cases, OnDone_elim, u8, u32, out_of_fuel}
use ymirc.Bits.{isset_8}
use ymirc.Ports.{History, IoEvent, Device, Width, input, output, byte, word, dword, out_port}
use ymirc.Serial.{write_byte}
use ymirc.Vcpu.{Machine, SvmVcpu, IoioGuestState, PicInitPhase, set_rax, set_guest}
use ymirc.Vcpu.{uninitialized, phase1, phase2, phase3, inited}
use ymirc.Ioio.Info.{IoioInfo, decode, in_range}
use ymirc.Ioio.Uart.{pass_in, handle_serial_in, handle_serial_out}
use ymirc.Ioio.Pit.{handle_pit_in, handle_pit_out}
use ymirc.Ioio.Pic.{read_mask, handle_pic_in, pic_write, handle_pic_out}
use ymirc.Ioio.Dispatch.{handle_ioio_in, handle_ioio_out, handle_svm_ioio_exit}

-- The ports at which the host serves the guest, byte by byte: the timer's ports and the three behind
-- them, which a word or a double word at the last ones reaches; four registers of the first serial
-- port; and two of the host's own serial port, to which the guest's output goes.
abbrev pub is_open : ℕ → ℕ → Bool
is_open serial port =
    in_range 0x40 0x4A port
    || port == 0x3F8
    || port == 0x3FA
    || port == 0x3FD
    || port == 0x3FE
    || port == serial
    || port == serial + 5

abbrev pub bytes_of : Width → ℕ
bytes_of byte = 1
bytes_of word = 2
bytes_of dword = 4

-- Every byte of the access is at an open port.
abbrev pub IsOpenAccess : ℕ → IoEvent → Type 0
IsOpenAccess serial (input w port v) =
    (p : ℕ) → port ≤ p → p < port + bytes_of w → is_open serial p ≡ true
IsOpenAccess serial (output w port v) =
    (p : ℕ) → port ≤ p → p < port + bytes_of w → is_open serial p ≡ true
IsOpenAccess serial _ = ⊥

pub open_byte :
    (serial port : ℕ)
    → is_open serial port ≡ true
    → (p : ℕ) → port ≤ p
    → p < port + 1
    → is_open serial p ≡ true
open_byte serial port h p low high = let e : p ≡ port = omega arith in rw e h

pub open_timer :
    (serial port : ℕ) (w : Width)
    → in_range 0x40 0x47 port ≡ true
    → (p : ℕ) → port ≤ p
    → p < port + bytes_of w
    → is_open serial p ≡ true
open_timer serial port byte h p low high = ground arith
open_timer serial port word h p low high = ground arith
open_timer serial port dword h p low high = ground arith

-- Later histories that add accesses to open ports only.
pub data Touched (serial : ℕ) (h : History) : History → Type 0 where
  nothing : Touched serial h h
  access :
      {h' : History} (e : IoEvent)
      → IsOpenAccess serial e
      → Touched serial h h'
      → Touched serial h (e ∷ h')

Touched-trans :
    {serial : ℕ} {h h' h'' : History}
    → Touched serial h h'
    → Touched serial h' h''
    → Touched serial h h''
Touched-trans s nothing = s
Touched-trans s (access e ok t) = access e ok (Touched-trans s t)

-- The registers of the guest's devices are bytes.
pub record IsBytes (g : IoioGuestState) : Type 0 where
  pub ier : g.ier < 2 ^ 8
  pub mcr : g.mcr < 2 ^ 8
  pub primary_mask : g.primary_mask < 2 ^ 8
  pub secondary_mask : g.secondary_mask < 2 ^ 8
  pub primary_base : g.primary_base < 2 ^ 8
  pub secondary_base : g.secondary_base < 2 ^ 8

-- RAX, the guest's device registers, which stay bytes, and the history may change, and nothing
-- else.
pub record IsContained (m m' : Machine) : Type 0 where
  pub io : Touched m.vcpu.serial m.io m'.io
  pub frame : m'.vcpu ≡ record m.vcpu {
    vmcb = record m.vcpu.vmcb { rax = m'.vcpu.vmcb.rax };
    guest_ioio_state = m'.vcpu.guest_ioio_state;
  }
  pub bytes : IsBytes m.vcpu.guest_ioio_state → IsBytes m'.vcpu.guest_ioio_state

pub same_IsContained : (m : Machine) → IsContained m m
same_IsContained m = record { io = nothing; frame = refl; bytes = λ h. h }

pub set_rax-IsContained : (v : ℕ) (m : Machine) → IsContained m (set_rax v m)
set_rax-IsContained v m = record { io = nothing; frame = refl; bytes = λ h. h }

pub set_guest-IsContained :
    (g : IoioGuestState) (m : Machine)
    → (IsBytes m.vcpu.guest_ioio_state → IsBytes g)
    → IsContained m (set_guest g m)
set_guest-IsContained g m bytes = record { io = nothing; frame = refl; bytes = bytes }

pub pass_in-IsContained :
    (dev : Device) (port : ℕ) (m : Machine)
    → is_open m.vcpu.serial port ≡ true
    → IsContained m (pass_in dev port m)
pass_in-IsContained dev port m h = record {
  io = access _ (open_byte m.vcpu.serial port h) nothing;
  frame = refl;
  bytes = λ h. h;
}

-- Polling and writing the host's serial port touches its two registers.
pub write_byte-Touched :
    (polls : ℕ) (dev : Device) (v addr : ℕ) (h : History)
    → OnDone (Touched addr h) (write_byte polls dev v addr h)
unfolding write_byte
write_byte-Touched zero dev v addr h = tt
write_byte-Touched (suc polls) dev v addr h =
    let h' : History = input byte (addr + 5) (u8 (dev.answer h byte (addr + 5))) ∷ h in
    let polled : Touched addr h h' = access _ (open_byte addr (addr + 5) (ground arith)) nothing in
    OnDone-if (Touched addr h) (isset_8 (u8 (dev.answer h byte (addr + 5))) 5)
      (done (out_port byte v addr h')) (write_byte polls dev v addr h')
      (access _ (open_byte addr addr (ground arith)) polled)
      (extend (write_byte polls dev v addr h') polled (write_byte-Touched polls dev v addr h'))
  where
    extend :
        {h h' : History} (x : Outcome History)
        → Touched addr h h'
        → OnDone (Touched addr h') x
        → OnDone (Touched addr h) x
    extend (done h'') s t = Touched-trans s t
    extend (stop r) s t = tt
