-- ===== src/Tests/Guest.antt =====
-- A virtual CPU at fixed values, and what the handlers of its controllers and registers do.
use ymirc.Prelude.{ℕ, ◌-◌, ◌^◌, ◌≡◌, refl, [], done}
use ymirc.Ports.{Device}
use ymirc.Vcpu.{
  VmcbSeg, Vmcb, GuestRegisters, IoioGuestState, phase1, inited, SvmVcpu, Machine,
  ioio_guest_state_new,
}
use ymirc.Pic.{pic_init}
use ymirc.Ioio.Pic.{pic_write}
use ymirc.Ioio.PicInit.{
  IsPicStep, pic_write-IsPicStep, write_all, init_sequence, init_sequence_lem, written,
  pic_init-write_all,
}
use ymirc.Msr.{msr_efer}

abbrev pub segment : VmcbSeg
segment = record { sel = 0; attr = 0; limit = 0xFFFFFFFF; base = 0 }

-- A control block of a guest that accepts interrupts, with the exit code and its first datum.
abbrev pub block : ℕ → ℕ → Vmcb
block code info = record {
  intercept_intr = 1;
  intercept_cpuid = 1;
  intercept_hlt = 1;
  intercept_ioio_prot = 1;
  intercept_msr_prot = 1;
  intercept_vmrun = 1;
  intercept_vmmcall = 1;
  iopm_base_pa = 0x3000;
  msrpm_base_pa = 0x7000;
  guest_asid = 1;
  tlb_control = 0;
  v_irq = 0;
  v_ign_tpr = 1;
  v_intr_masking = 1;
  v_intr_vector = 0;
  interrupt_shadow = 0;
  exitcode = code;
  exitinfo1 = info;
  exitinfo2 = 0;
  np_enable = 1;
  n_cr3 = 0x9000;
  nrip = 0x100002;
  es = segment;
  cs = segment;
  ss = segment;
  ds = segment;
  fs = segment;
  gs = segment;
  efer = 0x1000;
  cr4 = 0;
  cr3 = 0;
  cr0 = 1;
  rflags = 0x202;
  rip = 0x100000;
  rsp = 0;
  rax = 0x11;
  star = 0;
  lstar = 0;
  cstar = 0;
  sfmask = 0;
  kernel_gs_base = 0;
  sysenter_cs = 0;
  sysenter_esp = 0;
  sysenter_eip = 0;
}

abbrev pub registers : ℕ → ℕ → GuestRegisters
registers c d = record {
  rcx = c;
  rdx = d;
  rbx = 0;
  rbp = 0;
  rsi = 0;
  rdi = 0;
  r8 = 0;
  r9 = 0;
  r10 = 0;
  r11 = 0;
  r12 = 0;
  r13 = 0;
  r14 = 0;
  r15 = 0;
}

-- Both controllers initialized, every line unmasked.
abbrev pub running : IoioGuestState
running = record {
  ier = 0;
  mcr = 0;
  primary_mask = 0;
  secondary_mask = 0;
  primary_phase = inited;
  secondary_phase = inited;
  primary_base = 0x30;
  secondary_base = 0x38;
}

abbrev pub guest : ℕ → ℕ → ℕ → SvmVcpu
guest code info c = record {
  id = 0;
  asid = 1;
  vmcb = block code info;
  vmcb_phys = 0x8000;
  guest_regs = registers c 0;
  guest_base = 0;
  serial = 0x3F8;
  guest_ioio_state = running;
  pending_irq = 0;
  last_injected_irq = 0;
}

abbrev pub machine : ℕ → ℕ → ℕ → Machine
machine code info c = record { vcpu = guest code info c; io = [] }

-- A device that answers every read with all ones.
abbrev pub ones : Device
ones = record { answer = λ h w port. 2 ^ 32 - 1 }

start_sequence :
    pic_write 0x20 0x11 ioio_guest_state_new
    ≡ done (record ioio_guest_state_new { primary_phase = phase1 })
unfolding pic_write
start_sequence = refl

pic_write-IsPicStep_example :
    IsPicStep ioio_guest_state_new (record ioio_guest_state_new { primary_phase = phase1 })
pic_write-IsPicStep_example = pic_write-IsPicStep 0x20 0x11 ioio_guest_state_new start_sequence

init_sequence_lem_example :
    write_all (init_sequence 0x30 0x38 1 1 0xFA 0xFF) ioio_guest_state_new
    ≡ done (record {
      ier = 0;
      mcr = 0;
      primary_mask = 0xFA;
      secondary_mask = 0xFF;
      primary_phase = inited;
      secondary_phase = inited;
      primary_base = 0x30;
      secondary_base = 0x38;
    })
init_sequence_lem_example = init_sequence_lem 0x30 0x38 1 1 0xFA 0xFF ioio_guest_state_new

pic_init-write_all_example :
    write_all (written (pic_init [])) ioio_guest_state_new
    ≡ done (record {
      ier = 0;
      mcr = 0;
      primary_mask = 0xFF;
      secondary_mask = 0xFF;
      primary_phase = inited;
      secondary_phase = inited;
      primary_base = 32;
      secondary_base = 40;
    })
pic_init-write_all_example = pic_init-write_all ioio_guest_state_new

-- A guest that executes WRMSR with ECX = EFER.
abbrev writer : Machine
writer = machine 0x7C 1 msr_efer
