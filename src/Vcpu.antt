-- ===== src/Vcpu.antt =====
-- The state of a virtual CPU: ymirc/arch/x86/svm_vcpu.h, svm_vmcb.h, svm_common.h and
-- svm_ioio_guest_state.h. Of the control block the fields that the program reads or writes are
-- modelled; of the guest registers those that are no vector registers.
pub mod Halves
use ymirc.Prelude.{ℕ, List, [], Outcome}
use ymirc.Ports.{History}

-- `VmcbSeg`
pub record VmcbSeg : Type 0 where
  pub sel : ℕ
  pub attr : ℕ
  pub limit : ℕ
  pub base : ℕ

pub record Vmcb : Type 0 where
  pub intercept_intr : ℕ
  pub intercept_cpuid : ℕ
  pub intercept_hlt : ℕ
  pub intercept_ioio_prot : ℕ
  pub intercept_msr_prot : ℕ
  pub intercept_vmrun : ℕ
  pub intercept_vmmcall : ℕ
  pub iopm_base_pa : ℕ
  pub msrpm_base_pa : ℕ
  pub guest_asid : ℕ
  pub tlb_control : ℕ
  pub v_irq : ℕ
  pub v_ign_tpr : ℕ
  pub v_intr_masking : ℕ
  pub v_intr_vector : ℕ
  pub interrupt_shadow : ℕ
  pub exitcode : ℕ
  pub exitinfo1 : ℕ
  pub exitinfo2 : ℕ
  pub np_enable : ℕ
  pub n_cr3 : ℕ
  pub nrip : ℕ
  pub es : VmcbSeg
  pub cs : VmcbSeg
  pub ss : VmcbSeg
  pub ds : VmcbSeg
  pub fs : VmcbSeg
  pub gs : VmcbSeg
  pub efer : ℕ
  pub cr4 : ℕ
  pub cr3 : ℕ
  pub cr0 : ℕ
  pub rflags : ℕ
  pub rip : ℕ
  pub rsp : ℕ
  pub rax : ℕ
  pub star : ℕ
  pub lstar : ℕ
  pub cstar : ℕ
  pub sfmask : ℕ
  pub kernel_gs_base : ℕ
  pub sysenter_cs : ℕ
  pub sysenter_esp : ℕ
  pub sysenter_eip : ℕ

pub record GuestRegisters : Type 0 where
  pub rcx : ℕ
  pub rdx : ℕ
  pub rbx : ℕ
  pub rbp : ℕ
  pub rsi : ℕ
  pub rdi : ℕ
  pub r8 : ℕ
  pub r9 : ℕ
  pub r10 : ℕ
  pub r11 : ℕ
  pub r12 : ℕ
  pub r13 : ℕ
  pub r14 : ℕ
  pub r15 : ℕ

-- `SvmPicInitPhase`
pub data PicInitPhase : Type 0 where
  uninitialized phase1 phase2 phase3 inited : PicInitPhase

-- `SvmIoioGuestState`
pub record IoioGuestState : Type 0 where
  pub ier : ℕ
  pub mcr : ℕ
  pub primary_mask : ℕ
  pub secondary_mask : ℕ
  pub primary_phase : PicInitPhase
  pub secondary_phase : PicInitPhase
  pub primary_base : ℕ
  pub secondary_base : ℕ

-- `svm_ioio_guest_state_new`; the fields that it does not name are 0.
abbrev pub ioio_guest_state_new : IoioGuestState
ioio_guest_state_new = record {
  ier = 0;
  mcr = 0;
  primary_mask = 0xFF;
  secondary_mask = 0xFF;
  primary_phase = uninitialized;
  secondary_phase = uninitialized;
  primary_base = 0;
  secondary_base = 0;
}

-- `SvmVcpu`; `serial` is the port address of the host's serial object.
pub record SvmVcpu : Type 0 where
  pub id : ℕ
  pub asid : ℕ
  pub vmcb : Vmcb
  pub vmcb_phys : ℕ
  pub guest_regs : GuestRegisters
  pub guest_base : ℕ
  pub serial : ℕ
  pub guest_ioio_state : IoioGuestState
  pub pending_irq : ℕ
  pub last_injected_irq : ℕ

-- A virtual CPU and the port accesses that the host has made, newest first.
pub record Machine : Type 0 where
  pub vcpu : SvmVcpu
  pub io : History

abbrev pub set_vmcb : Vmcb → Machine → Machine
set_vmcb b m = record m { vcpu = record m.vcpu { vmcb = b } }

abbrev pub set_rax : ℕ → Machine → Machine
set_rax v m = set_vmcb (record m.vcpu.vmcb { rax = v }) m

abbrev pub set_guest : IoioGuestState → Machine → Machine
set_guest g m = record m { vcpu = record m.vcpu { guest_ioio_state = g } }

abbrev pub set_regs : GuestRegisters → Machine → Machine
set_regs r m = record m { vcpu = record m.vcpu { guest_regs = r } }
