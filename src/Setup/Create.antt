-- ===== src/Setup/Create.antt =====
-- ymirc/arch/x86/svm_vcpu.c and vm.c: `svm_vcpu_new`, `svm_vcpu_virtualize` and `vm_init`. A new
-- virtual CPU has no control block (its pointer is NULL): here it is the one of zeros that it gets.
use ymirc.Prelude.{
  ℕ, ◌^◌, ◌==◌, Bool, if◌then◌else◌, bit_or, ◌∷◌, panicked, Outcome, done, stop, ◌>>=◌,
}
use ymirc.Mem.{page_size, virt2phys}
use ymirc.PageAlloc.{PageAllocator, alloc, alloc_aligned_pages}
use ymirc.Ports.{History, set_msr}
use ymirc.Vcpu.{VmcbSeg, Vmcb, GuestRegisters, SvmVcpu, ioio_guest_state_new}
use ymirc.Setup.{BitMap, svm_vcpu_setup_guest_state}
use ymirc.Msr.{msr_efer}

abbrev pub msr_vm_hsave_pa : ℕ
msr_vm_hsave_pa = 0xC0010117

abbrev pub zero_seg : VmcbSeg
zero_seg = record { sel = 0; attr = 0; limit = 0; base = 0 }

-- `memset(vmcb, 0, PAGE_SIZE)`
abbrev pub zero_vmcb : Vmcb
zero_vmcb = record {
  intercept_intr = 0;
  intercept_cpuid = 0;
  intercept_hlt = 0;
  intercept_ioio_prot = 0;
  intercept_msr_prot = 0;
  intercept_vmrun = 0;
  intercept_vmmcall = 0;
  iopm_base_pa = 0;
  msrpm_base_pa = 0;
  guest_asid = 0;
  tlb_control = 0;
  v_irq = 0;
  v_ign_tpr = 0;
  v_intr_masking = 0;
  v_intr_vector = 0;
  interrupt_shadow = 0;
  exitcode = 0;
  exitinfo1 = 0;
  exitinfo2 = 0;
  np_enable = 0;
  n_cr3 = 0;
  nrip = 0;
  es = zero_seg;
  cs = zero_seg;
  ss = zero_seg;
  ds = zero_seg;
  fs = zero_seg;
  gs = zero_seg;
  efer = 0;
  cr4 = 0;
  cr3 = 0;
  cr0 = 0;
  rflags = 0;
  rip = 0;
  rsp = 0;
  rax = 0;
  star = 0;
  lstar = 0;
  cstar = 0;
  sfmask = 0;
  kernel_gs_base = 0;
  sysenter_cs = 0;
  sysenter_esp = 0;
  sysenter_eip = 0;
}

abbrev pub zero_regs : GuestRegisters
zero_regs = record {
  rcx = 0;
  rdx = 0;
  rbx = 0;
  rbp = 0;
  rsi = 0;
  rdi = 0;
  r8 = 0;
  r9 = 0;
  r10 = 0;
  r11 = 0;
  r12 = 0;
  r13 = 0;
  r14 = 0;
  r15 = 0;
}

unfoldable pub svm_vcpu_new : ℕ → ℕ → SvmVcpu
svm_vcpu_new asid serial = record {
  id = 0;
  asid = asid;
  vmcb = zero_vmcb;
  vmcb_phys = 0;
  guest_regs = zero_regs;
  guest_base = 0;
  serial = serial;
  guest_ioio_state = ioio_guest_state_new;
  pending_irq = 0;
  last_injected_irq = 0;
}

-- `efer` is what RDMSR returns for EFER.
unfoldable pub svm_vcpu_virtualize :
    Bool → ℕ → PageAllocator → SvmVcpu → History → Outcome (SvmVcpu × History × PageAllocator)
svm_vcpu_virtualize mapped efer pa v h = do
  (hsave, pa₁) ← alloc mapped pa page_size
  h₁ ←
      if hsave == 0
      then stop panicked
      else done (set_msr msr_vm_hsave_pa (virt2phys mapped hsave) ∷ h)
  (vmcb, pa₂) ← alloc_aligned_pages mapped pa₁ 1 page_size
  if vmcb == 0
      then stop panicked
      else done (
        record v { vmcb = zero_vmcb; vmcb_phys = virt2phys mapped vmcb },
        set_msr msr_efer (bit_or efer (2 ^ 12)) ∷ h₁,
        pa₂,
      )

-- The virtual CPU, the contents of the MSR and port maps, the history and the page allocator.
unfoldable pub vm_init :
    Bool
    → ℕ
    → PageAllocator
    → SvmVcpu
    → History
    → Outcome (SvmVcpu × BitMap × BitMap × History × PageAllocator)
vm_init mapped efer pa v h = do
  (v₁, h', pa₁) ← svm_vcpu_virtualize mapped efer pa v h
  (v₂, msrpm, iopm, pa₂) ← svm_vcpu_setup_guest_state mapped pa₁ v₁
  done (v₂, msrpm, iopm, h', pa₂)
