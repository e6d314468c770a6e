-- ===== src/Msr.antt =====
-- ymirc/arch/x86/svm_msr.c: RDMSR and WRMSR of the guest. The register numbers are those of the
-- enumeration `Msr` of ymirc/arch/x86/asm.h.
pub mod Access
use ymirc.Prelude.{ℕ, ◌/◌, ◌%◌, ◌^◌, ◌-◌, ◌==◌, ◌||◌, if◌then◌else◌, truth, shr, u32, List, ◌∷◌}
use ymirc.Prelude.{Stop, aborted, Outcome, done, stop}
use ymirc.Bits.{concat_64}
use ymirc.Ports.{set_msr}
use ymirc.Vcpu.{Machine, Vmcb, GuestRegisters, set_vmcb, set_regs}
use ymirc.Vcpu.Halves.{setvalue, setvalue_safely}

abbrev pub msr_apic_base : ℕ
msr_apic_base = 0x1B

abbrev pub msr_efer : ℕ
msr_efer = 0xC0000080

abbrev pub msr_tsc_aux : ℕ
msr_tsc_aux = 0xC0000103

unfoldable pub set_ret_val : ℕ → Machine → Machine
set_ret_val val m =
    let regs = m.vcpu.guest_regs in
    let m' = set_regs (record regs { rdx = setvalue regs.rdx (u32 (shr val 32)) }) m in
    set_vmcb (record m'.vcpu.vmcb { rax = setvalue_safely m'.vcpu.vmcb.rax val }) m'

-- The `switch` of `handle_rdmsr` on the register number.
unfoldable pub read_register : ℕ → Machine → Outcome Machine
read_register rcx m =
    if rcx == msr_apic_base
    then done (set_ret_val (2 ^ 64 - 1) m)
    else if rcx == msr_efer
    then done (set_ret_val m.vcpu.vmcb.efer m)
    else stop aborted

unfoldable pub handle_rdmsr : Machine → Outcome Machine
handle_rdmsr m = read_register m.vcpu.guest_regs.rcx m

-- A write of EFER; the fields `lme` and `nxe` are the bits 8 and 11.
unfoldable pub write_efer : ℕ → Vmcb → Vmcb
write_efer value b =
    let flushed =
      if truth (shr value 8 % 2) || truth (shr value 11 % 2)
      then record b { tlb_control = 3 }
      else b in
    record flushed { efer = value }

-- The `switch` of `handle_wrmsr` on the register number.
unfoldable pub write_register : ℕ → ℕ → Machine → Outcome Machine
write_register rcx value m =
    let b = m.vcpu.vmcb in
    if rcx == 0x174
    then done (set_vmcb (record b { sysenter_cs = value }) m)
    else if rcx == 0x175
    then done (set_vmcb (record b { sysenter_esp = value }) m)
    else if rcx == 0x176
    then done (set_vmcb (record b { sysenter_eip = value }) m)
    else if rcx == msr_efer
    then done (set_vmcb (write_efer value b) m)
    else if rcx == 0xC0000081
    then done (set_vmcb (record b { star = value }) m)
    else if rcx == 0xC0000082
    then done (set_vmcb (record b { lstar = value }) m)
    else if rcx == 0xC0000083
    then done (set_vmcb (record b { cstar = value }) m)
    else if rcx == 0xC0000084
    then done (set_vmcb (record b { sfmask = value }) m)
    else if rcx == 0xC0000100
    then done (set_vmcb (record b { fs = record b.fs { base = value } }) m)
    else if rcx == 0xC0000101
    then done (set_vmcb (record b { gs = record b.gs { base = value } }) m)
    else if rcx == 0xC0000102
    then done (set_vmcb (record b { kernel_gs_base = value }) m)
    else if rcx == msr_tsc_aux
    then done (record m { io = set_msr msr_tsc_aux value ∷ m.io })
    else stop aborted

unfoldable pub handle_wrmsr : Machine → Outcome Machine
handle_wrmsr m =
    write_register m.vcpu.guest_regs.rcx (concat_64 m.vcpu.guest_regs.rdx m.vcpu.vmcb.rax) m

unfoldable pub handle_svm_msr_exit : Machine → Outcome Machine
handle_svm_msr_exit m =
    let exitinfo1 = m.vcpu.vmcb.exitinfo1 in
    if exitinfo1 == 0
    then handle_rdmsr m
    else if exitinfo1 == 1
    then handle_wrmsr m
    else stop aborted
