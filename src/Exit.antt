-- ===== src/Exit.antt =====
-- ymirc/arch/x86/svm_vcpu.c: `handle_exit`, which serves one #VMEXIT. What comes from outside is in
-- `Env`: the host's devices and CPUID instruction, and the interrupts that the host takes in each
-- window between `stgi` and `clgi`. The host's interrupt handlers, which main.c registers, and the
-- reload of the host's FS and GS are not part of the state.
pub mod Interrupt
pub mod Halt
pub mod Kept
pub mod Progress
pub mod Loop
pub mod Confined
use ymirc.Prelude.{ℕ, ◌+◌, Bool, ◌==◌, if◌then◌else◌, bit_or, List, [], ◌∷◌}
use ymirc.Prelude.{Stop, aborted, out_of_fuel, Outcome, done, stop, ◌>>=◌}
use ymirc.Bits.{tobit_16}
use ymirc.Ports.{Device}
use ymirc.Vcpu.{Machine, SvmVcpu, Vmcb, set_vmcb}
use ymirc.Ioio.Dispatch.{handle_svm_ioio_exit}
use ymirc.Cpuid.{HostCpuid, handle_svm_cpuid_exit}
use ymirc.Irq.{inject_ext_intr, take_interrupts}
use ymirc.Msr.{handle_svm_msr_exit}

pub record Env : Type 0 where
  pub polls : ℕ  -- polls of the host's serial port before it is ready
  pub dev : Device
  pub host : HostCpuid
  pub windows : List (List ℕ)  -- the vectors that arrive in each window

abbrev pub exit_intr : ℕ
exit_intr = 0x60

abbrev pub exit_cpuid : ℕ
exit_cpuid = 0x72

abbrev pub exit_hlt : ℕ
exit_hlt = 0x78

abbrev pub exit_ioio : ℕ
exit_ioio = 0x7B

abbrev pub exit_msr : ℕ
exit_msr = 0x7C

abbrev pub exit_vmmcall : ℕ
exit_vmmcall = 0x81

abbrev pub set_vcpu : SvmVcpu → Machine → Machine
set_vcpu v m = record m { vcpu = v }

abbrev pub step_next_inst : Machine → Machine
step_next_inst m = set_vmcb (record m.vcpu.vmcb { rip = m.vcpu.vmcb.nrip }) m

abbrev pub first_window : List (List ℕ) → List ℕ
first_window [] = []
first_window (w ∷ ws) = w

-- An injected interrupt that the guest has not taken is pending again.
unfoldable pub repend : SvmVcpu → SvmVcpu
repend v =
    if v.vmcb.v_irq == 1
    then record v { pending_irq = bit_or v.pending_irq (tobit_16 v.last_injected_irq) }
    else v

unfoldable pub handle_intr : List ℕ → SvmVcpu → SvmVcpu
handle_intr arrivals v = (inject_ext_intr (take_interrupts arrivals (repend v))).1

-- The loop of the HLT exit: one window for each round that injects nothing.
unfoldable pub hlt_loop : List (List ℕ) → SvmVcpu → Outcome SvmVcpu
hlt_loop [] v = let (ok, v') = inject_ext_intr v in if ok then done v' else stop out_of_fuel
hlt_loop (w ∷ ws) v =
    let (ok, v') = inject_ext_intr v in
    let rest = hlt_loop ws (take_interrupts w v') in if ok then done v' else rest

abbrev pub clear_shadow : Machine → Machine
clear_shadow m = set_vmcb (record m.vcpu.vmcb { interrupt_shadow = 0 }) m

-- `handle_svm_vmmcall_exit` only writes to the log.
abbrev pub handle_svm_vmmcall_exit : Machine → Machine
handle_svm_vmmcall_exit m = m

-- The `switch` on the exit code.
unfoldable pub exit_switch : Env → ℕ → Machine → Outcome Machine
exit_switch env exitcode m =
    if exitcode == exit_intr
    then done (set_vcpu (handle_intr (first_window env.windows) m.vcpu) m)
    else if exitcode == exit_cpuid
    then (handle_svm_cpuid_exit env.host m >>= λ m'. done (step_next_inst m'))
    else if exitcode == exit_hlt
    then (hlt_loop env.windows m.vcpu >>= λ v. done (clear_shadow (step_next_inst (set_vcpu v m))))
    else if exitcode == exit_ioio
    then (handle_svm_ioio_exit env.polls env.dev m >>= λ m'. done (step_next_inst m'))
    else if exitcode == exit_msr
    then (handle_svm_msr_exit m >>= λ m'. done (step_next_inst m'))
    else if exitcode == exit_vmmcall
    then done (step_next_inst (handle_svm_vmmcall_exit m))
    else stop aborted

unfoldable pub handle_exit : Env → Machine → Outcome Machine
handle_exit env m =
    let m' = set_vmcb (record m.vcpu.vmcb { tlb_control = 0 }) m in
    exit_switch env m'.vcpu.vmcb.exitcode m'
