-- ===== src/Exit/Progress.antt =====
-- After every exit that is served, but for one that a physical interrupt causes, the guest goes on
-- at the instruction after the one that it left at.
use ymirc.Prelude.{ℕ, ◌≡◌, refl, false, ◌==◌}
use ymirc.Prelude.{Outcome, done, stop, ◌>>=◌, OnDone, OnDone-if, OnDone_elim}
use ymirc.Vcpu.{SvmVcpu, Machine, set_vmcb}
use ymirc.Cpuid.{handle_svm_cpuid_exit}
use ymirc.Msr.{handle_svm_msr_exit}
use ymirc.Ioio.Dispatch.{handle_svm_ioio_exit}
use ymirc.Exit.{
  Env, exit_intr, exit_cpuid, exit_hlt, exit_ioio, exit_msr, exit_vmmcall, set_vcpu, hlt_loop,
  exit_switch, handle_exit, clear_shadow, step_next_inst,
}
use ymirc.Exit.Kept.{
  Kept, KeptAlone, handle_svm_cpuid_exit-Kept, handle_svm_msr_exit-Kept, handle_svm_ioio_exit-Kept,
  hlt_loop-KeptAlone,
}

abbrev Keeps : ℕ → Machine → Type 0
Keeps n m' = m'.vcpu.vmcb.nrip ≡ n

-- A served exit with the guest at `n`.
abbrev pub Advanced : ℕ → Machine → Type 0
Advanced n m' = m'.vcpu.vmcb.rip ≡ n

step-Advanced :
    (n : ℕ) (x : Outcome Machine)
    → OnDone (Keeps n) x
    → OnDone (Advanced n) (x >>= λ m'. done (step_next_inst m'))
step-Advanced n (done m') h = h
step-Advanced n (stop r) h = tt

Keeps-Kept :
    (m : Machine) (x : Outcome Machine) → OnDone (Kept m) x → OnDone (Keeps m.vcpu.vmcb.nrip) x
Keeps-Kept m (done m') (cpu, io, same, rest) = same
Keeps-Kept m (stop r) h = tt

abbrev KeepsV : ℕ → SvmVcpu → Type 0
KeepsV n v' = v'.vmcb.nrip ≡ n

Keeps-KeptAlone :
    (v : SvmVcpu) (x : Outcome SvmVcpu) → OnDone (KeptAlone v) x → OnDone (KeepsV v.vmcb.nrip) x
Keeps-KeptAlone v (done v') (cpu, same) = same
Keeps-KeptAlone v (stop r) h = tt

halt-Advanced :
    (n : ℕ) (m : Machine) (x : Outcome SvmVcpu)
    → OnDone (KeepsV n) x
    → OnDone (Advanced n) (x >>= λ v. done (clear_shadow (step_next_inst (set_vcpu v m))))
halt-Advanced n m (done v) h = h
halt-Advanced n m (stop r) h = tt

exit_switch-Advanced :
    (env : Env) (c : ℕ) (m : Machine)
    → (c == exit_intr) ≡ false
    → OnDone (Advanced m.vcpu.vmcb.nrip) (exit_switch env c m)
unfolding exit_switch
exit_switch-Advanced env c m other =
    let n = m.vcpu.vmcb.nrip in
    rw other (
      OnDone-if (Advanced n) (c == exit_cpuid) _ _
        (step-Advanced n (handle_svm_cpuid_exit env.host m)
          (Keeps-Kept m (handle_svm_cpuid_exit env.host m) (handle_svm_cpuid_exit-Kept env.host m)))
        (OnDone-if (Advanced n) (c == exit_hlt) _ _
          (halt-Advanced n m (hlt_loop env.windows m.vcpu) (
            Keeps-KeptAlone m.vcpu (hlt_loop env.windows m.vcpu)
              (hlt_loop-KeptAlone env.windows m.vcpu)))
          (OnDone-if (Advanced n) (c == exit_ioio) _ _
            (step-Advanced n (handle_svm_ioio_exit env.polls env.dev m) (
              Keeps-Kept m (handle_svm_ioio_exit env.polls env.dev m)
                (handle_svm_ioio_exit-Kept env.polls env.dev m)))
            (OnDone-if (Advanced n) (c == exit_msr) _ _
              (step-Advanced n (handle_svm_msr_exit m)
                (Keeps-Kept m (handle_svm_msr_exit m) (handle_svm_msr_exit-Kept m)))
              (OnDone-if (Advanced n) (c == exit_vmmcall) _ _ refl tt)))))

-- Whatever the exit, unless it is one for a physical interrupt: if it is served, the guest goes on
-- at the next instruction as the control block gave it at the exit.
pub handle_exit-Advanced :
    (env : Env) (m : Machine) {m' : Machine}
    → (m.vcpu.vmcb.exitcode == exit_intr) ≡ false
    → handle_exit env m ≡ done m'
    → m'.vcpu.vmcb.rip ≡ m.vcpu.vmcb.nrip
unfolding handle_exit
handle_exit-Advanced env m other run =
    OnDone_elim (Advanced m.vcpu.vmcb.nrip) (handle_exit env m)
      (exit_switch-Advanced env m.vcpu.vmcb.exitcode
        (set_vmcb (record m.vcpu.vmcb { tlb_control = 0 }) m) other)
      run
