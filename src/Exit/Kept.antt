-- ===== src/Exit/Kept.antt =====
-- What serving an exit leaves as it is, whatever the exit: the part of the control block that keeps
-- the guest in, and what the virtual CPU was created with.
use ymirc.Prelude.{ℕ, ◌%◌, ◌≡◌, refl, ap, ◌∙◌, Bool, ◌||◌, ◌==◌, Bool-cases, inl, inr}
use ymirc.Prelude.{
  List, [], ◌∷◌, truth, shr, Outcome, done, stop, out_of_fuel, ◌>>=◌, OnDone, OnDone-if,
  OnDone-intro, OnDone_elim,
}
use ymirc.Vcpu.{GuestRegisters, SvmVcpu, Vmcb, Machine, set_vmcb}
use ymirc.Ports.{Device, History, IoEvent, input, output, set_msr, cli, sti}
use ymirc.Bits.{concat_64}
use ymirc.Cpuid.{HostCpuid, handle_svm_cpuid_exit, cpuid_switch, respond}
use ymirc.Msr.{
  set_ret_val, write_efer, read_register, write_register, handle_rdmsr, handle_wrmsr,
  handle_svm_msr_exit, msr_efer, msr_apic_base, msr_tsc_aux,
}
use ymirc.Ioio.Dispatch.{handle_svm_ioio_exit}
use ymirc.Ioio.Contained.{IsBytes, IsOpenAccess, Touched, nothing, access}
use ymirc.Ioio.Contained.Handlers.{handle_svm_ioio_exit-IsContained}
use ymirc.Irq.{inject_ext_intr, inject_line, take_interrupts}
use ymirc.Irq.Inject.{Injection, injected, refused, nothing as none_found, inject_ext_intr_lem}
use ymirc.Exit.{
  Env, exit_intr, exit_cpuid, exit_hlt, exit_ioio, exit_msr, exit_vmmcall, set_vcpu, first_window,
  repend, handle_intr, hlt_loop, exit_switch, handle_exit, clear_shadow, step_next_inst,
}
use ymirc.Exit.Interrupt.{take_interrupts_frame}

-- The intercepts, the permission maps, nested paging, and the identity of the virtual CPU.
pub record Walls : Type 0 where
  pub intercept_intr : ℕ
  pub intercept_cpuid : ℕ
  pub intercept_hlt : ℕ
  pub intercept_ioio_prot : ℕ
  pub intercept_msr_prot : ℕ
  pub intercept_vmrun : ℕ
  pub intercept_vmmcall : ℕ
  pub iopm_base_pa : ℕ
  pub msrpm_base_pa : ℕ
  pub guest_asid : ℕ
  pub v_ign_tpr : ℕ
  pub v_intr_masking : ℕ
  pub np_enable : ℕ
  pub n_cr3 : ℕ

abbrev pub walls : Vmcb → Walls
walls b = record {
  intercept_intr = b.intercept_intr;
  intercept_cpuid = b.intercept_cpuid;
  intercept_hlt = b.intercept_hlt;
  intercept_ioio_prot = b.intercept_ioio_prot;
  intercept_msr_prot = b.intercept_msr_prot;
  intercept_vmrun = b.intercept_vmrun;
  intercept_vmmcall = b.intercept_vmmcall;
  iopm_base_pa = b.iopm_base_pa;
  msrpm_base_pa = b.msrpm_base_pa;
  guest_asid = b.guest_asid;
  v_ign_tpr = b.v_ign_tpr;
  v_intr_masking = b.v_intr_masking;
  np_enable = b.np_enable;
  n_cr3 = b.n_cr3;
}

-- `id`, `asid`, `vmcb_phys`, `guest_base` and `serial`.
abbrev pub identity : SvmVcpu → ℕ × ℕ × ℕ × ℕ × ℕ
identity v = (v.id, v.asid, v.vmcb_phys, v.guest_base, v.serial)

-- Accesses to open ports, and writes of TSC_AUX.
abbrev pub IsPermitted : ℕ → IoEvent → Type 0
IsPermitted serial (set_msr r v) = r ≡ msr_tsc_aux
IsPermitted serial e = IsOpenAccess serial e

-- Later histories that add permitted accesses only.
pub data Permitted (serial : ℕ) (h : History) : History → Type 0 where
  none_yet : Permitted serial h h
  more :
      {h' : History} (e : IoEvent)
      → IsPermitted serial e
      → Permitted serial h h'
      → Permitted serial h (e ∷ h')

open_IsPermitted : (serial : ℕ) (e : IoEvent) → IsOpenAccess serial e → IsPermitted serial e
open_IsPermitted serial (input w p v) h = h
open_IsPermitted serial (output w p v) h = h
open_IsPermitted serial (set_msr r v) h = absurd h
open_IsPermitted serial cli h = absurd h
open_IsPermitted serial sti h = absurd h

Permitted-Touched : {serial : ℕ} {h h' : History} → Touched serial h h' → Permitted serial h h'
Permitted-Touched nothing = none_yet
Permitted-Touched {serial} (access e ok t) =
    more e (open_IsPermitted serial e ok) (Permitted-Touched t)

pub Permitted-trans :
    {serial : ℕ} {h h' h'' : History}
    → Permitted serial h h'
    → Permitted serial h' h''
    → Permitted serial h h''
Permitted-trans s none_yet = s
Permitted-trans s (more e ok t) = more e ok (Permitted-trans s t)

-- The virtual CPU keeps its walls and its identity.
abbrev pub KeptCpu : SvmVcpu → SvmVcpu → Type 0
KeptCpu v v' = (walls v'.vmcb ≡ walls v.vmcb) × (identity v' ≡ identity v)

-- The interrupts' fields are the same, and the device registers in range if they were.
pub record Steady (v v' : SvmVcpu) : Type 0 where
  pub pending : v'.pending_irq ≡ v.pending_irq
  pub line : v'.last_injected_irq ≡ v.last_injected_irq
  pub bytes : IsBytes v.guest_ioio_state → IsBytes v'.guest_ioio_state

abbrev pub Kept : Machine → Machine → Type 0
Kept m m' =
    KeptCpu m.vcpu m'.vcpu
    × Permitted m.vcpu.serial m.io m'.io
    × (m'.vcpu.vmcb.nrip ≡ m.vcpu.vmcb.nrip)
    × Steady m.vcpu m'.vcpu

-- Stores to the general registers, and to the control block outside the walls.
stores :
    (m : Machine) (b : Vmcb) (r : GuestRegisters)
    → walls b ≡ walls m.vcpu.vmcb
    → b.nrip ≡ m.vcpu.vmcb.nrip
    → Kept m (record m { vcpu = record m.vcpu { vmcb = b; guest_regs = r } })
stores m b r fixed same =
    ((fixed, refl), none_yet, same, record { pending = refl; line = refl; bytes = λ h. h })

write_efer-Kept : (v : ℕ) (m : Machine) → Kept m (set_vmcb (write_efer v m.vcpu.vmcb) m)
unfolding write_efer
write_efer-Kept v m = elim (Bool-cases (truth (shr v 8 % 2) || truth (shr v 11 % 2))) [
  | inl on ↦ rw on (stores m _ _ refl refl)
  | inr off ↦ rw off (stores m _ _ refl refl)
]

pub handle_svm_msr_exit-Kept : (m : Machine) → OnDone (Kept m) (handle_svm_msr_exit m)
unfolding handle_svm_msr_exit handle_rdmsr read_register handle_wrmsr write_register set_ret_val
handle_svm_msr_exit-Kept m =
    OnDone-if (Kept m) (info == 0) _ _
      (OnDone-if (Kept m) (rcx == msr_apic_base) _ _ (stores m _ _ refl refl)
        (OnDone-if (Kept m) (rcx == msr_efer) _ _ (stores m _ _ refl refl) tt))
      (OnDone-if (Kept m) (info == 1) _ _
        (OnDone-if (Kept m) (rcx == 0x174) _ _ (stores m _ _ refl refl) (
          OnDone-if (Kept m) (rcx == 0x175) _ _ (stores m _ _ refl refl) (
            OnDone-if (Kept m) (rcx == 0x176) _ _ (stores m _ _ refl refl) (
              OnDone-if (Kept m) (rcx == msr_efer) _ _ (write_efer-Kept value m) (
                OnDone-if (Kept m) (rcx == 0xC0000081) _ _ (stores m _ _ refl refl) (
                  OnDone-if (Kept m) (rcx == 0xC0000082) _ _ (stores m _ _ refl refl) (
                    OnDone-if (Kept m) (rcx == 0xC0000083) _ _ (stores m _ _ refl refl) (
                      OnDone-if (Kept m) (rcx == 0xC0000084) _ _ (stores m _ _ refl refl) (
                        OnDone-if (Kept m) (rcx == 0xC0000100) _ _ (stores m _ _ refl refl) (
                          OnDone-if (Kept m) (rcx == 0xC0000101) _ _ (stores m _ _ refl refl) (
                            OnDone-if (Kept m) (rcx == 0xC0000102) _ _ (stores m _ _ refl refl) (
                              OnDone-if (Kept m) (rcx == msr_tsc_aux) _ _
                                (
                                  (refl, refl),
                                  more (set_msr msr_tsc_aux value) refl none_yet,
                                  refl,
                                  record { pending = refl; line = refl; bytes = λ h. h },
                                )
                                tt))))))))))))
        tt)
  where
    info : ℕ
    info = m.vcpu.vmcb.exitinfo1

    rcx : ℕ
    rcx = m.vcpu.guest_regs.rcx

    value : ℕ
    value = concat_64 m.vcpu.guest_regs.rdx m.vcpu.vmcb.rax

pub handle_svm_cpuid_exit-Kept :
    (host : HostCpuid) (m : Machine) → OnDone (Kept m) (handle_svm_cpuid_exit host m)
unfolding handle_svm_cpuid_exit cpuid_switch respond
handle_svm_cpuid_exit-Kept host m = OnDone-if (Kept m) (leaf == 0x0) _ _ (stores m _ _ refl refl) (
    OnDone-if (Kept m) (leaf == 0x1) _ _ (stores m _ _ refl refl) (
      OnDone-if (Kept m) (leaf == 0x6) _ _ (stores m _ _ refl refl) (
        OnDone-if (Kept m) (leaf == 0x7) _ _
          (OnDone-if (Kept m) (sub == 0) _ _ (stores m _ _ refl refl)
            (OnDone-if (Kept m) (sub == 1 || sub == 2) _ _ (stores m _ _ refl refl) tt))
          (OnDone-if (Kept m) (leaf == 0xd) _ _
            (OnDone-if (Kept m) (sub == 1) _ _ (stores m _ _ refl refl) tt)
            (OnDone-if (Kept m) (leaf == 0x80000000) _ _ (stores m _ _ refl refl) (
              OnDone-if (Kept m) (leaf == 0x80000001) _ _ (stores m _ _ refl refl)
                (stores m _ _ refl refl)))))))
  where
    leaf : ℕ
    leaf = m.vcpu.vmcb.rax

    sub : ℕ
    sub = m.vcpu.guest_regs.rcx

pub handle_svm_ioio_exit-Kept :
    (polls : ℕ) (dev : Device) (m : Machine) → OnDone (Kept m) (handle_svm_ioio_exit polls dev m)
handle_svm_ioio_exit-Kept polls dev m =
    OnDone-intro (Kept m) (handle_svm_ioio_exit polls dev m) (λ m' e.
      let c = handle_svm_ioio_exit-IsContained polls dev m e in
      (
        (ap (λ (v : SvmVcpu). walls v.vmcb) c.frame, ap identity c.frame),
        Permitted-Touched c.io,
        ap (λ (v : SvmVcpu). v.vmcb.nrip) c.frame,
        record {
          pending = ap (λ (v : SvmVcpu). v.pending_irq) c.frame;
          line = ap (λ (v : SvmVcpu). v.last_injected_irq) c.frame;
          bytes = c.bytes;
        },
      ))

-- The same for the parts of `handle_exit` that take the virtual CPU alone.
abbrev pub KeptAlone : SvmVcpu → SvmVcpu → Type 0
KeptAlone v v' = KeptCpu v v' × (v'.vmcb.nrip ≡ v.vmcb.nrip)

KeptAlone-trans : (v v' v'' : SvmVcpu) → KeptAlone v v' → KeptAlone v' v'' → KeptAlone v v''
KeptAlone-trans v v' v'' ((w, s), n) ((w', s'), n') = ((w' ∙ w, s' ∙ s), n' ∙ n)

Injection-KeptAlone : (v : SvmVcpu) (r : Bool × SvmVcpu) → Injection v r → KeptAlone v r.1
unfolding inject_line
Injection-KeptAlone v r (injected k lt acc on before) = ((refl, refl), refl)
Injection-KeptAlone v r (refused off) = ((refl, refl), refl)
Injection-KeptAlone v r (none_found none) = ((refl, refl), refl)

inject_ext_intr-KeptAlone : (v : SvmVcpu) → KeptAlone v (inject_ext_intr v).1
inject_ext_intr-KeptAlone v = Injection-KeptAlone v (inject_ext_intr v) (inject_ext_intr_lem v)

take_interrupts-KeptAlone : (w : List ℕ) (v : SvmVcpu) → KeptAlone v (take_interrupts w v)
take_interrupts-KeptAlone w v =
    let e = take_interrupts_frame w v in
    ((ap (λ (u : SvmVcpu). walls u.vmcb) e, ap identity e), ap (λ (u : SvmVcpu). u.vmcb.nrip) e)

repend-KeptAlone : (v : SvmVcpu) → KeptAlone v (repend v)
unfolding repend
repend-KeptAlone v = elim (Bool-cases (v.vmcb.v_irq == 1)) [
  | inl on ↦ rw on ((refl, refl), refl)
  | inr off ↦ rw off ((refl, refl), refl)
]

pub handle_intr-KeptAlone : (w : List ℕ) (v : SvmVcpu) → KeptAlone v (handle_intr w v)
unfolding handle_intr
handle_intr-KeptAlone w v =
    let v₁ = repend v in
    let v₂ = take_interrupts w v₁ in
    KeptAlone-trans v v₁ (inject_ext_intr v₂).1 (repend-KeptAlone v) (
      KeptAlone-trans v₁ v₂ (inject_ext_intr v₂).1 (take_interrupts-KeptAlone w v₁)
        (inject_ext_intr-KeptAlone v₂))

pub hlt_loop-KeptAlone : (ws : List (List ℕ)) (v : SvmVcpu) → OnDone (KeptAlone v) (hlt_loop ws v)
unfolding hlt_loop
hlt_loop-KeptAlone [] v =
    OnDone-if (KeptAlone v) (inject_ext_intr v).0 (done (inject_ext_intr v).1) (stop out_of_fuel)
      (inject_ext_intr-KeptAlone v) tt
hlt_loop-KeptAlone (w ∷ ws) v =
    let v₁ = (inject_ext_intr v).1 in
    let v₂ = take_interrupts w v₁ in
    OnDone-if (KeptAlone v) (inject_ext_intr v).0 (done v₁) (hlt_loop ws v₂)
      (inject_ext_intr-KeptAlone v)
      (onward v v₂ (hlt_loop ws v₂)
        (KeptAlone-trans v v₁ v₂ (inject_ext_intr-KeptAlone v) (take_interrupts-KeptAlone w v₁))
        (hlt_loop-KeptAlone ws v₂))
  where
    onward :
        (v v' : SvmVcpu) (x : Outcome SvmVcpu)
        → KeptAlone v v'
        → OnDone (KeptAlone v') x
        → OnDone (KeptAlone v) x
    onward v v' (done v'') k h = KeptAlone-trans v v' v'' k h
    onward v v' (stop r) k h = tt

-- What serving an exit keeps.
abbrev pub Served : Machine → Machine → Type 0
Served m m' = KeptCpu m.vcpu m'.vcpu × Permitted m.vcpu.serial m.io m'.io

step-Served :
    (m : Machine) (x : Outcome Machine)
    → OnDone (Kept m) x
    → OnDone (Served m) (x >>= λ m'. done (step_next_inst m'))
step-Served m (done m') h = (h.0, h.1)
step-Served m (stop r) h = tt

halt-Served :
    (m : Machine) (x : Outcome SvmVcpu)
    → OnDone (KeptAlone m.vcpu) x
    → OnDone (Served m) (x >>= λ v. done (clear_shadow (step_next_inst (set_vcpu v m))))
halt-Served m (done v) h = (h.0, none_yet)
halt-Served m (stop r) h = tt

exit_switch-Served : (env : Env) (c : ℕ) (m : Machine) → OnDone (Served m) (exit_switch env c m)
unfolding exit_switch
exit_switch-Served env c m =
    OnDone-if (Served m) (c == exit_intr) _ _
      ((handle_intr-KeptAlone (first_window env.windows) m.vcpu).0, none_yet)
      (OnDone-if (Served m) (c == exit_cpuid) _ _
        (step-Served m (handle_svm_cpuid_exit env.host m) (handle_svm_cpuid_exit-Kept env.host m))
        (OnDone-if (Served m) (c == exit_hlt) _ _
          (halt-Served m (hlt_loop env.windows m.vcpu) (hlt_loop-KeptAlone env.windows m.vcpu))
          (OnDone-if (Served m) (c == exit_ioio) _ _
            (step-Served m (handle_svm_ioio_exit env.polls env.dev m)
              (handle_svm_ioio_exit-Kept env.polls env.dev m))
            (OnDone-if (Served m) (c == exit_msr) _ _
              (step-Served m (handle_svm_msr_exit m) (handle_svm_msr_exit-Kept m))
              (OnDone-if (Served m) (c == exit_vmmcall) _ _ ((refl, refl), none_yet) tt)))))

pub handle_exit-Served :
    (env : Env) (m : Machine) {m' : Machine} → handle_exit env m ≡ done m' → Served m m'
unfolding handle_exit
handle_exit-Served env m run =
    OnDone_elim (Served m) (handle_exit env m)
      (exit_switch-Served env m.vcpu.vmcb.exitcode
        (set_vmcb (record m.vcpu.vmcb { tlb_control = 0 }) m))
      run
