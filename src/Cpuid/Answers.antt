-- ===== src/Cpuid/Answers.antt =====
-- Which CPUID requests are answered, and what an answer changes.
use ymirc.Prelude.{ℕ, ◌/◌, ◌%◌, ◌^◌, ◌<◌, ◌≡◌, refl, arith}
use ymirc.Prelude.{Bool, true, false, not, ◌&&◌, ◌||◌, ◌==◌, leb, if◌then◌else◌}
use ymirc.Prelude.{Outcome, done, stop, aborted}
use ymirc.Vcpu.{Machine, set_vmcb, set_regs}
use ymirc.Vcpu.Halves.{setvalue_halves, setvalue_safely-eq-setvalue}
use ymirc.Cpuid.{CpuidRegisters, HostCpuid, respond, cpuid_switch, handle_svm_cpuid_exit}

-- `reg'` is `reg` with its lower half replaced by the 32-bit value `v`.
abbrev pub HalfStored : ℕ → ℕ → ℕ → Type 0
HalfStored reg v reg' = (reg' / 2 ^ 32 ≡ reg / 2 ^ 32) × (reg' % 2 ^ 32 ≡ v % 2 ^ 32)

-- The machine after an answer `r`: RAX, RBX, RCX and RDX have new lower halves, all else is as
-- it was.
pub record Answered (r : CpuidRegisters) (m m' : Machine) : Type 0 where
  pub rax_stored : HalfStored m.vcpu.vmcb.rax r.eax m'.vcpu.vmcb.rax
  pub rbx_stored : HalfStored m.vcpu.guest_regs.rbx r.ebx m'.vcpu.guest_regs.rbx
  pub rcx_stored : HalfStored m.vcpu.guest_regs.rcx r.ecx m'.vcpu.guest_regs.rcx
  pub rdx_stored : HalfStored m.vcpu.guest_regs.rdx r.edx m'.vcpu.guest_regs.rdx
  pub kept :
      m'
      ≡ set_regs
          (record m.vcpu.guest_regs {
            rbx = m'.vcpu.guest_regs.rbx;
            rcx = m'.vcpu.guest_regs.rcx;
            rdx = m'.vcpu.guest_regs.rdx;
          })
          (set_vmcb (record m.vcpu.vmcb { rax = m'.vcpu.vmcb.rax }) m)

-- The requests that stop the guest: leaf 7 above subleaf 2, and leaf 13 but for subleaf 1.
abbrev pub is_unhandled : ℕ → ℕ → Bool
is_unhandled leaf sub = (leaf == 0x7 && leb 3 sub) || (leaf == 0xd && not (sub == 1))

pub data CpuidReply (leaf sub : ℕ) (m : Machine) : Outcome Machine → Type 0 where
  answered :
      (r : CpuidRegisters) (m' : Machine)
      → is_unhandled leaf sub ≡ false
      → Answered r m m'
      → CpuidReply leaf sub m (done m')
  unhandled : is_unhandled leaf sub ≡ true → CpuidReply leaf sub m (stop aborted)

respond-Answered :
    (r : CpuidRegisters) (m : Machine) → m.vcpu.vmcb.rax < 2 ^ 64 → Answered r m (respond r m)
unfolding respond
respond-Answered r m h = record {
  rax_stored =
      rw (setvalue_safely-eq-setvalue m.vcpu.vmcb.rax r.eax h)
        (setvalue_halves m.vcpu.vmcb.rax r.eax);
  rbx_stored = setvalue_halves m.vcpu.guest_regs.rbx r.ebx;
  rcx_stored = setvalue_halves m.vcpu.guest_regs.rcx r.ecx;
  rdx_stored = setvalue_halves m.vcpu.guest_regs.rdx r.edx;
  kept = refl;
}

module _ (host : HostCpuid) (leaf sub : ℕ) (m : Machine) (word : m.vcpu.vmcb.rax < 2 ^ 64) where
  ok :
      (r : CpuidRegisters)
      → is_unhandled leaf sub ≡ false
      → CpuidReply leaf sub m (done (respond r m))
  ok r h = answered r (respond r m) h (respond-Answered r m word)

  by_test :
      (b : Bool) (x y : Outcome Machine)
      → (b ≡ true → CpuidReply leaf sub m x)
      → (b ≡ false → CpuidReply leaf sub m y)
      → CpuidReply leaf sub m (if b then x else y)
  by_test true x y on off = on refl
  by_test false x y on off = off refl

  pub cpuid_switch-CpuidReply : CpuidReply leaf sub m (cpuid_switch host leaf sub m)
  unfolding cpuid_switch
  cpuid_switch-CpuidReply =
      by_test (leaf == 0x0) _ _ (λ e. ok _ (ground arith))
        (λ n0.
          by_test (leaf == 0x1) _ _ (λ e. ok _ (ground arith))
            (λ n1.
              by_test (leaf == 0x6) _ _ (λ e. ok _ (ground arith))
                (λ n6.
                  by_test (leaf == 0x7) _ _
                    (λ e7.
                      by_test (sub == 0) _ _ (λ e. ok _ (ground arith))
                        (λ m0.
                          by_test (sub == 1 || sub == 2) _ _ (λ e. ok _ (ground arith))
                            (λ m1. unhandled (ground arith))))
                    (λ n7.
                      by_test (leaf == 0xd) _ _
                        (λ ed.
                          by_test (sub == 1) _ _ (λ e. ok _ (ground arith))
                            (λ m2. unhandled (ground arith)))
                        (λ nd.
                          by_test (leaf == 0x80000000) _ _ (λ e. ok _ (ground arith))
                            (λ n8.
                              by_test (leaf == 0x80000001) _ _ (λ e. ok _ (ground arith))
                                (λ n9. ok _ (ground arith))))))))

-- With RAX a 64-bit word, CPUID stops the guest exactly on the unhandled requests; every other
-- request is answered, and an answer replaces the lower halves of RAX, RBX, RCX and RDX and keeps
-- all else, upper halves included.
pub handle_svm_cpuid_exit-CpuidReply :
    (host : HostCpuid) (m : Machine)
    → m.vcpu.vmcb.rax < 2 ^ 64
    → CpuidReply m.vcpu.vmcb.rax m.vcpu.guest_regs.rcx m (handle_svm_cpuid_exit host m)
unfolding handle_svm_cpuid_exit
handle_svm_cpuid_exit-CpuidReply host m word =
    cpuid_switch-CpuidReply host m.vcpu.vmcb.rax m.vcpu.guest_regs.rcx m word
