-- ===== src/Msr/Access.antt =====
-- What a guest reads back from the registers that it wrote.
use ymirc.Prelude.{ℕ, ◌%◌, ◌^◌, ◌<◌, ◌≡◌, ◌∙◌, ap, arith, truth}
use ymirc.Prelude.{Bool-cases, inl, inr, ◌||◌, if◌then◌else◌, shr, u32, done, ◌>>=◌}
use ymirc.Bits.{concat_64}
use ymirc.Bits.Single.{concat_64_halves}
use ymirc.Vcpu.{Machine, Vmcb, set_vmcb}
use ymirc.Vcpu.Halves.{setvalue, setvalue_safely-eq-setvalue}
use ymirc.Msr.{
  msr_efer, set_ret_val, read_register, handle_rdmsr, write_efer, write_register, handle_wrmsr,
}

abbrev pub value_of : Machine → ℕ
value_of m = concat_64 m.vcpu.guest_regs.rdx m.vcpu.vmcb.rax

write_efer_lem :
    (v : ℕ) (b : Vmcb)
    → write_efer v b ≡ record b {
      efer = v;
      tlb_control = (if truth (shr v 8 % 2) || truth (shr v 11 % 2) then 3 else b.tlb_control);
    }
unfolding write_efer
write_efer_lem v b = elim (Bool-cases (truth (shr v 8 % 2) || truth (shr v 11 % 2))) [
  | inl on ↦ rw on
  | inr off ↦ rw off
]

-- A WRMSR with ECX (and RCX) the number of EFER stores the value EDX:EAX; the guest's TLB is
-- flushed exactly if that value has LME or NXE set, and nothing else changes.
pub handle_wrmsr-efer :
    (m : Machine)
    → m.vcpu.guest_regs.rcx ≡ msr_efer
    → handle_wrmsr m
      ≡ done (
          set_vmcb
            (record m.vcpu.vmcb {
              efer = value_of m;
              tlb_control =
                  (if truth (shr (value_of m) 8 % 2) || truth (shr (value_of m) 11 % 2)
                    then 3
                    else m.vcpu.vmcb.tlb_control);
            })
            m)
unfolding handle_wrmsr write_register
handle_wrmsr-efer m e =
    ap (λ rcx. write_register rcx (value_of m) m) e
    ∙ ap (λ b. done (set_vmcb b m)) (write_efer_lem (value_of m) m.vcpu.vmcb)

handle_rdmsr-efer :
    (m : Machine)
    → m.vcpu.guest_regs.rcx ≡ msr_efer
    → handle_rdmsr m ≡ done (set_ret_val m.vcpu.vmcb.efer m)
unfolding handle_rdmsr read_register
handle_rdmsr-efer m e = ap (λ rcx. read_register rcx m) e

-- Replacing the low half of a register by its own low half changes nothing.
setvalue_own : (reg v : ℕ) → v % 2 ^ 32 ≡ reg % 2 ^ 32 → setvalue reg v ≡ reg
unfolding setvalue
setvalue_own reg v h = omega arith

-- With RCX the number of EFER, what the guest writes to EFER by WRMSR it reads back by RDMSR:
-- afterwards RDX and the 64-bit RAX are as they were when it wrote.
pub rdmsr-wrmsr-efer :
    (m : Machine)
    → m.vcpu.guest_regs.rcx ≡ msr_efer
    → m.vcpu.vmcb.rax < 2 ^ 64
    → (m' : Machine) × ((handle_wrmsr m >>= handle_rdmsr) ≡ done m')
      × (m'.vcpu.guest_regs.rdx ≡ m.vcpu.guest_regs.rdx)
      × (m'.vcpu.vmcb.rax ≡ m.vcpu.vmcb.rax)
rdmsr-wrmsr-efer m e word = (
  set_ret_val v written,
  ap (λ x. x >>= handle_rdmsr) (handle_wrmsr-efer m e) ∙ handle_rdmsr-efer written e,
  unfold set_ret_val in
      setvalue_own m.vcpu.guest_regs.rdx (u32 (shr v 32))
        (omega (arith, concat_64_halves m.vcpu.guest_regs.rdx m.vcpu.vmcb.rax)),
  unfold set_ret_val in
      (setvalue_safely-eq-setvalue m.vcpu.vmcb.rax v word
        ∙ setvalue_own m.vcpu.vmcb.rax v
            (omega (arith, concat_64_halves m.vcpu.guest_regs.rdx m.vcpu.vmcb.rax))),
)
  where
    v : ℕ
    v = value_of m

    written : Machine
    written =
        set_vmcb
          (record m.vcpu.vmcb {
            efer = v;
            tlb_control =
                (if truth (shr v 8 % 2) || truth (shr v 11 % 2)
                  then 3
                  else m.vcpu.vmcb.tlb_control);
          })
          m
