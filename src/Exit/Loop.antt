-- ===== src/Exit/Loop.antt =====
-- `svm_vcpu_loop` of ymirc/arch/x86/svm_vcpu.c and the VMRUN of `asm_vmrun` of ymirc/arch/x86/svm_asm.c. What the
-- guest does between VMRUN and #VMEXIT is a parameter: any function on its registers and the control
-- block.
use ymirc.Prelude.{
  ◌≡◌, refl, subst, done-injective, bind-eq-done, List, [], ◌∷◌, Outcome, done, ◌>>=◌,
}
use ymirc.Vcpu.{GuestRegisters, Vmcb, Machine}
use ymirc.Exit.{Env, handle_exit}
use ymirc.Exit.Kept.{walls, none_yet, Served}

-- The guest's registers and the control block at VMRUN, and at the next #VMEXIT.
abbrev pub Guest : Type 0
Guest = GuestRegisters → Vmcb → GuestRegisters × Vmcb

-- VMRUN, from the guest's registers to those at #VMEXIT. The host's registers, which `asm_vmrun` saves
-- and restores around it, are not part of the state.
unfoldable pub asm_vmrun : Guest → Machine → Machine
asm_vmrun guest m =
    let (regs, b) = guest m.vcpu.guest_regs m.vcpu.vmcb in
    record m { vcpu = record m.vcpu { guest_regs = regs; vmcb = b } }

-- The endless loop, for the rounds that are listed: what the guest does, and what comes from outside.
unfoldable pub svm_vcpu_loop : List (Guest × Env) → Machine → Outcome Machine
svm_vcpu_loop [] m = done m
svm_vcpu_loop ((guest, env) ∷ rounds) m = do
  m' ← handle_exit env (asm_vmrun guest m)
  svm_vcpu_loop rounds m'

-- The intercepts, the permission maps' addresses and the fields of nested paging are as before: VMRUN
-- only reads them.
abbrev pub IsQuiet : Guest → Type 0
IsQuiet guest = (regs : GuestRegisters) (b : Vmcb) → walls (guest regs b).1 ≡ walls b

-- One round as a step.
pub data Round (m : Machine) : Machine → Type 0 where
  round :
      {m' : Machine} (guest : Guest) (env : Env)
      → IsQuiet guest
      → handle_exit env (asm_vmrun guest m) ≡ done m'
      → Round m m'

-- The states at the head of the loop that some rounds lead to.
pub data Reach (m : Machine) : Machine → Type 0 where
  here : Reach m m
  next : {m' m'' : Machine} → Reach m m' → Round m' m'' → Reach m m''

pub vmrun-Served : (guest : Guest) (m : Machine) → IsQuiet guest → Served m (asm_vmrun guest m)
unfolding asm_vmrun
vmrun-Served guest m quiet = ((quiet m.vcpu.guest_regs m.vcpu.vmcb, refl), none_yet)

Reach-cons : {m m' m'' : Machine} → Round m m' → Reach m' m'' → Reach m m''
Reach-cons step here = next here step
Reach-cons step (next r last) = next (Reach-cons step r) last

abbrev pub AllQuiet : List (Guest × Env) → Type 0
AllQuiet [] = Unit {0}
AllQuiet ((guest, env) ∷ rounds) = IsQuiet guest × AllQuiet rounds

-- A run of the loop is a chain of rounds.
pub svm_vcpu_loop-Reach :
    (rounds : List (Guest × Env)) (m : Machine) {m' : Machine}
    → AllQuiet rounds
    → svm_vcpu_loop rounds m ≡ done m'
    → Reach m m'
unfolding svm_vcpu_loop
svm_vcpu_loop-Reach [] m {m'} quiet run = subst (Reach m) (done-injective run) here
svm_vcpu_loop-Reach ((guest, env) ∷ rounds) m {m'} (q, quiet) run =
    let (m₁, e, rest) =
      bind-eq-done (handle_exit env (asm_vmrun guest m)) (svm_vcpu_loop rounds) run in
    Reach-cons (round guest env q e) (svm_vcpu_loop-Reach rounds m₁ quiet rest)
