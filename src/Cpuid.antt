-- ===== src/Cpuid.antt =====
-- ymirc/arch/x86/svm_cpuid.c: CPUID of the guest, with the feature bits of
-- ymirc/arch/x86/cpuid.h. The processor's own CPUID instruction is a parameter, a function of leaf
-- and subleaf.
pub mod Features
pub mod Answers
use ymirc.Prelude.{ℕ, ◌+◌, ◌*◌, ◌/◌, ◌%◌, ◌^◌, bit_and, bit_or, ◌==◌, ◌||◌, if◌then◌else◌, not_64}
use ymirc.Prelude.{List, [], ◌∷◌, Stop, aborted, Outcome, done, stop}
use ymirc.Vcpu.{Machine, set_vmcb, set_regs}
use ymirc.Vcpu.Halves.{setvalue, setvalue_safely}

pub record CpuidRegisters : Type 0 where
  pub eax : ℕ
  pub ebx : ℕ
  pub ecx : ℕ
  pub edx : ℕ

abbrev pub HostCpuid : Type 0
HostCpuid = ℕ → ℕ → CpuidRegisters

-- The store of `b` to the one-bit field that is bit `i` of `x`.
unfoldable pub assign_field : ℕ → ℕ → ℕ → ℕ
assign_field i b x = bit_or (bit_and x (not_64 (2 ^ i))) (b * 2 ^ i)

-- Stores to fields, in order.
unfoldable pub assign_fields : List (ℕ × ℕ) → ℕ → ℕ
assign_fields [] x = x
assign_fields ((i, b) ∷ rest) x = assign_fields rest (assign_field i b x)

abbrev pub std_feature_info_ecx : ℕ
std_feature_info_ecx = 0

-- The initializer sets fpu, vme, de, pse, msr, pae, cmpxchg8b, sysentersysexit, pge, cmov, pse36,
-- fxsr, sse and sse2.
abbrev pub std_feature_info_edx : ℕ
std_feature_info_edx =
    assign_fields
      ((0, 1)
        ∷ (1, 1)
        ∷ (2, 1)
        ∷ (3, 1)
        ∷ (5, 1)
        ∷ (6, 1)
        ∷ (8, 1)
        ∷ (11, 1)
        ∷ (13, 1)
        ∷ (15, 1)
        ∷ (17, 1)
        ∷ (24, 1)
        ∷ (25, 1)
        ∷ (26, 1)
        ∷ [])
      0

-- smep, invpcid and smap.
abbrev pub ext_feature0_ebx : ℕ
ext_feature0_ebx = assign_fields ((7, 1) ∷ (10, 1) ∷ (20, 1) ∷ []) 0

-- The assignments of `get_ext_feature_info_edx`: fpu, vme, de, pse, tsc, msr, pae, mce, cmpxchg8b,
-- apic, mtrr, pge, mca, cmov, pat, pse36, mmxext, mmx and fxsr.
abbrev pub ext_feature_stores : List (ℕ × ℕ)
ext_feature_stores =
    (0, 1)
    ∷ (1, 1)
    ∷ (2, 1)
    ∷ (3, 1)
    ∷ (4, 0)
    ∷ (5, 1)
    ∷ (6, 1)
    ∷ (7, 0)
    ∷ (8, 1)
    ∷ (9, 0)
    ∷ (12, 0)
    ∷ (13, 1)
    ∷ (14, 0)
    ∷ (15, 1)
    ∷ (16, 0)
    ∷ (17, 1)
    ∷ (22, 0)
    ∷ (23, 0)
    ∷ (24, 1)
    ∷ []

unfoldable pub get_ext_feature_info_edx : ℕ → ℕ
get_ext_feature_info_edx orig = assign_fields ext_feature_stores orig

-- The four stores that every answer consists of.
unfoldable pub respond : CpuidRegisters → Machine → Machine
respond r m =
    let regs = m.vcpu.guest_regs in
    set_regs
      (record regs {
        rbx = setvalue regs.rbx r.ebx;
        rcx = setvalue regs.rcx r.ecx;
        rdx = setvalue regs.rdx r.edx;
      })
      (set_vmcb (record m.vcpu.vmcb { rax = setvalue_safely m.vcpu.vmcb.rax r.eax }) m)

abbrev pub invalid : Machine → Machine
invalid m = respond (record { eax = 0; ebx = 0; ecx = 0; edx = 0 }) m

-- "YmirCYmirC" in the order EBX, EDX, ECX.
abbrev pub vendor : ℕ → CpuidRegisters
vendor largest = record { eax = largest; ebx = 0x72696D59; ecx = 0x00004372; edx = 0x696D5943 }

-- The `switch` on the leaf, with those on the subleaf in it.
unfoldable pub cpuid_switch : HostCpuid → ℕ → ℕ → Machine → Outcome Machine
cpuid_switch host leaf sub m =
    if leaf == 0x0
    then done (respond (vendor 0xd) m)
    else if leaf == 0x1
    then (let orig = host 0x1 0x0 in
        done (
          respond
            (record {
              eax = orig.eax;
              ebx = orig.ebx;
              ecx = std_feature_info_ecx;
              edx = std_feature_info_edx;
            })
            m))
    else if leaf == 0x6
    then done (invalid m)
    else if leaf == 0x7
    then (if sub == 0
        then done (respond (record { eax = 1; ebx = ext_feature0_ebx; ecx = 0; edx = 0 }) m)
        else if sub == 1 || sub == 2
        then done (invalid m)
        else stop aborted)
    else if leaf == 0xd
    then (if sub == 1 then done (invalid m) else stop aborted)
    else if leaf == 0x80000000
    then done (respond (vendor (0x80000000 + 1)) m)
    else if leaf == 0x80000001
    then (let orig = host 0x80000001 0x0 in
        done (
          respond
            (record { eax = 0; ebx = 0; ecx = orig.ecx; edx = get_ext_feature_info_edx orig.edx })
            m))
    else done (invalid m)

unfoldable pub handle_svm_cpuid_exit : HostCpuid → Machine → Outcome Machine
handle_svm_cpuid_exit host m = cpuid_switch host m.vcpu.vmcb.rax m.vcpu.guest_regs.rcx m
