-- ===== src/Vm/Vendor.antt =====
-- The tests of the processor in `vm_new` of ymirc/arch/x86/vm.c.
use ymirc.Prelude.{
  ℕ, zero, suc, ◌+◌, ◌-◌, ◌/◌, ◌%◌, ◌^◌, ◌<◌, ◌≡◌, refl, arith, Bool, true, false, Bool-cases, inl,
  inr, ◌==◌, ◌&&◌, if◌then◌else◌, bit_and, List, [], ◌∷◌,
}
use ymirc.Mem.Bytes.{Bytes, store32, memcpy, memcmp, memcpy-at, in_range, memcmp-zero}
use ymirc.Cpuid.{CpuidRegisters, HostCpuid}
use ymirc.Vm.{literal}

pub data VmError : Type 0 where
  vm_sucess vm_error_out_of_memory vm_error_system_not_supported vm_error_unknown : VmError

abbrev pub msr_vm_cr : ℕ
msr_vm_cr = 0xC0010114

-- A register's four bytes, the lowest first, are copied to `out`.
unfoldable pub get_cpu_vendor_id : HostCpuid → Bytes → Bytes
get_cpu_vendor_id cpuid out =
    let regs = cpuid 0 0 in
    memcpy (store32 0 regs.ecx (λ _. 0)) 0 8 4
      (memcpy (store32 0 regs.edx (λ _. 0)) 0 4 4 (memcpy (store32 0 regs.ebx (λ _. 0)) 0 0 4 out))

unfoldable pub is_svm_supported : HostCpuid → (ℕ → ℕ) → Bool
is_svm_supported cpuid read_msr =
    if bit_and (cpuid 0x80000001 0).ecx (2 ^ 2) == 0
    then false
    else bit_and (read_msr msr_vm_cr) (2 ^ 4) == 0

abbrev pub authentic_amd : List ℕ
authentic_amd = 65 ∷ 117 ∷ 116 ∷ 104 ∷ 101 ∷ 110 ∷ 116 ∷ 105 ∷ 99 ∷ 65 ∷ 77 ∷ 68 ∷ []

-- The error of the machine that `vm_new` returns.
unfoldable pub vm_new_error : HostCpuid → (ℕ → ℕ) → VmError
vm_new_error cpuid read_msr =
    if memcmp (get_cpu_vendor_id cpuid (λ _. 0)) 0 (literal authentic_amd) 0 12 == 0
    then if is_svm_supported cpuid read_msr then vm_sucess else vm_error_system_not_supported
    else vm_error_system_not_supported

-- The registers that spell the vendor.
abbrev pub is_amd : CpuidRegisters → Bool
is_amd regs = regs.ebx == 0x68747541 && (regs.edx == 0x69746E65 && regs.ecx == 0x444D4163)

byte_if : (b : Bool) (x y : ℕ) → x < 256 → y < 256 → (if b then x else y) < 256
byte_if true x y h k = h
byte_if false x y h k = k

store32-lt : (v x : ℕ) → store32 0 v (λ _. 0) x < 256
store32-lt v x = ground arith

vendor-lt : (cpuid : HostCpuid) (j : ℕ) → get_cpu_vendor_id cpuid (λ _. 0) j < 256
unfolding get_cpu_vendor_id
vendor-lt cpuid j =
    let regs = cpuid 0 0 in
    let c = store32 0 regs.ecx (λ _. 0) in
    let d = store32 0 regs.edx (λ _. 0) in
    let b = store32 0 regs.ebx (λ _. 0) in
    let m₁ = memcpy b 0 0 4 (λ _. 0) in
    let m₂ = memcpy d 0 4 4 m₁ in
    rw (memcpy-at c 0 8 4 m₂ j, memcpy-at d 0 4 4 m₁ j, memcpy-at b 0 0 4 (λ _. 0) j)
      (byte_if (in_range 8 4 j) _ _ (store32-lt regs.ecx (0 + (j - 8))) (
        byte_if (in_range 4 4 j) _ _ (store32-lt regs.edx (0 + (j - 4)))
          (byte_if (in_range 0 4 j) _ _ (store32-lt regs.ebx (0 + (j - 0))) (omega arith))))

literal-lt : (j : ℕ) → literal authentic_amd j < 256
unfolding literal
literal-lt zero = omega arith
literal-lt (suc zero) = omega arith
literal-lt (suc (suc zero)) = omega arith
literal-lt (suc (suc (suc zero))) = omega arith
literal-lt (suc (suc (suc (suc zero)))) = omega arith
literal-lt (suc (suc (suc (suc (suc zero))))) = omega arith
literal-lt (suc (suc (suc (suc (suc (suc zero)))))) = omega arith
literal-lt (suc (suc (suc (suc (suc (suc (suc zero))))))) = omega arith
literal-lt (suc (suc (suc (suc (suc (suc (suc (suc zero)))))))) = omega arith
literal-lt (suc (suc (suc (suc (suc (suc (suc (suc (suc zero))))))))) = omega arith
literal-lt (suc (suc (suc (suc (suc (suc (suc (suc (suc (suc zero)))))))))) = omega arith
literal-lt (suc (suc (suc (suc (suc (suc (suc (suc (suc (suc (suc zero))))))))))) = omega arith
literal-lt (suc (suc (suc (suc (suc (suc (suc (suc (suc (suc (suc (suc j)))))))))))) = omega arith

vendor-amd :
    (cpuid : HostCpuid)
    → is_amd (cpuid 0 0) ≡ true
    → memcmp (get_cpu_vendor_id cpuid (λ _. 0)) 0 (literal authentic_amd) 0 12 ≡ 0
unfolding get_cpu_vendor_id memcmp memcpy literal
vendor-amd cpuid amd =
    let b : (cpuid 0 0).ebx ≡ 0x68747541 = ground arith in
    let d : (cpuid 0 0).edx ≡ 0x69746E65 = ground arith in
    let c : (cpuid 0 0).ecx ≡ 0x444D4163 = ground arith in rw (b, d, c) refl

amd-vendor :
    (cpuid : HostCpuid)
    → (cpuid 0 0).ebx < 2 ^ 32
    → (cpuid 0 0).ecx < 2 ^ 32
    → (cpuid 0 0).edx < 2 ^ 32
    → memcmp (get_cpu_vendor_id cpuid (λ _. 0)) 0 (literal authentic_amd) 0 12 ≡ 0
    → is_amd (cpuid 0 0) ≡ true
amd-vendor cpuid b c d z =
    let byte : (i : ℕ)
        → i < 12
        → get_cpu_vendor_id cpuid (λ _. 0) (0 + i) ≡ literal authentic_amd (0 + i) =
      λ i h.
        memcmp-zero (get_cpu_vendor_id cpuid (λ _. 0)) (literal authentic_amd) 0 0 12 i
          (vendor-lt cpuid) literal-lt z h in
    let e0 : (cpuid 0 0).ebx % 256 ≡ 65 =
      unfold get_cpu_vendor_id memcpy literal in byte 0 (omega arith) in
    let e1 : (cpuid 0 0).ebx / 2 ^ 8 % 256 ≡ 117 =
      unfold get_cpu_vendor_id memcpy literal in byte 1 (omega arith) in
    let e2 : (cpuid 0 0).ebx / 2 ^ 16 % 256 ≡ 116 =
      unfold get_cpu_vendor_id memcpy literal in byte 2 (omega arith) in
    let e3 : (cpuid 0 0).ebx / 2 ^ 16 / 2 ^ 8 % 256 ≡ 104 =
      unfold get_cpu_vendor_id memcpy literal in byte 3 (omega arith) in
    let e4 : (cpuid 0 0).edx % 256 ≡ 101 =
      unfold get_cpu_vendor_id memcpy literal in byte 4 (omega arith) in
    let e5 : (cpuid 0 0).edx / 2 ^ 8 % 256 ≡ 110 =
      unfold get_cpu_vendor_id memcpy literal in byte 5 (omega arith) in
    let e6 : (cpuid 0 0).edx / 2 ^ 16 % 256 ≡ 116 =
      unfold get_cpu_vendor_id memcpy literal in byte 6 (omega arith) in
    let e7 : (cpuid 0 0).edx / 2 ^ 16 / 2 ^ 8 % 256 ≡ 105 =
      unfold get_cpu_vendor_id memcpy literal in byte 7 (omega arith) in
    let e8 : (cpuid 0 0).ecx % 256 ≡ 99 =
      unfold get_cpu_vendor_id memcpy literal in byte 8 (omega arith) in
    let e9 : (cpuid 0 0).ecx / 2 ^ 8 % 256 ≡ 65 =
      unfold get_cpu_vendor_id memcpy literal in byte 9 (omega arith) in
    let e10 : (cpuid 0 0).ecx / 2 ^ 16 % 256 ≡ 77 =
      unfold get_cpu_vendor_id memcpy literal in byte 10 (omega arith) in
    let e11 : (cpuid 0 0).ecx / 2 ^ 16 / 2 ^ 8 % 256 ≡ 68 =
      unfold get_cpu_vendor_id memcpy literal in byte 11 (omega arith) in
    let ebx : (cpuid 0 0).ebx ≡ 0x68747541 = omega (arith, b, e0, e1, e2, e3) in
    let edx : (cpuid 0 0).edx ≡ 0x69746E65 = omega (arith, d, e4, e5, e6, e7) in
    let ecx : (cpuid 0 0).ecx ≡ 0x444D4163 = omega (arith, c, e8, e9, e10, e11) in
    rw (ebx, edx, ecx) refl

-- Where the registers of leaf 0 of CPUID are 32-bit words, `vm_new` reports success exactly if they
-- spell `AuthenticAMD` and SVM is there and not switched off, and otherwise that the system is not
-- supported.
pub vm_new_error_lem :
    (cpuid : HostCpuid) (read_msr : ℕ → ℕ)
    → (cpuid 0 0).ebx < 2 ^ 32
    → (cpuid 0 0).ecx < 2 ^ 32
    → (cpuid 0 0).edx < 2 ^ 32
    → vm_new_error cpuid read_msr ≡ (
        if is_amd (cpuid 0 0) && is_svm_supported cpuid read_msr
        then vm_sucess
        else vm_error_system_not_supported)
unfolding vm_new_error
vm_new_error_lem cpuid read_msr b c d = elim (Bool-cases (is_amd (cpuid 0 0))) [
  | inl amd ↦ rw (vendor-amd cpuid amd, amd) refl
  | inr other ↦
      elim (Bool-cases
        (memcmp (get_cpu_vendor_id cpuid (λ _. 0)) 0 (literal authentic_amd) 0 12 == 0)) [
          | inl same ↦ absurd (cc (other, amd-vendor cpuid b c d (ground arith)))
          | inr differ ↦ rw (differ, other) refl
        ]
]
