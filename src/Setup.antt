-- ===== src/Setup.antt =====
-- ymirc/arch/x86/svm_vcpu.c: the set-up of a virtual CPU before its first VMRUN. The contents of
-- the permission maps, which the control block names by address, are functions from byte to value.
-- `memset` at NULL stops the machine with `undefined`.
pub mod Ports
pub mod Segments
pub mod Create
use ymirc.Prelude.{
  ℕ, zero, suc, ◌+◌, ◌*◌, ◌/◌, ◌%◌, ◌==◌, Bool, if◌then◌else◌, bit_and, u8, u16, not_64,
}
use ymirc.Prelude.{List, [], ◌∷◌, Option, none, some, Stop, undefined, Outcome, done, stop, ◌>>=◌}
use ymirc.Bits.{set_fields, tobit_8, set_masked_bits}
use ymirc.Mem.{page_size, virt2phys}
use ymirc.PageAlloc.{PageAllocator, alloc_aligned_pages}
use ymirc.Vcpu.{VmcbSeg, Vmcb, SvmVcpu, GuestRegisters, ioio_guest_state_new}

-- The stores of `setup_vmcb_seg`, by the bits that the two kinds of segment differ in.
abbrev pub attrib_fields : ℕ → List (ℕ × ℕ)
attrib_fields executable =
    (1, 0x1)
    ∷ (1, 0x2)
    ∷ (0, 0x4)
    ∷ (executable, 0x8)
    ∷ (1, 0x10)
    ∷ (0, 0x60)
    ∷ (1, 0x80)
    ∷ (0, 0x100)
    ∷ (0, 0x200)
    ∷ (1, 0x400)
    ∷ (1, 0x800)
    ∷ (0, 0xF000)
    ∷ []

abbrev pub with_attrib : ℕ → VmcbSeg → VmcbSeg
with_attrib attrib s = record s { attr = u16 attrib; limit = 0xFFFFFFFF }

unfoldable pub setup_vmcb_seg : Vmcb → Outcome Vmcb
setup_vmcb_seg b = elim (set_fields (attrib_fields 1) 0) [
  | none ↦ stop undefined
  | some cs_attrib ↦ elim (set_fields (attrib_fields 0) 0) [
    | none ↦ stop undefined
    | some ds_attrib ↦ done (record b {
      cs = with_attrib cs_attrib b.cs;
      ds = with_attrib ds_attrib b.ds;
      es = with_attrib ds_attrib b.es;
      fs = with_attrib ds_attrib b.fs;
      gs = with_attrib ds_attrib b.gs;
      ss = with_attrib ds_attrib b.ss;
    })
  ]
]

-- A permission map in memory, by byte.
abbrev pub BitMap : Type 0
BitMap = ℕ → ℕ

unfoldable pub unmask_iopm_bit : BitMap → ℕ → BitMap
unmask_iopm_bit iopm target_bit i =
    if i == target_bit / 8
    then u8 (bit_and (iopm i) (not_64 (tobit_8 (target_bit % 8))))
    else iopm i

-- The loop over the ports of the PIT.
unfoldable pub unmask_from : ℕ → ℕ → BitMap → BitMap
unmask_from zero port iopm = iopm
unmask_from (suc left) port iopm = unmask_from left (port + 1) (unmask_iopm_bit iopm port)

-- What `setup_vmcb_ioio` writes to the map, and what `setup_vmcb_msr` does.
unfoldable pub iopm_contents : BitMap
iopm_contents =
    unmask_iopm_bit
      (unmask_iopm_bit (unmask_iopm_bit (unmask_from 8 0x40 (λ i. 0xFF)) 0x03F8) 0x03FD) 0x03FE

abbrev pub msrpm_contents : BitMap
msrpm_contents i = 0xFF

unfoldable pub setup_vmcb_msr :
    Bool → PageAllocator → Vmcb → Outcome (Vmcb × BitMap × PageAllocator)
setup_vmcb_msr mapped pa b = do
  (msrpm, pa') ← alloc_aligned_pages mapped pa 2 page_size
  let b' = record b { msrpm_base_pa = virt2phys mapped msrpm; intercept_msr_prot = 1 } in
      if msrpm == 0 then stop undefined else done (b', msrpm_contents, pa')

unfoldable pub setup_vmcb_ioio :
    Bool → PageAllocator → Vmcb → Outcome (Vmcb × BitMap × PageAllocator)
setup_vmcb_ioio mapped pa b = do
  (iopm, pa') ← alloc_aligned_pages mapped pa 3 page_size
  let b' = record b { iopm_base_pa = virt2phys mapped iopm; intercept_ioio_prot = 1 } in
      if iopm == 0 then stop undefined else done (b', iopm_contents, pa')

-- The stores of `setup_vmcb` to the control block outside the functions that it calls.
abbrev pub control_fields : ℕ → Vmcb → Vmcb
control_fields asid b = record b {
  intercept_intr = 1;
  v_ign_tpr = 1;
  v_intr_masking = 1;
  intercept_cpuid = 1;
  intercept_hlt = 1;
  intercept_vmrun = 1;
  intercept_vmmcall = 1;
  guest_asid = asid;
  np_enable = 1;
}

abbrev pub state_fields : Vmcb → Vmcb
state_fields b = record b { efer = 0x1000; cr0 = 0x31; rip = 0x00100000 }

-- The control block with its MSR and port maps.
unfoldable pub setup_vmcb :
    Bool → PageAllocator → SvmVcpu → Outcome (SvmVcpu × BitMap × BitMap × PageAllocator)
setup_vmcb mapped pa v = do
  b ← setup_vmcb_seg (control_fields v.asid v.vmcb)
  (b₁, msrpm, pa₁) ← setup_vmcb_msr mapped pa (state_fields b)
  (b₂, iopm, pa₂) ← setup_vmcb_ioio mapped pa₁ b₁
  done (record v { vmcb = b₂ }, msrpm, iopm, pa₂)

unfoldable pub svm_vcpu_setup_guest_state :
    Bool → PageAllocator → SvmVcpu → Outcome (SvmVcpu × BitMap × BitMap × PageAllocator)
svm_vcpu_setup_guest_state mapped pa v = do
  (v', msrpm, iopm, pa') ← setup_vmcb mapped pa v
  done (record v' { guest_regs = record v'.guest_regs { rsi = 0x00010000 } }, msrpm, iopm, pa')

unfoldable pub svm_vcpu_set_npt : Bool → ℕ → ℕ → SvmVcpu → SvmVcpu
svm_vcpu_set_npt mapped n_cr3 host_start v = record v {
  vmcb = record v.vmcb { n_cr3 = n_cr3 };
  guest_base = virt2phys mapped host_start;
}
