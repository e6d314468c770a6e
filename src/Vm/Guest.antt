-- ===== src/Vm/Guest.antt =====
-- `setup_guest_memory`: what the guest finds at its physical addresses.
use ymirc.Prelude.{
  ℕ, ◌+◌, ◌-◌, ◌*◌, ◌^◌, ◌≤◌, ◌<◌, ◌≡◌, ◌⊎◌, inl, inr, refl, ◌∙◌, arith, Bool, true, false,
  Bool-cases, ◌==◌, leb, ltb, if◌then◌else◌, none, some,
}
use ymirc.Prelude.{done, stop, panicked}
use ymirc.Mem.{page_size_2mb, virt2phys, phys2virt}
use ymirc.Mem.RoundTrip.{virt2phys-phys2virt}
use ymirc.Mem.Bytes.{Bytes, load32}
use ymirc.Npt.{TableSource, Memory, init_npt}
use ymirc.Npt.Walk.{ram, translate}
use ymirc.Npt.Grow.{Supplies}
use ymirc.Npt.Tree.{phys2virt-offset}
use ymirc.Npt.Init.{host_address, init_npt_lem, Nested}
use ymirc.Vm.{guest_memory_size, GuestVm, load_kernel, setup_guest_memory}
use ymirc.Vm.Whole.{IsWhole, IsLoaded, load_kernel-IsLoaded}
use ymirc.Setup.{svm_vcpu_set_npt}

-- The guest is ready: nCR3 leads every address of its memory, and no other, to the place in the
-- host's memory, and the images are laid out there.
pub record IsReady {S : Type 0} (mapped : Bool) (kernel : Bytes) (kernel_size : ℕ) (initrd : Bytes)
    (initrd_size base : ℕ) (before after : GuestVm S) : Type 0 where
  pub mapping :
      (gpa : ℕ)
      → translate (ram mapped after.tables) after.svmvcpu.vmcb.n_cr3 gpa
        ≡ (if ltb gpa guest_memory_size then some (base + gpa) else none)
  pub contents : IsLoaded kernel kernel_size initrd initrd_size before.guest_bytes after.guest_bytes
  pub guest_base_same : after.svmvcpu.guest_base ≡ base

host_address-eq :
    (base gpa : ℕ)
    → host_address 0 base guest_memory_size gpa
      ≡ (if ltb gpa guest_memory_size then some (base + gpa) else none)
host_address-eq base gpa = elim (Bool-cases (ltb gpa guest_memory_size)) [
  | inl less ↦
      let inside : leb 0 gpa ≡ true = ground arith in
      let e : base + (gpa - 0) ≡ base + gpa = omega arith in rw (less, inside, e) refl
  | inr more ↦ let inside : leb 0 gpa ≡ true = ground arith in rw (more, inside) refl
]

-- For an image of the kernel that holds its setup sectors, at least one, whose code ends before the
-- place of the initial RAM disk, and which is smaller than the guest's memory, and a disk that ends
-- inside that memory and not behind the highest address that the image allows: if the page
-- allocator gives the guest's memory at a positive multiple of 2 MiB below 2^35 and then is in a
-- good state with 101 free pages, `setup_guest_memory` returns. Then the processor, with nCR3 of the
-- virtual CPU, translates each guest address below 100 MiB to the host address as far into that
-- memory, and no other address; the memory holds the code, the disk, the boot parameters and the
-- command line at their places, and every other byte is as it was; and the virtual CPU has the start
-- of that memory as its guest base.
pub setup_guest_memory_lem :
    {S : Type 0} (mapped : Bool) (pa : TableSource S) (laws : Supplies mapped pa) (kernel : Bytes)
    (kernel_size : ℕ) (initrd : Bytes) (initrd_size : ℕ) (vm : GuestVm S) (h : ℕ) (pages : S)
    → IsWhole kernel kernel_size
    → kernel_size < 100 * 2 ^ 20
    → 0x06000000 + initrd_size ≤ 100 * 2 ^ 20
    → 0x06000000 + initrd_size ≤ load32 kernel 0x22C
    → pa.alloc_aligned_pages 25600 page_size_2mb vm.tables.pages
      ≡ done (phys2virt mapped (h * page_size_2mb), pages)
    → 0 < h
    → h < 2 ^ 14
    → laws.IsGood pages
    → 101 ≤ laws.free pages
    → (vm' : GuestVm S) × (setup_guest_memory mapped pa kernel kernel_size initrd initrd_size vm
        ≡ done vm')
      × IsReady mapped kernel kernel_size initrd initrd_size (h * page_size_2mb) vm vm'
unfolding setup_guest_memory svm_vcpu_set_npt
setup_guest_memory_lem {S} mapped pa laws kernel kernel_size initrd initrd_size vm h pages whole
      less fits allowed e pos small good enough =
    finish (
      init_npt_lem mapped pa laws 0 (h * page_size_2mb) guest_memory_size start refl (omega arith)
        (omega arith) (omega arith) good)
  where
    images :
        (m' : Bytes) × (load_kernel kernel kernel_size initrd initrd_size vm.guest_bytes ≡ done m')
        × IsLoaded kernel kernel_size initrd initrd_size vm.guest_bytes m'
    images =
        elim (load_kernel-IsLoaded kernel kernel_size initrd initrd_size vm.guest_bytes whole) [
          | inl (_, _, _, (m', e, l)) ↦ (m', e, l)
          | inr (inl big, _) ↦ absurd (omega arith)
          | inr (inr (inl far), _) ↦ absurd (omega arith)
          | inr (inr (inr far), _) ↦ absurd (omega arith)
        ]

    start : Memory S
    start = record vm.tables { pages = pages }

    base : virt2phys mapped (phys2virt mapped (h * page_size_2mb)) ≡ h * page_size_2mb
    base = virt2phys-phys2virt mapped (h * page_size_2mb) (omega arith)

    some_memory : (phys2virt mapped (h * page_size_2mb) == 0) ≡ false
    some_memory = let e = phys2virt-offset mapped (h * page_size_2mb) (omega arith) in ground arith

    ready : ℕ → Memory S → Bytes → GuestVm S
    ready n_cr3 m' bytes = record {
      svmvcpu = svm_vcpu_set_npt mapped n_cr3 (phys2virt mapped (h * page_size_2mb)) vm.svmvcpu;
      guest_mem = phys2virt mapped (h * page_size_2mb);
      guest_bytes = bytes;
      tables = m';
    }

    finish :
        ((laws.free pages < 101)
            × (init_npt mapped pa 0 (h * page_size_2mb) guest_memory_size start ≡ stop panicked))
          ⊎ ((n_cr3 : ℕ) × (m' : Memory S) × (init_npt mapped pa 0
                  (h * page_size_2mb)
                  guest_memory_size
                  start
                ≡ done (n_cr3, m'))
              × Nested mapped pa laws 0 (h * page_size_2mb) guest_memory_size n_cr3 m')
        → (vm' : GuestVm S) × (setup_guest_memory mapped pa kernel kernel_size initrd initrd_size vm
            ≡ done vm')
          × IsReady mapped kernel kernel_size initrd initrd_size (h * page_size_2mb) vm vm'
    finish (inl (few, _)) = absurd (omega (arith, few))
    finish (inr (n_cr3, m', e', nested)) =
        let (bytes, loads, loaded) = images in
        (
          ready n_cr3 m' bytes,
          rw (e, some_memory, loads, base, e') refl,
          record {
            mapping = λ gpa. nested.maps_memory gpa ∙ host_address-eq (h * page_size_2mb) gpa;
            contents = loaded;
            guest_base_same = base;
          },
        )
