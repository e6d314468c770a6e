-- ===== src/Vm.antt =====
-- ymirc/arch/x86/vm.c: the guest's memory and what is loaded into it. The guest's memory is bytes by
-- their offset from `guest_mem`; the images of the kernel and the initial RAM disk are bytes by
-- their offset in the image. `cpuid` and `read_msr` are parameters.
pub mod Loading
pub mod Layout
pub mod Whole
pub mod Guest
pub mod Vendor
use ymirc.Prelude.{
  ℕ, zero, suc, ◌+◌, ◌-◌, ◌*◌, ◌/◌, ◌%◌, ◌^◌, ◌==◌, Bool, not, ltb, leb, if◌then◌else◌, bit_and,
  bit_or, u64, u32, sub_64,
}
use ymirc.Prelude.{List, [], ◌∷◌, length, Outcome, done, stop, panicked, ◌>>=◌}
use ymirc.Bits.{tobit}
use ymirc.Mem.{page_size, page_size_2mb, virt2phys}
use ymirc.Mem.Bytes.{Bytes, put, memcpy, memset, memcmp, store16, store32, load32}
use ymirc.Linux.{
  linux_layout_bootparam, linux_layout_cmdline, linux_layout_kernel_base, linux_layout_initrd, hdr,
  type_of_loader, ext_loader_ver, loadflags, loaded_high, can_use_heap, keep_segments, heap_end_ptr,
  cmd_line_ptr, vid_mode, cmdline_size, initrd_addr_max, ramdisk_image, ramdisk_size, e820_entries,
  sizeof_boot_params, ram, protected_code_offset, bootparams_from_bzimage,
  bootparams_add_e820_entry,
}
use ymirc.Npt.{TableSource, Memory, init_npt}
use ymirc.Vcpu.{SvmVcpu}
use ymirc.Setup.{svm_vcpu_set_npt}

abbrev pub guest_memory_size : ℕ
guest_memory_size = 100 * 1024 * 1024

abbrev pub kernel_cmdline : List ℕ
kernel_cmdline =
    99 ∷ 111 ∷ 110 ∷ 115 ∷ 111 ∷ 108 ∷ 101 ∷ 61 ∷ 116 ∷ 116 ∷ 121 ∷ 83 ∷ 48 ∷ 32 ∷ 101 ∷ 97 ∷ 114
    ∷ 108 ∷ 121 ∷ 112 ∷ 114 ∷ 105 ∷ 110 ∷ 116 ∷ 107 ∷ 61 ∷ 115 ∷ 101 ∷ 114 ∷ 105 ∷ 97 ∷ 108 ∷ 32
    ∷ 110 ∷ 111 ∷ 107 ∷ 97 ∷ 115 ∷ 108 ∷ 114 ∷ []

abbrev pub kernel_cmdline_len : ℕ
kernel_cmdline_len = length kernel_cmdline

-- A string literal as bytes.
unfoldable pub literal : List ℕ → Bytes
literal [] i = 0
literal (c ∷ cs) zero = c
literal (c ∷ cs) (suc i) = literal cs i

-- From `position` on in the image to `addr` on in the guest's memory.
unfoldable pub load_image : ℕ → Bytes → ℕ → ℕ → ℕ → Bytes → Outcome Bytes
load_image memory_size image position image_size addr memory =
    if ltb memory_size (u64 (addr + image_size))
    then stop panicked
    else done (memcpy image position addr image_size memory)

abbrev pub set_flag : ℕ → Bytes → Bytes
set_flag i bp = put (hdr loadflags) (bit_or (bp (hdr loadflags)) (tobit i)) bp

-- `load_kernel` up to the calls of `bootparams_add_e820_entry`.
unfoldable pub header_fields : Bytes → Bytes
header_fields kernel =
    let bp = put e820_entries 0 (bootparams_from_bzimage kernel (λ _. 0)) in
    let bp = put (hdr type_of_loader) 0xFF bp in
    let bp = put (hdr ext_loader_ver) 0 bp in
    let bp = set_flag can_use_heap (set_flag loaded_high bp) in
    let bp = store16 (hdr heap_end_ptr) (linux_layout_bootparam - 0x200) bp in
    let bp = set_flag keep_segments bp in
    let bp = store32 (hdr cmd_line_ptr) linux_layout_cmdline bp in store16 (hdr vid_mode) 0xFFFF bp

abbrev pub minimum : ℕ → ℕ → ℕ
minimum a b = if ltb a b then a else b

-- The part on the command line, for the most that the kernel accepts.
unfoldable pub load_cmdline : ℕ → Bytes → Bytes
load_cmdline cmdline_max_size memory =
    memcpy (literal kernel_cmdline) 0 linux_layout_cmdline
      (minimum kernel_cmdline_len cmdline_max_size)
      (memset linux_layout_cmdline 0 cmdline_max_size memory)

-- The part on the initial RAM disk's place and size.
unfoldable pub check_initrd : ℕ → Bytes → Outcome Bytes
check_initrd initrd_size bp =
    if ltb (guest_memory_size - linux_layout_initrd) initrd_size
    then stop panicked
    else if ltb (load32 bp (hdr initrd_addr_max)) (u64 (linux_layout_initrd + initrd_size))
    then stop panicked
    else done (
        store32 (hdr ramdisk_size) (u32 initrd_size)
          (store32 (hdr ramdisk_image) linux_layout_initrd bp))

unfoldable pub load_kernel : Bytes → ℕ → Bytes → ℕ → Bytes → Outcome Bytes
load_kernel kernel kernel_size initrd initrd_size guest_mem = do
  bp ← if leb guest_memory_size kernel_size then stop panicked else done (header_fields kernel)
  bp ← bootparams_add_e820_entry 0 linux_layout_kernel_base ram bp
  bp ←
      bootparams_add_e820_entry linux_layout_kernel_base
        (guest_memory_size - linux_layout_kernel_base) ram bp
  let mem = load_cmdline (minimum (load32 bp (hdr cmdline_size)) 256) guest_mem
  bp ← check_initrd initrd_size bp
  mem ← load_image guest_memory_size initrd 0 initrd_size linux_layout_initrd mem
  mem ← load_image guest_memory_size bp 0 sizeof_boot_params linux_layout_bootparam mem
  let code_offset = protected_code_offset bp
  load_image guest_memory_size kernel code_offset (sub_64 kernel_size code_offset)
      linux_layout_kernel_base mem

-- Of `Vm` the virtual CPU and `guest_mem`; the bytes that `guest_mem` points to; and the memory in
-- which the tables stand.
pub record GuestVm (S : Type 0) : Type 0 where
  pub svmvcpu : SvmVcpu
  pub guest_mem : ℕ
  pub guest_bytes : Bytes
  pub tables : Memory S

unfoldable pub setup_guest_memory :
    {S : Type 0} → Bool → TableSource S → Bytes → ℕ → Bytes → ℕ → GuestVm S → Outcome (GuestVm S)
setup_guest_memory mapped pa guest_image guest_image_size initrd initrd_size vm = do
  (guest_mem, pages) ←
      pa.alloc_aligned_pages (guest_memory_size / page_size) page_size_2mb vm.tables.pages
  bytes ←
      if guest_mem == 0
      then stop panicked
      else load_kernel guest_image guest_image_size initrd initrd_size vm.guest_bytes
  (n_cr3, tables) ←
      init_npt mapped pa 0 (virt2phys mapped guest_mem) guest_memory_size
        (record vm.tables { pages = pages })
  done (record {
    svmvcpu = svm_vcpu_set_npt mapped n_cr3 guest_mem vm.svmvcpu;
    guest_mem = guest_mem;
    guest_bytes = bytes;
    tables = tables;
  })
