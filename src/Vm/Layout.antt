-- ===== src/Vm/Layout.antt =====
-- Bounds of what `load_kernel` writes, and the boot parameters that the kernel reads.
use ymirc.Prelude.{
  ℕ, ◌+◌, ◌-◌, ◌%◌, ◌^◌, ◌≤◌, ◌<◌, ◌≡◌, refl, ap, ◌∙◌, arith, Bool, true, false, Bool-cases, inl,
  inr, ltb, if◌then◌else◌, u64, sub_64,
}
use ymirc.Prelude.{Outcome, done, stop, panicked}
use ymirc.Mem.Bytes.{Bytes, in_range, load16, load32}
use ymirc.Linux.{
  linux_layout_bootparam, linux_layout_cmdline, linux_layout_kernel_base, linux_layout_initrd, hdr,
  type_of_loader, heap_end_ptr, cmd_line_ptr, vid_mode, ramdisk_image, ramdisk_size, e820_entries,
  e820_entry, sizeof_boot_params,
}
use ymirc.Vm.{guest_memory_size, kernel_cmdline_len, minimum, load_kernel, header_fields}
use ymirc.Vm.Loading.{
  code_offset, cmdline_room, initrd_accepted, code_accepted, accepted, boot_params, load_kernel_lem,
}

-- What was accepted, as an order.
accepted-bounds :
    (kernel : Bytes) (kernel_size initrd_size : ℕ)
    → accepted kernel kernel_size initrd_size ≡ true
    → (kernel_size < guest_memory_size)
      × (linux_layout_initrd + initrd_size ≤ guest_memory_size)
      × (u64 (linux_layout_kernel_base + sub_64 kernel_size (code_offset kernel))
          ≤ guest_memory_size)
unfolding initrd_accepted code_accepted
accepted-bounds kernel kernel_size initrd_size ok = (ground arith, ground arith, ground arith)

done-accepted :
    (b : Bool) (m m' : Bytes) (out : Outcome Bytes)
    → out ≡ (if b then done m else stop panicked)
    → out ≡ done m'
    → (b ≡ true) × (m' ≡ m)
done-accepted true m m' out e e' = (refl, cc (e, e'))
done-accepted false m m' out e e' = absurd (cc (e, e'))

pub room-le : (kernel : Bytes) → cmdline_room kernel ≤ 256
room-le kernel = elim (Bool-cases (ltb (load32 kernel 0x238) 256)) [
  | inl less ↦ rw less (ground arith)
  | inr more ↦ rw more (omega arith)
]

-- If the image is no shorter than its boot sector and setup sectors, what `load_kernel` returns has
-- every byte outside the guest's memory as it was.
pub load_kernel-bounds :
    (kernel : Bytes) (kernel_size : ℕ) (initrd : Bytes) (initrd_size : ℕ) (guest_mem m' : Bytes)
    (x : ℕ)
    → code_offset kernel ≤ kernel_size
    → load_kernel kernel kernel_size initrd initrd_size guest_mem ≡ done m'
    → guest_memory_size ≤ x
    → m' x ≡ guest_mem x
load_kernel-bounds kernel kernel_size initrd initrd_size guest_mem m' x whole e outside =
    let (m'', e', at) = load_kernel_lem kernel kernel_size initrd initrd_size guest_mem in
    let (ok, same) = done-accepted (accepted kernel kernel_size initrd_size) m'' m' _ e' e in
    let (less, disk, code) = accepted-bounds kernel kernel_size initrd_size ok in
    let room = room-le kernel in
    let size : sub_64 kernel_size (code_offset kernel) ≡ kernel_size - code_offset kernel =
      omega arith in
    let a : in_range linux_layout_kernel_base (sub_64 kernel_size (code_offset kernel)) x ≡ false =
      rw size (ground arith) in
    let b : in_range linux_layout_bootparam sizeof_boot_params x ≡ false = ground arith in
    let c : in_range linux_layout_initrd initrd_size x ≡ false = ground arith in
    let d : in_range linux_layout_cmdline (minimum kernel_cmdline_len (cmdline_room kernel)) x
        ≡ false =
      ground arith in
    let f : in_range linux_layout_cmdline (cmdline_room kernel) x ≡ false = ground arith in
    ap (λ m. m x) same ∙ at x ∙ rw (a, b, c, d, f) refl

-- If the image is shorter than its boot sector and setup sectors (at most 255 of them), and the
-- size of the initial RAM disk is accepted, then `load_kernel` returns, and has overwritten every
-- byte from the end of the guest's memory up to 2^63.
pub load_kernel-overrun :
    (kernel : Bytes) (kernel_size : ℕ) (initrd : Bytes) (initrd_size : ℕ) (guest_mem : Bytes)
    (x : ℕ)
    → kernel 0x1F1 < 256
    → kernel_size < code_offset kernel
    → initrd_accepted kernel initrd_size ≡ true
    → guest_memory_size ≤ x
    → x < 2 ^ 63
    → (m' : Bytes) × (load_kernel kernel kernel_size initrd initrd_size guest_mem ≡ done m')
      × (m' x ≡ kernel (code_offset kernel + (x - linux_layout_kernel_base)))
unfolding code_accepted
load_kernel-overrun kernel kernel_size initrd initrd_size guest_mem x byte short ok outside near =
    let (m', e, at) = load_kernel_lem kernel kernel_size initrd initrd_size guest_mem in
    let size : sub_64 kernel_size (code_offset kernel) ≡ kernel_size + 2 ^ 64 - code_offset kernel =
      omega arith in
    let less : ltb kernel_size guest_memory_size ≡ true = ground arith in
    let wrapped : code_accepted kernel kernel_size ≡ true =
      let fits : u64 (linux_layout_kernel_base + sub_64 kernel_size (code_offset kernel))
          ≤ guest_memory_size =
        omega arith in
      ground arith in
    let inside : in_range linux_layout_kernel_base (sub_64 kernel_size (code_offset kernel)) x
        ≡ true =
      rw size (ground arith) in
    (m', e ∙ rw (less, ok, wrapped) refl, at x ∙ rw inside refl)

-- The boot parameters that `load_kernel` puts together have the type of the loader, the addresses
-- of the command line and of the initial RAM disk and the disk's size as a 32-bit number, the end
-- of the heap and the video mode that the protocol asks for, and a memory map of two entries, whose
-- starts and sizes (their low 32 bits) are those of the memory below and above 1 MiB.
pub boot_params-fields :
    (kernel : Bytes) (initrd_size : ℕ)
    → let bp = boot_params kernel initrd_size in
      (bp (hdr type_of_loader) ≡ 0xFF)
      × (load32 bp (hdr cmd_line_ptr) ≡ linux_layout_cmdline)
      × (load32 bp (hdr ramdisk_image) ≡ linux_layout_initrd)
      × (load32 bp (hdr ramdisk_size) ≡ initrd_size % 2 ^ 32)
      × (load16 bp (hdr heap_end_ptr) ≡ linux_layout_bootparam - 0x200)
      × (load16 bp (hdr vid_mode) ≡ 0xFFFF)
      × (bp e820_entries ≡ 2)
      × (load32 bp (e820_entry 0) ≡ 0)
      × (load32 bp (e820_entry 0 + 8) ≡ linux_layout_kernel_base)
      × (load32 bp (e820_entry 1) ≡ linux_layout_kernel_base)
      × (load32 bp (e820_entry 1 + 8) ≡ guest_memory_size - linux_layout_kernel_base)
unfolding header_fields
boot_params-fields kernel initrd_size =
    (refl, refl, refl, omega arith, refl, refl, refl, refl, refl, refl, refl)
