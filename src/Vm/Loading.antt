-- ===== src/Vm/Loading.antt =====
-- `load_kernel` against a description of the guest's memory after it.
use ymirc.Prelude.{
  ℕ, ◌+◌, ◌-◌, ◌*◌, ◌^◌, ◌≤◌, ◌<◌, ◌≡◌, refl, ap, ◌∙◌, arith, Bool, true, false, Bool-cases, inl,
  inr, ◌&&◌, ltb, leb, if◌then◌else◌, u64, u32, sub_64,
}
use ymirc.Prelude.{done, stop, panicked}
use ymirc.Mem.Bytes.{
  Bytes, put, memcpy, memset, memcpy-at, memcpy-whole, memset-at, in_range, store32, store64,
  load32,
}
use ymirc.Linux.{
  linux_layout_bootparam, linux_layout_cmdline, linux_layout_kernel_base, linux_layout_initrd, hdr,
  cmdline_size, initrd_addr_max, ramdisk_image, ramdisk_size, e820_entries, e820_entry,
  sizeof_boot_params, ram, protected_code_offset, bootparams_from_bzimage,
  bootparams_add_e820_entry,
}
use ymirc.Vm.{
  guest_memory_size, kernel_cmdline, kernel_cmdline_len, literal, load_image, header_fields,
  minimum, load_cmdline, check_initrd, load_kernel,
}

-- An entry of the memory map for RAM.
abbrev pub ram_entry : ℕ → ℕ → ℕ → Bytes → Bytes
ram_entry i addr size bp =
    store32 (e820_entry i + 16) 1 (store64 (e820_entry i + 8) size (store64 (e820_entry i) addr bp))

-- The boot parameters with the memory map, and with the initial RAM disk.
abbrev pub with_map : Bytes → Bytes
with_map kernel = put e820_entries 2 (
    ram_entry 1 linux_layout_kernel_base (guest_memory_size - linux_layout_kernel_base)
      (put e820_entries 1 (ram_entry 0 0 linux_layout_kernel_base (header_fields kernel))))

abbrev pub boot_params : Bytes → ℕ → Bytes
boot_params kernel initrd_size =
    store32 (hdr ramdisk_size) (u32 initrd_size)
      (store32 (hdr ramdisk_image) linux_layout_initrd (with_map kernel))

-- What the image of the kernel says.
abbrev pub code_offset : Bytes → ℕ
code_offset kernel = (kernel 0x1F1 + 1) * 512

abbrev pub cmdline_room : Bytes → ℕ
cmdline_room kernel = minimum (load32 kernel 0x238) 256

-- The conditions for loading.
unfoldable pub initrd_accepted : Bytes → ℕ → Bool
initrd_accepted kernel initrd_size =
    leb initrd_size (guest_memory_size - linux_layout_initrd)
    && leb (linux_layout_initrd + initrd_size) (load32 kernel 0x22C)

unfoldable pub code_accepted : Bytes → ℕ → Bool
code_accepted kernel kernel_size =
    leb (u64 (linux_layout_kernel_base + sub_64 kernel_size (code_offset kernel))) guest_memory_size

abbrev pub accepted : Bytes → ℕ → ℕ → Bool
accepted kernel kernel_size initrd_size =
    ltb kernel_size guest_memory_size
    && (initrd_accepted kernel initrd_size && code_accepted kernel kernel_size)

-- The guest's memory after it.
abbrev pub layout : Bytes → ℕ → Bytes → ℕ → Bytes → Bytes
layout kernel kernel_size initrd initrd_size guest_mem x =
    if in_range linux_layout_kernel_base (sub_64 kernel_size (code_offset kernel)) x
    then kernel (code_offset kernel + (x - linux_layout_kernel_base))
    else if in_range linux_layout_bootparam sizeof_boot_params x
    then boot_params kernel initrd_size (x - linux_layout_bootparam)
    else if in_range linux_layout_initrd initrd_size x
    then initrd (x - linux_layout_initrd)
    else if in_range linux_layout_cmdline (minimum kernel_cmdline_len (cmdline_room kernel)) x
    then literal kernel_cmdline (x - linux_layout_cmdline)
    else if in_range linux_layout_cmdline (cmdline_room kernel) x
    then 0
    else guest_mem x

-- A byte of the image in the boot parameters.
pub image_byte :
    (kernel : Bytes) (x : ℕ)
    → x < sizeof_boot_params
    → bootparams_from_bzimage kernel (λ _. 0) x ≡ kernel x
unfolding bootparams_from_bzimage
image_byte kernel x h =
    let inside : in_range 0 sizeof_boot_params x ≡ true = ground arith in
    memcpy-at kernel 0 0 sizeof_boot_params (λ _. 0) x ∙ rw inside (ap kernel (omega arith))

first_entry : Bytes → Bytes
first_entry kernel =
    put e820_entries 1 (ram_entry 0 0 linux_layout_kernel_base (header_fields kernel))

add_first :
    (kernel : Bytes)
    → bootparams_add_e820_entry 0 linux_layout_kernel_base ram (header_fields kernel)
      ≡ done (first_entry kernel)
unfolding bootparams_add_e820_entry header_fields first_entry
add_first kernel = refl

add_second :
    (kernel : Bytes)
    → bootparams_add_e820_entry linux_layout_kernel_base
        (guest_memory_size - linux_layout_kernel_base)
        ram
        (first_entry kernel)
      ≡ done (with_map kernel)
unfolding bootparams_add_e820_entry first_entry
add_second kernel = refl

map_setup_sects :
    (kernel : Bytes) (n : ℕ) → protected_code_offset (boot_params kernel n) ≡ code_offset kernel
unfolding protected_code_offset header_fields
map_setup_sects kernel n = ap (λ b. (b + 1) * 512) (image_byte kernel 0x1F1 (omega arith))

map_cmdline_size :
    (kernel : Bytes) → load32 (with_map kernel) (hdr cmdline_size) ≡ load32 kernel 0x238
unfolding header_fields
map_cmdline_size kernel =
    rw
      (
        image_byte kernel 0x238 (omega arith),
        image_byte kernel 0x239 (omega arith),
        image_byte kernel 0x23A (omega arith),
        image_byte kernel 0x23B (omega arith),
      )
      refl

map_initrd_addr_max :
    (kernel : Bytes) → load32 (with_map kernel) (hdr initrd_addr_max) ≡ load32 kernel 0x22C
unfolding header_fields
map_initrd_addr_max kernel =
    rw
      (
        image_byte kernel 0x22C (omega arith),
        image_byte kernel 0x22D (omega arith),
        image_byte kernel 0x22E (omega arith),
        image_byte kernel 0x22F (omega arith),
      )
      refl

-- The memory that the four copies make.
loaded : Bytes → ℕ → Bytes → ℕ → Bytes → Bytes
loaded kernel kernel_size initrd initrd_size guest_mem =
    memcpy kernel (code_offset kernel) linux_layout_kernel_base
      (sub_64 kernel_size (code_offset kernel))
      (memcpy (boot_params kernel initrd_size) 0 linux_layout_bootparam sizeof_boot_params (
        memcpy initrd 0 linux_layout_initrd initrd_size
          (load_cmdline (cmdline_room kernel) guest_mem)))

loaded-layout :
    (kernel : Bytes) (kernel_size : ℕ) (initrd : Bytes) (initrd_size : ℕ) (guest_mem : Bytes)
    (x : ℕ)
    → loaded kernel kernel_size initrd initrd_size guest_mem x
      ≡ layout kernel kernel_size initrd initrd_size guest_mem x
unfolding loaded load_cmdline
loaded-layout kernel kernel_size initrd initrd_size guest_mem x =
    let a = load_cmdline (cmdline_room kernel) guest_mem in
    let b = memcpy initrd 0 linux_layout_initrd initrd_size a in
    let c = memcpy (boot_params kernel initrd_size) 0 linux_layout_bootparam sizeof_boot_params b in
    memcpy-at kernel (code_offset kernel) linux_layout_kernel_base
      (sub_64 kernel_size (code_offset kernel)) c x
    ∙ ap
        (λ y.
          if in_range linux_layout_kernel_base (sub_64 kernel_size (code_offset kernel)) x
          then kernel (code_offset kernel + (x - linux_layout_kernel_base))
          else y)
        (memcpy-whole (boot_params kernel initrd_size) linux_layout_bootparam sizeof_boot_params b x
          ∙ ap
              (λ y.
                if in_range linux_layout_bootparam sizeof_boot_params x
                then boot_params kernel initrd_size (x - linux_layout_bootparam)
                else y)
              (memcpy-whole initrd linux_layout_initrd initrd_size a x
                ∙ ap
                    (λ y.
                      if in_range linux_layout_initrd initrd_size x
                      then initrd (x - linux_layout_initrd)
                      else y)
                    (memcpy-whole (literal kernel_cmdline) linux_layout_cmdline
                        (minimum kernel_cmdline_len (cmdline_room kernel))
                        (memset linux_layout_cmdline 0 (cmdline_room kernel) guest_mem) x
                      ∙ ap
                          (λ y.
                            if in_range linux_layout_cmdline
                              (minimum kernel_cmdline_len (cmdline_room kernel)) x
                            then literal kernel_cmdline (x - linux_layout_cmdline)
                            else y)
                          (memset-at linux_layout_cmdline 0 (cmdline_room kernel) guest_mem x))))

load_image_fits :
    (size : ℕ) (image : Bytes) (position n addr : ℕ) (memory : Bytes)
    → addr + n < 2 ^ 64
    → addr + n ≤ size
    → load_image size image position n addr memory ≡ done (memcpy image position addr n memory)
unfolding load_image
load_image_fits size image position n addr memory word fits =
    let e : ltb size (u64 (addr + n)) ≡ false = ground arith in rw e refl

check_initrd_eq :
    (kernel : Bytes) (n : ℕ)
    → check_initrd n (with_map kernel)
      ≡ (if initrd_accepted kernel n then done (boot_params kernel n) else stop panicked)
unfolding check_initrd initrd_accepted
check_initrd_eq kernel n =
    rw (map_initrd_addr_max kernel)
      (elim (Bool-cases (ltb (guest_memory_size - linux_layout_initrd) n)) [
        | inl big ↦
            let off : leb n (guest_memory_size - linux_layout_initrd) ≡ false = ground arith in
            rw (big, off) refl
        | inr small ↦
            let on : leb n (guest_memory_size - linux_layout_initrd) ≡ true = ground arith in
            let word : u64 (linux_layout_initrd + n) ≡ linux_layout_initrd + n = ground arith in
            rw (small, on, word)
              (elim (Bool-cases (leb (linux_layout_initrd + n) (load32 kernel 0x22C))) [
                | inl fits ↦
                    let no : ltb (load32 kernel 0x22C) (linux_layout_initrd + n) ≡ false =
                      ground arith in
                    rw (fits, no) refl
                | inr over ↦
                    let no : ltb (load32 kernel 0x22C) (linux_layout_initrd + n) ≡ true =
                      ground arith in
                    rw (over, no) refl
              ])
      ])

load_code :
    (kernel : Bytes) (kernel_size : ℕ) (memory : Bytes)
    → load_image guest_memory_size kernel
        (code_offset kernel)
        (sub_64 kernel_size (code_offset kernel))
        linux_layout_kernel_base
        memory
      ≡ (if code_accepted kernel kernel_size
          then done (
              memcpy kernel
                (code_offset kernel)
                linux_layout_kernel_base
                (sub_64 kernel_size (code_offset kernel))
                memory)
          else stop panicked)
unfolding load_image code_accepted
load_code kernel kernel_size memory =
    elim (Bool-cases (
      leb (u64 (linux_layout_kernel_base + sub_64 kernel_size (code_offset kernel)))
        guest_memory_size)) [
          | inl fits ↦
              let not_less : ltb guest_memory_size
                    (u64 (linux_layout_kernel_base + sub_64 kernel_size (code_offset kernel)))
                  ≡ false =
                ground arith in
              rw (fits, not_less) refl
          | inr over ↦
              let less : ltb guest_memory_size
                    (u64 (linux_layout_kernel_base + sub_64 kernel_size (code_offset kernel)))
                  ≡ true =
                ground arith in
              rw (over, less) refl
        ]

pub initrd_small :
    (kernel : Bytes) (n : ℕ)
    → initrd_accepted kernel n ≡ true
    → (n ≤ guest_memory_size - linux_layout_initrd)
      × (linux_layout_initrd + n ≤ load32 kernel 0x22C)
unfolding initrd_accepted
initrd_small kernel n ok = (ground arith, ground arith)

load_kernel_eq :
    (kernel : Bytes) (kernel_size : ℕ) (initrd : Bytes) (initrd_size : ℕ) (guest_mem : Bytes)
    → load_kernel kernel kernel_size initrd initrd_size guest_mem ≡ (
        if accepted kernel kernel_size initrd_size
        then done (loaded kernel kernel_size initrd initrd_size guest_mem)
        else stop panicked)
unfolding load_kernel
load_kernel_eq kernel kernel_size initrd initrd_size guest_mem =
    elim (Bool-cases (leb guest_memory_size kernel_size)) [
      | inl big ↦
          let off : ltb kernel_size guest_memory_size ≡ false = ground arith in rw (big, off) refl
      | inr small ↦
          let on : ltb kernel_size guest_memory_size ≡ true = ground arith in
          rw
            (
              small,
              on,
              add_first kernel,
              add_second kernel,
              map_cmdline_size kernel,
              check_initrd_eq kernel initrd_size,
            )
            (elim (Bool-cases (initrd_accepted kernel initrd_size)) [
              | inl ok ↦
                  let (small_initrd, _) = initrd_small kernel initrd_size ok in
                  rw
                    (
                      ok,
                      load_image_fits guest_memory_size initrd 0 initrd_size linux_layout_initrd
                          (load_cmdline (cmdline_room kernel) guest_mem) (omega arith)
                          (omega arith),
                      load_image_fits guest_memory_size (boot_params kernel initrd_size) 0
                          sizeof_boot_params linux_layout_bootparam
                          (memcpy initrd 0 linux_layout_initrd initrd_size
                            (load_cmdline (cmdline_room kernel) guest_mem))
                          (omega arith) (omega arith),
                      map_setup_sects kernel initrd_size,
                    )
                    (unfold loaded in load_code kernel kernel_size _)
              | inr refused ↦ rw refused refl
            ])
    ]

-- For all images and sizes `load_kernel` returns if the sizes are accepted, and panics otherwise.
-- What it returns is the memory that `layout` describes: the kernel's code at 1 MiB, the boot
-- parameters, the initial RAM disk, the command line with zeros behind it, each where nothing
-- before it in this list stands, and else the bytes that were there. The size of the code is the
-- difference of the image's size and the code's offset, as a 64-bit word.
pub load_kernel_lem :
    (kernel : Bytes) (kernel_size : ℕ) (initrd : Bytes) (initrd_size : ℕ) (guest_mem : Bytes)
    → (m' : Bytes) × (load_kernel kernel kernel_size initrd initrd_size guest_mem
        ≡ (if accepted kernel kernel_size initrd_size then done m' else stop panicked))
      × ((x : ℕ) → m' x ≡ layout kernel kernel_size initrd initrd_size guest_mem x)
load_kernel_lem kernel kernel_size initrd initrd_size guest_mem = (
  loaded kernel kernel_size initrd initrd_size guest_mem,
  load_kernel_eq kernel kernel_size initrd initrd_size guest_mem,
  loaded-layout kernel kernel_size initrd initrd_size guest_mem,
)
