-- ===== src/Vm/Whole.antt =====
-- `load_kernel` of an image that holds its setup sectors, region by region.
use ymirc.Prelude.{
  ℕ, ◌+◌, ◌-◌, ◌*◌, ◌%◌, ◌^◌, ◌≤◌, ◌<◌, ◌≡◌, ◌⊎◌, inl, inr, refl, ap, ◌∙◌, arith, true, false,
  Bool-cases, ltb, leb, if◌then◌else◌, u64, sub_64, bit_or, done, stop, panicked,
}
use ymirc.Bits.{tobit}
use ymirc.Mem.Bytes.{Bytes, in_range, load16, load32}
use ymirc.Vm.{guest_memory_size, kernel_cmdline, literal, load_kernel, header_fields}
use ymirc.Vm.Loading.{
  code_offset, cmdline_room, initrd_accepted, code_accepted, accepted, layout, boot_params,
  initrd_small, load_kernel_lem, image_byte,
}
use ymirc.Vm.Layout.{boot_params-fields, room-le}

-- The image has at least one setup sector by its header, holds them all, and its code ends before the
-- place of the initial RAM disk.
pub record IsWhole (kernel : Bytes) (kernel_size : ℕ) : Type 0 where
  pub sectors : 0 < kernel 0x1F1
  pub setup : (kernel 0x1F1 + 1) * 512 ≤ kernel_size
  pub below_disk : kernel_size ≤ (kernel 0x1F1 + 1) * 512 + (0x06000000 - 0x00100000)

-- The boot parameters in the guest's memory `m`, by their addresses there: the type of the loader, the
-- flags, the end of the heap, the addresses of the command line and of the disk, the disk's size,
-- the video mode, and the two entries of the memory map (of 64-bit numbers the low halves).
pub record HasParams (kernel : Bytes) (initrd_size : ℕ) (m : Bytes) : Type 0 where
  pub loader : m 0x10210 ≡ 0xFF
  pub flags : m 0x10211 ≡ bit_or (bit_or (bit_or (kernel 0x211) 1) 0x80) 0x40
  pub heap : load16 m 0x10224 ≡ 0xFE00
  pub cmdline : load32 m 0x10228 ≡ 0x20000
  pub disk : load32 m 0x10218 ≡ 0x06000000
  pub disk_size : load32 m 0x1021C ≡ initrd_size % 2 ^ 32
  pub video : load16 m 0x101FA ≡ 0xFFFF
  pub entries : m 0x101E8 ≡ 2
  pub low_start : load32 m 0x102D0 ≡ 0
  pub low_size : load32 m 0x102D8 ≡ 0x100000
  pub low_type : load32 m 0x102E0 ≡ 1
  pub high_start : load32 m 0x102E4 ≡ 0x100000
  pub high_size : load32 m 0x102EC ≡ 0x06300000
  pub high_type : load32 m 0x102F4 ≡ 1

-- The guest's memory `m'` with the images, over what was in `m`.
pub record IsLoaded (kernel : Bytes) (kernel_size : ℕ) (initrd : Bytes) (initrd_size : ℕ)
    (m m' : Bytes) : Type 0 where
  pub code :
      (i : ℕ)
      → i < kernel_size - (kernel 0x1F1 + 1) * 512
      → m' (0x00100000 + i) ≡ kernel ((kernel 0x1F1 + 1) * 512 + i)
  pub disk : (i : ℕ) → i < initrd_size → m' (0x06000000 + i) ≡ initrd i
  pub params : HasParams kernel initrd_size m'
  pub cmdline :
      (i : ℕ)
      → i < cmdline_room kernel
      → m' (0x00020000 + i) ≡ (if ltb i 40 then literal kernel_cmdline i else 0)
  pub other :
      (x : ℕ)
      → in_range 0x00100000 (kernel_size - (kernel 0x1F1 + 1) * 512) x ≡ false
      → in_range 0x06000000 initrd_size x ≡ false
      → in_range 0x00010000 4096 x ≡ false
      → in_range 0x00020000 (cmdline_room kernel) x ≡ false
      → m' x ≡ m x

module _ (kernel : Bytes) (kernel_size : ℕ) (initrd : Bytes) (initrd_size : ℕ) (m : Bytes)
    (whole : IsWhole kernel kernel_size) (word : kernel_size < guest_memory_size) where
  abbrev laid : Bytes
  laid = layout kernel kernel_size initrd initrd_size m

  abbrev size : ℕ
  size = kernel_size - (kernel 0x1F1 + 1) * 512

  size_of : sub_64 kernel_size (code_offset kernel) ≡ size
  size_of = omega (arith, whole.setup)

  laid_code : (i : ℕ) → i < size → laid (0x00100000 + i) ≡ kernel ((kernel 0x1F1 + 1) * 512 + i)
  laid_code i h =
      let on : in_range 0x00100000 size (0x00100000 + i) ≡ true = ground arith in
      let at : 0x00100000 + i - 0x00100000 ≡ i = omega arith in rw (size_of, on, at) refl

  laid_disk : (i : ℕ) → i < initrd_size → laid (0x06000000 + i) ≡ initrd i
  laid_disk i h =
      let off : in_range 0x00100000 size (0x06000000 + i) ≡ false =
        ground (arith, whole.below_disk) in
      let off' : in_range 0x00010000 4096 (0x06000000 + i) ≡ false = ground arith in
      let on : in_range 0x06000000 initrd_size (0x06000000 + i) ≡ true = ground arith in
      let at : 0x06000000 + i - 0x06000000 ≡ i = omega arith in rw (size_of, off, off', on, at) refl

  laid_param : (i : ℕ) → i < 4096 → laid (0x00010000 + i) ≡ boot_params kernel initrd_size i
  laid_param i h =
      let off : in_range 0x00100000 size (0x00010000 + i) ≡ false = ground arith in
      let on : in_range 0x00010000 4096 (0x00010000 + i) ≡ true = ground arith in
      let at : 0x00010000 + i - 0x00010000 ≡ i = omega arith in rw (size_of, off, on, at) refl

  laid_other :
      (x : ℕ)
      → in_range 0x00100000 size x ≡ false
      → in_range 0x06000000 initrd_size x ≡ false
      → in_range 0x00010000 4096 x ≡ false
      → in_range 0x00020000 (cmdline_room kernel) x ≡ false
      → laid x ≡ m x
  laid_other x a b c d =
      let e : in_range 0x00020000 (if ltb 40 (cmdline_room kernel) then 40 else cmdline_room kernel)
            x
          ≡ false =
        ground (arith, d) in
      rw (size_of, a, c, b, e, d) refl

  laid_cmdline :
      (i : ℕ)
      → i < cmdline_room kernel
      → laid (0x00020000 + i) ≡ (if ltb i 40 then literal kernel_cmdline i else 0)
  laid_cmdline i h =
      let room = room-le kernel in
      let a : in_range 0x00100000 size (0x00020000 + i) ≡ false = ground (arith, room) in
      let b : in_range 0x06000000 initrd_size (0x00020000 + i) ≡ false = ground (arith, room) in
      let c : in_range 0x00010000 4096 (0x00020000 + i) ≡ false = ground arith in
      let d : in_range 0x00020000 (cmdline_room kernel) (0x00020000 + i) ≡ true = ground arith in
      let e : in_range 0x00020000 (if ltb 40 (cmdline_room kernel) then 40 else cmdline_room kernel)
            (0x00020000 + i)
          ≡ ltb i 40 =
        ground arith in
      let at : 0x00020000 + i - 0x00020000 ≡ i = omega arith in rw (size_of, a, c, b, e, d, at) refl

  module _ (m' : Bytes) (at : (x : ℕ) → m' x ≡ laid x) where
    at_param : (i : ℕ) → i < 4096 → m' (0x00010000 + i) ≡ boot_params kernel initrd_size i
    at_param i h = at (0x00010000 + i) ∙ laid_param i h

    at_param16 :
        (i : ℕ) → i < 4095 → load16 m' (0x00010000 + i) ≡ load16 (boot_params kernel initrd_size) i
    at_param16 i h =
        let next : m' (0x00010000 + i + 1) ≡ boot_params kernel initrd_size (i + 1) =
          ap m' (omega arith) ∙ at_param (i + 1) (omega arith) in
        ap (λ a. a + m' (0x00010000 + i + 1) * 2 ^ 8) (at_param i (omega arith))
        ∙ ap (λ b. boot_params kernel initrd_size i + b * 2 ^ 8) next

    at_param32 :
        (i : ℕ) → i < 4093 → load32 m' (0x00010000 + i) ≡ load32 (boot_params kernel initrd_size) i
    at_param32 i h =
        let next : load16 m' (0x00010000 + i + 2)
            ≡ load16 (boot_params kernel initrd_size) (i + 2) =
          ap (load16 m') (omega arith) ∙ at_param16 (i + 2) (omega arith) in
        ap (λ a. a + load16 m' (0x00010000 + i + 2) * 2 ^ 16) (at_param16 i (omega arith))
        ∙ ap (λ b. load16 (boot_params kernel initrd_size) i + b * 2 ^ 16) next

    flags_of :
        boot_params kernel initrd_size 0x211 ≡ bit_or (bit_or (bit_or (kernel 0x211) 1) 0x80) 0x40
    unfolding header_fields tobit
    flags_of =
        ap (λ v. bit_or (bit_or (bit_or v 1) 0x80) 0x40) (image_byte kernel 0x211 (omega arith))

    types_of :
        (load32 (boot_params kernel initrd_size) 0x2E0 ≡ 1)
        × (load32 (boot_params kernel initrd_size) 0x2F4 ≡ 1)
    unfolding header_fields
    types_of = (refl, refl)

    laid-HasParams : HasParams kernel initrd_size m'
    laid-HasParams =
        let (loader, cmdline, disk, disk_size, heap, video, entries, s, n, s', n') =
          boot_params-fields kernel initrd_size in
        record {
          loader = at_param 0x210 (omega arith) ∙ loader;
          flags = at_param 0x211 (omega arith) ∙ flags_of;
          heap = at_param16 0x224 (omega arith) ∙ heap;
          cmdline = at_param32 0x228 (omega arith) ∙ cmdline;
          disk = at_param32 0x218 (omega arith) ∙ disk;
          disk_size = at_param32 0x21C (omega arith) ∙ disk_size;
          video = at_param16 0x1FA (omega arith) ∙ video;
          entries = at_param 0x1E8 (omega arith) ∙ entries;
          low_start = at_param32 0x2D0 (omega arith) ∙ s;
          low_size = at_param32 0x2D8 (omega arith) ∙ n;
          low_type = at_param32 0x2E0 (omega arith) ∙ types_of.0;
          high_start = at_param32 0x2E4 (omega arith) ∙ s';
          high_size = at_param32 0x2EC (omega arith) ∙ n';
          high_type = at_param32 0x2F4 (omega arith) ∙ types_of.1;
        }

    laid-IsLoaded : IsLoaded kernel kernel_size initrd initrd_size m m'
    laid-IsLoaded = record {
      code = λ i h. at (0x00100000 + i) ∙ laid_code i h;
      disk = λ i h. at (0x06000000 + i) ∙ laid_disk i h;
      params = laid-HasParams;
      cmdline = λ i h. at (0x00020000 + i) ∙ laid_cmdline i h;
      other = λ x a b c d. at x ∙ laid_other x a b c d;
    }

  whole_accepted : accepted kernel kernel_size initrd_size ≡ initrd_accepted kernel initrd_size
  unfolding code_accepted
  whole_accepted =
      let on : ltb kernel_size guest_memory_size ≡ true = ground arith in
      let fits : u64 (0x00100000 + size) ≤ guest_memory_size = omega (arith, whole.below_disk) in
      let code : leb (u64 (0x00100000 + size)) guest_memory_size ≡ true = ground arith in
      rw (on, size_of, code) (ground arith)

pub load_kernel-IsLoaded :
    (kernel : Bytes) (kernel_size : ℕ) (initrd : Bytes) (initrd_size : ℕ) (m : Bytes)
    → IsWhole kernel kernel_size
    → ((kernel_size < 100 * 2 ^ 20)
        × (0x06000000 + initrd_size ≤ 100 * 2 ^ 20)
        × (0x06000000 + initrd_size ≤ load32 kernel 0x22C)
        × ((m' : Bytes) × (load_kernel kernel kernel_size initrd initrd_size m ≡ done m')
            × IsLoaded kernel kernel_size initrd initrd_size m m'))
      ⊎ (((100 * 2 ^ 20 ≤ kernel_size)
            ⊎ ((100 * 2 ^ 20 < 0x06000000 + initrd_size)
                ⊎ (load32 kernel 0x22C < 0x06000000 + initrd_size)))
          × (load_kernel kernel kernel_size initrd initrd_size m ≡ stop panicked))
unfolding initrd_accepted
load_kernel-IsLoaded kernel kernel_size initrd initrd_size m whole =
    let (m', e, at) = load_kernel_lem kernel kernel_size initrd initrd_size m in
    elim (Bool-cases (ltb kernel_size guest_memory_size)) [
      | inr big ↦ inr (inl (ground arith), e ∙ rw big refl)
      | inl word ↦
          let less : kernel_size < guest_memory_size = ground arith in
          let same = whole_accepted kernel kernel_size initrd initrd_size m whole less in
          elim (Bool-cases (initrd_accepted kernel initrd_size)) [
            | inl ok ↦
                let (fits, allowed) = initrd_small kernel initrd_size ok in
                inl (
                  less,
                  omega arith,
                  allowed,
                  (
                    m',
                    e ∙ ap (λ b. if b then done m' else stop panicked) (same ∙ ok),
                    laid-IsLoaded kernel kernel_size initrd initrd_size m whole less m' at,
                  ),
                )
            | inr refused ↦ inr (
              inr (elim (Bool-cases (ltb (100 * 2 ^ 20) (0x06000000 + initrd_size))) [
                | inl far ↦ inl (ground arith)
                | inr near ↦ inr (ground (arith, refused, near))
              ]),
              e ∙ ap (λ b. if b then done m' else stop panicked) (same ∙ refused),
            )
          ]
    ]
