-- ===== src/Linux.antt =====
-- ymirc/linux.h: the boot protocol of Linux. The packed structures are bytes, and a field is an
-- offset into them.
use ymirc.Prelude.{ℕ, ◌+◌, ◌*◌, ◌%◌, ◌==◌, leb, if◌then◌else◌, Outcome, done, stop, undefined}
use ymirc.Mem.Bytes.{Bytes, put, memcpy, store32, store64}

abbrev pub linux_layout_bootparam : ℕ
linux_layout_bootparam = 0x00010000

abbrev pub linux_layout_cmdline : ℕ
linux_layout_cmdline = 0x00020000

abbrev pub linux_layout_kernel_base : ℕ
linux_layout_kernel_base = 0x00100000

abbrev pub linux_layout_initrd : ℕ
linux_layout_initrd = 0x06000000

abbrev pub setup_header_offset : ℕ
setup_header_offset = 0x1F1

abbrev pub e820max : ℕ
e820max = 128

-- The bits of `LoadflagBitfield`, the lowest first.
abbrev pub loaded_high : ℕ
loaded_high = 0

abbrev pub keep_segments : ℕ
keep_segments = 6

abbrev pub can_use_heap : ℕ
can_use_heap = 7

-- The fields of `SetupHeader` that are used, and its size.
pub data HeaderField : Type 0 where
  setup_sects vid_mode type_of_loader loadflags ramdisk_image ramdisk_size heap_end_ptr :
      HeaderField
  ext_loader_ver cmd_line_ptr initrd_addr_max cmdline_size : HeaderField

abbrev pub header_offset : HeaderField → ℕ
header_offset setup_sects = 0
header_offset vid_mode = 0x9
header_offset type_of_loader = 0x1F
header_offset loadflags = 0x20
header_offset ramdisk_image = 0x27
header_offset ramdisk_size = 0x2B
header_offset heap_end_ptr = 0x33
header_offset ext_loader_ver = 0x35
header_offset cmd_line_ptr = 0x37
header_offset initrd_addr_max = 0x3B
header_offset cmdline_size = 0x47

abbrev pub sizeof_setup_header : ℕ
sizeof_setup_header = 0x7B

-- `setupheader_from_bzimage`, on a header that is bytes of its own.
unfoldable pub setupheader_from_bzimage : Bytes → Bytes → Bytes
setupheader_from_bzimage bytes hdr =
    let hdr' = memcpy bytes setup_header_offset 0 sizeof_setup_header hdr in
    if hdr' (header_offset setup_sects) == 0 then put (header_offset setup_sects) 4 hdr' else hdr'

-- A field of the header in `BootParams`, and its other fields.
abbrev pub hdr : HeaderField → ℕ
hdr field = setup_header_offset + header_offset field

abbrev pub e820_entries : ℕ
e820_entries = 0x1E8

abbrev pub e820_map : ℕ
e820_map = 0x2D0

abbrev pub sizeof_boot_params : ℕ
sizeof_boot_params = 0x1000

abbrev pub sizeof_e820_entry : ℕ
sizeof_e820_entry = 0x14

unfoldable pub protected_code_offset : Bytes → ℕ
protected_code_offset bp = (bp (hdr setup_sects) + 1) * 512

pub data E820Type : Type 0 where
  ram reserved acpi nvs unusable : E820Type

abbrev pub e820_code : E820Type → ℕ
e820_code ram = 1
e820_code reserved = 2
e820_code acpi = 3
e820_code nvs = 4
e820_code unusable = 5

unfoldable pub bootparams_from_bzimage : Bytes → Bytes → Bytes
bootparams_from_bzimage bytes bp = memcpy bytes 0 0 sizeof_boot_params bp

-- The address of an entry of the map.
abbrev pub e820_entry : ℕ → ℕ
e820_entry i = e820_map + i * sizeof_e820_entry

unfoldable pub bootparams_add_e820_entry : ℕ → ℕ → E820Type → Bytes → Outcome Bytes
bootparams_add_e820_entry addr size type bp =
    let i = bp e820_entries in
    let bp' =
      store32 (e820_entry i + 16) (e820_code type)
        (store64 (e820_entry i + 8) size (store64 (e820_entry i) addr bp)) in
    if leb e820max i then stop undefined else done (put e820_entries ((i + 1) % 256) bp')
