-- ===== src/Mem.antt =====
-- ymirc/mem.h and ymirc/mem.c: page sizes, and the two address maps. The global
-- `mapping_reconstructed` is an argument of the functions that read it.
pub mod RoundTrip
pub mod Bytes
use ymirc.Prelude.{ℕ, ◌+◌, ◌*◌, ◌^◌, Bool, true, false, ltb, if◌then◌else◌, u64, sub_64}

abbrev pub page_size : ℕ
page_size = 4096

abbrev pub page_size_2mb : ℕ
page_size_2mb = page_size * 2 ^ 9

abbrev pub page_mask : ℕ
page_mask = 4095

abbrev pub direct_map_base : ℕ
direct_map_base = 0xFFFF888000000000

abbrev pub direct_map_size : ℕ
direct_map_size = 512 * 1024 * 1024 * 1024

abbrev pub kernel_base : ℕ
kernel_base = 0xFFFFFFFF80000000

-- Before the mapping is rebuilt the table of the firmware maps every address to itself.
unfoldable pub virt2phys : Bool → ℕ → ℕ
virt2phys false addr = addr
virt2phys true addr =
    if ltb addr kernel_base then sub_64 addr direct_map_base else sub_64 addr kernel_base

unfoldable pub phys2virt : Bool → ℕ → ℕ
phys2virt false addr = addr
phys2virt true addr = u64 (addr + direct_map_base)
