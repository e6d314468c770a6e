-- ===== src/Loader/Tables.antt =====
-- surtrc/arch/x86/page.c: the page tables of the loader. They stand in memory as those of Npt do, at
-- their physical addresses, which the firmware maps to themselves. Of the firmware's boot services
-- `AllocatePages` is a parameter, and CR3 an argument; `exit` after an error ends with `panicked`.
pub mod Mapping
pub mod Linked
pub mod Mapped
pub mod Translation
pub mod Region
pub mod Filling
pub mod Offsets
pub mod Round
pub mod Image
pub mod Protect
pub mod Attributes
pub mod Loaded
use ymirc.Prelude.{
  ℕ, zero, suc, ◌+◌, ◌*◌, u64, ◌^◌, ◌==◌, Bool, not, if◌then◌else◌, bit_and, bit_or, not_64, shr,
  Option, none, some, panicked, undefined, ltb, Outcome, done, stop, ◌>>=◌,
}
use ymirc.Npt.{
  TableLevel, level4, level3, level2, level1, shift_of, index_mask, phys_mask, entry_at, Memory,
  write, with_words, clear_entries,
}
use ymirc.Pages.{copy_entries}
use ymirc.Loader.{PageAttribute, read_only, read_write, executable}

-- The first page of what `AllocatePages` gives for one page; `none` is a status of failure.
abbrev pub Firmware : Type 0 → Type 0
Firmware S = S → Option (ℕ × S)

unfoldable pub allocate_pages : {S : Type 0} → Firmware S → Memory S → Outcome (ℕ × Memory S)
allocate_pages fw m = elim (fw m.pages) [
  | none ↦ stop panicked
  | some (addr, s') ↦ done (addr, record m { pages = s' })
]

unfoldable pub allocate_lower : {S : Type 0} → Firmware S → Memory S → Outcome (ℕ × Memory S)
allocate_lower fw m = do
  (table_addr, m') ← allocate_pages fw m
  done (table_addr, with_words (clear_entries 512 table_addr m'.words) m')

-- `IS_BIT_SET(value, ENTRY_PRESENT)`
abbrev pub present_bit : ℕ → Bool
present_bit value = not (bit_and value 1 == 0)

-- The assignments to an entry that `initialize_table_reference_entry` and
-- `initialize_page_reference_entry` make.
unfoldable pub table_value : ℕ → ℕ → ℕ
table_value value lower =
    bit_or (bit_and (bit_and (bit_or (bit_or value 1) 2) (not_64 4)) (not_64 0x80))
      (bit_and lower phys_mask)

unfoldable pub page_value : ℕ → ℕ → ℕ
page_value value phys =
    bit_or (bit_or (bit_and (bit_or (bit_or value 1) 2) (not_64 4)) 0x80) (bit_and phys phys_mask)

unfoldable pub link_lower : {S : Type 0} → Firmware S → ℕ → Memory S → Outcome (Memory S)
link_lower fw entry m = do
  (lower, m') ← allocate_lower fw m
  done (with_words (write entry (table_value (m'.words entry) lower) m'.words) m')

unfoldable pub link_page : {S : Type 0} → ℕ → ℕ → Memory S → Memory S
link_page entry phys m = with_words (write entry (page_value (m.words entry) phys) m.words) m

unfoldable pub get_entry_at : ℕ → ℕ → TableLevel → ℕ
get_entry_at virt table_addr level =
    entry_at table_addr (bit_and (shr virt (shift_of level)) index_mask)

-- The test of an entry on the way down.
unfoldable pub descend : {S : Type 0} → Firmware S → ℕ → Memory S → Outcome (Memory S)
descend fw entry m = if present_bit (m.words entry) then done m else link_lower fw entry m

-- The last part of `map_4k_to`.
unfoldable pub map_last : {S : Type 0} → ℕ → ℕ → Memory S → Outcome (Memory S)
map_last lv1ent phys m =
    if present_bit (m.words lv1ent) then stop panicked else done (link_page lv1ent phys m)

unfoldable pub map_4k_to : {S : Type 0} → Firmware S → ℕ → ℕ → ℕ → Memory S → Outcome (Memory S)
map_4k_to fw cr3 virt phys m = do
  let lv4ent = get_entry_at virt cr3 level4
  m₁ ← descend fw lv4ent m
  let lv3ent = get_entry_at virt (bit_and (m₁.words lv4ent) phys_mask) level3
  m₂ ← descend fw lv3ent m₁
  let lv2ent = get_entry_at virt (bit_and (m₂.words lv3ent) phys_mask) level2
  m₃ ← descend fw lv2ent m₂
  let lv1ent = get_entry_at virt (bit_and (m₃.words lv2ent) phys_mask) level1
  map_last lv1ent phys m₃

-- The new CR3 and memory.
unfoldable pub set_lv4table_writable :
    {S : Type 0} → Firmware S → ℕ → Memory S → Outcome (ℕ × Memory S)
set_lv4table_writable fw cr3 m = do
  (lv4table_addr, m') ← allocate_pages fw m
  done (lv4table_addr, with_words (copy_entries 512 cr3 lv4table_addr m'.words) m')

-- The assignments to the entry, by attribute; XD is bit 63.
unfoldable pub attribute_value : PageAttribute → ℕ → ℕ
attribute_value read_only value = bit_or (bit_and value (not_64 2)) (2 ^ 63)
attribute_value read_write value = bit_or (bit_or value 2) (2 ^ 63)
attribute_value executable value = bit_and (bit_and value (not_64 2)) (not_64 (2 ^ 63))

unfoldable pub change_map_4k : {S : Type 0} → ℕ → ℕ → PageAttribute → Memory S → Memory S
change_map_4k cr3 virt attr m =
    let lv4ent = get_entry_at virt cr3 level4 in
    let lv3ent = get_entry_at virt (bit_and (m.words lv4ent) phys_mask) level3 in
    let lv2ent = get_entry_at virt (bit_and (m.words lv3ent) phys_mask) level2 in
    let lv1ent = get_entry_at virt (bit_and (m.words lv2ent) phys_mask) level1 in
    with_words (write lv1ent (attribute_value attr (m.words lv1ent)) m.words) m

-- The loop of boot.c that maps the image of the kernel, from page `i` on. The offset is a product of
-- type `int`, which overflows from 2^31 on.
unfoldable pub map_image :
    {S : Type 0} → Firmware S → ℕ → ℕ → ℕ → ℕ → ℕ → Memory S → Outcome (Memory S)
map_image fw cr3 start_virt start_phys zero i m = done m
map_image fw cr3 start_virt start_phys (suc left) i m = do
  m' ←
      if ltb (i * 4096) (2 ^ 31)
      then map_4k_to fw cr3 (u64 (start_virt + i * 4096)) (u64 (start_phys + i * 4096)) m
      else stop undefined
  map_image fw cr3 start_virt start_phys left (i + 1) m'
