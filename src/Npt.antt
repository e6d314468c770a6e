-- ===== src/Npt.antt =====
-- ymirc/arch/x86/svm_npt.c: the nested page tables, which map the guest's physical memory to the
-- host's. Tables stand in memory, a function from the address of a 64-bit word to its value. The
-- page allocator that `init_npt` is given is the parameter `TableSource`.
pub mod Entries
pub mod Words
pub mod Walk
pub mod Tree
pub mod Grow
pub mod Ensure
pub mod Mapping
pub mod Step
pub mod Range
pub mod Translation
pub mod Init
pub mod Backed
use ymirc.Prelude.{
  ℕ, zero, suc, ◌+◌, ◌-◌, ◌*◌, ◌/◌, ◌%◌, ◌^◌, ◌==◌, Bool, if◌then◌else◌, bit_and, u64, shr, shl,
}
use ymirc.Prelude.{
  List, [], ◌∷◌, Option, none, some, Stop, panicked, undefined, Outcome, done, stop, ◌>>=◌,
}
use ymirc.Bits.{tobit, isset, set_fields}
use ymirc.Mem.{page_size, page_size_2mb, virt2phys, phys2virt}

abbrev pub lv4_shift : ℕ
lv4_shift = 39

abbrev pub lv3_shift : ℕ
lv3_shift = 30

abbrev pub lv2_shift : ℕ
lv2_shift = 21

abbrev pub lv1_shift : ℕ
lv1_shift = 12

abbrev pub index_mask : ℕ
index_mask = 0x1FF

abbrev pub num_table_entries : ℕ
num_table_entries = 512

pub data TableLevel : Type 0 where
  level4 level3 level2 level1 : TableLevel

abbrev pub entry_present : ℕ
entry_present = 0

abbrev pub entry_rw : ℕ
entry_rw = 1

abbrev pub entry_us : ℕ
entry_us = 2

abbrev pub entry_ps : ℕ
entry_ps = 7

abbrev pub entry_phys : ℕ
entry_phys = 12

-- `MASK(51) << ENTRY_PHYS`
abbrev pub phys_mask : ℕ
phys_mask = (2 ^ 51 - 1) * 2 ^ 12

-- Of `page_allocator_ops_t` the function that is called.
pub record TableSource (S : Type 0) : Type 0 where
  pub alloc_aligned_pages : ℕ → ℕ → S → Outcome (ℕ × S)

-- Words by address, and the page allocator's state.
pub record Memory (S : Type 0) : Type 0 where
  pub words : ℕ → ℕ
  pub pages : S

abbrev pub write : ℕ → ℕ → (ℕ → ℕ) → ℕ → ℕ
write a v words x = if x == a then v else words x

abbrev pub with_words : {S : Type 0} → (ℕ → ℕ) → Memory S → Memory S
with_words w m = record m { words = w }

-- The loop of `allocate_table` from the entry at `address` on.
unfoldable pub clear_entries : ℕ → ℕ → (ℕ → ℕ) → ℕ → ℕ
clear_entries zero address words = words
clear_entries (suc left) address words = clear_entries left (address + 8) (write address 0 words)

unfoldable pub allocate_table : {S : Type 0} → TableSource S → Memory S → Outcome (ℕ × Memory S)
allocate_table pa m = do
  (table_addr, pages') ← pa.alloc_aligned_pages 1 page_size m.pages
  let m' = record m {
    words = clear_entries num_table_entries table_addr m.words;
    pages = pages';
  } in
      if table_addr == 0 then stop panicked else done (table_addr, m')

-- Calls of `set_masked_bits` on the entry at an address.
unfoldable pub store_fields : {S : Type 0} → ℕ → List (ℕ × ℕ) → Memory S → Outcome (Memory S)
store_fields entry fields m = elim (set_fields fields (m.words entry)) [
  | some v ↦ done (with_words (write entry v m.words) m)
  | none ↦ stop undefined
]

-- The fields of an entry for a table, or for a page where `ps` is 1, at a physical address.
abbrev pub entry_fields : ℕ → ℕ → List (ℕ × ℕ)
entry_fields ps phys =
    (1, tobit entry_present)
    ∷ (1, tobit entry_rw)
    ∷ (1, tobit entry_us)
    ∷ (ps, tobit entry_ps)
    ∷ (shr phys entry_phys, phys_mask)
    ∷ []

unfoldable pub initialize_table_reference_entry :
    {S : Type 0} → Bool → TableSource S → ℕ → Memory S → Outcome (Memory S)
initialize_table_reference_entry mapped pa entry m = do
  (lowertbl, m') ← allocate_table pa m
  store_fields entry (entry_fields 0 (virt2phys mapped lowertbl)) m'

unfoldable pub initialize_page_reference_entry :
    {S : Type 0} → ℕ → ℕ → Memory S → Outcome (Memory S)
initialize_page_reference_entry entry phys m = store_fields entry (entry_fields 1 phys) m

abbrev pub shift_of : TableLevel → ℕ
shift_of level4 = lv4_shift
shift_of level3 = lv3_shift
shift_of level2 = lv2_shift
shift_of level1 = lv1_shift

-- The sum of a pointer to `Entry` and an index.
abbrev pub entry_at : ℕ → ℕ → ℕ
entry_at table index = u64 (table + index * 8)

unfoldable pub get_entry_address : Bool → ℕ → ℕ → TableLevel → ℕ
get_entry_address mapped gpa tbl_paddr level =
    entry_at (phys2virt mapped tbl_paddr) (bit_and (shr gpa (shift_of level)) index_mask)

-- `if (!isset(entry->value, ENTRY_PRESENT)) initialize_table_reference_entry(entry);`
unfoldable pub ensure_table :
    {S : Type 0} → Bool → TableSource S → ℕ → Memory S → Outcome (Memory S)
ensure_table mapped pa entry m =
    if isset (m.words entry) entry_present
    then done m
    else initialize_table_reference_entry mapped pa entry m

-- The last part of `map2m`: the page's own entry.
unfoldable pub map_page : {S : Type 0} → ℕ → ℕ → Memory S → Outcome (Memory S)
map_page entry hpa m =
    if isset (m.words entry) entry_present
    then stop panicked
    else initialize_page_reference_entry entry hpa m

unfoldable pub map2m :
    {S : Type 0} → Bool → TableSource S → ℕ → ℕ → ℕ → Memory S → Outcome (Memory S)
map2m mapped pa gpa hpa lv4tbl m = do
  let lv4ent = entry_at lv4tbl (bit_and (shr gpa lv4_shift) index_mask)
  m₁ ← ensure_table mapped pa lv4ent m
  let lv3ent = get_entry_address mapped gpa (bit_and (m₁.words lv4ent) phys_mask) level3
  m₂ ← ensure_table mapped pa lv3ent m₁
  let lv2ent = get_entry_address mapped gpa (bit_and (m₂.words lv3ent) phys_mask) level2
  map_page lv2ent hpa m₂

-- The loop of `init_npt` at round `i` with `left` rounds to go.
unfoldable pub map_range :
    {S : Type 0} → Bool → TableSource S → ℕ → ℕ → ℕ → ℕ → ℕ → Memory S → Outcome (Memory S)
map_range mapped pa guest_start host_start lv4tbl zero i m = done m
map_range mapped pa guest_start host_start lv4tbl (suc left) i m = do
  m' ←
      map2m mapped pa (u64 (guest_start + page_size_2mb * i)) (u64 (host_start + page_size_2mb * i))
        lv4tbl m
  map_range mapped pa guest_start host_start lv4tbl left (i + 1) m'

unfoldable pub init_npt :
    {S : Type 0} → Bool → TableSource S → ℕ → ℕ → ℕ → Memory S → Outcome (ℕ × Memory S)
init_npt mapped pa guest_start host_start size m = do
  (lv4tbl, m₁) ← allocate_table pa m
  m₂ ← map_range mapped pa guest_start host_start lv4tbl (size / page_size_2mb) 0 m₁
  done (virt2phys mapped lv4tbl, m₂)
