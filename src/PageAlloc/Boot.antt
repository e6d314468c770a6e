-- ===== src/PageAlloc/Boot.antt =====
-- `page_allocator_init`: the memory map of the firmware becomes the bitmap.
pub mod Steps
pub mod Sorted
pub mod Loop
use ymirc.Prelude.{
  ℕ, ◌+◌, ◌-◌, ◌*◌, ◌/◌, ◌%◌, ◌^◌, ltb, leb, Bool, true, false, if◌then◌else◌, List, [], ◌∷◌, u64,
  sub_64, Outcome, done, stop, ◌>>=◌,
}
use ymirc.Mem.{page_size}
use ymirc.PageAlloc.{
  PageAllocator, max_physical_size, mark_uefi_reserved, mark_not_used, phys2frame,
}

-- The types of memory that `is_usable_memory` tells apart.
pub data MemoryType : Type 0 where
  conventional_memory boot_services_code other_memory : MemoryType

-- `EFI_MEMORY_DESCRIPTOR`, as far as it is read.
pub record MemoryDescriptor : Type 0 where
  pub memory_type : MemoryType
  pub physical_start : ℕ
  pub number_of_pages : ℕ

abbrev pub usable_type : MemoryType → Bool
usable_type conventional_memory = true
usable_type boot_services_code = true
usable_type other_memory = false

abbrev pub is_usable_memory : MemoryDescriptor → Bool
is_usable_memory desc = usable_type desc.memory_type

-- Marking the hole below a descriptor, and whether the loop ends there.
unfoldable pub mark_hole : ℕ → MemoryDescriptor → PageAllocator → Outcome (Bool × PageAllocator)
mark_hole phys_end desc pa =
    if ltb phys_end desc.physical_start
    then if leb max_physical_size desc.physical_start
      then (do
        pa' ←
            mark_uefi_reserved pa (phys2frame phys_end) ((max_physical_size - phys_end) / page_size)
        done (true, pa'))
      else (do
        pa' ←
            mark_uefi_reserved pa (phys2frame phys_end)
              ((desc.physical_start - phys_end) / page_size)
        done (false, pa'))
    else done (false, pa)

abbrev pub end_of : MemoryDescriptor → ℕ
end_of desc = u64 (desc.physical_start + u64 (desc.number_of_pages * page_size))

-- Marking what the descriptor describes, and whether the loop ends there.
unfoldable pub mark_region : MemoryDescriptor → PageAllocator → Outcome (Bool × PageAllocator)
mark_region desc pa =
    if leb max_physical_size (end_of desc)
    then (do
      pa' ←
          mark_uefi_reserved pa (phys2frame desc.physical_start)
            (sub_64 max_physical_size desc.physical_start / page_size)
      done (true, pa'))
    else if is_usable_memory desc
    then (do
      pa' ← mark_not_used pa (phys2frame desc.physical_start) desc.number_of_pages
      done (false, pa'))
    else (do
      pa' ← mark_uefi_reserved pa (phys2frame desc.physical_start) desc.number_of_pages
      done (false, pa'))

-- The loop over the descriptors, from the ends reached on; the last `avail_end`.
unfoldable pub init_loop :
    List MemoryDescriptor → ℕ → ℕ → PageAllocator → Outcome (ℕ × PageAllocator)
init_loop [] phys_end avail_end pa = done (avail_end, pa)
init_loop (desc ∷ rest) phys_end avail_end pa = do
  (beyond, pa₁) ← mark_hole phys_end desc pa
  let region = do
    (full, pa₂) ← mark_region desc pa₁
    let next =
        init_loop rest (end_of desc) (if is_usable_memory desc then end_of desc else avail_end) pa₂
    if full then done (avail_end, pa₂) else next
  if beyond then done (avail_end, pa₁) else region

unfoldable pub page_allocator_init : List MemoryDescriptor → PageAllocator → Outcome PageAllocator
page_allocator_init map pa = do
  (avail_end, pa') ← init_loop map 0 0 pa
  done (record pa' { frame_end = phys2frame avail_end })
