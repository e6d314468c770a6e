-- ===== src/Tests/Boot.antt =====
-- The boot of the guest and of the page allocator, at concrete images and memory maps.
use ymirc.Prelude.{
  ℕ, ◌+◌, ◌-◌, ◌*◌, ◌/◌, ◌^◌, ◌<◌, ◌≤◌, ◌≡◌, ◌⊎◌, inl, inr, refl, ap, ◌∙◌, arith, true, false,
  Bool-cases, not, ◌==◌, ◌&&◌, ltb, leb, if◌then◌else◌, List, [], ◌∷◌, done, stop, panicked,
}
use ymirc.Mem.{page_size, page_size_2mb, phys2virt}
use ymirc.Mem.Bytes.{Bytes}
use ymirc.PageAlloc.{PageAllocator}
use ymirc.PageAlloc.Status.{frame_used}
use ymirc.PageAlloc.Reserved.{IsSafe}
use ymirc.PageAlloc.Boot.{MemoryDescriptor, conventional_memory, other_memory, page_allocator_init}
use ymirc.PageAlloc.Boot.Sorted.{Sorted, usable_at}
use ymirc.PageAlloc.Boot.Loop.{page_allocator_init_lem}
use ymirc.Npt.{TableSource}
use ymirc.Npt.Grow.{Supplies, NewFrame}
use ymirc.Linux.{linux_layout_kernel_base}
use ymirc.Vm.{GuestVm, load_kernel, setup_guest_memory}
use ymirc.Vm.Loading.{initrd_accepted, code_accepted, accepted, code_offset, load_kernel_lem}
use ymirc.Vm.Whole.{IsWhole}
use ymirc.Vm.Layout.{load_kernel-bounds, load_kernel-overrun}
use ymirc.Vm.Guest.{IsReady, setup_guest_memory_lem}
use ymirc.Loader.{
  ProgramHeader, compute_kernel_memory_range, least, greatest, segment_end,
  compute_kernel_memory_range_lem,
}
use ymirc.Tests.Guest.{guest}

-- An image that allows the initial RAM disk up to 0x7F000000, with one sector before the code.
abbrev kernel : Bytes
kernel x = if x == 0x22F then 0x7F else 7

abbrev initrd : Bytes
initrd x = 9

abbrev zeros : Bytes
zeros x = 0

kernel-accepted : accepted kernel 8192 4096 ≡ true
unfolding initrd_accepted code_accepted
kernel-accepted = refl

kernel-IsWhole : IsWhole kernel 8192
kernel-IsWhole = record { sectors = omega arith; setup = omega arith; below_disk = omega arith }

abbrev loaded_kernel : Bytes
loaded_kernel = (load_kernel_lem kernel 8192 initrd 4096 zeros).0

loads : load_kernel kernel 8192 initrd 4096 zeros ≡ done loaded_kernel
loads =
    (load_kernel_lem kernel 8192 initrd 4096 zeros).1
    ∙ ap (λ b. if b then done loaded_kernel else stop panicked) kernel-accepted

load_kernel-bounds_example : loaded_kernel 200000000 ≡ 0
load_kernel-bounds_example =
    load_kernel-bounds kernel 8192 initrd 4096 zeros loaded_kernel 200000000 (omega arith) loads
      (omega arith)

short-accepted : initrd_accepted kernel 4096 ≡ true
unfolding initrd_accepted
short-accepted = refl

-- An image of 100 bytes that claims eight sectors.
load_kernel-overrun_example :
    (m' : Bytes) × (load_kernel kernel 100 initrd 4096 zeros ≡ done m')
    × (m' 200000000 ≡ kernel (code_offset kernel + (200000000 - linux_layout_kernel_base)))
load_kernel-overrun_example =
    load_kernel-overrun kernel 100 initrd 4096 zeros 200000000 (omega arith) (omega arith)
      short-accepted (omega arith) (omega arith)

-- A page allocator that hands out the frames in order; the state is the next frame.
abbrev bump : TableSource ℕ
bump = record {
  alloc_aligned_pages = λ num_pages align_size next.
      let align = align_size / page_size in
      let start = (next + align - 1) / align * align in
      if leb (2 ^ 25) (start + num_pages)
      then done (0, next)
      else done (start * page_size, start + num_pages);
}

bump_NewFrame : (s : ℕ) → 0 < s → s + 1 < 2 ^ 25 → NewFrame (λ f. ltb f s) (λ f. ltb f (s + 1)) s
bump_NewFrame s pos small = record {
  small = omega arith;
  positive = pos;
  fresh = ground arith;
  taken = ground arith;
  kept = λ g h. ground arith;
}

abbrev Supplied : ℕ → Type 0
Supplied s =
    (ptr : ℕ) × (s' : ℕ) × (bump.alloc_aligned_pages 1 page_size s ≡ done (ptr, s'))
    × (((ptr ≡ 0) × (2 ^ 25 - 1 - s ≡ 0))
        ⊎ ((f : ℕ) × (ptr ≡ phys2virt false (f * page_size))
            × NewFrame (λ g. ltb g s) (λ g. ltb g s') f
            × (0 < s')
            × (2 ^ 25 - 1 - s ≤ 2 ^ 25 - 1 - s' + 1)))

bump_supply : (s : ℕ) → 0 < s → Supplied s
unfolding phys2virt
bump_supply s pos =
    let start : (s + 1 - 1) / 1 * 1 ≡ s = omega arith in
    rw start (elim (Bool-cases (leb (2 ^ 25) (s + 1))) [
      | inl out ↦ (0, s, rw out refl, inl (refl, ground arith))
      | inr left ↦ (
        s * page_size,
        s + 1,
        rw left refl,
        inr (s, refl, bump_NewFrame s pos (ground arith), omega arith, omega arith),
      )
    ])

abbrev bump_supplies : Supplies false bump
bump_supplies = record {
  IsGood = λ s. 0 < s;
  used = λ s f. ltb f s;
  free = λ s. 2 ^ 25 - 1 - s;
  supply = bump_supply;
}

abbrev vm : GuestVm ℕ
vm = record {
  svmvcpu = guest 0 0 0;
  guest_mem = 0;
  guest_bytes = zeros;
  tables = record { words = λ _. 5; pages = 1 };
}

setup_guest_memory_lem_example :
    (vm' : GuestVm ℕ) × (setup_guest_memory false bump kernel 8192 initrd 4096 vm ≡ done vm')
    × IsReady false kernel 8192 initrd 4096 (1 * page_size_2mb) vm vm'
setup_guest_memory_lem_example =
    setup_guest_memory_lem false bump bump_supplies kernel 8192 initrd 4096 vm 1 26112
      kernel-IsWhole (omega arith) (omega arith) (omega arith) (unfold phys2virt in refl)
      (omega arith) (omega arith) (omega arith) (omega arith)

-- Usable memory from 0, a hole, and reserved memory.
abbrev memory_map : List MemoryDescriptor
memory_map =
    record { memory_type = conventional_memory; physical_start = 0; number_of_pages = 3 }
    ∷ record { memory_type = other_memory; physical_start = 16384; number_of_pages = 2 }
    ∷ []

memory_map-Sorted : Sorted 0 memory_map
memory_map-Sorted = (
  record { aligned = refl; after = omega arith; inhabited = omega arith; word = omega arith },
  (record { aligned = refl; after = omega arith; inhabited = omega arith; word = omega arith }, tt),
)

abbrev empty_allocator : PageAllocator
empty_allocator = record { bitmap = λ _. 0; frame_end = 0; reserved = [] }

page_allocator_init_lem_example :
    (pa' : PageAllocator) × (page_allocator_init memory_map empty_allocator ≡ done pa')
    × IsSafe pa'
    × ((g : ℕ)
        → (ltb g pa'.frame_end && frame_used pa'.bitmap g)
          ≡ (ltb g pa'.frame_end && not (usable_at memory_map g)))
page_allocator_init_lem_example =
    page_allocator_init_lem memory_map empty_allocator memory_map-Sorted (omega arith) refl

abbrev program_headers : List ProgramHeader
program_headers =
    record {
      is_load = true;
      is_executable = true;
      is_writable = false;
      p_vaddr = 5000;
      p_paddr = 1000;
      p_memsz = 50;
    }
    ∷ record {
      is_load = true;
      is_executable = false;
      is_writable = true;
      p_vaddr = 4000;
      p_paddr = 3000;
      p_memsz = 0;
    }
    ∷ []

compute_kernel_memory_range_lem_example : compute_kernel_memory_range program_headers ≡ record {
  start_virt = least (λ ph. ph.p_vaddr) program_headers;
  start_phys = least (λ ph. ph.p_paddr) program_headers;
  end_phys = greatest segment_end program_headers;
}
compute_kernel_memory_range_lem_example = compute_kernel_memory_range_lem program_headers
