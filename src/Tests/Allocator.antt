-- ===== src/Tests/Allocator.antt =====
-- The page allocator of ymirc/page_allocator.c on 16 frames.
use mathlib.Core.Path.{subst}
use ymirc.Prelude.{
  ◌+◌, ◌≤◌, ◌<◌, ◌∷◌, ℕ, ◌*◌, ◌≡◌, ◌⊎◌, refl, arith, true, false, [], done, stop, panicked,
}
use ymirc.Bits.{tobit}
use ymirc.Mem.{page_size, virt2phys, phys2virt}
use ymirc.PageAlloc.{
  Bitmap, PageAllocator, alloc, alloc_loop, free, mark, mark_allocated, mark_not_used, scan,
  take_frames, frames_of, set_frame_status, frame_status_at, alloc_aligned_pages, overlaps_reserved,
  overlaps_any, update,
}
use ymirc.PageAlloc.Status.{frame_used}
use ymirc.PageAlloc.Alloc.{Answer, alloc_lem}
use ymirc.PageAlloc.Aligned.{AlignedAnswer, alloc_aligned_pages_lem}
use ymirc.PageAlloc.Reserved.{IsSafe, is_reserved}
use ymirc.PageAlloc.Free.{Freed, free_lem, free-IsSafe, alloc-free}

-- 16 frames, of which frame 2 is used.
abbrev bitmap : Bitmap
bitmap _ = 4

abbrev small : PageAllocator
small = record { bitmap = bitmap; frame_end = 16; reserved = [] }

small-IsSafe : IsSafe small
small-IsSafe = record { fits = omega arith; all_held = tt }

address : ℕ
address = 3 * page_size

-- Two pages do not fit in frame 1, so frames 3 and 4 are taken.
alloc_two :
    alloc false small 8000
    ≡ done (3 * page_size, record small { bitmap = update (update bitmap 0 12) 0 28 })
unfolding alloc alloc_loop scan take_frames mark_allocated mark set_frame_status frame_status_at
    phys2virt tobit
alloc_two = refl

alloc_too_many : alloc false small 60000 ≡ done (0, small)
unfolding alloc alloc_loop scan frame_status_at tobit
alloc_too_many = refl

alloc_lem_example : Answer false small (frames_of 8000) 1 (alloc false small 8000)
alloc_lem_example = alloc_lem false small 8000 (omega arith)

alloc_aligned_pages_lem_example :
    AlignedAnswer false small 2 4 4 (alloc_aligned_pages false small 2 (4 * page_size))
alloc_aligned_pages_lem_example =
    alloc_aligned_pages_lem false small 2 4 (omega arith) (omega arith) (omega arith) (omega arith)
      (omega arith)

alloc-free_example :
    (pa'' : PageAllocator) × (free false
        (record small { bitmap = update (update bitmap 0 12) 0 28 })
        (3 * page_size)
        8000
      ≡ done pa'')
    × ((g : ℕ) → frame_used pa''.bitmap g ≡ frame_used small.bitmap g)
    × IsSafe pa''
alloc-free_example = alloc-free false small 8000 small-IsSafe (omega arith) (omega arith) alloc_two

-- Frame 2 is reserved, and frames 3 and 4 are used besides.
abbrev guarded : PageAllocator
guarded = record {
  bitmap = update bitmap 0 28;
  frame_end = 16;
  reserved = record { frame = 2; num_frames = 1 } ∷ [];
}

only_two : (g : ℕ) → 2 ≤ g → g < 3 → frame_used (update bitmap 0 28) g ≡ true
unfolding frame_used tobit ymirc.Bits.isset
only_two g low high = subst (λ x. frame_used (update bitmap 0 28) x ≡ true) two refl
  where
    two : 2 ≡ g
    two = omega arith

guarded-IsSafe : IsSafe guarded
guarded-IsSafe = record {
  fits = omega arith;
  all_held = (record { inhabited = omega arith; covered = omega arith; held = only_two }, tt);
}

free_lem_example :
    ((g : ℕ) × (3 ≤ g)
      × (g < 3 + frames_of 8000)
      × (is_reserved guarded.reserved g ≡ true)
      × (free false guarded (phys2virt false (3 * page_size)) 8000 ≡ stop panicked))
    ⊎ (((g : ℕ) → 3 ≤ g → g < 3 + frames_of 8000 → is_reserved guarded.reserved g ≡ false)
        × ((pa' : PageAllocator) × (free false guarded (phys2virt false (3 * page_size)) 8000
              ≡ done pa')
            × Freed guarded 3 (frames_of 8000) pa'))
free_lem_example = free_lem false guarded 3 8000 guarded-IsSafe (omega arith) (omega arith)

free_two :
    free false small (phys2virt false (2 * page_size)) 4096
    ≡ done (record small { bitmap = update bitmap 0 0 })
unfolding free phys2virt virt2phys overlaps_reserved overlaps_any mark_not_used mark
    set_frame_status tobit
free_two = refl

free_next :
    free false guarded (phys2virt false (3 * page_size)) 8000
    ≡ done (record guarded { bitmap = update (update (update bitmap 0 28) 0 20) 0 4 })
unfolding free phys2virt virt2phys overlaps_reserved overlaps_any mark_not_used mark
    set_frame_status tobit
free_next = refl

-- Frame 2 is reserved.
free_reserved : free false guarded (phys2virt false (2 * page_size)) 8000 ≡ stop panicked
unfolding free phys2virt virt2phys overlaps_reserved overlaps_any
free_reserved = refl

free-IsSafe_example :
    IsSafe (record guarded { bitmap = update (update (update bitmap 0 28) 0 20) 0 4 })
free-IsSafe_example = free-IsSafe false guarded 3 8000 (omega arith) guarded-IsSafe free_next
