-- ===== src/Tests/Nested.antt =====
-- The nested page tables of ymirc/arch/x86/svm_npt.c and the clones of ymirc/arch/x86/page.c, with
-- the tables in 16 frames.
use ymirc.Prelude.{
  ℕ, ◌==◌, if◌then◌else◌, ◌^◌, ◌%◌, ◌<◌, ◌≡◌, ◌⊎◌, refl, arith, true, false, [], done, stop,
  panicked,
}
use ymirc.Bits.{isset, tobit}
use ymirc.Mem.{page_size}
use ymirc.PageAlloc.{PageAllocator}
use ymirc.PageAlloc.Status.{frame_used}
use ymirc.PageAlloc.Reserved.{IsSafe}
use ymirc.Npt.{Memory, init_npt}
use ymirc.Npt.Walk.{ram, translate}
use ymirc.Npt.Grow.{Supplies}
use ymirc.Npt.Init.{Nested, host_address, init_npt_lem}
use ymirc.Npt.Tree.{slot}
use ymirc.Pages.{clone_lv3_table}
use ymirc.Pages.Clone.{clone_lv3_table-entries}
use ymirc.Npt.Backed.{page_allocator_ops, page_allocator_supplies, count_free, init_npt_backed}

-- Of 16 frames frame 2 is used; every word of memory is 5.
abbrev before : Memory PageAllocator
before = record {
  words = λ _. 5;
  pages = record { bitmap = λ _. 4; frame_end = 16; reserved = [] };
}

before-IsSafe : IsSafe before.pages
before-IsSafe = record { fits = omega arith; all_held = tt }

free_frames : count_free before.pages.bitmap 14 ≡ 13
unfolding count_free frame_used isset tobit
free_frames = refl

init_npt_lem_example :
    ((count_free before.pages.bitmap 14 < 5)
      × (init_npt true (page_allocator_ops true) 0 (2 ^ 30) (2 ^ 22) before ≡ stop panicked))
    ⊎ ((n_cr3 : ℕ) × (m' : Memory PageAllocator) × (init_npt true
            (page_allocator_ops true)
            0
            (2 ^ 30)
            (2 ^ 22)
            before
          ≡ done (n_cr3, m'))
        × Nested true
            (page_allocator_ops true)
            (page_allocator_supplies true)
            0
            (2 ^ 30)
            (2 ^ 22)
            n_cr3
            m')
init_npt_lem_example =
    init_npt_lem true (page_allocator_ops true) (page_allocator_supplies true) 0 (2 ^ 30) (2 ^ 22)
      before refl refl (omega arith) (omega arith) before-IsSafe

init_npt_backed_example :
    (n_cr3 : ℕ) × (m' : Memory PageAllocator) × (init_npt false
        (page_allocator_ops false)
        0
        (2 ^ 30)
        (2 ^ 22)
        before
      ≡ done (n_cr3, m'))
    × (n_cr3 % page_size ≡ 0)
    × IsSafe m'.pages
    × ((gpa : ℕ) → translate (ram false m') n_cr3 gpa ≡ host_address 0 (2 ^ 30) (2 ^ 22) gpa)
init_npt_backed_example =
    init_npt_backed false 0 (2 ^ 30) (2 ^ 22) before refl refl (omega arith) (omega arith)
      before-IsSafe (omega (arith, free_frames))

-- Frame 2 is a level 3 table whose entry 0 (12288 + 3) refers to the table in frame 3; both are used.
abbrev paged : Memory PageAllocator
paged = record {
  words = λ a. if a == slot true 2 0 then 12291 else 0;
  pages = record { bitmap = λ _. 12; frame_end = 16; reserved = [] };
}

paged-IsSafe : IsSafe paged.pages
paged-IsSafe = record { fits = omega arith; all_held = tt }

abbrev supplies : Supplies true (page_allocator_ops true)
supplies = page_allocator_supplies true

table_used : supplies.used paged.pages 2 ≡ true
unfolding frame_used isset tobit
table_used = refl

clone_lv3_table-entries_example :
    (clone_lv3_table true (page_allocator_ops true) (slot true 2 0) paged ≡ stop panicked)
    ⊎ ((f : ℕ) × (m' : Memory PageAllocator) × (clone_lv3_table true
            (page_allocator_ops true)
            (slot true 2 0)
            paged
          ≡ done (slot true f 0, m'))
        × (supplies.used paged.pages f ≡ false)
        × ((i : ℕ) → i < 512 → m'.words (slot true f i) ≡ paged.words (slot true 2 i))
        × ((g i : ℕ)
            → supplies.used paged.pages g ≡ true
            → i < 512
            → m'.words (slot true g i) ≡ paged.words (slot true g i)))
clone_lv3_table-entries_example =
    clone_lv3_table-entries true (page_allocator_ops true) (page_allocator_supplies true) 2 paged
      paged-IsSafe table_used
