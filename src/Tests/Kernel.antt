-- ===== src/Tests/Kernel.antt =====
-- `reconstruct` of ymirc/arch/x86/page.c on the tables of a loader that has mapped one page.
use ymirc.Prelude.{
  ℕ, ◌*◌, ◌^◌, ◌<◌, ◌≡◌, ◌==◌, refl, arith, Bool, true, false, Bool-cases, inl, inr, if◌then◌else◌,
  [], some, done,
}
use ymirc.Bits.{isset, tobit}
use ymirc.Mem.{phys2virt}
use ymirc.PageAlloc.{PageAllocator}
use ymirc.PageAlloc.Status.{frame_used}
use ymirc.PageAlloc.Reserved.{IsSafe}
use ymirc.Npt.{Memory}
use ymirc.Npt.Tree.{slot}
use ymirc.Npt.Grow.{Supplies}
use ymirc.Npt.Backed.{page_allocator_ops, page_allocator_supplies, count_free}
use ymirc.Pages.{reconstruct}
use ymirc.Pages.Holds.{is_last, Holds, cost_entries, count_tables}
use ymirc.Pages.Kernel.{count_kernel, KernelTables}
use ymirc.Pages.Rebuilt.{Reconstructed, reconstruct_lem}

-- Frame 2 has the table of level 4, whose last entry leads to frame 3; entry 510 there leads to
-- frame 4, whose entry 0 is a page of 2 MiB.
abbrev loaded : ℕ → ℕ
loaded x =
    if x == slot false 2 511
    then 12291
    else if x == slot false 3 510
    then 16387
    else if x == slot false 4 0
    then 0x83
    else 0

abbrev booted : Memory PageAllocator
booted = record {
  words = loaded;
  pages = record { bitmap = λ _. 0x1C; frame_end = 32; reserved = [] };
}

abbrev allocator : Supplies false (page_allocator_ops false)
allocator = page_allocator_supplies false

booted-IsSafe : IsSafe booted.pages
booted-IsSafe = record { fits = omega arith; all_held = tt }

booted_free : count_free booted.pages.bitmap 30 ≡ 27
unfolding count_free frame_used isset tobit
booted_free = refl

booted_count : count_kernel false loaded 2 238 274 ≡ 2
unfolding count_kernel count_tables cost_entries isset tobit phys2virt
booted_count = refl

loaded_word : (x : ℕ) → loaded x < 2 ^ 64
loaded_word x = ground arith

top_words : (i : ℕ) → i < 512 → loaded (slot false 2 i) ≡ (if i == 511 then 12291 else 0)
top_words i h = ground arith

third_words : (i : ℕ) → i < 512 → loaded (slot false 3 i) ≡ (if i == 510 then 16387 else 0)
third_words i h = ground arith

second_words : (i : ℕ) → i < 512 → loaded (slot false 4 i) ≡ (if i == 0 then 0x83 else 0)
second_words i h = ground arith

-- No entry of the table in frame 4 leads on, one of that in frame 3, and one of that in frame 2.
last_of : (v : ℕ) (c : Bool) → is_last v ≡ true → is_last (if c then v else 0) ≡ true
unfolding isset tobit
last_of v true h = h
last_of v false h = refl

second-Holds : Holds false (page_allocator_ops false) allocator 1 booted 4
unfolding isset tobit frame_used
second-Holds = (
  omega arith,
  refl,
  λ i hi open_.
      let last : is_last (loaded (slot false 4 i)) ≡ true =
        rw (second_words i hi) (last_of 0x83 (i == 0) refl) in
      absurd (cc (last, open_)),
)

third-Holds : Holds false (page_allocator_ops false) allocator 2 booted 3
unfolding isset tobit frame_used phys2virt
third-Holds = (
  omega arith,
  refl,
  λ i hi open_. elim (Bool-cases (i == 510)) [
    | inl e ↦ let at : i ≡ 510 = ground arith in (4, rw at refl, second-Holds)
    | inr other ↦
        let last : is_last (loaded (slot false 3 i)) ≡ true = rw (third_words i hi, other) refl in
        absurd (cc (last, open_))
  ],
)

booted-KernelTables : KernelTables false (page_allocator_ops false) allocator 2 booted
unfolding isset tobit phys2virt frame_used
booted-KernelTables = record {
  small = omega arith;
  used = refl;
  lower = λ i low high e. elim (Bool-cases (i == 511)) [
    | inl here ↦ let at : i ≡ 511 = ground arith in (3, rw at refl, third-Holds)
    | inr other ↦
        let gone : isset (loaded (slot false 2 i)) 0 ≡ false = rw (top_words i high, other) refl in
        absurd (cc (gone, e))
  ];
}

reconstruct_lem_example :
    (cr3' : ℕ) × (m' : Memory PageAllocator) × (reconstruct false
        (some (page_allocator_ops false))
        (2 * 4096)
        booted
      ≡ done (cr3', true, m'))
    × Reconstructed false (page_allocator_ops false) allocator booted (2 * 4096) cr3' m'
reconstruct_lem_example =
    reconstruct_lem false (page_allocator_ops false) (page_allocator_supplies false) 2 booted
      booted-IsSafe booted-KernelTables loaded_word (omega (arith, booted_count, booted_free))
