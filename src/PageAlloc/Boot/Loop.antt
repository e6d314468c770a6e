-- ===== src/PageAlloc/Boot/Loop.antt =====
-- `page_allocator_init` on a memory map whose regions are in the order of their addresses.
use ymirc.Prelude.{
  ℕ, suc, ◌+◌, ◌*◌, ◌/◌, ◌≤◌, ◌<◌, ◌≡◌, inl, inr, refl, ◌∙◌, arith, Bool, true, false, not, ◌&&◌,
  Bool-cases, ltb, if◌then◌else◌, List, [], ◌∷◌, length, Outcome, done,
}
use ymirc.Mem.{page_size}
use ymirc.PageAlloc.{PageAllocator, frame_count, max_physical_size, max_uefi_reserved_regions}
use ymirc.PageAlloc.Status.{frame_used, within}
use ymirc.PageAlloc.Reserved.{AllHeld, IsSafe}
use ymirc.PageAlloc.Boot.{
  MemoryDescriptor, is_usable_memory, mark_hole, mark_region, init_loop, page_allocator_init,
}
use ymirc.PageAlloc.Boot.Steps.{Settled, Extended}
use ymirc.PageAlloc.Boot.Sorted.{
  first_frame, last_frame, IsAfter, Sorted, usable_at, usable_at-below, mark_hole_lem,
  mark_hole-beyond, end_of_lem, mark_region_lem, mark_region-full,
}

-- What the loop makes of the rest of the map, from frame `e` on: `avail_end` is the end of frame
-- `last`, every region is held, and the frames before `last` are used unless they are usable.
pub record Booted (e : ℕ) (map : List MemoryDescriptor) (pa : PageAllocator) (last : ℕ)
    (pa' : PageAllocator) : Type 0 where
  pub managed : last ≤ frame_count
  pub held : AllHeld pa'.bitmap pa'.reserved
  pub status :
      (g : ℕ)
      → g < last
      → frame_used pa'.bitmap g
        ≡ (if ltb g e then frame_used pa.bitmap g else not (usable_at map g))

abbrev pub Boots :
    ℕ → ℕ → List MemoryDescriptor → PageAllocator → Outcome (ℕ × PageAllocator) → Type 0
Boots e a map pa x =
    (last : ℕ) × (pa' : PageAllocator) × (x ≡ done (last * page_size, pa'))
    × Booted e map pa last pa'

nothing : (f : ℕ) (status : Bool) (pa : PageAllocator) → Settled f pa → Extended f f status pa pa
nothing f status pa settled = record {
  settled = settled;
  at = λ g. let out : within f f g ≡ false = ground arith in rw out refl;
  room = omega arith;
}

-- The loop ends early: what was available before `e` is as it was.
broke :
    (e s a : ℕ) (map : List MemoryDescriptor) (pa pa₁ pa' : PageAllocator)
    → a ≤ e
    → e ≤ s
    → e < frame_count
    → Extended e s true pa pa₁
    → Extended s frame_count true pa₁ pa'
    → Booted e map pa a pa'
broke e s a map pa pa₁ pa' le after small one two = record {
  managed = omega arith;
  held = two.settled.held;
  status = λ g h. ground (arith, one.at g, two.at g);
}

-- It goes on.
onward :
    (e a last : ℕ) (desc : MemoryDescriptor) (rest : List MemoryDescriptor)
    (pa pa₁ pa₂ pa' : PageAllocator)
    → IsAfter e desc
    → Sorted (last_frame desc) rest
    → Extended e (first_frame desc) true pa pa₁
    → Extended (first_frame desc) (last_frame desc) (not (is_usable_memory desc)) pa₁ pa₂
    → Booted (last_frame desc) rest pa₂ last pa'
    → Booted e (desc ∷ rest) pa last pa'
unfolding usable_at
onward e a last desc rest pa pa₁ pa₂ pa' d s one two next = record {
  managed = next.managed;
  held = next.held;
  status = λ g h. next.status g h ∙ ground (arith, one.at g, two.at g, none_yet g, d.after);
}
  where
    none_yet : (g : ℕ) → g < last_frame desc → usable_at rest g ≡ false
    none_yet g h = usable_at-below (last_frame desc) rest g s h

-- One round, where the rest of the loop is as said.
init_loop-step :
    (desc : MemoryDescriptor) (rest : List MemoryDescriptor) (e a : ℕ) (pa : PageAllocator)
    → IsAfter e desc
    → Sorted (last_frame desc) rest
    → e < frame_count
    → a ≤ e
    → Settled e pa
    → length pa.reserved + suc (length rest) * 2 ≤ max_uefi_reserved_regions
    → ((a' : ℕ) (pa₂ : PageAllocator)
        → last_frame desc < frame_count
        → a' ≤ last_frame desc
        → Settled (last_frame desc) pa₂
        → length pa₂.reserved + length rest * 2 ≤ max_uefi_reserved_regions
        → Boots
            (last_frame desc)
            a'
            rest
            pa₂
            (init_loop rest (last_frame desc * page_size) (a' * page_size) pa₂))
    → Boots e a (desc ∷ rest) pa (init_loop (desc ∷ rest) (e * page_size) (a * page_size) pa)
unfolding init_loop
init_loop-step desc rest e a pa d s small le settled room later =
    elim (Bool-cases (ltb desc.physical_start max_physical_size)) [
      | inl inside ↦
          after_hole (ground arith)
            (mark_hole_lem e desc pa d small settled (omega arith) (ground arith))
      | inr outside ↦
          beyond (mark_hole-beyond e desc pa d small settled (omega arith) (ground arith))
    ]
  where
    Goal : Type 0
    Goal = Boots e a (desc ∷ rest) pa (init_loop (desc ∷ rest) (e * page_size) (a * page_size) pa)

    beyond :
        (pa' : PageAllocator) × (mark_hole (e * page_size) desc pa ≡ done (true, pa'))
          × Extended e frame_count true pa pa'
        → Goal
    beyond (pa', eq, ext) = (
      a,
      pa',
      rw eq refl,
      broke e frame_count a (desc ∷ rest) pa pa' pa' le (omega arith) small ext
          (nothing frame_count true pa' ext.settled),
    )

    after_hole :
        desc.physical_start < max_physical_size
        → (pa' : PageAllocator) × (mark_hole (e * page_size) desc pa ≡ done (false, pa'))
          × Extended e (first_frame desc) true pa pa'
        → Goal
    after_hole inside (pa₁, eq, one) = elim (Bool-cases (ltb (last_frame desc) frame_count)) [
      | inl fits ↦ go_on (ground arith) (
          mark_region_lem e desc pa₁ d inside one.settled (omega (arith, room, one.room))
            (ground arith))
      | inr over ↦ full (
          mark_region-full e desc pa₁ d inside one.settled (omega (arith, room, one.room))
            (ground arith))
    ]
      where
        full :
            (pa' : PageAllocator) × (mark_region desc pa₁ ≡ done (true, pa'))
              × Extended (first_frame desc) frame_count true pa₁ pa'
            → Goal
        full (pa', eq', ext) = (
          a,
          pa',
          rw (eq, eq') refl,
          broke e (first_frame desc) a (desc ∷ rest) pa pa₁ pa' le d.after small one ext,
        )

        go_on :
            last_frame desc < frame_count
            → (pa' : PageAllocator) × (mark_region desc pa₁ ≡ done (false, pa'))
              × Extended (first_frame desc) (last_frame desc) (not (is_usable_memory desc)) pa₁ pa'
            → Goal
        go_on fits (pa₂, eq', two) =
            finish
              (later available pa₂ fits bound two.settled (omega (arith, room, one.room, two.room)))
          where
            available : ℕ
            available = if is_usable_memory desc then last_frame desc else a

            bound : available ≤ last_frame desc
            bound = elim (Bool-cases (is_usable_memory desc)) [
              | inl usable ↦ rw usable (omega arith)
              | inr other ↦ rw other (omega (arith, le, d.after))
            ]

            avail_end :
                (if is_usable_memory desc then last_frame desc * page_size else a * page_size)
                ≡ available * page_size
            avail_end = elim (Bool-cases (is_usable_memory desc)) [
              | inl usable ↦ rw usable refl
              | inr other ↦ rw other refl
            ]

            finish :
                Boots
                  (last_frame desc)
                  available
                  rest
                  pa₂
                  (init_loop rest (last_frame desc * page_size) (available * page_size) pa₂)
                → Goal
            finish (last, pa', e', booted) = (
              last,
              pa',
              rw
                  (
                    eq,
                    eq',
                    end_of_lem e desc pa₁ d inside one.settled (omega (arith, room, one.room)),
                    avail_end,
                  )
                  e',
              onward e a last desc rest pa pa₁ pa₂ pa' d s one two booted,
            )

init_loop_lem :
    (map : List MemoryDescriptor) (e a : ℕ) (pa : PageAllocator)
    → Sorted e map
    → e < frame_count
    → a ≤ e
    → Settled e pa
    → length pa.reserved + length map * 2 ≤ max_uefi_reserved_regions
    → Boots e a map pa (init_loop map (e * page_size) (a * page_size) pa)
unfolding init_loop
init_loop_lem [] e a pa s small le settled room = (
  a,
  pa,
  refl,
  record {
    managed = omega arith;
    held = settled.held;
    status = λ g h. let t : ltb g e ≡ true = ground arith in rw t refl;
  },
)
init_loop_lem (desc ∷ rest) e a pa (d, s) small le settled room =
    init_loop-step desc rest e a pa d s small le settled room (λ a' pa₂ fits le' settled' room'.
      init_loop_lem rest (last_frame desc) a' pa₂ s fits le' settled' room')

-- For a memory map of at most 512 regions of whole pages, none of them empty, in the order of their
-- addresses and without overlap, and with no region reserved before, `page_allocator_init` returns
-- a safe state: all reserved regions are covered by the bitmap and used. Of the frames below the
-- last managed one exactly those are unused that stand in a usable region of the map.
pub page_allocator_init_lem :
    (map : List MemoryDescriptor) (pa : PageAllocator)
    → Sorted 0 map
    → length map ≤ 512
    → pa.reserved ≡ []
    → (pa' : PageAllocator) × (page_allocator_init map pa ≡ done pa')
      × IsSafe pa'
      × ((g : ℕ)
          → (ltb g pa'.frame_end && frame_used pa'.bitmap g)
            ≡ (ltb g pa'.frame_end && not (usable_at map g)))
unfolding page_allocator_init
page_allocator_init_lem map pa s short fresh =
    finish (init_loop_lem map 0 0 pa s (omega arith) (omega arith) start (rw fresh (omega arith)))
  where
    start : Settled 0 pa
    start = record { held = rw fresh tt; below = rw fresh tt }

    Goal : Type 0
    Goal =
        (pa' : PageAllocator) × (page_allocator_init map pa ≡ done pa')
        × IsSafe pa'
        × ((g : ℕ)
            → (ltb g pa'.frame_end && frame_used pa'.bitmap g)
              ≡ (ltb g pa'.frame_end && not (usable_at map g)))

    finish : Boots 0 0 map pa (init_loop map (0 * page_size) (0 * page_size) pa) → Goal
    finish (last, pa', e, booted) =
        let frame : last * page_size / page_size ≡ last = omega arith in
        (
          record pa' { frame_end = last },
          rw (e, frame) refl,
          record { fits = booted.managed; all_held = booted.held },
          λ g. elim (Bool-cases (ltb g last)) [
            | inl below ↦
                let low : ltb g 0 ≡ false = ground arith in
                rw below (booted.status g (ground arith) ∙ rw low refl)
            | inr above ↦ rw above refl
          ],
        )
