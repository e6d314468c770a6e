-- ===== src/PageAlloc/Boot/Sorted.antt =====
-- Memory maps whose regions are in the order of their addresses, and what a round of the loop of
-- `page_allocator_init` marks for one of them.
use ymirc.Prelude.{
  ℕ, ◌+◌, ◌-◌, ◌*◌, ◌/◌, ◌%◌, ◌^◌, ◌≤◌, ◌<◌, ◌≡◌, inl, inr, refl, arith, Bool, true, false, not,
  ◌&&◌, ◌||◌, Bool-cases, ltb, leb, List, [], ◌∷◌, length, sub_64, done,
}
use ymirc.Mem.{page_size}
use ymirc.PageAlloc.{PageAllocator, frame_count, max_physical_size, max_uefi_reserved_regions}
use ymirc.PageAlloc.Status.{within}
use ymirc.PageAlloc.Boot.{MemoryDescriptor, is_usable_memory, mark_hole, end_of, mark_region}
use ymirc.PageAlloc.Boot.Steps.{Settled, Extended, mark_not_used_lem, reserve_lem, flagged}

abbrev pub first_frame : MemoryDescriptor → ℕ
first_frame desc = desc.physical_start / page_size

abbrev pub last_frame : MemoryDescriptor → ℕ
last_frame desc = first_frame desc + desc.number_of_pages

-- A region of whole pages, at or after frame `e`.
pub record IsAfter (e : ℕ) (desc : MemoryDescriptor) : Type 0 where
  pub aligned : desc.physical_start % page_size ≡ 0
  pub after : e ≤ first_frame desc
  pub inhabited : 0 < desc.number_of_pages
  pub word : desc.physical_start + desc.number_of_pages * page_size < 2 ^ 64

abbrev pub Sorted : ℕ → List MemoryDescriptor → Type 0
Sorted e [] = Unit
Sorted e (desc ∷ rest) = IsAfter e desc × Sorted (last_frame desc) rest

-- The frame stands in a usable region.
unfoldable pub usable_at : List MemoryDescriptor → ℕ → Bool
usable_at [] g = false
usable_at (desc ∷ rest) g =
    (is_usable_memory desc && within (first_frame desc) (last_frame desc) g) || usable_at rest g

pub usable_at-below :
    (e : ℕ) (map : List MemoryDescriptor) (g : ℕ) → Sorted e map → g < e → usable_at map g ≡ false
unfolding usable_at
usable_at-below e [] g s h = refl
usable_at-below e (desc ∷ rest) g (d, s) h =
    let out : within (first_frame desc) (last_frame desc) g ≡ false = ground (arith, d.after) in
    rw (out, usable_at-below (last_frame desc) rest g s (omega (arith, d.after))) (ground arith)

module _ (e : ℕ) (desc : MemoryDescriptor) (pa : PageAllocator) (d : IsAfter e desc)
    (small : e < frame_count) (settled : Settled e pa)
    (room : length pa.reserved < max_uefi_reserved_regions) where
  pub mark_hole_lem :
      desc.physical_start < max_physical_size
      → (pa' : PageAllocator) × (mark_hole (e * page_size) desc pa ≡ done (false, pa'))
        × Extended e (first_frame desc) true pa pa'
  unfolding mark_hole
  mark_hole_lem inside = elim (Bool-cases (ltb (e * page_size) desc.physical_start)) [
    | inl hole ↦
        let not_beyond : leb max_physical_size desc.physical_start ≡ false = ground arith in
        let from : e * page_size / page_size ≡ e = omega arith in
        let size : (desc.physical_start - e * page_size) / page_size ≡ first_frame desc - e =
          omega (arith, d.aligned) in
        let more : e < first_frame desc = ground (arith, d.aligned) in
        let total : e + (first_frame desc - e) ≡ first_frame desc = omega arith in
        rw (hole, not_beyond, from, size)
          (flagged e (first_frame desc) true false pa _ (
            reserve_lem pa e (first_frame desc) (first_frame desc - e) total (omega arith) settled
              (omega arith) room))
    | inr no_hole ↦
        let same : first_frame desc ≡ e = ground (arith, d.after) in
        (
          pa,
          rw no_hole refl,
          record {
            settled = rw same settled;
            at = λ g. let out : within e (first_frame desc) g ≡ false = ground arith in rw out refl;
            room = omega arith;
          },
        )
  ]

  pub mark_hole-beyond :
      max_physical_size ≤ desc.physical_start
      → (pa' : PageAllocator) × (mark_hole (e * page_size) desc pa ≡ done (true, pa'))
        × Extended e frame_count true pa pa'
  unfolding mark_hole
  mark_hole-beyond outside =
      let hole : ltb (e * page_size) desc.physical_start ≡ true = ground arith in
      let beyond : leb max_physical_size desc.physical_start ≡ true = ground arith in
      let from : e * page_size / page_size ≡ e = omega arith in
      let size : (max_physical_size - e * page_size) / page_size ≡ frame_count - e = omega arith in
      let total : e + (frame_count - e) ≡ frame_count = omega arith in
      rw (hole, beyond, from, size)
        (flagged e frame_count true true pa _ (
          reserve_lem pa e frame_count (frame_count - e) total (omega arith) settled (omega arith)
            room))

module _ (e : ℕ) (desc : MemoryDescriptor) (pa : PageAllocator) (d : IsAfter e desc)
    (small : desc.physical_start < max_physical_size) (settled : Settled (first_frame desc) pa)
    (room : length pa.reserved < max_uefi_reserved_regions) where
  pub end_of_lem : end_of desc ≡ last_frame desc * page_size
  end_of_lem = omega (arith, d.word, d.aligned)

  pub mark_region_lem :
      last_frame desc < frame_count
      → (pa' : PageAllocator) × (mark_region desc pa ≡ done (false, pa'))
        × Extended (first_frame desc) (last_frame desc) (not (is_usable_memory desc)) pa pa'
  unfolding mark_region
  mark_region_lem inside =
      let not_full : leb max_physical_size (end_of desc) ≡ false = rw end_of_lem (ground arith) in
      rw not_full (elim (Bool-cases (is_usable_memory desc)) [
        | inl usable ↦ rw usable (
            flagged (first_frame desc) (last_frame desc) false false pa _
              (mark_not_used_lem pa (first_frame desc) desc.number_of_pages (omega arith) settled))
        | inr other ↦ rw other (
            flagged (first_frame desc) (last_frame desc) true false pa _ (
              reserve_lem pa (first_frame desc) (last_frame desc) desc.number_of_pages refl
                (omega arith) settled d.inhabited room))
      ])

  pub mark_region-full :
      frame_count ≤ last_frame desc
      → (pa' : PageAllocator) × (mark_region desc pa ≡ done (true, pa'))
        × Extended (first_frame desc) frame_count true pa pa'
  unfolding mark_region
  mark_region-full outside =
      let full : leb max_physical_size (end_of desc) ≡ true = rw end_of_lem (ground arith) in
      let size : sub_64 max_physical_size desc.physical_start / page_size
          ≡ frame_count - first_frame desc =
        omega (arith, d.aligned) in
      let total : first_frame desc + (frame_count - first_frame desc) ≡ frame_count = omega arith in
      rw (full, size)
        (flagged (first_frame desc) frame_count true true pa _ (
          reserve_lem pa (first_frame desc) frame_count (frame_count - first_frame desc) total
            (omega arith) settled (omega arith) room))
