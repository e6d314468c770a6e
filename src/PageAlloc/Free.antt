-- ===== src/PageAlloc/Free.antt =====
-- `free`, on what the allocator handed out, and the invariant over all operations.
use mathlib.Core.Path.{subst}
use ymirc.Prelude.{done-injective, ◌≢◌, ℕ, ◌+◌, ◌*◌, ◌/◌, ◌≤◌, ◌<◌, ◌≡◌, refl, sym, ◌∙◌, ap, arith}
use ymirc.Prelude.{Bool, true, false, Bool-cases, inl, inr, ◌⊎◌, done, stop, panicked}
use ymirc.Prelude.{bit_and, not_64, u64, if◌then◌else◌}
use ymirc.Bits.Mask.{bit_and-not_ones}
use ymirc.Mem.{page_size, page_mask, virt2phys, phys2virt}
use ymirc.Mem.RoundTrip.{virt2phys-phys2virt}
use ymirc.PageAlloc.{PageAllocator, Bitmap, unused, frame_count, frames_of}
use ymirc.PageAlloc.{overlaps_reserved, free, alloc, mark, mark_not_used}
use ymirc.PageAlloc.Status.{frame_used, Marked, mark_lem}
use ymirc.PageAlloc.Alloc.{Taken, Answer, alloc_lem}
use ymirc.PageAlloc.Reserved.{
  IsSafe, AllHeld-used, AllHeld-unused, available_apart, is_reserved, overlaps_any-true,
  overlaps_any-false,
}

-- The page that a pointer lies in, for the first byte of a frame.
page_of :
    (mapped : Bool) (f : ℕ)
    → f ≤ frame_count
    → virt2phys mapped (bit_and (phys2virt mapped (f * page_size)) (not_64 page_mask))
      ≡ f * page_size
page_of mapped f h = rw (aligned mapped) (virt2phys-phys2virt mapped (f * page_size) (omega arith))
  where
    aligned :
        (mapped : Bool)
        → bit_and (phys2virt mapped (f * page_size)) (not_64 page_mask)
          ≡ phys2virt mapped (f * page_size)
    aligned false =
        unfold phys2virt in
        (bit_and-not_ones 12 (f * page_size) (omega arith) (omega arith) ∙ omega arith)
    aligned true =
        unfold phys2virt in
        (bit_and-not_ones 12 (phys2virt true (f * page_size)) (omega arith) (omega arith)
          ∙ omega arith)

-- What `free` returns when the range overlaps no reserved region.
pub record Freed (pa : PageAllocator) (f n : ℕ) (pa' : PageAllocator) : Type 0 where
  pub marked : Marked unused pa.bitmap f n pa'.bitmap
  pub frame_end_same : pa'.frame_end ≡ pa.frame_end
  pub reserved_same : pa'.reserved ≡ pa.reserved

free-eq :
    (mapped : Bool) (pa : PageAllocator) (f n : ℕ)
    → f ≤ frame_count
    → free mapped pa (phys2virt mapped (f * page_size)) n ≡ (
        if overlaps_reserved pa f (frames_of n)
        then stop panicked
        else mark_not_used pa f (frames_of n))
unfolding free
free-eq mapped pa f n h =
    let frame : f * page_size / page_size ≡ f = omega arith in rw (page_of mapped f h, frame)

mark_not_used_lem :
    (pa : PageAllocator) (f n : ℕ) {b : Bitmap}
    → mark unused pa.bitmap f n 0 ≡ done b
    → mark_not_used pa f n ≡ done (record pa { bitmap = b })
unfolding mark_not_used
mark_not_used_lem pa f n e = rw e

-- The two branches of `free`.
free-either :
    (mapped : Bool) (pa : PageAllocator) (f n : ℕ)
    → f + frames_of n ≤ frame_count
    → ((overlaps_reserved pa f (frames_of n) ≡ true)
        × (free mapped pa (phys2virt mapped (f * page_size)) n ≡ stop panicked))
      ⊎ ((overlaps_reserved pa f (frames_of n) ≡ false)
          × ((pa' : PageAllocator) × (free mapped pa (phys2virt mapped (f * page_size)) n
                ≡ done pa')
              × Freed pa f (frames_of n) pa'))
free-either mapped pa f n h = elim (Bool-cases (overlaps_reserved pa f (frames_of n))) [
  | inl clash ↦ inl (clash, free-eq mapped pa f n (omega arith) ∙ rw clash)
  | inr apart ↦
      let (b, marks, m) = mark_lem unused pa.bitmap f (frames_of n) h in
      inr (
        apart,
        (
          record pa { bitmap = b },
          free-eq mapped pa f n (omega arith)
              ∙ rw apart (mark_not_used_lem pa f (frames_of n) marks),
          record { marked = m; frame_end_same = refl; reserved_same = refl },
        ),
      )
]

Freed-IsSafe :
    (pa : PageAllocator) (f n : ℕ) (pa' : PageAllocator)
    → f + n ≤ frame_count
    → overlaps_reserved pa f n ≡ false
    → IsSafe pa
    → Freed pa f n pa'
    → IsSafe pa'
unfolding overlaps_reserved
Freed-IsSafe pa f n pa' h apart safe freed =
    let no_wrap : u64 (f + n) ≡ f + n = omega arith in
    record {
      fits = rw freed.frame_end_same safe.fits;
      all_held = rw freed.reserved_same (
          AllHeld-unused pa.bitmap pa'.bitmap f n pa.reserved freed.marked (rw no_wrap at apart)
            safe.all_held);
    }

-- In a safe state, `free` of the first byte of at least one frame, all covered by the bitmap, panics
-- if one of the frames belongs to a region of the firmware. If none does, it returns, exactly these
-- frames become unused, and nothing else changes.
pub free_lem :
    (mapped : Bool) (pa : PageAllocator) (f n : ℕ)
    → IsSafe pa
    → 0 < frames_of n
    → f + frames_of n ≤ frame_count
    → ((g : ℕ) × (f ≤ g)
        × (g < f + frames_of n)
        × (is_reserved pa.reserved g ≡ true)
        × (free mapped pa (phys2virt mapped (f * page_size)) n ≡ stop panicked))
      ⊎ (((g : ℕ) → f ≤ g → g < f + frames_of n → is_reserved pa.reserved g ≡ false)
          × ((pa' : PageAllocator) × (free mapped pa (phys2virt mapped (f * page_size)) n
                ≡ done pa')
              × Freed pa f (frames_of n) pa'))
unfolding overlaps_reserved
free_lem mapped pa f n safe pos h =
    let no_wrap : u64 (f + frames_of n) ≡ f + frames_of n = omega arith in
    elim (free-either mapped pa f n h) [
      | inl (clash, panics) ↦
          let (g, low, high, mine) =
            overlaps_any-true pa.bitmap f (frames_of n) pa.reserved pos safe.all_held
              (rw no_wrap at clash) in
          inl (g, low, high, mine, panics)
      | inr (apart, freed) ↦ inr (
        λ g low high.
            overlaps_any-false pa.bitmap f (frames_of n) pa.reserved g safe.all_held
              (rw no_wrap at apart) low high,
        freed,
      )
    ]

-- Taking frames keeps a state safe.
pub Taken-IsSafe :
    (mapped : Bool) (pa : PageAllocator) (num start ptr : ℕ) (pa' : PageAllocator)
    → Taken mapped pa num start ptr pa'
    → IsSafe pa
    → IsSafe pa'
Taken-IsSafe mapped pa num start ptr pa' t safe = record {
  fits = rw t.frame_end_same safe.fits;
  all_held =
      rw t.reserved_same
        (AllHeld-used pa.bitmap pa'.bitmap start num pa.reserved t.marked safe.all_held);
}

-- In a safe state, what `free` of the first byte of covered frames returns is safe: no reserved
-- frame has become unused.
pub free-IsSafe :
    (mapped : Bool) (pa : PageAllocator) (f n : ℕ) {pa' : PageAllocator}
    → f + frames_of n ≤ frame_count
    → IsSafe pa
    → free mapped pa (phys2virt mapped (f * page_size)) n ≡ done pa'
    → IsSafe pa'
free-IsSafe mapped pa f n {pa'} h safe e = by_case (free-either mapped pa f n h)
  where
    by_case :
        ((overlaps_reserved pa f (frames_of n) ≡ true)
            × (free mapped pa (phys2virt mapped (f * page_size)) n ≡ stop panicked))
          ⊎ ((overlaps_reserved pa f (frames_of n) ≡ false)
              × ((pa' : PageAllocator) × (free mapped pa (phys2virt mapped (f * page_size)) n
                    ≡ done pa')
                  × Freed pa f (frames_of n) pa'))
        → IsSafe pa'
    by_case (inl (_, panics)) = cc (panics, e)
    by_case (inr (apart, (pa₁, returns, freed))) =
        subst IsSafe (done-injective (sym returns ∙ e))
          (Freed-IsSafe pa f (frames_of n) pa₁ h apart safe freed)

-- `ptr` can be freed, and then every frame is as in `pa`.
abbrev Restores : Bool → PageAllocator → ℕ → ℕ × PageAllocator → Type 0
Restores mapped pa n (ptr, pa') =
    (pa'' : PageAllocator) × (free mapped pa' ptr n ≡ done pa'')
    × ((g : ℕ) → frame_used pa''.bitmap g ≡ frame_used pa.bitmap g)
    × IsSafe pa''

module _ (mapped : Bool) (pa : PageAllocator) (n : ℕ) (safe : IsSafe pa)
    (pos : 0 < frames_of n) where
  Taken-apart :
      (start ptr : ℕ) (pa' : PageAllocator)
      → start + frames_of n ≤ frame_count
      → Taken mapped pa (frames_of n) start ptr pa'
      → overlaps_reserved pa' start (frames_of n) ≡ false
  unfolding overlaps_reserved
  Taken-apart start ptr pa' h t =
      let no_wrap : u64 (start + frames_of n) ≡ start + frames_of n = omega arith in
      rw (no_wrap, t.reserved_same)
        (available_apart pa.bitmap start (frames_of n) pa.reserved pos t.available.unused
          safe.all_held)

  Taken-Restores :
      (start ptr : ℕ) (pa' : PageAllocator)
      → Taken mapped pa (frames_of n) start ptr pa'
      → Restores mapped pa n (ptr, pa')
  Taken-Restores start ptr pa' t = by_case (free-either mapped pa' start n bound)
    where
      bound : start + frames_of n ≤ frame_count
      bound = omega (arith, t.available.managed (omega arith), safe.fits)

      by_case :
          ((overlaps_reserved pa' start (frames_of n) ≡ true)
              × (free mapped pa' (phys2virt mapped (start * page_size)) n ≡ stop panicked))
            ⊎ ((overlaps_reserved pa' start (frames_of n) ≡ false)
                × ((pa'' : PageAllocator) × (free mapped pa'
                        (phys2virt mapped (start * page_size))
                        n
                      ≡ done pa'')
                    × Freed pa' start (frames_of n) pa''))
          → Restores mapped pa n (ptr, pa')
      by_case (inl (clash, _)) = cc (clash, Taken-apart start ptr pa' bound t)
      by_case (inr (apart, (pa₂, returns, freed))) = (
        pa₂,
        ap (λ x. free mapped pa' x n) t.pointer ∙ returns,
        λ g. ground (arith, freed.marked.at g, t.marked.at g, t.available.unused g),
        Freed-IsSafe pa' start (frames_of n) pa₂ bound apart
            (Taken-IsSafe mapped pa (frames_of n) start ptr pa' t safe) freed,
      )

-- In a safe state and for at least one frame, freeing what `alloc` returned, if not NULL, does not
-- panic, every frame is as it was before the allocation, and the state is safe again.
pub alloc-free :
    (mapped : Bool) (pa : PageAllocator) (n : ℕ) {ptr : ℕ} {pa' : PageAllocator}
    → IsSafe pa
    → 0 < frames_of n
    → ptr ≢ 0
    → alloc mapped pa n ≡ done (ptr, pa')
    → (pa'' : PageAllocator) × (free mapped pa' ptr n ≡ done pa'')
      × ((g : ℕ) → frame_used pa''.bitmap g ≡ frame_used pa.bitmap g)
      × IsSafe pa''
alloc-free mapped pa n {ptr} {pa'} safe pos non_null e = by_answer (alloc_lem mapped pa n safe.fits)
  where
    by_answer :
        Answer mapped pa (frames_of n) 1 (alloc mapped pa n) → Restores mapped pa n (ptr, pa')
    by_answer (p, pa₁, returns, inr f) = absurd (
        non_null
          (sym (ap (λ (x : ℕ × PageAllocator). x.0) (done-injective (sym returns ∙ e))) ∙ f.null))
    by_answer (p, pa₁, returns, inl f) =
        subst (Restores mapped pa n) (done-injective (sym returns ∙ e))
          (Taken-Restores mapped pa n safe pos f.start p pa₁ f.took)
