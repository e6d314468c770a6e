-- ===== src/PageAlloc/Aligned.antt =====
-- `alloc_aligned_pages` against its contract: first fit over the multiples of the alignment.
use mathlib.Core.Path.{subst}
use native.Mathlib.Nat.{mul-suc}
use ymirc.Prelude.{ℕ, zero, suc, ◌+◌, ◌*◌, ◌%◌, ◌≤◌, ◌<◌, ◌^◌, ◌≡◌, refl, ◌∙◌}
use ymirc.Prelude.{arith, Bool, ◌⊎◌, inl, inr, Outcome, done, u64, leb, leb→le, leb→gt}
use ymirc.Prelude.{Bool-cases, if◌then◌else◌}
use ymirc.Mem.{page_size}
use ymirc.PageAlloc.{PageAllocator, ScanEnd, beyond, busy, clear, scan, frame_count, take_frames}
use ymirc.PageAlloc.{aligned_loop, alloc_aligned_pages, frames_of}
use ymirc.PageAlloc.Scan.{Available, Found, scan-Found}
use ymirc.PageAlloc.Alloc.{Blocked, Taken, take_frames-Taken}

-- The candidates are `start`, `start + align`, and so on; the first run among them was taken.
pub record AlignedFit (mapped : Bool) (pa : PageAllocator) (num align start ptr : ℕ)
    (pa' : PageAllocator) : Type 0 where
  pub steps : ℕ
  pub took : Taken mapped pa num (start + align * steps) ptr pa'
  pub first : (u : ℕ) → u < steps → Blocked pa num (start + align * u)

-- No candidate whose run ends before the last managed frame was available; nothing has changed.
pub record NoAlignedFit (pa : PageAllocator) (num align start ptr : ℕ) (pa' : PageAllocator)
    : Type 0 where
  pub null : ptr ≡ 0
  pub unchanged : pa' ≡ pa
  pub no_run : (u : ℕ) → start + align * u + num < pa.frame_end → Blocked pa num (start + align * u)

abbrev pub AlignedAnswer : Bool → PageAllocator → ℕ → ℕ → ℕ → Outcome (ℕ × PageAllocator) → Type 0
AlignedAnswer mapped pa num align start out =
    (ptr : ℕ) × (pa' : PageAllocator) × (out ≡ done (ptr, pa'))
    × (AlignedFit mapped pa num align start ptr pa' ⊎ NoAlignedFit pa num align start ptr pa')

module _ (mapped : Bool) (pa : PageAllocator) (num align : ℕ) where
  candidate_zero : (start : ℕ) → Blocked pa num start → Blocked pa num (start + align * 0)
  candidate_zero start b = record {
    frame = b.frame;
    in_run = omega (arith, b.in_run);
    taken = b.taken;
  }

  candidate_suc :
      (start u : ℕ)
      → Blocked pa num (start + align + align * u)
      → Blocked pa num (start + align * suc u)
  candidate_suc start u b = record {
    frame = b.frame;
    in_run = omega (arith, b.in_run, mul-suc align u);
    taken = b.taken;
  }

  first_suc :
      (start steps : ℕ)
      → Blocked pa num start
      → ((u : ℕ) → u < steps → Blocked pa num (start + align + align * u))
      → (u : ℕ) → u < suc steps
      → Blocked pa num (start + align * u)
  first_suc start steps b later zero h = candidate_zero start b
  first_suc start steps b later (suc u) h = candidate_suc start u (later u (omega arith))

  no_run_suc :
      (start : ℕ)
      → Blocked pa num start
      → ((u : ℕ)
          → start + align + align * u + num < pa.frame_end
          → Blocked pa num (start + align + align * u))
      → (u : ℕ) → start + align * u + num < pa.frame_end
      → Blocked pa num (start + align * u)
  no_run_suc start b later zero h = candidate_zero start b
  no_run_suc start b later (suc u) h =
      candidate_suc start u (later u (omega (arith, mul-suc align u)))

  -- The candidate `start` is blocked, and the search goes on at the next one.
  next_candidate :
      (start : ℕ) {out : Outcome (ℕ × PageAllocator)}
      → Blocked pa num start
      → AlignedAnswer mapped pa num align (start + align) out
      → AlignedAnswer mapped pa num align start out
  next_candidate start {out} b (ptr, pa', e, inl f) = (
    ptr,
    pa',
    e,
    inl (record {
      steps = suc f.steps;
      took =
          subst (λ s. Taken mapped pa num s ptr pa') (omega (arith, mul-suc align f.steps)) f.took;
      first = first_suc start f.steps b f.first;
    }),
  )
  next_candidate start {out} b (ptr, pa', e, inr f) = (
    ptr,
    pa',
    e,
    inr (record { null = f.null; unchanged = f.unchanged; no_run = no_run_suc start b f.no_run }),
  )

  give_up :
      (start : ℕ)
      → ((u : ℕ) → start + align * u + num < pa.frame_end → Blocked pa num (start + align * u))
      → AlignedAnswer mapped pa num align start (done (0, pa))
  give_up start none_fit =
      (0, pa, refl, inr (record { null = refl; unchanged = refl; no_run = none_fit }))

  aligned-clear :
      (fuel start : ℕ)
      → scan pa.bitmap pa.frame_end start num 0 ≡ done clear
      → aligned_loop (suc fuel) mapped pa num align start ≡ take_frames mapped pa start num
  unfolding aligned_loop
  aligned-clear fuel start e = rw e

  aligned-beyond :
      (fuel start : ℕ)
      → scan pa.bitmap pa.frame_end start num 0 ≡ done beyond
      → aligned_loop (suc fuel) mapped pa num align start ≡ done (0, pa)
  unfolding aligned_loop
  aligned-beyond fuel start e = rw e

  aligned-busy :
      (fuel start j : ℕ)
      → start + align + num < 2 ^ 64
      → scan pa.bitmap pa.frame_end start num 0 ≡ done (busy j)
      → aligned_loop (suc fuel) mapped pa num align start ≡ (
          if leb pa.frame_end (start + align + num)
          then done (0, pa)
          else aligned_loop fuel mapped pa num align (start + align))
  unfolding aligned_loop
  aligned-busy fuel start j h e =
      let index : u64 (start + align) ≡ start + align = omega arith in
      let stop : u64 (start + align + num) ≡ start + align + num = omega arith in
      rw (e, index, stop)

  module _ (fits : pa.frame_end ≤ frame_count) (some_page : 0 < num) (positive : 0 < align)
      (small_num : num < 2 ^ 60) (small_align : align < 2 ^ 60) where
    aligned_round :
        (fuel start : ℕ) (r : ScanEnd)
        → start < 2 ^ 61
        → scan pa.bitmap pa.frame_end start num 0 ≡ done r
        → Found pa.bitmap pa.frame_end start 0 (start + 0 + num) r
        → (start + align + num < pa.frame_end
            → AlignedAnswer mapped pa num align
                (start + align)
                (aligned_loop fuel mapped pa num align (start + align)))
        → AlignedAnswer mapped pa num align start
            (aligned_loop (suc fuel) mapped pa num align start)
    aligned_round fuel start beyond small e found rest =
        rw (aligned-beyond fuel start e) (give_up start (λ u h. absurd (omega (arith, found))))
    aligned_round fuel start clear small e found rest =
        let a : Available pa.bitmap pa.frame_end start (start + num) = record {
          managed = λ lt. omega (arith, found.managed (omega arith));
          unused = λ g p q. found.unused g (omega arith) (omega arith);
        } in
        let bound : start + num ≤ pa.frame_end = a.managed (omega arith) in
        let (ptr, pa', takes, t) =
          take_frames-Taken mapped pa start num (omega arith) (omega arith) a in
        (
          ptr,
          pa',
          aligned-clear fuel start e ∙ takes,
          inl (record {
            steps = 0;
            took = subst (λ s. Taken mapped pa num s ptr pa') (omega arith) t;
            first = λ u h. absurd (omega arith);
          }),
        )
    aligned_round fuel start (busy j) small e found rest =
        let b : Blocked pa num start = record {
          frame = start + j;
          in_run = (omega arith, omega (arith, found));
          taken = inl found.3;
        } in
        elim (Bool-cases (leb pa.frame_end (start + align + num))) [
          | inl last ↦
              rw (aligned-busy fuel start j (omega arith) e, last)
                (give_up start (
                  no_run_suc start b (λ u h.
                    absurd (omega (arith, leb→le pa.frame_end (start + align + num) last)))))
          | inr more ↦
              rw (aligned-busy fuel start j (omega arith) e, more)
                (next_candidate start b (rest (leb→gt pa.frame_end (start + align + num) more)))
        ]

    aligned_loop-AlignedAnswer :
        (fuel start : ℕ)
        → start < 2 ^ 61
        → (start ≤ pa.frame_end) ⊎ (0 < fuel)
        → pa.frame_end < start + fuel
        → AlignedAnswer mapped pa num align start (aligned_loop fuel mapped pa num align start)
    aligned_loop-AlignedAnswer zero start small near enough = absurd (omega arith)
    aligned_loop-AlignedAnswer (suc fuel) start small near enough =
        let (r, e, found) = scan-Found pa.bitmap pa.frame_end fits start num 0 (omega arith) in
        aligned_round fuel start r small e found (λ h.
          aligned_loop-AlignedAnswer fuel (start + align) (omega arith) (inl (omega arith))
            (omega arith))

-- With the last managed frame inside the bitmap, `alloc_aligned_pages` always returns, for at least
-- one page (and fewer than 2^60) and a positive multiple of the page size below 2^63. Either it
-- returns NULL and changes nothing, and then every run at a multiple of the alignment that ends
-- before the last managed frame is blocked; or it returns the address of the first such run, which
-- starts at a multiple of the alignment, and whose frames become used.
pub alloc_aligned_pages_lem :
    (mapped : Bool) (pa : PageAllocator) (num align : ℕ)
    → pa.frame_end ≤ frame_count
    → 0 < num
    → num < 2 ^ 60
    → 0 < align
    → align < 2 ^ 51
    → AlignedAnswer mapped pa num align align
        (alloc_aligned_pages mapped pa num (align * page_size))
unfolding alloc_aligned_pages
alloc_aligned_pages_lem mapped pa num align fits some_page small positive bound =
    let multiple : align * page_size % page_size ≡ 0 = omega arith in
    let frames : frames_of (align * page_size) ≡ align = omega arith in
    rw (multiple, frames)
      (aligned_loop-AlignedAnswer mapped pa num align fits some_page positive small (omega arith)
        (pa.frame_end + 1) align (omega arith) (inr (omega arith)) (omega arith))
