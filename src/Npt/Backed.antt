-- ===== src/Npt/Backed.antt =====
-- ymirc/page_allocator.c under svm_npt.c: `pa_ops` as the kernel's own page allocator.
use ymirc.Prelude.{
  ℕ, zero, suc, ◌+◌, ◌-◌, ◌*◌, ◌/◌, ◌%◌, ◌^◌, ◌≤◌, ◌<◌, ◌≡◌, ◌≢◌, ◌⊎◌, inl, inr, refl, sym, ap, ◌∙◌,
  arith, Bool, true, Bool-cases, ◌==◌, if◌then◌else◌, done,
}
use ymirc.Mem.{page_size, page_size_2mb, phys2virt}
use ymirc.PageAlloc.{Bitmap, PageAllocator, alloc_aligned_pages}
use ymirc.PageAlloc.Status.{frame_used}
use ymirc.PageAlloc.Alloc.{Taken, Blocked}
use ymirc.PageAlloc.Aligned.{alloc_aligned_pages_lem, AlignedFit, NoAlignedFit, AlignedAnswer}
use ymirc.PageAlloc.Reserved.{IsSafe, AllHeld-used}
use ymirc.Npt.{TableSource, Memory, init_npt}
use ymirc.Npt.Grow.{NewFrame, Supplies}
use ymirc.Npt.Init.{host_address, init_npt_lem}
use ymirc.Npt.Walk.{ram, translate}

abbrev pub page_allocator_ops : Bool → TableSource PageAllocator
page_allocator_ops mapped = record {
  alloc_aligned_pages = λ num_pages align_size s. alloc_aligned_pages mapped s num_pages align_size;
}

-- The unused frames among the `n` that follow frame 0.
unfoldable pub count_free : Bitmap → ℕ → ℕ
count_free bitmap zero = 0
count_free bitmap (suc n) =
    let rest = count_free bitmap n in if frame_used bitmap (suc n) then rest else rest + 1

count_free-none :
    (bitmap : Bitmap) (n : ℕ)
    → ((f : ℕ) → 0 < f → f ≤ n → frame_used bitmap f ≡ true)
    → count_free bitmap n ≡ 0
unfolding count_free
count_free-none bitmap zero all = refl
count_free-none bitmap (suc n) all =
    rw
      (
        all (suc n) (omega arith) (omega arith),
        count_free-none bitmap n (λ f p q. all f p (omega (arith, q))),
      )
      refl

-- Only frame `g` may have changed.
count_free-mark :
    (bitmap b : Bitmap) (g n : ℕ)
    → ((f : ℕ) → f ≢ g → frame_used b f ≡ frame_used bitmap f)
    → (count_free bitmap n ≤ count_free b n + 1) × (n < g → count_free bitmap n ≡ count_free b n)
unfolding count_free
count_free-mark bitmap b g zero same = (omega arith, λ h. refl)
count_free-mark bitmap b g (suc n) same = elim (Bool-cases (suc n == g)) [
  | inl here ↦
      let e : suc n ≡ g = ground arith in
      let (le, before) = count_free-mark bitmap b g n same in
      let rest : count_free bitmap n ≡ count_free b n = before (omega arith) in
      (ground arith, λ h. absurd (omega arith))
  | inr other ↦
      let e : frame_used b (suc n) ≡ frame_used bitmap (suc n) = same (suc n) (ground arith) in
      let (le, before) = count_free-mark bitmap b g n same in
      rw e (ground arith, λ h. rw (before (omega arith)) refl)
]

-- The answer for one page.
module _ (mapped : Bool) (s : PageAllocator) (safe : IsSafe s) where
  abbrev pub Supply : Type 0
  Supply =
      (ptr : ℕ) × (s' : PageAllocator) × (alloc_aligned_pages mapped s 1 page_size ≡ done (ptr, s'))
      × (((ptr ≡ 0) × (count_free s.bitmap (s.frame_end - 2) ≡ 0))
          ⊎ ((f : ℕ) × (ptr ≡ phys2virt mapped (f * page_size))
              × NewFrame (λ g. frame_used s.bitmap g) (λ g. frame_used s'.bitmap g) f
              × IsSafe s'
              × (count_free s.bitmap (s.frame_end - 2)
                  ≤ count_free s'.bitmap (s'.frame_end - 2) + 1)))

  none_free :
      (s' : PageAllocator) (ptr : ℕ)
      → NoAlignedFit s 1 1 1 ptr s'
      → count_free s.bitmap (s.frame_end - 2) ≡ 0
  none_free s' ptr none_fit = count_free-none s.bitmap (s.frame_end - 2) (λ f p q.
      let f-1 : 1 + 1 * (f - 1) ≡ f = omega arith in
      used_at f (none_fit.no_run (f - 1) (omega (arith, q))) (omega arith) q)
    where
      used_at :
          (f : ℕ)
          → Blocked s 1 (1 + 1 * (f - 1))
          → 0 < f
          → f ≤ s.frame_end - 2
          → frame_used s.bitmap f ≡ true
      used_at f b p q =
          let at : b.frame ≡ f = omega (arith, b.in_run) in
          elim b.taken [
            | inl u ↦ sym (ap (frame_used s.bitmap) at) ∙ u
            | inr out ↦ absurd (omega (arith, out, at, p, q))
          ]

  one_frame :
      (ptr : ℕ) (s' : PageAllocator)
      → alloc_aligned_pages mapped s 1 page_size ≡ done (ptr, s')
      → AlignedFit mapped s 1 1 1 ptr s'
      → Supply
  one_frame ptr s' e fit = (ptr, s', e, inr (f, took.pointer, new, safe', cost))
    where
      f : ℕ
      f = 1 + 1 * fit.steps

      took : Taken mapped s 1 f ptr s'
      took = fit.took

      cost : count_free s.bitmap (s.frame_end - 2) ≤ count_free s'.bitmap (s'.frame_end - 2) + 1
      cost = rw took.frame_end_same (
          let (le, _) =
            count_free-mark s.bitmap s'.bitmap f (s.frame_end - 2)
              (λ g ne. ground (arith, took.marked.at g, ne)) in
          le)

      last : f + 1 ≤ s.frame_end
      last = took.available.managed (omega arith)

      new : NewFrame (λ g. frame_used s.bitmap g) (λ g. frame_used s'.bitmap g) f
      new = record {
        small = omega (arith, last, safe.fits);
        positive = omega arith;
        fresh = took.available.unused f (omega arith) (omega arith);
        taken = ground (arith, took.marked.at f);
        kept = λ g u. ground (arith, took.marked.at g, u);
      }

      safe' : IsSafe s'
      safe' = record {
        fits = rw took.frame_end_same safe.fits;
        all_held =
            rw took.reserved_same
              (AllHeld-used s.bitmap s'.bitmap f 1 s.reserved took.marked safe.all_held);
      }

pub page_allocator_supply :
    (mapped : Bool) (s : PageAllocator) (safe : IsSafe s) → Supply mapped s safe
page_allocator_supply mapped s safe = answer (
    alloc_aligned_pages_lem mapped s 1 1 safe.fits (omega arith) (omega arith) (omega arith)
      (omega arith))
  where
    answer :
        AlignedAnswer mapped s 1 1 1 (alloc_aligned_pages mapped s 1 page_size)
        → Supply mapped s safe
    answer (ptr, s', e, inl fit) = one_frame mapped s safe ptr s' e fit
    answer (ptr, s', e, inr none_fit) =
        (ptr, s', e, inl (none_fit.null, none_free mapped s safe s' ptr none_fit))

abbrev pub page_allocator_supplies : (mapped : Bool) → Supplies mapped (page_allocator_ops mapped)
page_allocator_supplies mapped = record {
  IsGood = IsSafe;
  used = λ s f. frame_used s.bitmap f;
  free = λ s. count_free s.bitmap (s.frame_end - 2);
  supply = page_allocator_supply mapped;
}

-- `init_npt` over the page allocator, for starts at multiples of 2 MiB, a guest range within 2^48
-- and a host range within 2^51: in a safe state with more free frames than two for each page of 2
-- MiB it returns, leaves a safe state, and the processor that walks the tables from the address
-- returned translates every guest address as `host_address` says: those in the whole pages of the
-- range to the host's address as far from the start, and no others.
pub init_npt_backed :
    (mapped : Bool) (guest_start host_start size : ℕ) (m : Memory PageAllocator)
    → guest_start % page_size_2mb ≡ 0
    → host_start % page_size_2mb ≡ 0
    → guest_start + size ≤ 2 ^ 48
    → host_start + size ≤ 2 ^ 51
    → IsSafe m.pages
    → size / page_size_2mb * 2 < count_free m.pages.bitmap (m.pages.frame_end - 2)
    → (n_cr3 : ℕ) × (m' : Memory PageAllocator) × (init_npt mapped
          (page_allocator_ops mapped)
          guest_start
          host_start
          size
          m
        ≡ done (n_cr3, m'))
      × (n_cr3 % page_size ≡ 0)
      × IsSafe m'.pages
      × ((gpa : ℕ)
          → translate (ram mapped m') n_cr3 gpa ≡ host_address guest_start host_start size gpa)
init_npt_backed mapped guest_start host_start size m ga ha guest host safe enough =
    elim (init_npt_lem mapped (page_allocator_ops mapped) (page_allocator_supplies mapped)
      guest_start host_start size m ga ha guest host safe) [
        | inl (few, e) ↦ absurd (omega (arith, few, enough))
        | inr (n_cr3, m', e, nested) ↦
            (n_cr3, m', e, nested.aligned, nested.good, nested.maps_memory)
      ]
