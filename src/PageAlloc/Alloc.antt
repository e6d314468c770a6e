-- ===== src/PageAlloc/Alloc.antt =====
-- `alloc` against its contract: first fit over the managed frames.
use native.Mathlib.Decide.{dec_le}
use ymirc.Prelude.{ℕ, zero, suc, ◌+◌, ◌-◌, ◌*◌, ◌≤◌, ◌<◌, ◌^◌, ◌≡◌, refl, ◌∙◌, arith}
use ymirc.Prelude.{Bool, true, ◌⊎◌, inl, inr, Outcome, done, u64}
use ymirc.Mem.{page_size, phys2virt}
use ymirc.PageAlloc.{PageAllocator, Bitmap, ScanEnd, beyond, busy, clear, scan, frame_count, used}
use ymirc.PageAlloc.{mark, mark_allocated, take_frames, alloc_loop, alloc, frames_of}
use ymirc.PageAlloc.Status.{frame_used, Marked, mark_lem}
use ymirc.PageAlloc.Scan.{Available, Found, scan-Found}

-- No run of `num` available frames starts at `k`: one of the frames is used, or not managed.
pub record Blocked (pa : PageAllocator) (num k : ℕ) : Type 0 where
  pub frame : ℕ
  pub in_run : (k ≤ frame) × (frame < k + num)
  pub taken : (frame_used pa.bitmap frame ≡ true) ⊎ (pa.frame_end ≤ frame)

-- `ptr` is the first byte of `num` frames that were available and are now used; nothing else
-- has changed.
pub record Taken (mapped : Bool) (pa : PageAllocator) (num start ptr : ℕ) (pa' : PageAllocator)
    : Type 0 where
  pub pointer : ptr ≡ phys2virt mapped (start * page_size)
  pub available : Available pa.bitmap pa.frame_end start (start + num)
  pub marked : Marked used pa.bitmap start num pa'.bitmap
  pub frame_end_same : pa'.frame_end ≡ pa.frame_end
  pub reserved_same : pa'.reserved ≡ pa.reserved

take_frames_lem :
    (mapped : Bool) (pa : PageAllocator) (start num : ℕ) {b : Bitmap}
    → start ≤ frame_count
    → mark used pa.bitmap start num 0 ≡ done b
    → take_frames mapped pa start num
      ≡ done (phys2virt mapped (start * page_size), record pa { bitmap = b })
unfolding take_frames mark_allocated
take_frames_lem mapped pa start num h marks =
    let address : u64 (start * page_size) ≡ start * page_size = omega arith in rw (marks, address)

pub take_frames-Taken :
    (mapped : Bool) (pa : PageAllocator) (start num : ℕ)
    → start ≤ frame_count
    → start + num ≤ frame_count
    → Available pa.bitmap pa.frame_end start (start + num)
    → (ptr : ℕ) × (pa' : PageAllocator) × (take_frames mapped pa start num ≡ done (ptr, pa'))
      × Taken mapped pa num start ptr pa'
take_frames-Taken mapped pa start num small fits a =
    let (b, marks, m) = mark_lem used pa.bitmap start num fits in
    (
      phys2virt mapped (start * page_size),
      record pa { bitmap = b },
      take_frames_lem mapped pa start num small marks,
      record {
        pointer = refl;
        available = a;
        marked = m;
        frame_end_same = refl;
        reserved_same = refl;
      },
    )

-- The first run from `lo` on was taken.
pub record FirstFit (mapped : Bool) (pa : PageAllocator) (num lo ptr : ℕ) (pa' : PageAllocator)
    : Type 0 where
  pub start : ℕ
  pub from : lo ≤ start
  pub took : Taken mapped pa num start ptr pa'
  pub first : (k : ℕ) → lo ≤ k → k < start → Blocked pa num k

-- There was no run from `lo` on, and nothing has changed.
pub record NoFit (pa : PageAllocator) (num lo ptr : ℕ) (pa' : PageAllocator) : Type 0 where
  pub null : ptr ≡ 0
  pub unchanged : pa' ≡ pa
  pub no_run : (k : ℕ) → lo ≤ k → Blocked pa num k

abbrev pub Answer : Bool → PageAllocator → ℕ → ℕ → Outcome (ℕ × PageAllocator) → Type 0
Answer mapped pa num lo out =
    (ptr : ℕ) × (pa' : PageAllocator) × (out ≡ done (ptr, pa'))
    × (FirstFit mapped pa num lo ptr pa' ⊎ NoFit pa num lo ptr pa')

module _ (mapped : Bool) (pa : PageAllocator) (num : ℕ) (fits : pa.frame_end ≤ frame_count) where
  -- The frame that ends the scan at `j` blocks every run that starts at or before it.
  Blocked-upto :
      (start j k : ℕ)
      → start + j < start + num
      → frame_used pa.bitmap (start + j) ≡ true
      → start ≤ k
      → k ≤ start + j
      → Blocked pa num k
  Blocked-upto start j k h taken p q = record {
    frame = start + j;
    in_run = (q, omega arith);
    taken = inl taken;
  }

  Blocked-beyond :
      (start k : ℕ) → 0 < num → pa.frame_end < start + num → start ≤ k → Blocked pa num k
  Blocked-beyond start k pos h p = record {
    frame = k + num - 1;
    in_run = (omega arith, omega arith);
    taken = inr (omega arith);
  }

  -- After a used frame at `j` the search goes on behind it.
  skip :
      (start j : ℕ) {out : Outcome (ℕ × PageAllocator)}
      → ((k : ℕ) → start ≤ k → k ≤ start + j → Blocked pa num k)
      → Answer mapped pa num (start + (j + 1)) out
      → Answer mapped pa num start out
  skip start j before (ptr, pa', e, inl f) = (
    ptr,
    pa',
    e,
    inl (record {
      start = f.start;
      from = omega (arith, f.from);
      took = f.took;
      first = λ k p q. elim (dec_le k (start + j)) [
        | yes le ↦ before k p le
        | no gt ↦ f.first k (omega arith) q
      ];
    }),
  )
  skip start j before (ptr, pa', e, inr f) = (
    ptr,
    pa',
    e,
    inr (record {
      null = f.null;
      unchanged = f.unchanged;
      no_run = λ k p. elim (dec_le k (start + j)) [
        | yes le ↦ before k p le
        | no gt ↦ f.no_run k (omega arith)
      ];
    }),
  )

  alloc_loop-clear :
      (fuel start : ℕ)
      → scan pa.bitmap pa.frame_end start num 0 ≡ done clear
      → alloc_loop (suc fuel) mapped pa num start ≡ take_frames mapped pa start num
  unfolding alloc_loop
  alloc_loop-clear fuel start e = rw e

  alloc_loop-beyond :
      (fuel start : ℕ)
      → scan pa.bitmap pa.frame_end start num 0 ≡ done beyond
      → alloc_loop (suc fuel) mapped pa num start ≡ done (0, pa)
  unfolding alloc_loop
  alloc_loop-beyond fuel start e = rw e

  alloc_loop-busy :
      (fuel start j : ℕ)
      → start + (j + 1) < 2 ^ 64
      → scan pa.bitmap pa.frame_end start num 0 ≡ done (busy j)
      → alloc_loop (suc fuel) mapped pa num start ≡ alloc_loop fuel mapped pa num (start + (j + 1))
  unfolding alloc_loop
  alloc_loop-busy fuel start j h e =
      let index : u64 (start + (j + 1)) ≡ start + (j + 1) = omega arith in rw (e, index)

  -- One round, given what the rounds after a used frame return.
  alloc_round :
      (fuel start : ℕ) (r : ScanEnd)
      → start ≤ frame_count
      → scan pa.bitmap pa.frame_end start num 0 ≡ done r
      → Found pa.bitmap pa.frame_end start 0 (start + 0 + num) r
      → ((j : ℕ)
          → start + j < pa.frame_end
          → Answer mapped pa num
              (start + (j + 1))
              (alloc_loop fuel mapped pa num (start + (j + 1))))
      → Answer mapped pa num start (alloc_loop (suc fuel) mapped pa num start)
  alloc_round fuel start beyond small e found rest = (
    0,
    pa,
    alloc_loop-beyond fuel start e,
    inr (record {
      null = refl;
      unchanged = refl;
      no_run = λ k p. Blocked-beyond start k (omega (arith, found)) (omega (arith, found)) p;
    }),
  )
  alloc_round fuel start (busy j) small e found rest =
      rw (alloc_loop-busy fuel start j (omega (arith, found)) e) (
        skip start j (λ k p q. Blocked-upto start j k (omega (arith, found)) found.3 p q)
          (rest j found.2))
  alloc_round fuel start clear small e found rest =
      let a : Available pa.bitmap pa.frame_end start (start + num) = record {
        managed = λ lt. omega (arith, found.managed (omega arith));
        unused = λ g p q. found.unused g (omega arith) (omega arith);
      } in
      let (ptr, pa', takes, t) =
        take_frames-Taken mapped pa start num small (ground (arith, a.managed)) a in
      (
        ptr,
        pa',
        alloc_loop-clear fuel start e ∙ takes,
        inl (record {
          start = start;
          from = omega arith;
          took = t;
          first = λ k p q. absurd (omega arith);
        }),
      )

  alloc_loop-Answer :
      (fuel start : ℕ)
      → start ≤ frame_count
      → start ≤ pa.frame_end + 1
      → pa.frame_end + 1 < start + fuel
      → Answer mapped pa num start (alloc_loop fuel mapped pa num start)
  alloc_loop-Answer zero start small near enough = absurd (omega arith)
  alloc_loop-Answer (suc fuel) start small near enough =
      let (r, e, found) = scan-Found pa.bitmap pa.frame_end fits start num 0 (omega arith) in
      alloc_round fuel start r small e found
        (λ j h. alloc_loop-Answer fuel (start + (j + 1)) (omega arith) (omega arith) (omega arith))

-- With the last managed frame inside the bitmap, `alloc` always returns. Either it returns NULL and
-- changes nothing, and then no run of as many frames as asked for, from frame 1 on, is both managed
-- and unused; or it returns the address of the first such run, whose frames become used, and
-- nothing else changes.
pub alloc_lem :
    (mapped : Bool) (pa : PageAllocator) (n : ℕ)
    → pa.frame_end ≤ frame_count
    → Answer mapped pa (frames_of n) 1 (alloc mapped pa n)
alloc_lem mapped pa n fits =
    unfold alloc in
    alloc_loop-Answer mapped pa (frames_of n) fits (pa.frame_end + 1) 1 (omega arith) (omega arith)
      (omega arith)
