-- ===== src/PageAlloc/Boot/Steps.antt =====
-- One range of frames that the memory map reserves or frees.
use mathlib.Core.Path.{subst}
use ymirc.Prelude.{
  ℕ, ◌+◌, ◌^◌, ◌≤◌, ◌<◌, ◌≡◌, refl, arith, Bool, true, false, leb, if◌then◌else◌, List, [], ◌∷◌,
  ◌++◌, length, length-append, Outcome, done, ◌>>=◌,
}
use ymirc.PageAlloc.{
  Bitmap, PageAllocator, UefiReservedRegion, used, unused, frame_count, max_uefi_reserved_regions,
  add_reserved_region, overlaps_any, mark_allocated, mark_not_used, mark_uefi_reserved,
}
use ymirc.PageAlloc.Status.{frame_used, mark_lem, within}
use ymirc.PageAlloc.Reserved.{AllHeld, IsHeld, AllHeld-used, AllHeld-unused}

-- The regions end at or before frame `e`.
abbrev pub AllBelow : ℕ → List UefiReservedRegion → Type 0
AllBelow e [] = Unit
AllBelow e (r ∷ rs) = (r.frame + r.num_frames ≤ e) × AllBelow e rs

-- Everything below frame `e` is settled.
pub record Settled (e : ℕ) (pa : PageAllocator) : Type 0 where
  pub held : AllHeld pa.bitmap pa.reserved
  pub below : AllBelow e pa.reserved

-- The frames from `f` up to `e` got a status; the others kept theirs.
pub record Extended (f e : ℕ) (status : Bool) (pa pa' : PageAllocator) : Type 0 where
  pub settled : Settled e pa'
  pub at :
      (g : ℕ) → frame_used pa'.bitmap g ≡ (if within f e g then status else frame_used pa.bitmap g)
  pub room : length pa'.reserved ≤ length pa.reserved + 1

AllBelow-le : (e e' : ℕ) (rs : List UefiReservedRegion) → e ≤ e' → AllBelow e rs → AllBelow e' rs
AllBelow-le e e' [] h b = tt
AllBelow-le e e' (r ∷ rs) h (b, bs) = (omega (arith, b), AllBelow-le e e' rs h bs)

AllBelow-append :
    (e : ℕ) (rs : List UefiReservedRegion) (r : UefiReservedRegion)
    → AllBelow e rs
    → r.frame + r.num_frames ≤ e
    → AllBelow e (rs ++ (r ∷ []))
AllBelow-append e [] r b h = (h, tt)
AllBelow-append e (s ∷ rs) r (b, bs) h = (b, AllBelow-append e rs r bs h)

AllHeld-append :
    (bitmap : Bitmap) (rs : List UefiReservedRegion) (r : UefiReservedRegion)
    → AllHeld bitmap rs
    → IsHeld bitmap r
    → AllHeld bitmap (rs ++ (r ∷ []))
AllHeld-append bitmap [] r h new = (new, tt)
AllHeld-append bitmap (s ∷ rs) r (h, hs) new = (h, AllHeld-append bitmap rs r hs new)

AllBelow-apart :
    (f n : ℕ) (rs : List UefiReservedRegion)
    → f + n < 2 ^ 64
    → AllBelow f rs
    → overlaps_any rs f (f + n) ≡ false
unfolding overlaps_any
AllBelow-apart f n [] small b = refl
AllBelow-apart f n (r ∷ rs) small (b, bs) = ground (arith, b, AllBelow-apart f n rs small bs)

module _ (pa : PageAllocator) (f n : ℕ) (fits : f + n ≤ frame_count) (settled : Settled f pa) where
  pub mark_not_used_lem :
      (pa' : PageAllocator) × (mark_not_used pa f n ≡ done pa') × Extended f (f + n) false pa pa'
  unfolding mark_not_used
  mark_not_used_lem =
      let (b, e, m) = mark_lem unused pa.bitmap f n fits in
      (
        record pa { bitmap = b },
        rw e refl,
        record {
          settled = record {
            held =
                AllHeld-unused pa.bitmap b f n pa.reserved m
                  (AllBelow-apart f n pa.reserved (omega arith) settled.below) settled.held;
            below = AllBelow-le f (f + n) pa.reserved (omega arith) settled.below;
          };
          at = m.at;
          room = omega arith;
        },
      )

  pub mark_uefi_reserved_lem :
      0 < n
      → length pa.reserved < max_uefi_reserved_regions
      → (pa' : PageAllocator) × (mark_uefi_reserved pa f n ≡ done pa')
        × Extended f (f + n) true pa pa'
  unfolding mark_uefi_reserved mark_allocated add_reserved_region
  mark_uefi_reserved_lem pos room =
      let (b, e, m) = mark_lem used pa.bitmap f n fits in
      let free : leb max_uefi_reserved_regions (length pa.reserved) ≡ false = ground arith in
      let new : UefiReservedRegion = record { frame = f; num_frames = n } in
      (
        record pa { bitmap = b; reserved = pa.reserved ++ (new ∷ []) },
        rw (e, free) refl,
        record {
          settled = record {
            held =
                AllHeld-append b pa.reserved new
                  (AllHeld-used pa.bitmap b f n pa.reserved m settled.held)
                  (record {
                    inhabited = pos;
                    covered = fits;
                    held = λ g p q. ground (arith, m.at g);
                  });
            below =
                AllBelow-append (f + n) pa.reserved new
                  (AllBelow-le f (f + n) pa.reserved (omega arith) settled.below) (omega arith);
          };
          at = m.at;
          room = omega (arith, length-append pa.reserved (new ∷ []));
        },
      )

-- The frames from `f` up to `g`, by the steps that a call `x` stands for.
abbrev pub Reaches : ℕ → ℕ → Bool → PageAllocator → Outcome PageAllocator → Type 0
Reaches f g status pa x = (pa' : PageAllocator) × (x ≡ done pa') × Extended f g status pa pa'

pub reserve_lem :
    (pa : PageAllocator) (f g n : ℕ)
    → f + n ≡ g
    → g ≤ frame_count
    → Settled f pa
    → 0 < n
    → length pa.reserved < max_uefi_reserved_regions
    → Reaches f g true pa (mark_uefi_reserved pa f n)
reserve_lem pa f g n e fits settled pos room =
    subst (λ t. Reaches f t true pa (mark_uefi_reserved pa f n)) e
      (mark_uefi_reserved_lem pa f n (omega arith) settled pos room)

-- A step that ends with a flag.
pub flagged :
    (f g : ℕ) (status flag : Bool) (pa : PageAllocator) (x : Outcome PageAllocator)
    → Reaches f g status pa x
    → (pa' : PageAllocator) × (◌>>=◌ {B = Bool × PageAllocator} x (λ p. done (flag, p))
        ≡ done (flag, pa'))
      × Extended f g status pa pa'
flagged f g status flag pa x (pa', e, ext) = (pa', rw e refl, ext)
