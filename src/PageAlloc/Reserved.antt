-- ===== src/PageAlloc/Reserved.antt =====
-- The frames that the firmware reserves: what `overlaps_reserved` decides, and the invariant that
-- every reserved frame stays marked as used.
use ymirc.Prelude.{
  Bool, Bool-cases, inl, inr, ◌&&◌, ◌||◌, ltb, leb, if◌then◌else◌, ℕ, ◌+◌, ◌≤◌, ◌<◌, ◌≡◌, refl,
  arith, true, false,
}
use ymirc.Prelude.{List, [], ◌∷◌}
use ymirc.PageAlloc.{Bitmap, PageAllocator, UefiReservedRegion, used, unused}
use ymirc.PageAlloc.{overlaps_any, frame_count}
use ymirc.PageAlloc.Status.{frame_used, Marked}

-- A region that holds at least one frame, all of them covered by the bitmap and used.
pub record IsHeld (bitmap : Bitmap) (r : UefiReservedRegion) : Type 0 where
  pub inhabited : 0 < r.num_frames
  pub covered : r.frame + r.num_frames ≤ frame_count
  pub held : (g : ℕ) → r.frame ≤ g → g < r.frame + r.num_frames → frame_used bitmap g ≡ true

abbrev pub AllHeld : Bitmap → List UefiReservedRegion → Type 0
AllHeld bitmap [] = Unit
AllHeld bitmap (r ∷ rs) = IsHeld bitmap r × AllHeld bitmap rs

pub record IsSafe (pa : PageAllocator) : Type 0 where
  pub fits : pa.frame_end ≤ frame_count
  pub all_held : AllHeld pa.bitmap pa.reserved

-- Marking frames as used keeps every region held.
pub AllHeld-used :
    (bitmap b : Bitmap) (f n : ℕ) (rs : List UefiReservedRegion)
    → Marked used bitmap f n b
    → AllHeld bitmap rs
    → AllHeld b rs
AllHeld-used bitmap b f n [] m h = tt
AllHeld-used bitmap b f n (r ∷ rs) m (h, hs) = (
  record {
    inhabited = h.inhabited;
    covered = h.covered;
    held = λ g p q. ground (arith, m.at g, h.held g p q);
  },
  AllHeld-used bitmap b f n rs m hs,
)

-- So does marking as unused a range that overlaps none of them.
pub AllHeld-unused :
    (bitmap b : Bitmap) (f n : ℕ) (rs : List UefiReservedRegion)
    → Marked unused bitmap f n b
    → overlaps_any rs f (f + n) ≡ false
    → AllHeld bitmap rs
    → AllHeld b rs
unfolding overlaps_any
AllHeld-unused bitmap b f n [] m apart h = tt
AllHeld-unused bitmap b f n (r ∷ rs) m apart (h, hs) = (
  record {
    inhabited = h.inhabited;
    covered = h.covered;
    held = λ g p q. ground (arith, m.at g, h.held g p q, h.covered);
  },
  AllHeld-unused bitmap b f n rs m (ground arith) hs,
)

-- A range of unused frames overlaps no held region.
pub available_apart :
    (bitmap : Bitmap) (f n : ℕ) (rs : List UefiReservedRegion)
    → 0 < n
    → ((g : ℕ) → f ≤ g → g < f + n → frame_used bitmap g ≡ false)
    → AllHeld bitmap rs
    → overlaps_any rs f (f + n) ≡ false
unfolding overlaps_any
available_apart bitmap f n [] pos free h = refl
available_apart bitmap f n (r ∷ rs) pos free (h, hs) = ground (
  arith,
  h.held f,
  h.held r.frame,
  free f,
  free r.frame,
  h.inhabited,
  h.covered,
  available_apart bitmap f n rs pos free hs,
)

-- Frame `g` belongs to one of the regions.
unfoldable pub is_reserved : List UefiReservedRegion → ℕ → Bool
is_reserved [] g = false
is_reserved (r ∷ rs) g = (leb r.frame g && ltb g (r.frame + r.num_frames)) || is_reserved rs g

pub overlaps_any-false :
    (bitmap : Bitmap) (f n : ℕ) (rs : List UefiReservedRegion) (g : ℕ)
    → AllHeld bitmap rs
    → overlaps_any rs f (f + n) ≡ false
    → f ≤ g
    → g < f + n
    → is_reserved rs g ≡ false
unfolding overlaps_any is_reserved
overlaps_any-false bitmap f n [] g h apart low high = refl
overlaps_any-false bitmap f n (r ∷ rs) g (h, hs) apart low high =
    let rest = overlaps_any-false bitmap f n rs g hs (ground arith) low high in
    ground (arith, rest, h.covered)

pub overlaps_any-true :
    (bitmap : Bitmap) (f n : ℕ) (rs : List UefiReservedRegion)
    → 0 < n
    → AllHeld bitmap rs
    → overlaps_any rs f (f + n) ≡ true
    → (g : ℕ) × (f ≤ g) × (g < f + n) × (is_reserved rs g ≡ true)
unfolding overlaps_any is_reserved
overlaps_any-true bitmap f n [] pos h clash = absurd (ground arith)
overlaps_any-true bitmap f n (r ∷ rs) pos (h, hs) clash =
    elim (Bool-cases (ltb f (r.frame + r.num_frames) && ltb r.frame (f + n))) [
      | inl meets ↦
          let g = if ltb f r.frame then r.frame else f in
          (g, ground arith, ground (arith, meets), ground (arith, meets, h.inhabited))
      | inr apart ↦
          let (g, low, high, mine) =
            overlaps_any-true bitmap f n rs pos hs (ground (arith, apart, clash, h.covered)) in
          (g, low, high, ground (arith, mine))
    ]
