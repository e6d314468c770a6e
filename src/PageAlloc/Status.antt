-- ===== src/PageAlloc/Status.antt =====
-- Which frames the bitmap counts as used, and what marking a range does to that.
use ymirc.Prelude.{ℕ, zero, suc, ◌+◌, ◌/◌, ◌%◌, ◌^◌, ◌≤◌, ◌<◌, ◌==◌, ltb, leb}
use ymirc.Prelude.{◌≡◌, refl, ◌∙◌, arith, u64}
use ymirc.Prelude.{Bool, ◌&&◌, if◌then◌else◌, Outcome, done}
use ymirc.Bits.{isset}
use ymirc.Bits.Single.{truth-bit_and-tobit, isset-set, isset-clear}
use ymirc.PageAlloc.{Bitmap, FrameStatus, used, unused, is_used, frame_count, line_index}
use ymirc.PageAlloc.{frame_status_at, set_frame_status, mark, update, new_line}

-- The bit of a frame, for the frames that the bitmap covers.
unfoldable pub frame_used : Bitmap → ℕ → Bool
frame_used bitmap frame = isset (bitmap (frame / 64)) (frame % 64)

abbrev pub status_of : Bool → FrameStatus
status_of b = if b then used else unused

line_index_small : (f : ℕ) → f < frame_count → line_index f ≡ f / 64
line_index_small f h = omega arith

-- For a frame below `frame_count` the status is its bit.
pub frame_status_at_lem :
    (bitmap : Bitmap) (f : ℕ)
    → f < frame_count
    → frame_status_at bitmap f ≡ done (status_of (frame_used bitmap f))
unfolding frame_status_at frame_used
frame_status_at_lem bitmap f h =
    rw (line_index_small f h, truth-bit_and-tobit (bitmap (f / 64)) (f % 64) (omega arith))
      (ground arith)

write_status : Bitmap → ℕ → FrameStatus → Bitmap
write_status bitmap f status = update bitmap (f / 64) (new_line (bitmap (f / 64)) (f % 64) status)

isset-new_line :
    (line k i : ℕ) (status : FrameStatus)
    → k < 64
    → i < 64
    → isset (new_line line k status) i ≡ (if k == i then is_used status else isset line i)
isset-new_line line k i used hk hi = isset-set line k i hk hi ∙ ground arith
isset-new_line line k i unused hk hi = isset-clear line k i hk hi ∙ ground arith

frame_used-write_status :
    (bitmap : Bitmap) (f g : ℕ) (status : FrameStatus)
    → frame_used (write_status bitmap f status) g
      ≡ (if f == g then is_used status else frame_used bitmap g)
unfolding frame_used write_status
frame_used-write_status bitmap f g status =
    ground
      (arith, isset-new_line (bitmap (f / 64)) (f % 64) (g % 64) status (omega arith) (omega arith))

-- Setting one status: defined for a covered frame, and it changes that frame's status only.
pub set_frame_status_lem :
    (bitmap : Bitmap) (f : ℕ) (status : FrameStatus)
    → f < frame_count
    → (b : Bitmap) × (set_frame_status bitmap f status ≡ done b)
      × ((g : ℕ) → frame_used b g ≡ (if f == g then is_used status else frame_used bitmap g))
set_frame_status_lem bitmap f status h = (
  write_status bitmap f status,
  unfold set_frame_status write_status in rw (line_index_small f h) (ground arith),
  λ g. frame_used-write_status bitmap f g status,
)

abbrev pub within : ℕ → ℕ → ℕ → Bool
within lo hi g = leb lo g && ltb g hi

-- Marking `n` frames from `f` on.
pub record Marked (status : FrameStatus) (bitmap : Bitmap) (f n : ℕ) (b : Bitmap) : Type 0 where
  pub at :
      (g : ℕ)
      → frame_used b g ≡ (if within f (f + n) g then is_used status else frame_used bitmap g)

mark-suc :
    (status : FrameStatus) (left i : ℕ) (bitmap : Bitmap) (f : ℕ) {b : Bitmap} {r : Outcome Bitmap}
    → f + i < 2 ^ 64
    → set_frame_status bitmap (f + i) status ≡ done b
    → mark status b f left (i + 1) ≡ r
    → mark status bitmap f (suc left) i ≡ r
unfolding mark
mark-suc status left i bitmap f h e rest =
    let index : u64 (f + i) ≡ f + i = omega arith in rw (index, e) rest

pub mark-Marked :
    (status : FrameStatus) (left i : ℕ) (bitmap : Bitmap) (f : ℕ)
    → f + i + left ≤ frame_count
    → (b : Bitmap) × (mark status bitmap f left i ≡ done b) × Marked status bitmap (f + i) left b
mark-Marked status zero i bitmap f h =
    (bitmap, unfold mark in refl, record { at = λ g. ground arith })
mark-Marked status (suc left) i bitmap f h =
    let (b', set, here) = set_frame_status_lem bitmap (f + i) status (omega arith) in
    let (b, marked, rest) = mark-Marked status left (i + 1) b' f (omega arith) in
    (
      b,
      mark-suc status left i bitmap f (omega arith) set marked,
      record { at = λ g. ground (arith, rest.at g, here g) },
    )

-- The whole loop over a range of frames that the bitmap covers returns, and marks exactly that
-- range.
pub mark_lem :
    (status : FrameStatus) (bitmap : Bitmap) (f n : ℕ)
    → f + n ≤ frame_count
    → (b : Bitmap) × (mark status bitmap f n 0 ≡ done b) × Marked status bitmap f n b
mark_lem status bitmap f n h =
    let (b, marked, m) = mark-Marked status n 0 bitmap f (omega arith) in
    (b, marked, record { at = λ g. ground (arith, m.at g) })
