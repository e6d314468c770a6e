-- ===== src/PageAlloc/Scan.antt =====
-- What the inner loop of the two allocation functions finds.
use ymirc.Prelude.{
  ℕ, zero, suc, ◌+◌, ◌≤◌, ◌<◌, ◌^◌, ◌≡◌, refl, arith, u64, leb, leb→le, leb→gt, ◌==◌, ==_iff,
}
use ymirc.Prelude.{true, false, Bool-cases, inl, inr, done, if◌then◌else◌, ◌∙◌}
use ymirc.PageAlloc.{Bitmap, ScanEnd, beyond, busy, clear, scan, frame_count}
use ymirc.PageAlloc.Status.{frame_used, frame_status_at_lem}

-- The frames from `lo` up to `hi` are unused and managed.
pub record Available (bitmap : Bitmap) (frame_end lo hi : ℕ) : Type 0 where
  pub managed : lo < hi → hi ≤ frame_end
  pub unused : (g : ℕ) → lo ≤ g → g < hi → frame_used bitmap g ≡ false

-- What each end of the loop says of the frames from `start + i` up to `stop`.
abbrev pub Found : Bitmap → ℕ → ℕ → ℕ → ℕ → ScanEnd → Type 0
Found bitmap frame_end start i stop beyond = (start + i < stop) × (frame_end < stop)
Found bitmap frame_end start i stop (busy j) =
    (i ≤ j)
    × (start + j < stop)
    × (start + j < frame_end)
    × (frame_used bitmap (start + j) ≡ true)
    × Available bitmap frame_end (start + i) (start + j)
Found bitmap frame_end start i stop clear = Available bitmap frame_end (start + i) stop

Available-cons :
    (bitmap : Bitmap) (frame_end start i stop : ℕ)
    → start + i < frame_end
    → frame_used bitmap (start + i) ≡ false
    → Available bitmap frame_end (start + (i + 1)) stop
    → Available bitmap frame_end (start + i) stop
Available-cons bitmap frame_end start i stop h free a = record {
  managed = λ lt. ground (arith, a.managed);
  unused = λ g p q. elim (Bool-cases (g == start + i)) [
    | inl e ↦ rw (((==_iff g (start + i)).0 e)) free
    | inr ne ↦ a.unused g (ground arith) q
  ];
}

-- A free frame in front extends what was found.
Found-cons :
    (bitmap : Bitmap) (frame_end start i stop : ℕ) (r : ScanEnd)
    → start + i < frame_end
    → frame_used bitmap (start + i) ≡ false
    → Found bitmap frame_end start (i + 1) stop r
    → Found bitmap frame_end start i stop r
Found-cons bitmap frame_end start i stop beyond h free f = (omega arith, f.1)
Found-cons bitmap frame_end start i stop (busy j) h free f =
    (omega arith, f.1, f.2, f.3, Available-cons bitmap frame_end start i (start + j) h free f.4)
Found-cons bitmap frame_end start i stop clear h free f =
    Available-cons bitmap frame_end start i stop h free f

module _ (bitmap : Bitmap) (frame_end : ℕ) (fits : frame_end ≤ frame_count) where
  scan-beyond :
      (start left i : ℕ)
      → start + i < 2 ^ 64
      → frame_end ≤ start + i
      → scan bitmap frame_end start (suc left) i ≡ done beyond
  unfolding scan
  scan-beyond start left i h out =
      let index : u64 (start + i) ≡ start + i = omega arith in rw index (ground arith)

  scan-suc :
      (start left i : ℕ)
      → start + i < frame_end
      → scan bitmap frame_end start (suc left) i ≡ (
          if frame_used bitmap (start + i)
          then done (busy i)
          else scan bitmap frame_end start left (i + 1))
  unfolding scan
  scan-suc start left i h =
      let index : u64 (start + i) ≡ start + i = omega arith in
      let status = frame_status_at_lem bitmap (start + i) (omega arith) in
      rw (index, status) (ground arith)

  Found-inside :
      (start left i : ℕ)
      → start + i < frame_end
      → ((r : ScanEnd) × (scan bitmap frame_end start left (i + 1) ≡ done r)
          × Found bitmap frame_end start (i + 1) (start + (i + 1) + left) r)
      → (r : ScanEnd) × (scan bitmap frame_end start (suc left) i ≡ done r)
        × Found bitmap frame_end start i (start + i + suc left) r
  Found-inside start left i h (r, rest, found) = elim (Bool-cases (frame_used bitmap (start + i))) [
    | inl taken ↦ (
      busy i,
      scan-suc start left i h ∙ rw taken,
      (
        omega arith,
        omega arith,
        h,
        taken,
        record { managed = λ lt. absurd (omega arith); unused = λ g p q. absurd (omega arith) },
      ),
    )
    | inr free ↦ (
      r,
      scan-suc start left i h ∙ rw free rest,
      Found-cons bitmap frame_end start i (start + i + suc left) r h free (rw (← same) found),
    )
  ]
    where
      same : start + (i + 1) + left ≡ start + i + suc left
      same = omega arith

  -- The loop ends within its rounds and reads nothing out of range; each end tells what it found.
  pub scan-Found :
      (start left i : ℕ)
      → start + i < 2 ^ 63
      → (r : ScanEnd) × (scan bitmap frame_end start left i ≡ done r)
        × Found bitmap frame_end start i (start + i + left) r
  scan-Found start zero i h = (
    clear,
    unfold scan in refl,
    record { managed = λ lt. absurd (omega arith); unused = λ g p q. absurd (omega arith) },
  )
  scan-Found start (suc left) i h = elim (Bool-cases (leb frame_end (start + i))) [
    | inl out ↦ (
      beyond,
      scan-beyond start left i (omega arith) (leb→le frame_end (start + i) out),
      (omega arith, omega (arith, leb→le frame_end (start + i) out)),
    )
    | inr inside ↦
        Found-inside start left i (leb→gt frame_end (start + i) inside)
          (scan-Found start left (i + 1) (omega (arith, leb→gt frame_end (start + i) inside)))
  ]
