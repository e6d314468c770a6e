-- ===== src/Npt/Range.antt =====
-- The loop of `init_npt`: after `i` rounds the first `i` pages are mapped, and no others.
use ymirc.Prelude.{
  ℕ, zero, suc, ◌+◌, ◌-◌, ◌*◌, ◌^◌, ◌≤◌, ◌<◌, ◌≡◌, inl, inr, refl, ◌∙◌, arith, Bool, true, false,
  Bool-cases, ◌==◌, ◌&&◌, leb, ltb, if◌then◌else◌,
}
use ymirc.Prelude.{u64}
use ymirc.Npt.{TableSource, Memory, map2m, map_range}
use ymirc.Npt.Entries.{page_entry}
use ymirc.Npt.Tree.{Place, slot, leaf}
use ymirc.Npt.Grow.{Supplies}
use ymirc.Npt.Ensure.{Built, Grows}
use ymirc.Npt.Mapping.{same_path}
use ymirc.Npt.Step.{index4, index3, index2, Grows-bind, Grows-map, map2m_lem}

-- The number of the page of 2 MiB that three indices name.
abbrev pub page_number : ℕ → ℕ → ℕ → ℕ
page_number j k l = j * 2 ^ 18 + k * 2 ^ 9 + l

abbrev pub within : ℕ → ℕ → ℕ → Bool
within g n p = leb g p && ltb p (g + n)

-- The `n` pages from number `g` on are mapped to those from number `h` on.
pub record Covers {S : Type 0} (mapped : Bool) (pa : TableSource S) (laws : Supplies mapped pa)
    (root g h n : ℕ) (m : Memory S) : Type 0 where
  pub owner : ℕ → Place
  pub built : Built mapped pa laws owner root m
  pub leaves :
      (j k l : ℕ)
      → j < 512
      → k < 512
      → l < 512
      → leaf mapped m.words root j k l ≡ (
          if within g n (page_number j k l)
          then page_entry ((h + (page_number j k l - g)) * 2 ^ 21)
          else 0)

page_number-index :
    (p : ℕ)
    → p < 2 ^ 27
    → page_number (index4 (p * 2 ^ 21)) (index3 (p * 2 ^ 21)) (index2 (p * 2 ^ 21)) ≡ p
page_number-index p h = omega arith

same_path-page_number :
    (j k l p : ℕ)
    → j < 512
    → k < 512
    → l < 512
    → p < 2 ^ 27
    → same_path j k l (index4 (p * 2 ^ 21)) (index3 (p * 2 ^ 21)) (index2 (p * 2 ^ 21))
      ≡ (page_number j k l == p)
same_path-page_number j k l p hj hk hl hp = elim (Bool-cases (page_number j k l == p)) [
  | inl same ↦ let e : p ≡ page_number j k l = ground arith in rw (same, e) (paths j k l hj hk hl)
  | inr other ↦
      rw other
        (elim (Bool-cases
          (same_path j k l (index4 (p * 2 ^ 21)) (index3 (p * 2 ^ 21)) (index2 (p * 2 ^ 21)))) [
            | inl on ↦
                let ej : j ≡ index4 (p * 2 ^ 21) = ground arith in
                let ek : k ≡ index3 (p * 2 ^ 21) = ground arith in
                let el : l ≡ index2 (p * 2 ^ 21) = ground arith in
                let same : page_number j k l ≡ p = omega arith in absurd (ground arith)
            | inr off ↦ off
          ])
]
  where
    paths :
        (j k l : ℕ)
        → j < 512
        → k < 512
        → l < 512
        → same_path j k l
            (index4 (page_number j k l * 2 ^ 21))
            (index3 (page_number j k l * 2 ^ 21))
            (index2 (page_number j k l * 2 ^ 21))
          ≡ true
    paths j k l hj hk hl =
        let ej : index4 (page_number j k l * 2 ^ 21) ≡ j = omega arith in
        let ek : index3 (page_number j k l * 2 ^ 21) ≡ k = omega arith in
        let el : index2 (page_number j k l * 2 ^ 21) ≡ l = omega arith in
        let jj : (j == j) ≡ true = ground arith in
        let kk : (k == k) ≡ true = ground arith in
        let ll : (l == l) ≡ true = ground arith in rw (ej, ek, el, jj, kk, ll)

-- One page more at the end.
within-suc :
    (g h n p : ℕ)
    → (if p == g + n
        then page_entry ((h + n) * 2 ^ 21)
        else (if within g n p then page_entry ((h + (p - g)) * 2 ^ 21) else 0))
      ≡ (if within g (n + 1) p then page_entry ((h + (p - g)) * 2 ^ 21) else 0)
within-suc g h n p = elim (Bool-cases (p == g + n)) [
  | inl same ↦
      let e : p ≡ g + n = ground arith in
      let inside : within g (n + 1) p ≡ true = ground arith in
      let d : h + (p - g) ≡ h + n = omega arith in rw (same, inside, d)
  | inr other ↦ let e : within g (n + 1) p ≡ within g n p = ground arith in rw (other, e)
]

module _ {S : Type 0} (mapped : Bool) (pa : TableSource S) (laws : Supplies mapped pa)
    (root g h : ℕ) where
  -- A round.
  round :
      (i : ℕ) (m : Memory S)
      → g + i < 2 ^ 27
      → h + i < 2 ^ 30
      → Covers mapped pa laws root g h i m
      → Grows mapped pa laws 2 m
          (Covers mapped pa laws root g h (i + 1))
          (map2m mapped pa ((g + i) * 2 ^ 21) ((h + i) * 2 ^ 21) (slot mapped root 0) m)
  round i m hg hh cov =
      Grows-map mapped pa laws 2 m
        (map2m_lem mapped pa laws root ((g + i) * 2 ^ 21) (h + i) m hh free cov.owner cov.built)
        (λ m' more. record {
          owner = more.owner;
          built = more.built;
          leaves = λ j k l hj hk hl.
              more.leaves j k l hj hk hl
              ∙ rw (same_path-page_number j k l (g + i) hj hk hl hg, cov.leaves j k l hj hk hl)
                  (within-suc g h i (page_number j k l));
        })
    where
      free :
          leaf mapped m.words root
            (index4 ((g + i) * 2 ^ 21))
            (index3 ((g + i) * 2 ^ 21))
            (index2 ((g + i) * 2 ^ 21))
          ≡ 0
      free =
          let outside : within g i (g + i) ≡ false = ground arith in
          cov.leaves _ _ _ (omega arith) (omega arith) (omega arith)
          ∙ rw (page_number-index (g + i) hg, outside)

  pub map_range_lem :
      (left i : ℕ) (m : Memory S)
      → g + i + left ≤ 2 ^ 27
      → h + i + left ≤ 2 ^ 30
      → Covers mapped pa laws root g h i m
      → Grows mapped pa laws
          (left * 2)
          m
          (Covers mapped pa laws root g h (i + left))
          (map_range mapped pa (g * 2 ^ 21) (h * 2 ^ 21) (slot mapped root 0) left i m)
  unfolding map_range
  map_range_lem zero i m hg hh cov =
      let e : i + 0 ≡ i = omega arith in rw e (inr (m, refl, omega arith, cov))
  map_range_lem (suc left) i m hg hh cov =
      let eg : u64 (g * 2 ^ 21 + 2 ^ 21 * i) ≡ (g + i) * 2 ^ 21 = omega arith in
      let eh : u64 (h * 2 ^ 21 + 2 ^ 21 * i) ≡ (h + i) * 2 ^ 21 = omega arith in
      let ek : suc left * 2 ≡ 2 + left * 2 = omega arith in
      let ei : i + suc left ≡ i + 1 + left = omega arith in
      rw (eg, eh, ei, ek)
        (Grows-bind mapped pa laws 2 (left * 2) m _ _ (round i m (omega arith) (omega arith) cov)
          (λ m' next. map_range_lem left (i + 1) m' (omega arith) (omega arith) next))
