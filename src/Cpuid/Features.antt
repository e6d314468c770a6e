-- ===== src/Cpuid/Features.antt =====
-- The feature bits that leaf 0x80000001 reports.
use native.Mathlib.Nat.{pow-le-pow_right, pow-suc}
use ymirc.Prelude.{ℕ, zero, suc, ◌*◌, ◌^◌, ◌<◌, ◌≡◌, refl, ap, ◌∙◌, arith}
use ymirc.Prelude.{Bool, true, ◌&&◌, ◌||◌, ◌==◌, ==_iff, leb, ltb, if◌then◌else◌, List, [], ◌∷◌}
use ymirc.Prelude.{
  bit, bit-lt_two, bit-zero, bit-pow, bit-bit_and, bit-bit_or, bit-complement, not_64, bit_and,
  Bool-cases, inl, inr,
}
use ymirc.Cpuid.{
  assign_field, assign_fields, std_feature_info_edx, ext_feature_stores, get_ext_feature_info_edx,
}

bit-scaled : (b i j : ℕ) → b < 2 → bit (b * 2 ^ i) j ≡ (if i == j then b else 0)
bit-scaled zero i j h =
    ap (λ x. bit x j) {x = 0 * 2 ^ i} {y = 0} (omega arith) ∙ bit-zero j ∙ ground arith
bit-scaled (suc zero) i j h =
    ap (λ x. bit x j) {x = 1 * 2 ^ i} {y = 2 ^ i} (omega arith) ∙ bit-pow i j
bit-scaled (suc (suc b)) i j h = absurd (omega arith)

bit-assign_field :
    (i b x j : ℕ)
    → b < 2
    → i < 64
    → j < 64
    → bit (assign_field i b x) j ≡ (if i == j then b else bit x j)
unfolding assign_field
bit-assign_field i b x j hb hi hj =
    bit-bit_or (bit_and x (not_64 (2 ^ i))) (b * 2 ^ i) j
    ∙ ground (
      arith,
      bit-bit_and x (not_64 (2 ^ i)) j,
      bit-complement 64 (2 ^ i) j
          (omega
            (arith, pow-le-pow_right {n = 2} (omega arith) {i = suc i} {j = 64} hi, pow-suc 2 i))
          hj,
      bit-pow i j,
      bit-scaled b i j hb,
      bit-lt_two x j,
    )

-- What a list of stores leaves at place `j`, where `d` was.
field_after : List (ℕ × ℕ) → ℕ → ℕ → ℕ
field_after [] j d = d
field_after ((i, b) ∷ rest) j d = field_after rest j (if i == j then b else d)

-- Every store is of a bit to a place in a word.
fields_ok : List (ℕ × ℕ) → Bool
fields_ok [] = true
fields_ok ((i, b) ∷ rest) = ltb i 64 && (ltb b 2 && fields_ok rest)

bit-assign_fields :
    (l : List (ℕ × ℕ)) (x j : ℕ)
    → fields_ok l ≡ true
    → j < 64
    → bit (assign_fields l x) j ≡ field_after l j (bit x j)
unfolding assign_fields field_after fields_ok
bit-assign_fields [] x j ok h = refl
bit-assign_fields ((i, b) ∷ rest) x j ok h =
    bit-assign_fields rest (assign_field i b x) j (ground arith) h
    ∙ ap (field_after rest j) (bit-assign_field i b x j (ground arith) (ground arith) h)

all_below : ℕ → (ℕ → Bool) → Bool
all_below zero p = true
all_below (suc n) p = p n && all_below n p

all_below_lem : (n : ℕ) (p : ℕ → Bool) → all_below n p ≡ true → (i : ℕ) → i < n → p i ≡ true
unfolding all_below
all_below_lem zero p h i lt = absurd (omega arith)
all_below_lem (suc n) p h i lt = elim (Bool-cases (i == n)) [
  | inl e ↦ rw ((==_iff i n).0 e) (ground arith)
  | inr ne ↦ all_below_lem n p (ground arith) i (ground arith)
]

-- The places that have the same meaning in EDX of leaf 1.
abbrev pub is_shared : ℕ → Bool
is_shared i = leb i 9 || ((leb 12 i && leb i 17) || (i == 23 || i == 24))

-- The bit to report where the host has `d`.
abbrev pub reported : ℕ → ℕ → ℕ
reported i d = if is_shared i then bit std_feature_info_edx i else if i == 22 then 0 else d

checked :
    all_below 32 (λ i.
      (field_after ext_feature_stores i 0 == reported i 0)
      && (field_after ext_feature_stores i 1 == reported i 1))
    ≡ true
unfolding all_below field_after bit assign_fields assign_field
checked = refl

reported_lem : (i d : ℕ) → i < 32 → d < 2 → field_after ext_feature_stores i d ≡ reported i d
reported_lem i zero h lt =
    (==_iff (field_after ext_feature_stores i 0) (reported i 0)).0
      (ground (arith, all_below_lem 32 _ checked i h))
reported_lem i (suc zero) h lt =
    (==_iff (field_after ext_feature_stores i 1) (reported i 1)).0
      (ground (arith, all_below_lem 32 _ checked i h))
reported_lem i (suc (suc d)) h lt = absurd (omega arith)

-- `get_ext_feature_info_edx` does what its comment says, for each of the 32 bits: a feature that
-- leaf 1 reports too has the value that leaf 1 reports, except that MMX extensions (bit 22) are
-- off, and every other bit is the host's.
pub get_ext_feature_info_edx_lem :
    (orig i : ℕ) → i < 32 → bit (get_ext_feature_info_edx orig) i ≡ reported i (bit orig i)
unfolding get_ext_feature_info_edx
get_ext_feature_info_edx_lem orig i h =
    bit-assign_fields ext_feature_stores orig i (unfold fields_ok in refl) (omega arith)
    ∙ reported_lem i (bit orig i) h (bit-lt_two orig i)
