-- ===== src/Mem/Bytes.antt =====
-- ymirc/mem.c: `memcpy`, `memset` and `memcmp`, on memory as a function from addresses to bytes,
-- and numbers as bytes, the lowest first.
use ymirc.Prelude.{
  ℕ, zero, suc, ◌+◌, ◌-◌, ◌*◌, ◌/◌, ◌%◌, ◌^◌, ◌<◌, ◌≡◌, ◌≢◌, inl, inr, refl, ap, ◌∙◌, arith, Bool,
  true, false, Bool-cases, ◌==◌, ◌&&◌, leb, ltb, if◌then◌else◌, u32,
}

abbrev pub Bytes : Type 0
Bytes = ℕ → ℕ

abbrev pub put : ℕ → ℕ → Bytes → Bytes
put a v memory x = if x == a then v else memory x

-- From `s` on in the source to `d` on in memory.
unfoldable pub memcpy : Bytes → ℕ → ℕ → ℕ → Bytes → Bytes
memcpy source s d zero memory = memory
memcpy source s d (suc n) memory = memcpy source (s + 1) (d + 1) n (put d (source s) memory)

unfoldable pub memset : ℕ → ℕ → ℕ → Bytes → Bytes
memset d c zero memory = memory
memset d c (suc n) memory = memset (d + 1) c n (put d (c % 256) memory)

-- The result is the 32 bits of an `int`.
unfoldable pub memcmp : Bytes → ℕ → Bytes → ℕ → ℕ → ℕ
memcmp p1 a p2 b zero = 0
memcmp p1 a p2 b (suc n) =
    let rest = memcmp p1 (a + 1) p2 (b + 1) n in
    if p1 a == p2 b then rest else u32 (p1 a + 2 ^ 32 - p2 b)

abbrev pub in_range : ℕ → ℕ → ℕ → Bool
in_range start n x = leb start x && ltb x (start + n)

-- The bytes of the range are those of the source, and no others change.
pub memcpy-at :
    (source : Bytes) (s d n : ℕ) (memory : Bytes) (x : ℕ)
    → memcpy source s d n memory x ≡ (if in_range d n x then source (s + (x - d)) else memory x)
unfolding memcpy
memcpy-at source s d zero memory x = let out : in_range d 0 x ≡ false = ground arith in rw out refl
memcpy-at source s d (suc n) memory x =
    memcpy-at source (s + 1) (d + 1) n (put d (source s) memory) x ∙ elim (Bool-cases (x == d)) [
      | inl here ↦
          let e : x ≡ d = ground arith in
          let out : in_range (d + 1) n x ≡ false = ground arith in
          let inside : in_range d (suc n) x ≡ true = ground arith in
          let at : s + (x - d) ≡ s = omega arith in rw (out, here, inside, at) refl
      | inr other ↦
          let ne : x ≢ d = ground arith in
          let same : in_range (d + 1) n x ≡ in_range d (suc n) x = ground arith in
          rw (other, same)
            (elim (Bool-cases (in_range d (suc n) x)) [
              | inl inside ↦
                  let lo : d < x = ground arith in
                  let at : s + 1 + (x - (d + 1)) ≡ s + (x - d) = omega arith in rw (inside, at) refl
              | inr out ↦ rw out refl
            ])
    ]

-- From the start of the source.
pub memcpy-whole :
    (source : Bytes) (d n : ℕ) (memory : Bytes) (x : ℕ)
    → memcpy source 0 d n memory x ≡ (if in_range d n x then source (x - d) else memory x)
memcpy-whole source d n memory x =
    let e : 0 + (x - d) ≡ x - d = omega arith in memcpy-at source 0 d n memory x ∙ rw e refl

pub memset-at :
    (d c n : ℕ) (memory : Bytes) (x : ℕ)
    → memset d c n memory x ≡ (if in_range d n x then c % 256 else memory x)
unfolding memset
memset-at d c zero memory x = let out : in_range d 0 x ≡ false = ground arith in rw out refl
memset-at d c (suc n) memory x =
    memset-at (d + 1) c n (put d (c % 256) memory) x ∙ elim (Bool-cases (x == d)) [
      | inl here ↦
          let out : in_range (d + 1) n x ≡ false = ground arith in
          let inside : in_range d (suc n) x ≡ true = ground arith in rw (out, here, inside) refl
      | inr other ↦
          let same : in_range (d + 1) n x ≡ in_range d (suc n) x = ground arith in
          rw (other, same) refl
    ]

-- 0 if the bytes agree.
pub memcmp-same :
    (p1 p2 : Bytes) (a b n : ℕ)
    → ((i : ℕ) → i < n → p1 (a + i) ≡ p2 (b + i))
    → memcmp p1 a p2 b n ≡ 0
unfolding memcmp
memcmp-same p1 p2 a b zero same = refl
memcmp-same p1 p2 a b (suc n) same =
    let e : p1 a ≡ p2 b = ap p1 (omega arith) ∙ same 0 (omega arith) ∙ ap p2 (omega arith) in
    let eq : (p1 a == p2 b) ≡ true = ground arith in
    rw eq (
      memcmp-same p1 p2 (a + 1) (b + 1) n
        (λ i h. ap p1 (omega arith) ∙ same (suc i) (omega (arith, h)) ∙ ap p2 (omega arith)))

memcmp-first :
    (p1 p2 : Bytes) (a b n : ℕ)
    → p1 a < 256
    → p2 b < 256
    → memcmp p1 a p2 b (suc n) ≡ 0
    → p1 a ≡ p2 b
unfolding memcmp
memcmp-first p1 p2 a b n s1 s2 z = elim (Bool-cases (p1 a == p2 b)) [
  | inl eq ↦ ground arith
  | inr ne ↦ let differ : u32 (p1 a + 2 ^ 32 - p2 b) ≡ 0 = ground arith in omega arith
]

-- Only then, where they are bytes.
pub memcmp-zero :
    (p1 p2 : Bytes) (a b n i : ℕ)
    → ((j : ℕ) → p1 j < 256)
    → ((j : ℕ) → p2 j < 256)
    → memcmp p1 a p2 b n ≡ 0
    → i < n
    → p1 (a + i) ≡ p2 (b + i)
unfolding memcmp
memcmp-zero p1 p2 a b zero i s1 s2 z lt = absurd (omega arith)
memcmp-zero p1 p2 a b (suc n) zero s1 s2 z lt =
    ap p1 (omega arith) ∙ memcmp-first p1 p2 a b n (s1 a) (s2 b) z ∙ ap p2 (omega arith)
memcmp-zero p1 p2 a b (suc n) (suc i) s1 s2 z lt =
    let e = memcmp-first p1 p2 a b n (s1 a) (s2 b) z in
    let rest : memcmp p1 (a + 1) p2 (b + 1) n ≡ 0 = ground arith in
    ap p1 (omega arith)
    ∙ memcmp-zero p1 p2 (a + 1) (b + 1) n i s1 s2 rest (omega arith)
    ∙ ap p2 (omega arith)

-- Numbers of 2, 4 and 8 bytes.
abbrev pub store16 : ℕ → ℕ → Bytes → Bytes
store16 a v memory = put (a + 1) (v / 2 ^ 8 % 256) (put a (v % 256) memory)

abbrev pub store32 : ℕ → ℕ → Bytes → Bytes
store32 a v memory = store16 (a + 2) (v / 2 ^ 16) (store16 a v memory)

abbrev pub store64 : ℕ → ℕ → Bytes → Bytes
store64 a v memory = store32 (a + 4) (v / 2 ^ 32) (store32 a v memory)

abbrev pub load16 : Bytes → ℕ → ℕ
load16 memory a = memory a + memory (a + 1) * 2 ^ 8

abbrev pub load32 : Bytes → ℕ → ℕ
load32 memory a = load16 memory a + load16 memory (a + 2) * 2 ^ 16
