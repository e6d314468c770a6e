-- ===== src/Loader/Tables/Offsets.antt =====
-- The translation of the addresses in one page.
use ymirc.Prelude.{
  ℕ, zero, suc, ◌+◌, ◌*◌, ◌%◌, ◌^◌, ◌<◌, ◌≡◌, arith, true, Bool-cases, inl, inr, some,
}
use ymirc.Npt.Walk.{is_large, target}
use ymirc.Pages.Walk.{is_present, is_canonical, walk, translate_kernel, shift_at}
use ymirc.Loader.Tables.Mapping.{index_at}

-- The indices and the offset of an address in the page that starts at `va`.
index_at-offset :
    (levels va o : ℕ)
    → levels < 4
    → va % 4096 ≡ 0
    → o < 4096
    → index_at levels (va + o) ≡ index_at levels va
index_at-offset zero va o low aligned h = omega arith
index_at-offset (suc zero) va o low aligned h = omega arith
index_at-offset (suc (suc zero)) va o low aligned h = omega arith
index_at-offset (suc (suc (suc zero))) va o low aligned h = omega arith
index_at-offset (suc (suc (suc (suc n)))) va o low aligned h = absurd (omega arith)

page_offset :
    (levels va o : ℕ)
    → levels < 4
    → va % 4096 ≡ 0
    → o < 4096
    → (va + o) % 2 ^ shift_at levels ≡ va % 2 ^ shift_at levels + o
page_offset zero va o low aligned h = omega arith
page_offset (suc zero) va o low aligned h = omega arith
page_offset (suc (suc zero)) va o low aligned h = omega arith
page_offset (suc (suc (suc zero))) va o low aligned h = omega arith
page_offset (suc (suc (suc (suc n)))) va o low aligned h = absurd (omega arith)

walk-offset :
    (levels table va o pa : ℕ) (words : ℕ → ℕ)
    → levels < 3
    → va % 4096 ≡ 0
    → o < 4096
    → walk levels words table va ≡ some pa
    → walk levels words table (va + o) ≡ some (pa + o)
unfolding walk
walk-offset zero table va o pa words low aligned h found =
    let i = index_at-offset zero va o (omega arith) aligned h in
    let e = words (table + index_at zero va * 8) in
    elim (Bool-cases (is_present e)) [
      | inr off ↦ ground (arith, off, found)
      | inl on ↦
          rw (i, on, page_offset zero va o (omega arith) aligned h) (ground (arith, on, found))
    ]
walk-offset (suc levels) table va o pa words low aligned h found =
    let i = index_at-offset (suc levels) va o (omega arith) aligned h in
    let e = words (table + index_at (suc levels) va * 8) in
    elim (Bool-cases (is_present e)) [
      | inr off ↦ ground (arith, off, found)
      | inl on ↦ elim (Bool-cases (is_large e)) [
        | inl large ↦
            rw (i, on, large, page_offset (suc levels) va o (omega arith) aligned h)
              (ground (arith, on, large, found))
        | inr lower ↦
            rw (i, on, lower)
              (walk-offset levels (target 12 e) va o pa words (omega arith) aligned h
                (ground (arith, on, lower, found)))
      ]
    ]

pub translate_kernel-offset :
    (cr3 va o pa : ℕ) (words : ℕ → ℕ)
    → va % 4096 ≡ 0
    → o < 4096
    → is_canonical (va + o) ≡ true
    → translate_kernel words cr3 va ≡ some pa
    → translate_kernel words cr3 (va + o) ≡ some (pa + o)
unfolding translate_kernel
translate_kernel-offset cr3 va o pa words aligned h canonical found =
    let i = index_at-offset 3 va o (omega arith) aligned h in
    let e = words (target 12 cr3 + index_at 3 va * 8) in
    elim (Bool-cases (is_canonical va)) [
      | inr off ↦ ground (arith, off, found)
      | inl good ↦ elim (Bool-cases (is_present e)) [
        | inr off ↦ ground (arith, off, good, found)
        | inl on ↦
            rw (i, on, canonical)
              (walk-offset 2 (target 12 e) va o pa words (omega arith) aligned h
                (ground (arith, on, good, found)))
      ]
    ]
