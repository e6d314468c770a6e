-- ===== src/Loader/Tables/Attributes.antt =====
-- `change_map_4k` of surtrc/arch/x86/page.c and the translation of addresses.
use ymirc.Prelude.{
  ℕ, zero, suc, ◌+◌, ◌*◌, ◌/◌, ◌%◌, ◌^◌, ◌<◌, ◌≡◌, ◌≢◌, refl, ap, ◌∙◌, arith, Bool, true, false,
  Bool-cases, inl, inr, ◌==◌, if◌then◌else◌, bit, bit_and, bit_or, bit-bit_and, bit-bit_or, bit-pow,
  bit-complement, bit-lt_two, bit_ext, not_64, u64, sub_64, List, [], ◌∷◌,
}
use ymirc.Bits.Fields.{bit-slice}
use ymirc.Npt.{Memory, write}
use ymirc.Npt.Walk.{is_large, target}
use ymirc.Pages.Walk.{is_present, walk, translate_kernel, shift_at}
use ymirc.Loader.{
  ProgramHeader, is_loaded, PageAttribute, read_only, read_write, executable, read_p_flags,
}
use ymirc.Loader.Tables.{attribute_value, change_map_4k}
use ymirc.Loader.Tables.Protect.{
  page_start, page_end, protect_pages, protect_segment, protect_segments,
}

-- Two entries that differ in the bits RW and XD at most.
record Alike (e e' : ℕ) : Type 0 where
  lowest : e' % 2 ≡ e % 2
  middle : e' / 2 ^ 2 % 2 ^ 61 ≡ e / 2 ^ 2 % 2 ^ 61

bits-Alike : (e e' : ℕ) → ((i : ℕ) → i < 64 → i ≢ 1 → i ≢ 63 → bit e' i ≡ bit e i) → Alike e e'
unfolding bit
bits-Alike e e' same = record {
  lowest = same 0 (omega arith) (omega arith) (omega arith);
  middle = omega (arith, fields);
}
  where
    fields : e' / 2 ^ 2 % 2 ^ 61 * 2 ^ 2 ≡ e / 2 ^ 2 % 2 ^ 61 * 2 ^ 2
    fields =
        bit_ext 64 (e' / 2 ^ 2 % 2 ^ 61 * 2 ^ 2) (e / 2 ^ 2 % 2 ^ 61 * 2 ^ 2) (omega arith)
          (omega arith) (λ i hi. ground (arith, bit-slice 2 61 e' i, bit-slice 2 61 e i, same i hi))

set-bit : (v k i : ℕ) → i ≢ k → bit (bit_or v (2 ^ k)) i ≡ bit v i
set-bit v k i ne = ground (arith, bit-bit_or v (2 ^ k) i, bit-pow k i, bit-lt_two v i)

clear-bit :
    (v k i : ℕ) → 2 ^ k < 2 ^ 64 → i < 64 → i ≢ k → bit (bit_and v (not_64 (2 ^ k))) i ≡ bit v i
clear-bit v k i small hi ne = ground (
  arith,
  bit-bit_and v (not_64 (2 ^ k)) i,
  bit-complement 64 (2 ^ k) i small hi,
  bit-pow k i,
  bit-lt_two v i,
)

attribute_value-Alike : (attr : PageAttribute) (v : ℕ) → Alike v (attribute_value attr v)
unfolding attribute_value
attribute_value-Alike read_only v =
    bits-Alike v _
      (λ i hi n1 n63. set-bit (bit_and v (not_64 2)) 63 i n63 ∙ clear-bit v 1 i (omega arith) hi n1)
attribute_value-Alike read_write v =
    bits-Alike v _ (λ i hi n1 n63. set-bit (bit_or v 2) 63 i n63 ∙ set-bit v 1 i n1)
attribute_value-Alike executable v = bits-Alike v _ (λ i hi n1 n63.
    clear-bit (bit_and v (not_64 2)) 63 i (omega arith) hi n63
    ∙ clear-bit v 1 i (omega arith) hi n1)

-- Memory whose words are alike, and the walk in it.
AllAlike : (ℕ → ℕ) → (ℕ → ℕ) → Type 0
AllAlike words words' = (x : ℕ) → Alike (words x) (words' x)

walk-AllAlike :
    (levels table va : ℕ) (words words' : ℕ → ℕ)
    → levels < 3
    → AllAlike words words'
    → walk levels words' table va ≡ walk levels words table va
unfolding walk AllAlike
walk-AllAlike zero table va words words' low alike =
    let x = table + va / 2 ^ 12 % 512 * 8 in
    let present : is_present (words' x) ≡ is_present (words x) =
      ap (λ r. r == 1) (alike x).lowest in
    let at : target 12 (words' x) ≡ target 12 (words x) = omega (arith, (alike x).middle) in
    rw (present, at) refl
walk-AllAlike (suc levels) table va words words' low alike =
    let x = table + va / 2 ^ shift_at (suc levels) % 512 * 8 in
    let present : is_present (words' x) ≡ is_present (words x) =
      ap (λ r. r == 1) (alike x).lowest in
    let large : is_large (words' x) ≡ is_large (words x) =
      ap (λ r. r == 1) (omega (arith, (alike x).middle)) in
    let at : target 12 (words' x) ≡ target 12 (words x) = omega (arith, (alike x).middle) in
    let page : target (shift_at (suc levels)) (words' x)
        ≡ target (shift_at (suc levels)) (words x) =
      target-Alike levels (words x) (words' x) (omega arith) (alike x) in
    rw
      (
        present,
        large,
        at,
        page,
        walk-AllAlike levels (target 12 (words x)) va words words' (omega arith) alike,
      )
      refl
  where
    target-Alike :
        (levels e e' : ℕ)
        → levels < 2
        → Alike e e'
        → target (shift_at (suc levels)) e' ≡ target (shift_at (suc levels)) e
    target-Alike zero e e' low a = omega (arith, a.middle)
    target-Alike (suc zero) e e' low a = omega (arith, a.middle)
    target-Alike (suc (suc n)) e e' low a = absurd (omega arith)

translate_kernel-AllAlike :
    (cr3 va : ℕ) (words words' : ℕ → ℕ)
    → AllAlike words words'
    → translate_kernel words' cr3 va ≡ translate_kernel words cr3 va
unfolding translate_kernel AllAlike
translate_kernel-AllAlike cr3 va words words' alike =
    let x = target 12 cr3 + va / 2 ^ 39 % 512 * 8 in
    let present : is_present (words' x) ≡ is_present (words x) =
      ap (λ r. r == 1) (alike x).lowest in
    let at : target 12 (words' x) ≡ target 12 (words x) = omega (arith, (alike x).middle) in
    rw (present, at, walk-AllAlike 2 (target 12 (words x)) va words words' (omega arith) alike) refl

Alike-refl : (e : ℕ) → Alike e e
Alike-refl e = record { lowest = refl; middle = refl }

change_map_4k-AllAlike :
    {S : Type 0} (cr3 virt : ℕ) (attr : PageAttribute) (m : Memory S)
    → AllAlike m.words (change_map_4k cr3 virt attr m).words
unfolding change_map_4k AllAlike
change_map_4k-AllAlike cr3 virt attr m x = at_entry _ x
  where
    at_entry :
        (entry x : ℕ)
        → Alike (m.words x) (write entry (attribute_value attr (m.words entry)) m.words x)
    at_entry entry x = elim (Bool-cases (x == entry)) [
      | inl on ↦
          let e : x ≡ entry = ground arith in
          rw (on, e) (attribute_value-Alike attr (m.words entry))
      | inr off ↦ rw off (Alike-refl (m.words x))
    ]

protect_pages-translate :
    {S : Type 0} (cr3 start : ℕ) (attr : PageAttribute) (left i : ℕ) (m : Memory S) (cr3' va : ℕ)
    → translate_kernel (protect_pages cr3 start attr left i m).words cr3' va
      ≡ translate_kernel m.words cr3' va
unfolding protect_pages
protect_pages-translate cr3 start attr zero i m cr3' va = refl
protect_pages-translate cr3 start attr (suc left) i m cr3' va =
    protect_pages-translate cr3 start attr left (i + 1)
      (change_map_4k cr3 (u64 (start + 4096 * i)) attr m) cr3' va
    ∙ translate_kernel-AllAlike cr3' va m.words _
        (change_map_4k-AllAlike cr3 (u64 (start + 4096 * i)) attr m)

pub protect_segments-translate :
    {S : Type 0} (cr3 : ℕ) (phdr : List ProgramHeader) (m : Memory S) (cr3' va : ℕ)
    → translate_kernel (protect_segments cr3 phdr m).words cr3' va
      ≡ translate_kernel m.words cr3' va
unfolding protect_segments protect_segment
protect_segments-translate cr3 [] m cr3' va = refl
protect_segments-translate cr3 (ph ∷ rest) m cr3' va =
    protect_segments-translate cr3 rest _ cr3' va ∙ either (is_loaded ph)
  where
    either :
        (loaded : Bool)
        → translate_kernel (if loaded then protect_segment cr3 ph m else m).words cr3' va
          ≡ translate_kernel m.words cr3' va
    either true =
        protect_pages-translate cr3 (page_start ph) (read_p_flags ph)
          (sub_64 (page_end ph) (page_start ph) / 4096) 0 m cr3' va
    either false = refl
