-- ===== src/Loader/Tables/Mapping.antt =====
-- `map_4k_to` of surtrc/arch/x86/page.c, read level by level.
use ymirc.Prelude.{
  ℕ, zero, suc, ◌+◌, ◌*◌, ◌/◌, ◌%◌, ◌^◌, ◌≤◌, ◌<◌, ◌≡◌, ◌⊎◌, refl, sym, ap, ◌∙◌, arith, Bool, true,
  false, bit_and, bit_or, bit_and-ones, shr, none, some, Outcome, ◌>>=◌,
}
use ymirc.Npt.{TableLevel, level4, level3, level2, level1, phys_mask, Memory}
use ymirc.Npt.Entries.{masked_phys}
use ymirc.Pages.Direct.{kernel_table, kernel_page}
use ymirc.Pages.Walk.{is_present, shift_at}
use ymirc.Loader.Tables.{
  Firmware, present_bit, table_value, page_value, get_entry_at, descend, map_last, map_4k_to,
}

-- The page that the firmware hands out. Physical addresses have 52 bits.
pub record NewPage (used used' : ℕ → Bool) (f : ℕ) : Type 0 where
  pub small : f < 2 ^ 40
  pub fresh : used f ≡ false
  pub taken : used' f ≡ true
  pub kept : (g : ℕ) → used g ≡ true → used' g ≡ true

-- What `AllocatePages` promises: a page that was not in use, or a failure where no page is free. A
-- request takes at most one page.
pub record FirmwareLaws {S : Type 0} (fw : Firmware S) : Type 1 where
  pub used : S → ℕ → Bool
  pub free : S → ℕ
  pub supply :
      (s : S)
      → ((fw s ≡ none) × (free s ≡ 0))
        ⊎ ((f : ℕ) × (s' : S) × (fw s ≡ some (f * 4096, s'))
            × NewPage (used s) (used s') f
            × (free s ≤ free s' + 1))

-- The address of an entry of the table in a page.
abbrev pub word : ℕ → ℕ → ℕ
word t i = t * 4096 + i * 8

-- The index of an address in the table with `levels` levels below it.
abbrev pub index_at : ℕ → ℕ → ℕ
index_at levels va = va / 2 ^ shift_at levels % 512

unfoldable pub level_of : ℕ → TableLevel
level_of zero = level1
level_of (suc zero) = level2
level_of (suc (suc zero)) = level3
level_of (suc (suc (suc n))) = level4

pub table_value_lem :
    (lower : ℕ) → lower < 2 ^ 52 → lower % 2 ^ 12 ≡ 0 → table_value 0 lower ≡ kernel_table lower
unfolding table_value
table_value_lem lower small aligned =
    let shifted : lower / 2 ^ 12 * 2 ^ 12 % 2 ^ 64 ≡ lower = omega arith in
    ap (λ a. bit_or 3 (bit_and a phys_mask)) (sym shifted)
    ∙ masked_phys 3 lower (omega arith) (omega arith) aligned

pub page_value_lem :
    (phys : ℕ) → phys < 2 ^ 52 → phys % 2 ^ 12 ≡ 0 → page_value 0 phys ≡ kernel_page phys
unfolding page_value
page_value_lem phys small aligned =
    let shifted : phys / 2 ^ 12 * 2 ^ 12 % 2 ^ 64 ≡ phys = omega arith in
    ap (λ a. bit_or 0x83 (bit_and a phys_mask)) (sym shifted)
    ∙ masked_phys 0x83 phys (omega arith) (omega arith) aligned

pub get_entry_at_lem :
    (levels virt t : ℕ)
    → levels < 4
    → t < 2 ^ 40
    → get_entry_at virt (t * 4096) (level_of levels) ≡ word t (index_at levels virt)
unfolding get_entry_at level_of
get_entry_at_lem zero virt t low small = rw (bit_and-ones 9 (shr virt 12)) (omega arith)
get_entry_at_lem (suc zero) virt t low small = rw (bit_and-ones 9 (shr virt 21)) (omega arith)
get_entry_at_lem (suc (suc zero)) virt t low small = rw (bit_and-ones 9 (shr virt 30)) (omega arith)
get_entry_at_lem (suc (suc (suc zero))) virt t low small =
    rw (bit_and-ones 9 (shr virt 39)) (omega arith)
get_entry_at_lem (suc (suc (suc (suc n)))) virt t low small = absurd (omega arith)

pub present_bit_lem : (v : ℕ) → present_bit v ≡ is_present v
present_bit_lem v = rw (bit_and-ones 1 v) (ground arith)

-- `map_4k_to` from the table at `table` on, which has `levels` levels below it.
unfoldable pub map_from : {S : Type 0} → Firmware S → ℕ → ℕ → ℕ → ℕ → Memory S → Outcome (Memory S)
map_from fw virt phys zero table m = map_last (get_entry_at virt table (level_of zero)) phys m
map_from fw virt phys (suc levels) table m = do
  let entry = get_entry_at virt table (level_of (suc levels))
  m' ← descend fw entry m
  map_from fw virt phys levels (bit_and (m'.words entry) phys_mask) m'

pub map_4k_to-map_from :
    {S : Type 0} (fw : Firmware S) (cr3 virt phys : ℕ) (m : Memory S)
    → map_4k_to fw cr3 virt phys m ≡ map_from fw virt phys 3 cr3 m
unfolding map_4k_to map_from level_of
map_4k_to-map_from fw cr3 virt phys m = refl
