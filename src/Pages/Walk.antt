-- ===== src/Pages/Walk.antt =====
-- The translation of an address of the kernel by the processor, for a read: a description that does
-- not depend on how the tables are built. Pages of 1 GiB and of 2 MiB end the walk at their level.
use ymirc.Prelude.{
  ℕ, zero, suc, ◌+◌, ◌-◌, ◌*◌, ◌%◌, ◌^◌, ◌==◌, ltb, leb, ◌||◌, Bool, if◌then◌else◌, Option, none,
  some,
}
use ymirc.Npt.Walk.{is_large, target, entry_of}

abbrev pub is_present : ℕ → Bool
is_present e = e % 2 == 1

-- The lowest address bit that the table with `levels` levels below it looks at.
abbrev pub shift_at : ℕ → ℕ
shift_at levels = 12 + 9 * levels

unfoldable pub walk : ℕ → (ℕ → ℕ) → ℕ → ℕ → Option ℕ
walk zero memory table va =
    let e = entry_of memory table 12 va in
    if is_present e then some (target 12 e + va % 2 ^ 12) else none
walk (suc levels) memory table va =
    let shift = shift_at (suc levels) in
    let e = entry_of memory table shift va in
    let lower = walk levels memory (target 12 e) va in
    if is_present e
    then if is_large e then some (target shift e + va % 2 ^ shift) else lower
    else none

-- The upper 17 bits of the address agree.
abbrev pub is_canonical : ℕ → Bool
is_canonical va = ltb va (2 ^ 47) || leb (2 ^ 64 - 2 ^ 47) va

-- The walk from the table that CR3 names.
unfoldable pub translate_kernel : (ℕ → ℕ) → ℕ → ℕ → Option ℕ
translate_kernel memory cr3 va =
    let e = entry_of memory (target 12 cr3) 39 va in
    let lower = walk 2 memory (target 12 e) va in
    if is_canonical va then if is_present e then lower else none else none
