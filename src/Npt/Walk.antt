-- ===== src/Npt/Walk.antt =====
-- The translation of an address by the processor, which reads the tables in physical memory: a
-- description that does not depend on how the tables are built.
use ymirc.Prelude.{
  ℕ, ◌+◌, ◌-◌, ◌*◌, ◌/◌, ◌%◌, ◌^◌, ◌==◌, ltb, ◌&&◌, Bool, if◌then◌else◌, Option, none, some,
}
use ymirc.Mem.{phys2virt}
use ymirc.Npt.{Memory}

-- A word of physical memory, as the host's mapping shows it.
abbrev pub ram : {S : Type 0} → Bool → Memory S → ℕ → ℕ
ram mapped m p = m.words (phys2virt mapped p)

-- Present, writable and open to the guest: nested paging treats every access as one of user mode.
abbrev pub grants : ℕ → Bool
grants e = e % 8 == 7

abbrev pub is_large : ℕ → Bool
is_large e = e / 2 ^ 7 % 2 == 1

-- The 40 address bits of an entry, for a table or a page of `2 ^ k` bytes.
abbrev pub target : ℕ → ℕ → ℕ
target k e = e / 2 ^ k % 2 ^ (52 - k) * 2 ^ k

-- An entry of the table at physical address `table`, and what the translation makes of it.
abbrev pub entry_of : (ℕ → ℕ) → ℕ → ℕ → ℕ → ℕ
entry_of memory table shift gpa = memory (table + gpa / 2 ^ shift % 512 * 8)

unfoldable pub walk_level1 : (ℕ → ℕ) → ℕ → ℕ → Option ℕ
walk_level1 memory table gpa =
    let e = entry_of memory table 12 gpa in
    if grants e then some (target 12 e + gpa % 2 ^ 12) else none

unfoldable pub walk_level2 : (ℕ → ℕ) → ℕ → ℕ → Option ℕ
walk_level2 memory table gpa =
    let e = entry_of memory table 21 gpa in
    let lower = walk_level1 memory (target 12 e) gpa in
    if grants e then if is_large e then some (target 21 e + gpa % 2 ^ 21) else lower else none

unfoldable pub walk_level3 : (ℕ → ℕ) → ℕ → ℕ → Option ℕ
walk_level3 memory table gpa =
    let e = entry_of memory table 30 gpa in
    let lower = walk_level2 memory (target 12 e) gpa in
    if grants e then if is_large e then some (target 30 e + gpa % 2 ^ 30) else lower else none

-- The walk from the table that nCR3 names. An address of more than 48 bits is not translated.
unfoldable pub translate : (ℕ → ℕ) → ℕ → ℕ → Option ℕ
translate memory n_cr3 gpa =
    let e = entry_of memory n_cr3 39 gpa in
    let lower = walk_level3 memory (target 12 e) gpa in
    if ltb gpa (2 ^ 48) && grants e then lower else none
