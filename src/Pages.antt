-- ===== src/Pages.antt =====
-- ymirc/arch/x86/page.c: the page tables of the kernel. `allocate_table` has the same text there as
-- in svm_npt.c and is that of Npt, as are the shifts and the masks.
pub mod Copy
pub mod Clone
pub mod Holds
pub mod Direct
pub mod Kernel
pub mod Walk
pub mod Rebuilt
use ymirc.Prelude.{
  ℕ, zero, suc, ◌+◌, ◌-◌, ◌*◌, ◌^◌, ◌==◌, Bool, true, not, ◌||◌, if◌then◌else◌, bit_and, u64, shr,
  shl, List, [], ◌∷◌, Option, none, some, Stop, panicked, Outcome, done, stop, ◌>>=◌,
}
use ymirc.Bits.{isset, tobit}
use ymirc.Mem.{direct_map_base, direct_map_size, phys2virt, virt2phys}
use ymirc.Npt.{
  lv4_shift, lv3_shift, index_mask, entry_present, entry_rw, entry_us, entry_ps, entry_phys,
  phys_mask, num_table_entries, TableSource, Memory, write, with_words, allocate_table,
  store_fields, entry_at,
}

-- `memcpy` of `left` entries.
unfoldable pub copy_entries : ℕ → ℕ → ℕ → (ℕ → ℕ) → ℕ → ℕ
copy_entries zero source address words = words
copy_entries (suc left) source address words =
    copy_entries left (source + 8) (address + 8) (write address (words source) words)

-- `allocate_table` and the copy, the beginning of all three clones.
unfoldable pub clone_lv1_table :
    {S : Type 0} → TableSource S → ℕ → Memory S → Outcome (ℕ × Memory S)
clone_lv1_table pa lv1tbl m = do
  (new_lv1tbl, m') ← allocate_table pa m
  done (new_lv1tbl, with_words (copy_entries num_table_entries lv1tbl new_lv1tbl m'.words) m')

-- The body of the loop of `clone_lv2_table` and `clone_lv3_table`, for the entry at `address`. The
-- address of the lower clone is stored in a local copy of the entry.
unfoldable pub clone_lower :
    {S : Type 0}
    → (ℕ → Memory S → Outcome (ℕ × Memory S))
    → Bool
    → ℕ
    → Memory S
    → Outcome (Memory S)
clone_lower lower mapped address m =
    let cloned = do
      (new, m') ← lower (phys2virt mapped (bit_and (m.words address) phys_mask)) m
      done m'
    in if not (isset (m.words address) entry_present) || isset (m.words address) entry_ps
      then done m
      else cloned

-- The loop, from the entry at `address` on.
unfoldable pub clone_lowers :
    {S : Type 0}
    → (ℕ → Memory S → Outcome (ℕ × Memory S))
    → Bool
    → ℕ
    → ℕ
    → Memory S
    → Outcome (Memory S)
clone_lowers lower mapped zero address m = done m
clone_lowers lower mapped (suc left) address m = do
  m' ← clone_lower lower mapped address m
  clone_lowers lower mapped left (address + 8) m'

unfoldable pub clone_lv2_table :
    {S : Type 0} → Bool → TableSource S → ℕ → Memory S → Outcome (ℕ × Memory S)
clone_lv2_table mapped pa lv2tbl m = do
  (new_lv2tbl, m₁) ← clone_lv1_table pa lv2tbl m
  m₂ ← clone_lowers (clone_lv1_table pa) mapped num_table_entries new_lv2tbl m₁
  done (new_lv2tbl, m₂)

unfoldable pub clone_lv3_table :
    {S : Type 0} → Bool → TableSource S → ℕ → Memory S → Outcome (ℕ × Memory S)
clone_lv3_table mapped pa lv3tbl m = do
  (new_lv3tbl, m₁) ← clone_lv1_table pa lv3tbl m
  m₂ ← clone_lowers (clone_lv2_table mapped pa) mapped num_table_entries new_lv3tbl m₁
  done (new_lv3tbl, m₂)

-- The fields of an entry that is closed to user mode, for a table, or for a page where `ps` is 1.
abbrev pub kernel_fields : ℕ → ℕ → List (ℕ × ℕ)
kernel_fields ps phys =
    (1, tobit entry_present)
    ∷ (1, tobit entry_rw)
    ∷ (0, tobit entry_us)
    ∷ (ps, tobit entry_ps)
    ∷ (shr phys entry_phys, phys_mask)
    ∷ []

unfoldable pub refer_to_table : {S : Type 0} → Bool → ℕ → ℕ → Memory S → Outcome (Memory S)
refer_to_table mapped entry lower_table m =
    store_fields entry (kernel_fields 0 (virt2phys mapped lower_table)) m

unfoldable pub refer_to_page : {S : Type 0} → ℕ → ℕ → Memory S → Outcome (Memory S)
refer_to_page entry phys m = store_fields entry (kernel_fields 1 phys) m

abbrev pub lv4idx_start : ℕ
lv4idx_start = bit_and (shr direct_map_base lv4_shift) index_mask

abbrev pub lv4idx_end : ℕ
lv4idx_end = lv4idx_start + shr direct_map_size lv4_shift

-- The inner loop over the entries of a table of level 3, from `lv3idx` on.
unfoldable pub direct_entries : {S : Type 0} → ℕ → ℕ → ℕ → ℕ → Memory S → Outcome (Memory S)
direct_entries zero lv3idx i lv3tbl m = done m
direct_entries (suc left) lv3idx i lv3tbl m = do
  m' ← refer_to_page (entry_at lv3tbl lv3idx) (u64 (shl i lv4_shift + shl lv3idx lv3_shift)) m
  direct_entries left (lv3idx + 1) i lv3tbl m'

-- The loop that makes the direct mapping, from round `i` on.
unfoldable pub direct_map :
    {S : Type 0} → Bool → TableSource S → ℕ → ℕ → ℕ → Memory S → Outcome (Memory S)
direct_map mapped pa zero i lv4tbl m = done m
direct_map mapped pa (suc left) i lv4tbl m = do
  (lv3tbl, m₁) ← allocate_table pa m
  m₂ ← direct_entries num_table_entries 0 i lv3tbl m₁
  m₃ ← refer_to_table mapped (entry_at lv4tbl (lv4idx_start + i)) lv3tbl m₂
  direct_map mapped pa left (i + 1) lv4tbl m₃

-- The body of the loop over the kernel's region, for one entry of level 4.
unfoldable pub clone_entry :
    {S : Type 0} → Bool → TableSource S → ℕ → ℕ → ℕ → Memory S → Outcome (Memory S)
clone_entry mapped pa lv4idx old_lv4tbl lv4tbl m =
    let old_lv4entry = m.words (entry_at old_lv4tbl lv4idx) in
    let cloned = do
      (new_lv3tbl, m') ←
          clone_lv3_table mapped pa (phys2virt mapped (bit_and old_lv4entry phys_mask)) m
      refer_to_table mapped (entry_at lv4tbl lv4idx) new_lv3tbl m'
    in if isset old_lv4entry entry_present then cloned else done m

unfoldable pub clone_kernel :
    {S : Type 0} → Bool → TableSource S → ℕ → ℕ → ℕ → ℕ → Memory S → Outcome (Memory S)
clone_kernel mapped pa zero lv4idx old_lv4tbl lv4tbl m = done m
clone_kernel mapped pa (suc left) lv4idx old_lv4tbl lv4tbl m = do
  m' ← clone_entry mapped pa lv4idx old_lv4tbl lv4tbl m
  clone_kernel mapped pa left (lv4idx + 1) old_lv4tbl lv4tbl m'

-- From CR3 and memory to the new CR3, the new `mapping_reconstructed` and memory; `none` is NULL.
unfoldable pub reconstruct :
    {S : Type 0} → Bool → Option (TableSource S) → ℕ → Memory S → Outcome (ℕ × Bool × Memory S)
reconstruct mapped none cr3 m = stop panicked
reconstruct mapped (some pa) cr3 m = do
  (lv4tbl, m₁) ← allocate_table pa m
  m₂ ← direct_map mapped pa (lv4idx_end - lv4idx_start) 0 lv4tbl m₁
  m₃ ←
      clone_kernel mapped pa (num_table_entries - lv4idx_end) lv4idx_end (phys2virt mapped cr3)
        lv4tbl m₂
  done (virt2phys mapped lv4tbl, true, m₃)
