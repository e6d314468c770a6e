-- ===== src/Pages/Clone.antt =====
-- The clones of ymirc/arch/x86/page.c: which words of memory they change, and what the new tables
-- hold.
use ymirc.Prelude.{
  ℕ, zero, suc, ◌+◌, ◌<◌, ◌≡◌, ◌⊎◌, inl, inr, refl, ◌∙◌, Bool, true, false, Bool-cases, not, ◌||◌,
  bit_and, Outcome, done, stop, panicked, ◌>>=◌,
}
use ymirc.Bits.{isset}
use ymirc.Mem.{phys2virt}
use ymirc.Npt.{entry_present, entry_ps, phys_mask, num_table_entries, TableSource, Memory}
use ymirc.Npt.Tree.{slot}
use ymirc.Npt.Grow.{Supplies}
use ymirc.Pages.{clone_lv1_table, clone_lower, clone_lowers, clone_lv2_table, clone_lv3_table}
use ymirc.Pages.Copy.{
  Extends, Extends-refl, Extends-trans, Copied, copy, copy-Copied, allocate_table_cases,
}

module _ {S : Type 0} (mapped : Bool) (pa : TableSource S) (laws : Supplies mapped pa) where
  -- What a clone does.
  abbrev Result : ℕ → Memory S → Outcome (ℕ × Memory S) → Type 0
  Result tbl m out =
      (out ≡ stop panicked)
      ⊎ ((f : ℕ) × (m' : Memory S) × (out ≡ done (slot mapped f 0, m'))
          × Copied mapped pa laws tbl m f m')

  clone_lv1_table_lem :
      (tbl : ℕ) (m : Memory S) → laws.IsGood m.pages → Result tbl m (clone_lv1_table pa tbl m)
  unfolding clone_lv1_table
  clone_lv1_table_lem tbl m good = elim (allocate_table_cases mapped pa laws m good) [
    | inl (e, _) ↦ inl (rw e refl)
    | inr (f, s', e, new, good', _) ↦ inr (
      f,
      copy mapped pa laws tbl m f s',
      rw e refl,
      copy-Copied mapped pa laws tbl m f s' new good',
    )
  ]

  -- What the loop over the lower tables does.
  abbrev Extended : Memory S → Outcome (Memory S) → Type 0
  Extended m out =
      (out ≡ stop panicked) ⊎ ((m' : Memory S) × (out ≡ done m') × Extends mapped pa laws m m')

  clone_lower-extends :
      (lower : ℕ → Memory S → Outcome (ℕ × Memory S))
      → ((tbl : ℕ) (m : Memory S) → laws.IsGood m.pages → Result tbl m (lower tbl m))
      → (address : ℕ) (m : Memory S) → laws.IsGood m.pages
      → Extended m (clone_lower lower mapped address m)
  unfolding clone_lower
  clone_lower-extends lower clones address m good =
      elim (Bool-cases
        (not (isset (m.words address) entry_present) || isset (m.words address) entry_ps)) [
          | inl e ↦ inr (m, rw e refl, Extends-refl mapped pa laws m good)
          | inr e ↦ elim (clones (phys2virt mapped (bit_and (m.words address) phys_mask)) m good) [
            | inl stopped ↦ inl (rw (e, stopped) refl)
            | inr (f, m', eq, c) ↦ inr (m', rw (e, eq) refl, c.extends)
          ]
        ]

  clone_lowers-extends :
      (lower : ℕ → Memory S → Outcome (ℕ × Memory S))
      → ((tbl : ℕ) (m : Memory S) → laws.IsGood m.pages → Result tbl m (lower tbl m))
      → (left address : ℕ) (m : Memory S) → laws.IsGood m.pages
      → Extended m (clone_lowers lower mapped left address m)
  unfolding clone_lowers
  clone_lowers-extends lower clones zero address m good =
      inr (m, refl, Extends-refl mapped pa laws m good)
  clone_lowers-extends lower clones (suc left) address m good =
      elim (clone_lower-extends lower clones address m good) [
        | inl e ↦ inl (rw e refl)
        | inr (m', e, ext) ↦
            elim (clone_lowers-extends lower clones left (address + 8) m' ext.good) [
              | inl stopped ↦ inl (rw e stopped)
              | inr (m'', e', ext') ↦
                  inr (m'', rw e e', Extends-trans mapped pa laws m m' m'' ext ext')
            ]
      ]

  -- A table is copied, then the loop runs over the copy.
  copy-lower :
      (lower : ℕ → Memory S → Outcome (ℕ × Memory S))
      → ((tbl : ℕ) (m : Memory S) → laws.IsGood m.pages → Result tbl m (lower tbl m))
      → (tbl : ℕ) (m : Memory S) → laws.IsGood m.pages
      → Result tbl m (do
        (new, m₁) ← clone_lv1_table pa tbl m
        m₂ ← clone_lowers lower mapped num_table_entries new m₁
        done (new, m₂))
  copy-lower lower clones tbl m good = elim (clone_lv1_table_lem tbl m good) [
    | inl e ↦ inl (rw e refl)
    | inr (f, m₁, e, c) ↦
        elim (clone_lowers-extends lower clones num_table_entries (slot mapped f 0) m₁
          c.extends.good) [
            | inl stopped ↦ inl (rw (e, stopped) refl)
            | inr (m₂, e', ext) ↦ inr (
              f,
              m₂,
              rw (e, e') refl,
              record {
                extends = Extends-trans mapped pa laws m m₁ m₂ c.extends ext;
                fresh = c.fresh;
                taken = ext.kept f c.taken;
                entries = λ t i at u h. ext.same f i c.taken h ∙ c.entries t i at u h;
              },
            )
          ]
  ]

  clone_lv2_table-copies :
      (tbl : ℕ) (m : Memory S)
      → laws.IsGood m.pages
      → Result tbl m (clone_lv2_table mapped pa tbl m)
  unfolding clone_lv2_table
  clone_lv2_table-copies = copy-lower (clone_lv1_table pa) clone_lv1_table_lem

  -- With an allocator in a good state, the clone of a level 3 table that lies in a frame in use
  -- panics, or returns a table in a frame that was not in use. At the end all its 512 entries are
  -- those of the original, so they refer to the original lower tables; and every word in a frame
  -- that was in use is as it was.
  pub clone_lv3_table-entries :
      (t : ℕ) (m : Memory S)
      → laws.IsGood m.pages
      → laws.used m.pages t ≡ true
      → (clone_lv3_table mapped pa (slot mapped t 0) m ≡ stop panicked)
        ⊎ ((f : ℕ) × (m' : Memory S) × (clone_lv3_table mapped pa (slot mapped t 0) m
              ≡ done (slot mapped f 0, m'))
            × (laws.used m.pages f ≡ false)
            × ((i : ℕ) → i < 512 → m'.words (slot mapped f i) ≡ m.words (slot mapped t i))
            × ((g i : ℕ)
                → laws.used m.pages g ≡ true
                → i < 512
                → m'.words (slot mapped g i) ≡ m.words (slot mapped g i)))
  unfolding clone_lv3_table
  clone_lv3_table-entries t m good u =
      elim (copy-lower (clone_lv2_table mapped pa) clone_lv2_table-copies (slot mapped t 0) m
        good) [
          | inl e ↦ inl e
          | inr (f, m', e, c) ↦
              inr (f, m', e, c.fresh, (λ i h. c.entries t i refl u h), c.extends.same)
        ]
