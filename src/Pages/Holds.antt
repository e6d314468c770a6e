-- ===== src/Pages/Holds.antt =====
-- What the tables that ymirc/arch/x86/page.c clones must look like, the number of pages that a clone
-- takes, and the clones where there are as many.
use ymirc.Prelude.{
  ℕ, zero, suc, ◌+◌, ◌≤◌, ◌<◌, ◌≡◌, inl, inr, refl, sym, ap, ◌∙◌, arith, Bool, true, false,
  Bool-cases, not, ◌||◌, if◌then◌else◌, bit_and, Outcome, done, ◌>>=◌,
}
use ymirc.Bits.{isset}
use ymirc.Mem.{phys2virt}
use ymirc.Npt.{entry_present, entry_ps, phys_mask, num_table_entries, TableSource, Memory}
use ymirc.Npt.Tree.{frames, slot}
use ymirc.Npt.Grow.{Supplies}
use ymirc.Pages.{clone_lv1_table, clone_lower, clone_lowers, clone_lv2_table, clone_lv3_table}
use ymirc.Pages.Copy.{
  Extends, Extends-refl, Extends-trans, Copied, copy, copy-Copied, allocate_table_cases,
}

-- An entry that leads to no lower table.
abbrev pub is_last : ℕ → Bool
is_last e = not (isset e entry_present) || isset e entry_ps

-- Where the table under an entry stands.
abbrev pub lower_table : Bool → ℕ → ℕ
lower_table mapped e = phys2virt mapped (bit_and e phys_mask)

-- The sum of a cost over the lower tables of `left` entries.
unfoldable pub cost_entries : (ℕ → ℕ) → Bool → (ℕ → ℕ) → ℕ → ℕ → ℕ
cost_entries cost mapped words zero address = 0
cost_entries cost mapped words (suc left) address =
    (if is_last (words address) then 0 else cost (lower_table mapped (words address)))
    + cost_entries cost mapped words left (address + 8)

-- The number of tables in `levels` levels below a table, itself included.
unfoldable pub count_tables : ℕ → Bool → (ℕ → ℕ) → ℕ → ℕ
count_tables zero mapped words table = 1
count_tables (suc levels) mapped words table =
    1 + cost_entries (count_tables levels mapped words) mapped words 512 table

module _ {S : Type 0} (mapped : Bool) (pa : TableSource S) (laws : Supplies mapped pa) where
  -- The table in frame `t` and those of `levels` levels below it stand in frames in use.
  abbrev pub Holds : ℕ → Memory S → ℕ → Type 0
  Holds zero m t = (t < frames) × (laws.used m.pages t ≡ true)
  Holds (suc levels) m t =
      (t < frames)
      × (laws.used m.pages t ≡ true)
      × ((i : ℕ)
          → i < 512
          → is_last (m.words (slot mapped t i)) ≡ false
          → (g : ℕ) × (lower_table mapped (m.words (slot mapped t i)) ≡ slot mapped g 0)
            × Holds levels m g)

  pub Holds-used :
      (levels : ℕ) (m : Memory S) (t : ℕ) → Holds levels m t → laws.used m.pages t ≡ true
  Holds-used zero m t h = h.1
  Holds-used (suc levels) m t h = h.1

  pub Holds-small : (levels : ℕ) (m : Memory S) (t : ℕ) → Holds levels m t → t < frames
  Holds-small zero m t h = h.0
  Holds-small (suc levels) m t h = h.0

  pub Holds-extend :
      (levels : ℕ) (m m' : Memory S) (t : ℕ)
      → Extends mapped pa laws m m'
      → Holds levels m t
      → Holds levels m' t
  Holds-extend zero m m' t ext h = (h.0, ext.kept t h.1)
  Holds-extend (suc levels) m m' t ext (small, used, lower) = (
    small,
    ext.kept t used,
    λ i hi open_.
        let e : m'.words (slot mapped t i) ≡ m.words (slot mapped t i) = ext.same t i used hi in
        let (g, at, h) = lower i hi (ap is_last (sym e) ∙ open_) in
        (g, ap (lower_table mapped) e ∙ at, Holds-extend levels m m' g ext h),
  )

  -- The cost of some entries of a table, where the entries are the same and the costs agree.
  cost_entries-same :
      (c c' : ℕ → ℕ) (w w' : ℕ → ℕ) (f g left j : ℕ)
      → ((i : ℕ) → i < 512 → w' (slot mapped g i) ≡ w (slot mapped f i))
      → ((i : ℕ)
          → i < 512
          → is_last (w (slot mapped f i)) ≡ false
          → c' (lower_table mapped (w (slot mapped f i)))
            ≡ c (lower_table mapped (w (slot mapped f i))))
      → j + left ≤ 512
      → cost_entries c' mapped w' left (slot mapped g j)
        ≡ cost_entries c mapped w left (slot mapped f j)
  unfolding cost_entries
  cost_entries-same c c' w w' f g zero j same agree h = refl
  cost_entries-same c c' w w' f g (suc left) j same agree h =
      let eg : slot mapped g j + 8 ≡ slot mapped g (j + 1) = omega arith in
      let ef : slot mapped f j + 8 ≡ slot mapped f (j + 1) = omega arith in
      rw
        (
          same j (omega arith),
          eg,
          ef,
          cost_entries-same c c' w w' f g left (j + 1) same agree (omega arith),
        )
        (elim (Bool-cases (is_last (w (slot mapped f j)))) [
          | inl e ↦ rw e refl
          | inr e ↦ rw (e, agree j (omega arith) e) refl
        ])

  pub count_tables-extend :
      (levels : ℕ) (m m' : Memory S) (t : ℕ)
      → Extends mapped pa laws m m'
      → Holds levels m t
      → count_tables levels mapped m'.words (slot mapped t 0)
        ≡ count_tables levels mapped m.words (slot mapped t 0)
  unfolding count_tables
  count_tables-extend zero m m' t ext h = refl
  count_tables-extend (suc levels) m m' t ext (small, used, lower) = ap suc' (
      cost_entries-same (count_tables levels mapped m.words) (count_tables levels mapped m'.words)
        m.words m'.words t t 512 0 (λ i hi. ext.same t i used hi)
        (λ i hi open_.
          let (g, at, h) = lower i hi open_ in rw at (count_tables-extend levels m m' g ext h))
        (omega arith))
    where
      suc' : ℕ → ℕ
      suc' n = 1 + n

  -- The clone of a table returns, and takes at most `n` pages.
  abbrev pub Returns : ℕ → ℕ → Memory S → Outcome (ℕ × Memory S) → Type 0
  Returns n tbl m out =
      (f : ℕ) × (m' : Memory S) × (out ≡ done (slot mapped f 0, m'))
      × (f < frames)
      × Copied mapped pa laws tbl m f m'
      × (laws.free m.pages ≤ laws.free m'.pages + n)

  abbrev pub Continues : ℕ → Memory S → Outcome (Memory S) → Type 0
  Continues n m out =
      (m' : Memory S) × (out ≡ done m')
      × Extends mapped pa laws m m'
      × (laws.free m.pages ≤ laws.free m'.pages + n)

  -- What the clones of tables with some levels below them keep to.
  abbrev Clones : ℕ → (ℕ → Memory S → Outcome (ℕ × Memory S)) → Type 0
  Clones levels clone =
      (t : ℕ) (m : Memory S)
      → laws.IsGood m.pages
      → Holds levels m t
      → count_tables levels mapped m.words (slot mapped t 0) ≤ laws.free m.pages
      → Returns (count_tables levels mapped m.words (slot mapped t 0)) (slot mapped t 0) m
          (clone (slot mapped t 0) m)

  copy-Returns :
      (tbl : ℕ) (m : Memory S)
      → laws.IsGood m.pages
      → 1 ≤ laws.free m.pages
      → Returns 1 tbl m (clone_lv1_table pa tbl m)
  unfolding clone_lv1_table
  copy-Returns tbl m good enough = elim (allocate_table_cases mapped pa laws m good) [
    | inl (e, none_free) ↦ absurd (omega (arith, none_free))
    | inr (f, s', e, new, good', count) ↦ (
      f,
      copy mapped pa laws tbl m f s',
      rw e refl,
      new.small,
      copy-Copied mapped pa laws tbl m f s' new good',
      count,
    )
  ]

  clone_lv1_table-Clones : Clones 0 (clone_lv1_table pa)
  unfolding count_tables
  clone_lv1_table-Clones t m good holds enough = copy-Returns (slot mapped t 0) m good enough

  abbrev Leads : ℕ → Memory S → ℕ → Type 0
  Leads levels m t =
      (i : ℕ)
      → i < 512
      → is_last (m.words (slot mapped t i)) ≡ false
      → (g : ℕ) × (lower_table mapped (m.words (slot mapped t i)) ≡ slot mapped g 0)
        × Holds levels m g

  abbrev entry_cost : ℕ → Memory S → ℕ → ℕ
  entry_cost levels m e =
      if is_last e then 0 else count_tables levels mapped m.words (lower_table mapped e)

  clone_lower-Continues :
      (levels : ℕ) (lower : ℕ → Memory S → Outcome (ℕ × Memory S))
      → Clones levels lower
      → (f j : ℕ) (m : Memory S) → laws.IsGood m.pages
      → Leads levels m f
      → j < 512
      → entry_cost levels m (m.words (slot mapped f j)) ≤ laws.free m.pages
      → Continues
          (entry_cost levels m (m.words (slot mapped f j)))
          m
          (clone_lower lower mapped (slot mapped f j) m)
  unfolding clone_lower
  clone_lower-Continues levels lower clones f j m good leads hj enough =
      elim (Bool-cases (is_last (m.words (slot mapped f j)))) [
        | inl e ↦ (m, rw e refl, Extends-refl mapped pa laws m good, omega arith)
        | inr e ↦
            let (g, at, holds) = leads j hj e in
            let cost : entry_cost levels m (m.words (slot mapped f j))
                ≡ count_tables levels mapped m.words (slot mapped g 0) =
              rw (e, at) refl in
            let (n, m', eq, small, c, count) =
              clones g m good holds (omega (arith, cost, enough)) in
            (m', rw (e, at, eq) refl, c.extends, omega (arith, cost, count))
      ]

  Leads-extend :
      (levels : ℕ) (m m' : Memory S) (f : ℕ)
      → laws.used m.pages f ≡ true
      → Extends mapped pa laws m m'
      → Leads levels m f
      → Leads levels m' f
  Leads-extend levels m m' f used ext leads i hi open_ =
      let e : m'.words (slot mapped f i) ≡ m.words (slot mapped f i) = ext.same f i used hi in
      let (g, at, holds) = leads i hi (ap is_last (sym e) ∙ open_) in
      (g, ap (lower_table mapped) e ∙ at, Holds-extend levels m m' g ext holds)

  continue :
      (lower : ℕ → Memory S → Outcome (ℕ × Memory S)) (left address address' : ℕ) (m m₁ : Memory S)
      (c n : ℕ) {total : ℕ}
      → address + 8 ≡ address'
      → clone_lower lower mapped address m ≡ done m₁
      → Extends mapped pa laws m m₁
      → laws.free m.pages ≤ laws.free m₁.pages + c
      → Continues n m₁ (clone_lowers lower mapped left address' m₁)
      → total ≡ c + n
      → Continues total m (clone_lowers lower mapped (suc left) address m)
  unfolding clone_lowers
  continue lower left address address' m m₁ c n next e ext count (m₂, e', ext', count') sum = (
    m₂,
    rw (e, next) e',
    Extends-trans mapped pa laws m m₁ m₂ ext ext',
    omega (arith, count, count', sum),
  )

  clone_lowers-Continues :
      (levels : ℕ) (lower : ℕ → Memory S → Outcome (ℕ × Memory S))
      → Clones levels lower
      → (left f j : ℕ) (m : Memory S) → laws.IsGood m.pages
      → laws.used m.pages f ≡ true
      → Leads levels m f
      → j + left ≤ 512
      → cost_entries (count_tables levels mapped m.words) mapped m.words left (slot mapped f j)
        ≤ laws.free m.pages
      → Continues
          (cost_entries (count_tables levels mapped m.words) mapped m.words left (slot mapped f j))
          m
          (clone_lowers lower mapped left (slot mapped f j) m)
  unfolding clone_lowers cost_entries
  clone_lowers-Continues levels lower clones zero f j m good used leads h enough =
      (m, refl, Extends-refl mapped pa laws m good, omega arith)
  clone_lowers-Continues levels lower clones (suc left) f j m good used leads h enough =
      let next : slot mapped f j + 8 ≡ slot mapped f (j + 1) = omega arith in
      let costs : cost_entries (count_tables levels mapped m.words) mapped m.words (suc left)
            (slot mapped f j)
          ≡ entry_cost levels m (m.words (slot mapped f j))
            + cost_entries (count_tables levels mapped m.words) mapped m.words left
                (slot mapped f (j + 1)) =
        rw next refl in
      let (m₁, e, ext, count) =
        clone_lower-Continues levels lower clones f j m good leads (omega arith)
          (omega (arith, costs, enough)) in
      let same : cost_entries (count_tables levels mapped m₁.words) mapped m₁.words left
            (slot mapped f (j + 1))
          ≡ cost_entries (count_tables levels mapped m.words) mapped m.words left
              (slot mapped f (j + 1)) =
        cost_entries-same (count_tables levels mapped m.words) (count_tables levels mapped m₁.words)
          m.words m₁.words f f left (j + 1) (λ i hi. ext.same f i used hi)
          (λ i hi open_.
            let (g, at, holds) = leads i hi open_ in
            rw at (count_tables-extend levels m m₁ g ext holds))
          (omega arith) in
      continue lower left (slot mapped f j) (slot mapped f (j + 1)) m m₁
        (entry_cost levels m (m.words (slot mapped f j)))
        (cost_entries (count_tables levels mapped m₁.words) mapped m₁.words left
          (slot mapped f (j + 1)))
        next e ext count
        (clone_lowers-Continues levels lower clones left f (j + 1) m₁ ext.good (ext.kept f used)
          (Leads-extend levels m m₁ f used ext leads) (omega arith)
          (omega (arith, costs, enough, count, same)))
        (omega (arith, costs, same))

  copy_lower-Clones :
      (levels : ℕ) (lower : ℕ → Memory S → Outcome (ℕ × Memory S))
      → Clones levels lower
      → Clones (suc levels) (λ tbl m. do
        (new, m₁) ← clone_lv1_table pa tbl m
        m₂ ← clone_lowers lower mapped num_table_entries new m₁
        done (new, m₂))
  unfolding count_tables
  copy_lower-Clones levels lower clones t m good (small, used, leads) enough =
      let (f, m₁, e, f_small, c, count) = copy-Returns (slot mapped t 0) m good (omega arith) in
      let entries : (i : ℕ) → i < 512 → m₁.words (slot mapped f i) ≡ m.words (slot mapped t i) =
        λ i hi. c.entries t i refl used hi in
      let leads₁ : Leads levels m₁ f = λ i hi open_.
        let (g, at, holds) = leads i hi (ap is_last (sym (entries i hi)) ∙ open_) in
        (
          g,
          ap (lower_table mapped) (entries i hi) ∙ at,
          Holds-extend levels m m₁ g c.extends holds,
        ) in
      let same : cost_entries (count_tables levels mapped m₁.words) mapped m₁.words 512
            (slot mapped f 0)
          ≡ cost_entries (count_tables levels mapped m.words) mapped m.words 512 (slot mapped t 0) =
        cost_entries-same (count_tables levels mapped m.words) (count_tables levels mapped m₁.words)
          m.words m₁.words t f 512 0 entries
          (λ i hi open_.
            let (g, at, holds) = leads i hi open_ in
            rw at (count_tables-extend levels m m₁ g c.extends holds))
          (omega arith) in
      let (m₂, e', ext, count') =
        clone_lowers-Continues levels lower clones 512 f 0 m₁ c.extends.good c.taken leads₁
          (omega arith) (omega (arith, same, count, enough)) in
      (
        f,
        m₂,
        rw (e, e') refl,
        f_small,
        record {
          extends = Extends-trans mapped pa laws m m₁ m₂ c.extends ext;
          fresh = c.fresh;
          taken = ext.kept f c.taken;
          entries = λ u i at held hi. ext.same f i c.taken hi ∙ c.entries u i at held hi;
        },
        omega (arith, same, count, count'),
      )

  -- With all the tables in frames in use and as many free pages as there are tables, the clone of a
  -- level 3 table returns a copy.
  pub clone_lv3_table-Clones : Clones 2 (clone_lv3_table mapped pa)
  unfolding clone_lv2_table clone_lv3_table
  clone_lv3_table-Clones =
      copy_lower-Clones 1 (clone_lv2_table mapped pa)
        (copy_lower-Clones 0 (clone_lv1_table pa) clone_lv1_table-Clones)
