-- ===== src/Pages/Kernel.antt =====
-- The loop of `reconstruct` in ymirc/arch/x86/page.c over the kernel's region.
use ymirc.Prelude.{
  ℕ, zero, suc, ◌+◌, ◌*◌, ◌^◌, ◌≤◌, ◌<◌, ◌≡◌, ◌≢◌, inl, inr, refl, ap, ◌∙◌, arith, Bool, true,
  false, Bool-cases, ◌==◌, if◌then◌else◌, done,
}
use ymirc.Bits.{isset}
use ymirc.Npt.{entry_present, TableSource, Memory, write, with_words, entry_at}
use ymirc.Npt.Tree.{frames, slot}
use ymirc.Npt.Grow.{Supplies}
use ymirc.Pages.{clone_entry, clone_kernel}
use ymirc.Pages.Copy.{Extends}
use ymirc.Pages.Holds.{
  lower_table, count_tables, Holds, Holds-extend, Holds-used, count_tables-extend,
  clone_lv3_table-Clones,
}
use ymirc.Pages.Direct.{
  kernel_table, kernel_page, entry_at-slot, refer_to_table_lem, write-here, write-other,
}

-- The number of tables that the clones of `left` entries of the table in frame `r` make.
unfoldable pub count_kernel : Bool → (ℕ → ℕ) → ℕ → ℕ → ℕ → ℕ
count_kernel mapped words r zero lv4idx = 0
count_kernel mapped words r (suc left) lv4idx =
    (if isset (words (slot mapped r lv4idx)) entry_present
      then count_tables 2 mapped words (lower_table mapped (words (slot mapped r lv4idx)))
      else 0)
    + count_kernel mapped words r left (lv4idx + 1)

module _ {S : Type 0} (mapped : Bool) (pa : TableSource S) (laws : Supplies mapped pa) where
  -- The old table of level 4 and all tables of the kernel's region stand in frames in use.
  pub record KernelTables (r : ℕ) (m : Memory S) : Type 0 where
    pub small : r < frames
    pub used : laws.used m.pages r ≡ true
    pub lower :
        (i : ℕ)
        → 274 ≤ i
        → i < 512
        → isset (m.words (slot mapped r i)) entry_present ≡ true
        → (t : ℕ) × (lower_table mapped (m.words (slot mapped r i)) ≡ slot mapped t 0)
          × Holds mapped pa laws 2 m t

  module _ (m₀ : Memory S) (r a b : ℕ) where
    -- What became of one entry of the table in frame `r`, in the table in frame `a`.
    pub data Cloned (i : ℕ) (m : Memory S) : Type 0 where
      absent :
          isset (m₀.words (slot mapped r i)) entry_present ≡ false
          → m.words (slot mapped a i) ≡ 0
          → Cloned i m
      cloned :
          (t g : ℕ)
          → isset (m₀.words (slot mapped r i)) entry_present ≡ true
          → lower_table mapped (m₀.words (slot mapped r i)) ≡ slot mapped t 0
          → Holds mapped pa laws 2 m₀ t
          → g < frames
          → g ≢ a
          → laws.used m.pages g ≡ true
          → m.words (slot mapped a i) ≡ kernel_table (g * 4096)
          → ((j : ℕ) → j < 512 → m.words (slot mapped g j) ≡ m₀.words (slot mapped t j))
          → Cloned i m

    pub record Progress (lv4idx : ℕ) (m : Memory S) : Type 0 where
      pub extends : Extends mapped pa laws m₀ m
      pub a_taken : laws.used m.pages a ≡ true
      pub b_taken : laws.used m.pages b ≡ true
      pub low : (i : ℕ) → i < 273 → m.words (slot mapped a i) ≡ 0
      pub entry : m.words (slot mapped a 273) ≡ kernel_table (b * 4096)
      pub filled : (i : ℕ) → i < 512 → m.words (slot mapped b i) ≡ kernel_page (i * 2 ^ 30)
      pub clones : (i : ℕ) → 274 ≤ i → i < lv4idx → Cloned i m
      pub rest : (i : ℕ) → lv4idx ≤ i → i < 512 → m.words (slot mapped a i) ≡ 0

    module _ (a_small : a < frames) (a_fresh : laws.used m₀.pages a ≡ false) (apart : b ≢ a) where
      used-ne : (m : Memory S) (f : ℕ) → laws.used m₀.pages f ≡ true → f ≢ a
      used-ne m f used e = ground (arith, a_fresh, used, e)

      Progress-skip :
          (lv4idx : ℕ) (m : Memory S)
          → Progress lv4idx m
          → Cloned lv4idx m
          → Progress (lv4idx + 1) m
      Progress-skip lv4idx m p here = record {
        extends = p.extends;
        a_taken = p.a_taken;
        b_taken = p.b_taken;
        low = p.low;
        entry = p.entry;
        filled = p.filled;
        clones = λ i low high. elim (Bool-cases (i == lv4idx)) [
          | inl e ↦ let at : i ≡ lv4idx = ground arith in rw at here
          | inr e ↦ p.clones i low (ground arith)
        ];
        rest = λ i low high. p.rest i (omega arith) high;
      }

      module _ (lv4idx v : ℕ) (m m₁ : Memory S) (high : 274 ≤ lv4idx) (index : lv4idx < 512)
          (p : Progress lv4idx m) (ext : Extends mapped pa laws m m₁) where
        abbrev filled_in : Memory S
        filled_in = with_words (write (slot mapped a lv4idx) v m₁.words) m₁

        kept :
            (f i : ℕ)
            → laws.used m.pages f ≡ true
            → i < 512
            → (f ≡ a → i ≢ lv4idx)
            → filled_in.words (slot mapped f i) ≡ m.words (slot mapped f i)
        kept f i used hi other =
            write-other mapped a lv4idx f i v m₁.words index hi other ∙ ext.same f i used hi

        Cloned-keep : (i : ℕ) → i < lv4idx → Cloned i m → Cloned i filled_in
        Cloned-keep i h (absent e z) =
            absent e (kept a i p.a_taken (omega arith) (λ _. omega arith) ∙ z)
        Cloned-keep i h (cloned t g e at holds small ne used to same) =
            cloned t g e at holds small ne (ext.kept g used)
              (kept a i p.a_taken (omega arith) (λ _. omega arith) ∙ to)
              (λ j hj. kept g j used hj (λ e. absurd (ne e)) ∙ same j hj)

        Progress-fill : Cloned lv4idx filled_in → Progress (lv4idx + 1) filled_in
        Progress-fill here = record {
          extends = record {
            good = ext.good;
            kept = λ f used. ext.kept f (p.extends.kept f used);
            same = λ f i used hi.
                kept f i (p.extends.kept f used) hi (λ e. absurd (used-ne m f used e))
                ∙ p.extends.same f i used hi;
          };
          a_taken = ext.kept a p.a_taken;
          b_taken = ext.kept b p.b_taken;
          low = λ i hi. kept a i p.a_taken (omega arith) (λ _. omega arith) ∙ p.low i hi;
          entry = kept a 273 p.a_taken (omega arith) (λ _. omega arith) ∙ p.entry;
          filled = λ i hi. kept b i p.b_taken hi (λ e. absurd (apart e)) ∙ p.filled i hi;
          clones = λ i low below. elim (Bool-cases (i == lv4idx)) [
            | inl e ↦ let at : i ≡ lv4idx = ground arith in rw at here
            | inr e ↦ Cloned-keep i (ground arith) (p.clones i low (ground arith))
          ];
          rest = λ i from hi. kept a i p.a_taken hi (λ _. omega arith) ∙ p.rest i (omega arith) hi;
        }

      module _ (tables : KernelTables r m₀) where
        abbrev cost : ℕ → ℕ
        cost i =
            if isset (m₀.words (slot mapped r i)) entry_present
            then count_tables 2 mapped m₀.words (lower_table mapped (m₀.words (slot mapped r i)))
            else 0

        -- One entry, if it is there.
        clone_entry-present :
            (lv4idx : ℕ) (m : Memory S)
            → 274 ≤ lv4idx
            → lv4idx < 512
            → Progress lv4idx m
            → isset (m₀.words (slot mapped r lv4idx)) entry_present ≡ true
            → cost lv4idx ≤ laws.free m.pages
            → (m' : Memory S) × (clone_entry mapped pa lv4idx (slot mapped r 0) (slot mapped a 0) m
                ≡ done m')
              × Progress (lv4idx + 1) m'
              × (laws.free m.pages ≤ laws.free m'.pages + cost lv4idx)
        unfolding clone_entry
        clone_entry-present lv4idx m high index p e enough =
            let (t, at, holds) = tables.lower lv4idx high index e in
            let old : m.words (entry_at (slot mapped r 0) lv4idx)
                ≡ m₀.words (slot mapped r lv4idx) =
              ap m.words (entry_at-slot mapped r lv4idx tables.small index)
              ∙ p.extends.same r lv4idx tables.used index in
            let held = Holds-extend mapped pa laws 2 m₀ m t p.extends holds in
            let total : cost lv4idx ≡ count_tables 2 mapped m₀.words (slot mapped t 0) =
              rw (e, at) refl in
            let now : count_tables 2 mapped m.words (slot mapped t 0)
                ≡ count_tables 2 mapped m₀.words (slot mapped t 0) =
              count_tables-extend mapped pa laws 2 m₀ m t p.extends holds in
            let (g, m₁, eq, small, c, count) =
              clone_lv3_table-Clones mapped pa laws t m p.extends.good held
                (omega (arith, total, now, enough)) in
            let ne : g ≢ a = λ same. ground (arith, c.fresh, p.a_taken, same) in
            let empty : m₁.words (slot mapped a lv4idx) ≡ 0 =
              c.extends.same a lv4idx p.a_taken index ∙ p.rest lv4idx (omega arith) index in
            (
              filled_in lv4idx (kernel_table (g * 4096)) m m₁ high index p c.extends,
              rw (old, e, at, eq, refer_to_table_lem mapped a lv4idx g m₁ a_small index small empty)
                  refl,
              Progress-fill lv4idx (kernel_table (g * 4096)) m m₁ high index p c.extends (
                  cloned t g e at holds small ne c.taken (write-here mapped a lv4idx _ m₁.words)
                    (λ j hj.
                      write-other mapped a lv4idx g j _ m₁.words index hj (λ e. absurd (ne e))
                      ∙ c.entries t j refl (Holds-used mapped pa laws 2 m t held) hj
                      ∙ p.extends.same t j (Holds-used mapped pa laws 2 m₀ t holds) hj)),
              omega (arith, total, now, count),
            )

        clone_entry_lem :
            (lv4idx : ℕ) (m : Memory S)
            → 274 ≤ lv4idx
            → lv4idx < 512
            → Progress lv4idx m
            → cost lv4idx ≤ laws.free m.pages
            → (m' : Memory S) × (clone_entry mapped pa lv4idx (slot mapped r 0) (slot mapped a 0) m
                ≡ done m')
              × Progress (lv4idx + 1) m'
              × (laws.free m.pages ≤ laws.free m'.pages + cost lv4idx)
        unfolding clone_entry
        clone_entry_lem lv4idx m high index p enough =
            elim (Bool-cases (isset (m₀.words (slot mapped r lv4idx)) entry_present)) [
              | inl e ↦ clone_entry-present lv4idx m high index p e enough
              | inr e ↦
                  let old : m.words (entry_at (slot mapped r 0) lv4idx)
                      ≡ m₀.words (slot mapped r lv4idx) =
                    ap m.words (entry_at-slot mapped r lv4idx tables.small index)
                    ∙ p.extends.same r lv4idx tables.used index in
                  (
                    m,
                    rw (old, e) refl,
                    Progress-skip lv4idx m p (absent e (p.rest lv4idx (omega arith) index)),
                    omega arith,
                  )
            ]

        pub clone_kernel_lem :
            (left lv4idx : ℕ) (m : Memory S)
            → 274 ≤ lv4idx
            → lv4idx + left ≡ 512
            → Progress lv4idx m
            → count_kernel mapped m₀.words r left lv4idx ≤ laws.free m.pages
            → (m' : Memory S) × (clone_kernel mapped pa left lv4idx
                  (slot mapped r 0)
                  (slot mapped a 0)
                  m
                ≡ done m')
              × Progress 512 m'
        unfolding clone_kernel count_kernel
        clone_kernel_lem zero lv4idx m high h p enough =
            let at : lv4idx ≡ 512 = omega arith in (m, refl, rw at at p)
        clone_kernel_lem (suc left) lv4idx m high h p enough =
            let (m₁, e, p₁, count) =
              clone_entry_lem lv4idx m high (omega arith) p (omega (arith, enough)) in
            let (m₂, e', p₂) =
              clone_kernel_lem left (lv4idx + 1) m₁ (omega arith) (omega arith) p₁
                (omega (arith, enough, count)) in
            (m₂, rw (e, e') refl, p₂)
