-- ===== src/Loader/Tables/Region.antt =====
-- The tables of surtrc/arch/x86/page.c under one entry of the table of level 4, which pages are
-- mapped in one after the other.
use ymirc.Prelude.{
  ℕ, zero, suc, ◌+◌, ◌*◌, ◌/◌, ◌%◌, ◌^◌, ◌≤◌, ◌<◌, ◌≡◌, ◌≢◌, ◌⊎◌, inl, inr, sym, ap, ◌∙◌, arith,
  true, Bool-cases, ◌==◌, if◌then◌else◌,
}
use ymirc.Npt.{Memory}
use ymirc.Pages.Direct.{kernel_table}
use ymirc.Loader.Tables.{Firmware}
use ymirc.Loader.Tables.Mapping.{NewPage, FirmwareLaws, word, index_at}
use ymirc.Loader.Tables.Linked.{
  Leads, Way, kernel_table-Leads, word_other, word_here, cleared, linked, cleared_other,
  cleared_own, fresh_ne,
}
use ymirc.Loader.Tables.Translation.{Reads}

-- The part of an address above the index in the table with `levels` levels below it, in the region.
abbrev pub prefix_at : ℕ → ℕ → ℕ
prefix_at zero va = va / 2 ^ 21 % 2 ^ 18
prefix_at (suc zero) va = va / 2 ^ 30 % 2 ^ 9
prefix_at (suc (suc n)) va = 0

-- The number of a page in the region.
abbrev pub page_of : ℕ → ℕ
page_of va = va / 2 ^ 12 % 2 ^ 27

pub prefix_at-suc :
    (levels va : ℕ)
    → levels < 2
    → prefix_at levels va ≡ prefix_at (suc levels) va * 512 + index_at (suc levels) va
prefix_at-suc zero va h = omega arith
prefix_at-suc (suc zero) va h = omega arith
prefix_at-suc (suc (suc n)) va h = absurd (omega arith)

module _ {S : Type 0} (fw : Firmware S) (laws : FirmwareLaws fw) where
  -- A table of the region has a depth, the number of its levels, and the prefix of the addresses that it
  -- is for; the depth of other pages is 0. The pages from `next` on are not mapped.
  pub record Region (m : Memory S) (depth prefix : ℕ → ℕ) (next : ℕ) : Type 0 where
    pub tables : (f l : ℕ) → depth f ≡ suc l → (f < 2 ^ 40) × (laws.used m.pages f ≡ true)
    pub lower :
        (f l i : ℕ)
        → depth f ≡ suc (suc l)
        → i < 512
        → (m.words (word f i) ≡ 0)
          ⊎ ((g : ℕ) × Leads (m.words (word f i)) g
              × (depth g ≡ suc l)
              × (prefix g ≡ prefix f * 512 + i))
    pub leaf :
        (f i : ℕ) → depth f ≡ 1 → i < 512 → next ≤ prefix f * 512 + i → m.words (word f i) ≡ 0

  module _ (va : ℕ) where
    pub Region-Way :
        (m : Memory S) (depth prefix : ℕ → ℕ) (next levels t : ℕ)
        → Region m depth prefix next
        → levels < 3
        → depth t ≡ suc levels
        → prefix t ≡ prefix_at levels va
        → next ≤ page_of va
        → Way (laws.used m.pages) m.words va levels t
    Region-Way m depth prefix next zero t r low d p h =
        let (small, used) = r.tables t zero d in
        (small, used, r.leaf t (index_at zero va) d (omega arith) (omega (arith, p)))
    Region-Way m depth prefix next (suc levels) t r low d p h =
        let (small, used) = r.tables t (suc levels) d in
        (
          small,
          used,
          elim (r.lower t levels (index_at (suc levels) va) d (omega arith)) [
            | inl empty ↦ inl empty
            | inr (g, leads, d', p') ↦ inr (
              g,
              leads,
              Region-Way m depth prefix next levels g r (omega arith) d'
                  (p'
                    ∙ ap (λ x. x * 512 + index_at (suc levels) va) p
                    ∙ sym (prefix_at-suc levels va (omega arith)))
                  h,
            )
          ],
        )

    pub Region-Reads :
        (m : Memory S) (depth prefix : ℕ → ℕ) (next levels t : ℕ)
        → Region m depth prefix next
        → depth t ≡ suc levels
        → Reads (laws.used m.pages) m.words va levels t
    Region-Reads m depth prefix next zero t r d = (r.tables t zero d).1
    Region-Reads m depth prefix next (suc levels) t r d = (
      (r.tables t (suc levels) d).1,
      λ on lower. elim (r.lower t levels (index_at (suc levels) va) d (omega arith)) [
        | inl empty ↦ absurd (ground (arith, on, empty))
        | inr (g, leads, d', p') ↦ (
          g,
          omega (arith, leads.page, leads.page_small),
          Region-Reads m depth prefix next levels g r d',
        )
      ],
    )

  abbrev pub put : (ℕ → ℕ) → ℕ → ℕ → ℕ → ℕ
  put values f v g = if g == f then v else values g

  pub put_here : (values : ℕ → ℕ) (f v : ℕ) → put values f v f ≡ v
  put_here values f v = ground arith

  pub put_other : (values : ℕ → ℕ) (f v g : ℕ) → g ≢ f → put values f v g ≡ values g
  put_other values f v g ne = ground arith

  -- A new table under an empty entry of the region, or of a page that is not in it.
  pub Region-linked :
      (m : Memory S) (depth prefix : ℕ → ℕ) (next t i f p l : ℕ) (s' : S)
      → Region m depth prefix next
      → laws.used m.pages t ≡ true
      → i < 512
      → m.words (word t i) ≡ 0
      → NewPage (laws.used m.pages) (laws.used s') f
      → ((k : ℕ) → depth t ≡ suc k → (k ≡ suc l) × (p ≡ prefix t * 512 + i))
      → Region (linked fw laws t i f m s') (put depth f (suc l)) (put prefix f p) next
  Region-linked m depth prefix next t i f p l s' r taken hi vacant new fits =
      let m₁ = linked fw laws t i f m s' in
      let outside : (g k : ℕ) → depth g ≡ suc k → g ≢ f =
        λ g k d. fresh_ne fw laws f g (laws.used m.pages) new.fresh (r.tables g k d).1 in
      let same : (g j : ℕ)
          → g ≢ f
          → j < 512
          → (g ≡ t → j ≢ i)
          → m₁.words (word g j) ≡ m.words (word g j) =
        λ g j ne hj apart.
          word_other t i g j _ (cleared fw laws f m s').words hi hj apart
          ∙ cleared_other fw laws f g j m s' hj ne in
      let apart : f ≢ t = λ e. fresh_ne fw laws f t (laws.used m.pages) new.fresh taken (sym e) in
      let bare : (j : ℕ) → j < 512 → m₁.words (word f j) ≡ 0 = λ j hj.
        word_other t i f j _ (cleared fw laws f m s').words hi hj (λ e. absurd (apart e))
        ∙ cleared_own fw laws f j m s' hj in
      let d = put depth f (suc l) in
      let q = put prefix f p in
      let old : (g k : ℕ) → d g ≡ k → g ≢ f → depth g ≡ k =
        λ g k e ne. sym (put_other depth f (suc l) g ne) ∙ e in
      record {
        tables = λ g k e. elim (Bool-cases (g == f)) [
          | inl on ↦ let at : g ≡ f = ground arith in rw at (new.small, new.taken)
          | inr off ↦
              let (small, used) = r.tables g k (old g (suc k) e (ground (arith, off))) in
              (small, new.kept g used)
        ];
        lower = λ g k j e hj. elim (Bool-cases (g == f)) [
          | inl on ↦
              let at : g ≡ f = ground arith in inl (ap (λ g. m₁.words (word g j)) at ∙ bare j hj)
          | inr off ↦
              let ne : g ≢ f = ground (arith, off) in
              let e' = old g (suc (suc k)) e ne in
              elim (Bool-cases (g == t)) [
                | inr away ↦ lower_kept g k j e' hj ne (λ eq. absurd (ground (arith, away, eq)))
                | inl on_t ↦ elim (Bool-cases (j == i)) [
                  | inr away ↦
                      lower_kept g k j e' hj ne (λ eq eq'. absurd (ground (arith, away, eq')))
                  | inl on_i ↦
                      let gt : g ≡ t = ground arith in
                      let ji : j ≡ i = ground arith in
                      let (level, place) = fits (suc k) (ap depth (sym gt) ∙ e') in
                      let entry : m₁.words (word g j) ≡ kernel_table (f * 4096) =
                        rw (gt, ji)
                          (word_here t i (kernel_table (f * 4096))
                            (cleared fw laws f m s').words) in
                      inr (
                        f,
                        rw entry (kernel_table-Leads f new.small),
                        put_here depth f (suc l) ∙ sym level,
                        rw (put_here prefix f p, put_other prefix f p g ne, gt, ji) place,
                      )
                ]
              ]
        ];
        leaf = λ g j e hj h. elim (Bool-cases (g == f)) [
          | inl on ↦ let at : g ≡ f = ground arith in ap (λ g. m₁.words (word g j)) at ∙ bare j hj
          | inr off ↦
              let ne : g ≢ f = ground (arith, off) in
              let e' = old g 1 e ne in
              same g j ne hj (λ gt. absurd (omega (arith, (fits zero (ap depth (sym gt) ∙ e')).0)))
              ∙ r.leaf g j e' hj (omega (arith, put_other prefix f p g ne, h))
        ];
      }
    where
      lower_kept :
          (g k j : ℕ)
          → depth g ≡ suc (suc k)
          → j < 512
          → g ≢ f
          → (g ≡ t → j ≢ i)
          → ((linked fw laws t i f m s').words (word g j) ≡ 0)
            ⊎ ((h : ℕ) × Leads ((linked fw laws t i f m s').words (word g j)) h
                × (put depth f (suc l) h ≡ suc k)
                × (put prefix f p h ≡ put prefix f p g * 512 + j))
      lower_kept g k j e hj ne apart =
          let kept : (linked fw laws t i f m s').words (word g j) ≡ m.words (word g j) =
            word_other t i g j _ (cleared fw laws f m s').words hi hj apart
            ∙ cleared_other fw laws f g j m s' hj ne in
          elim (r.lower g k j e hj) [
            | inl empty ↦ inl (kept ∙ empty)
            | inr (h, leads, depth_h, prefix_h) ↦
                let other : h ≢ f =
                  fresh_ne fw laws f h (laws.used m.pages) new.fresh (r.tables h k depth_h).1 in
                inr (
                  h,
                  rw kept leads,
                  put_other depth f (suc l) h other ∙ depth_h,
                  rw (put_other prefix f p h other, put_other prefix f p g ne) prefix_h,
                )
          ]
