-- ===== src/Loader/Tables/Round.antt =====
-- One round of the loop of surtrc/boot.c that maps the image of the kernel.
use ymirc.Prelude.{
  ℕ, ◌+◌, ◌*◌, ◌%◌, ◌^◌, ◌≤◌, ◌<◌, ◌≡◌, ◌⊎◌, inl, inr, sym, subst, ◌∙◌, arith, Bool, true, done,
  done-injective,
}
use ymirc.Npt.{Memory}
use ymirc.Pages.Walk.{is_canonical}
use ymirc.Loader.Tables.{Firmware, map_4k_to}
use ymirc.Loader.Tables.Mapping.{FirmwareLaws, word, index_at, map_4k_to-map_from}
use ymirc.Loader.Tables.Linked.{Leads, Way}
use ymirc.Loader.Tables.Translation.{ReadsFrom, Added, map_4k_to_lem}
use ymirc.Loader.Tables.Region.{page_of, Region, Region-Way, Region-Reads}
use ymirc.Loader.Tables.Filling.{Led, through_table, through_new_table, map_from-Fills}

-- The table of level 4, outside the region, with the entry that leads to it.
pub record Top (used : ℕ → Bool) (words depth prefix : ℕ → ℕ) (root k : ℕ) : Type 0 where
  pub small : root < 2 ^ 40
  pub taken : used root ≡ true
  pub outside : depth root ≡ 0
  pub entry :
      (words (word root k) ≡ 0)
      ⊎ ((g : ℕ) × Leads (words (word root k)) g × (depth g ≡ 3) × (prefix g ≡ 0))

module _ {S : Type 0} (fw : Firmware S) (laws : FirmwareLaws fw) (root va : ℕ) where
  -- The region up to the page of `va`.
  pub record Filled (m : Memory S) (next : ℕ) : Type 0 where
    pub depth : ℕ → ℕ
    pub prefix : ℕ → ℕ
    pub region : Region fw laws m depth prefix next
    pub top : Top (laws.used m.pages) m.words depth prefix root (index_at 3 va)

  Filled-Way :
      (m : Memory S) (next : ℕ)
      → Filled m next
      → next ≤ page_of va
      → Way (laws.used m.pages) m.words va 3 root
  Filled-Way m next r h =
      let top = r.top in
      (
        top.small,
        top.taken,
        elim top.entry [
          | inl empty ↦ inl empty
          | inr (g, leads, d, p) ↦ inr (
            g,
            leads,
            Region-Way fw laws va m r.depth r.prefix next 2 g r.region (omega arith) d p h,
          )
        ],
      )

  pub Filled-ReadsFrom :
      (m : Memory S) (next : ℕ) → Filled m next → ReadsFrom (laws.used m.pages) m.words root va
  Filled-ReadsFrom m next r =
      let top = r.top in
      (
        top.taken,
        λ on. elim top.entry [
          | inl empty ↦ absurd (ground (arith, on, empty))
          | inr (g, leads, d, p) ↦ (
            g,
            omega (arith, leads.page, leads.page_small),
            Region-Reads fw laws va m r.depth r.prefix next 2 g r.region d,
          )
        ],
      )

  module _ (phys : ℕ) (small : phys < 2 ^ 52) (aligned : phys % 2 ^ 12 ≡ 0) where
    Led-Filled :
        (m : Memory S) (r : Filled m (page_of va))
        → Led fw laws va phys small aligned 2 root m r.depth r.prefix
        → (m' : Memory S) × (map_4k_to fw (root * 4096) va phys m ≡ done m')
          × Filled m' (page_of va + 1)
          × (laws.free m.pages ≤ laws.free m'.pages + 3)
    Led-Filled m r (m', e, a, led) =
        let top = r.top in
        let (g, leads, d, p) = led top.outside in
        (
          m',
          map_4k_to-map_from fw (root * 4096) va phys m ∙ e,
          record {
            depth = a.depth';
            prefix = a.prefix';
            region = a.region;
            top = record {
              small = top.small;
              taken = a.used root top.taken;
              outside = a.foreign root top.taken top.outside;
              entry = inr (g, leads, d, p);
            };
          },
          a.count,
        )

    -- One round of the loop.
    pub map_4k_to-Filled :
        (m : Memory S)
        → Filled m (page_of va)
        → is_canonical va ≡ true
        → 3 ≤ laws.free m.pages
        → (m' : Memory S) × (map_4k_to fw (root * 4096) va phys m ≡ done m')
          × Filled m' (page_of va + 1)
          × (laws.free m.pages ≤ laws.free m'.pages + 3)
          × Added fw laws root va phys m m'
    map_4k_to-Filled m r canonical enough =
        let top = r.top in
        let fills = map_from-Fills fw laws va phys small aligned 2 (omega arith) in
        let led : Led fw laws va phys small aligned 2 root m r.depth r.prefix = elim top.entry [
          | inl empty ↦
              through_new_table fw laws va phys small aligned 2 root m r.depth r.prefix
                (omega arith) fills r.region top.small top.taken empty
                (λ k e. absurd (omega (arith, e, top.outside))) enough
          | inr (g, leads, d, p) ↦
              through_table fw laws va phys small aligned 2 root g m r.depth r.prefix (omega arith)
                fills r.region top.small top.taken leads d p enough
        ] in
        let (m', e, f, count) = Led-Filled m r led in
        let (m'', e', added) =
          map_4k_to_lem fw laws root va phys m small aligned canonical enough
            (Filled-Way m (page_of va) r (omega arith)) in
        (m', e, f, count, subst (Added fw laws root va phys m) (done-injective (sym e' ∙ e)) added)

pub Filled-same :
    {S : Type 0} (fw : Firmware S) (laws : FirmwareLaws fw) (root va va' : ℕ) (m : Memory S)
    (next next' : ℕ)
    → index_at 3 va ≡ index_at 3 va'
    → next ≡ next'
    → Filled fw laws root va m next
    → Filled fw laws root va' m next'
Filled-same fw laws root va va' m next next' e n r = record {
  depth = r.depth;
  prefix = r.prefix;
  region = rw (sym n) r.region;
  top = subst (Top (laws.used m.pages) m.words r.depth r.prefix root) e r.top;
}
