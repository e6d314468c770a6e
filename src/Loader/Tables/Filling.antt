-- ===== src/Loader/Tables/Filling.antt =====
-- `map_4k_to` of surtrc/arch/x86/page.c for the next page of a region.
use ymirc.Prelude.{
  ℕ, zero, suc, ◌+◌, ◌-◌, ◌*◌, ◌%◌, ◌^◌, ◌≤◌, ◌<◌, ◌≡◌, ◌≢◌, inl, inr, refl, sym, ap, ◌∙◌, arith,
  true, bit_and, done,
}
use ymirc.Npt.{phys_mask, Memory}
use ymirc.Npt.Entries.{entry_address}
use ymirc.Pages.Direct.{kernel_table, kernel_page}
use ymirc.Loader.Tables.{Firmware}
use ymirc.Loader.Tables.Mapping.{FirmwareLaws, word, index_at, get_entry_at_lem, map_from}
use ymirc.Loader.Tables.Linked.{
  Leads, Leads-address, kernel_table-Leads, word_other, word_here, cleared, linked, cleared_other,
  fresh_ne, descend-vacant, descend-Leads,
}
use ymirc.Loader.Tables.Mapped.{paged, map_last_lem}
use ymirc.Loader.Tables.Region.{
  prefix_at, page_of, prefix_at-suc, Region, put, put_here, put_other, Region-linked,
}

module _ {S : Type 0} (fw : Firmware S) (laws : FirmwareLaws fw) (va phys : ℕ)
    (small : phys < 2 ^ 52) (aligned : phys % 2 ^ 12 ≡ 0) where
  -- Memory after the next page was mapped from the table in page `t` on.
  pub record Advanced (levels t : ℕ) (m m' : Memory S) (depth prefix : ℕ → ℕ) : Type 0 where
    pub depth' : ℕ → ℕ
    pub prefix' : ℕ → ℕ
    pub region : Region fw laws m' depth' prefix' (page_of va + 1)
    pub kept : (g : ℕ) → depth g ≢ 0 → (depth' g ≡ depth g) × (prefix' g ≡ prefix g)
    pub foreign : (g : ℕ) → laws.used m.pages g ≡ true → depth g ≡ 0 → depth' g ≡ 0
    pub used : (g : ℕ) → laws.used m.pages g ≡ true → laws.used m'.pages g ≡ true
    pub same :
        (g i : ℕ)
        → laws.used m.pages g ≡ true
        → depth g ≡ 0
        → i < 512
        → (g ≡ t → i ≢ index_at levels va)
        → m'.words (word g i) ≡ m.words (word g i)
    pub count : laws.free m.pages ≤ laws.free m'.pages + levels

  abbrev pub Fills : ℕ → Type 0
  Fills levels =
      (t : ℕ) (m : Memory S) (depth prefix : ℕ → ℕ)
      → Region fw laws m depth prefix (page_of va)
      → depth t ≡ suc levels
      → prefix t ≡ prefix_at levels va
      → levels ≤ laws.free m.pages
      → (m' : Memory S) × (map_from fw va phys levels (t * 4096) m ≡ done m')
        × Advanced levels t m m' depth prefix

  paged-Region :
      (t : ℕ) (m : Memory S) (depth prefix : ℕ → ℕ)
      → Region fw laws m depth prefix (page_of va)
      → depth t ≡ 1
      → prefix t ≡ prefix_at zero va
      → Region fw laws (paged fw laws va phys t m) depth prefix (page_of va + 1)
  paged-Region t m depth prefix r d p = record {
    tables = r.tables;
    lower = λ g k j e hj.
        let kept =
          word_other t (index_at zero va) g j (kernel_page phys) m.words (omega arith) hj
            (λ gt. absurd (omega (arith, ap depth gt, d, e))) in
        elim (r.lower g k j e hj) [
          | inl empty ↦ inl (kept ∙ empty)
          | inr (h, leads, depth_h, prefix_h) ↦ inr (h, rw kept leads, depth_h, prefix_h)
        ];
    leaf = λ g j e hj h.
        word_other t (index_at zero va) g j (kernel_page phys) m.words (omega arith) hj
          (λ gt eq. absurd (omega (arith, ap prefix gt, p, h, eq)))
        ∙ r.leaf g j e hj (omega (arith, h));
  }

  leaf-Fills : Fills zero
  unfolding map_from
  leaf-Fills t m depth prefix r d p enough =
      let (t_small, used) = r.tables t zero d in
      let vacant : m.words (word t (index_at zero va)) ≡ 0 =
        r.leaf t (index_at zero va) d (omega arith) (omega (arith, p)) in
      (
        paged fw laws va phys t m,
        rw (get_entry_at_lem zero va t (omega arith) t_small)
            (map_last_lem fw laws va phys t m small aligned vacant),
        record {
          depth' = depth;
          prefix' = prefix;
          region = paged-Region t m depth prefix r d p;
          kept = λ g ne. (refl, refl);
          foreign = λ g used e. e;
          used = λ g used. used;
          same = λ g i used e hi apart.
              word_other t (index_at zero va) g i (kernel_page phys) m.words (omega arith) hi apart;
          count = omega arith;
        },
      )

  -- What is left of the way, and where it led.
  abbrev pub Led : ℕ → ℕ → Memory S → (ℕ → ℕ) → (ℕ → ℕ) → Type 0
  Led levels t m depth prefix =
      (m' : Memory S) × (map_from fw va phys (suc levels) (t * 4096) m ≡ done m')
      × (a : Advanced (suc levels) t m m' depth prefix) × (depth t ≡ 0
          → (g : ℕ) × Leads (m'.words (word t (index_at (suc levels) va))) g
            × (a.depth' g ≡ suc levels)
            × (a.prefix' g ≡ prefix_at levels va))

  pub through_table :
      (levels t g : ℕ) (m : Memory S) (depth prefix : ℕ → ℕ)
      → levels < 3
      → Fills levels
      → Region fw laws m depth prefix (page_of va)
      → t < 2 ^ 40
      → laws.used m.pages t ≡ true
      → Leads (m.words (word t (index_at (suc levels) va))) g
      → depth g ≡ suc levels
      → prefix g ≡ prefix_at levels va
      → suc levels ≤ laws.free m.pages
      → Led levels t m depth prefix
  unfolding map_from
  through_table levels t g m depth prefix low fills r t_small taken leads d p enough =
      let i = index_at (suc levels) va in
      let (m₂, e, a) = fills g m depth prefix r d p (omega arith) in
      let (kept_depth, kept_prefix) = a.kept g (λ z. omega (arith, d, z)) in
      let other : (u : ℕ) → depth u ≡ 0 → u ≢ g = λ u z eq. omega (arith, ap depth eq, z, d) in
      (
        m₂,
        rw
            (
              get_entry_at_lem (suc levels) va t (omega arith) t_small,
              descend-Leads fw laws (word t i) g m leads,
              Leads-address (m.words (word t i)) g leads,
            )
            e,
        record {
          depth' = a.depth';
          prefix' = a.prefix';
          region = a.region;
          kept = a.kept;
          foreign = a.foreign;
          used = a.used;
          same = λ u j used z hj apart. a.same u j used z hj (λ eq. absurd (other u z eq));
          count = omega (arith, a.count);
        },
        λ z.
            let entry : m₂.words (word t i) ≡ m.words (word t i) =
              a.same t i taken z (omega arith) (λ eq. absurd (other t z eq)) in
            (g, rw entry leads, kept_depth ∙ d, kept_prefix ∙ p),
      )

  pub through_new_table :
      (levels t : ℕ) (m : Memory S) (depth prefix : ℕ → ℕ)
      → levels < 3
      → Fills levels
      → Region fw laws m depth prefix (page_of va)
      → t < 2 ^ 40
      → laws.used m.pages t ≡ true
      → m.words (word t (index_at (suc levels) va)) ≡ 0
      → ((k : ℕ)
          → depth t ≡ suc k
          → (k ≡ suc levels) × (prefix_at levels va ≡ prefix t * 512 + index_at (suc levels) va))
      → suc levels ≤ laws.free m.pages
      → Led levels t m depth prefix
  unfolding map_from
  through_new_table levels t m depth prefix low fills r t_small taken vacant fits enough =
      let i = index_at (suc levels) va in
      let hi : i < 512 = omega arith in
      let p = prefix_at levels va in
      let (f, s', e, new, count) = descend-vacant fw laws t i m (omega arith) taken hi vacant in
      let m₁ = linked fw laws t i f m s' in
      let ne : (u : ℕ) → laws.used m.pages u ≡ true → u ≢ f =
        λ u used. fresh_ne fw laws f u (laws.used m.pages) new.fresh used in
      let r₁ =
        Region-linked fw laws m depth prefix (page_of va) t i f p levels s' r taken hi vacant new
          fits in
      let d = put_here fw laws depth f (suc levels) in
      let q = put_here fw laws prefix f p in
      let (m₂, e', a) =
        fills f m₁ (put fw laws depth f (suc levels)) (put fw laws prefix f p) r₁ d q
          (omega (arith, count)) in
      let address : bit_and (m₁.words (word t i)) phys_mask ≡ f * 4096 =
        ap (λ v. bit_and v phys_mask)
          (word_here t i (kernel_table (f * 4096)) (cleared fw laws f m s').words)
        ∙ entry_address 3 (f * 4096) (omega arith) (omega (arith, new.small)) (omega arith) in
      let zero_depth : (u : ℕ)
          → laws.used m.pages u ≡ true
          → depth u ≡ 0
          → put fw laws depth f (suc levels) u ≡ 0 =
        λ u used z. put_other fw laws depth f (suc levels) u (ne u used) ∙ z in
      let (f_depth, f_prefix) = a.kept f (λ z. omega (arith, d, z)) in
      (
        m₂,
        rw (get_entry_at_lem (suc levels) va t (omega arith) t_small, e, address) e',
        record {
          depth' = a.depth';
          prefix' = a.prefix';
          region = a.region;
          kept = λ g nz.
              let gf : g ≢ f = in_region g nz r ne in
              let same_depth = put_other fw laws depth f (suc levels) g gf in
              let (dg, pg) = a.kept g (λ z. nz (sym same_depth ∙ z)) in
              (dg ∙ same_depth, pg ∙ put_other fw laws prefix f p g gf);
          foreign = λ g used z. a.foreign g (new.kept g used) (zero_depth g used z);
          used = λ g used. a.used g (new.kept g used);
          same = λ u j used z hj apart.
              a.same u j (new.kept u used) (zero_depth u used z) hj (λ eq. absurd (ne u used eq))
              ∙ word_other t i u j _ (cleared fw laws f m s').words hi hj apart
              ∙ cleared_other fw laws f u j m s' hj (ne u used);
          count = omega (arith, a.count, count);
        },
        λ z.
            let entry : m₂.words (word t i) ≡ kernel_table (f * 4096) =
              a.same t i (new.kept t taken) (zero_depth t taken z) hi (λ eq. absurd (ne t taken eq))
              ∙ word_here t i (kernel_table (f * 4096)) (cleared fw laws f m s').words in
            (f, rw entry (kernel_table-Leads f new.small), f_depth ∙ d, f_prefix ∙ q),
      )
    where
      in_region :
          {f : ℕ} (g : ℕ)
          → depth g ≢ 0
          → Region fw laws m depth prefix (page_of va)
          → ((u : ℕ) → laws.used m.pages u ≡ true → u ≢ f)
          → g ≢ f
      in_region g nz r ne = ne g ((r.tables g (depth g - 1) (omega (arith, nz))).1)

  pub map_from-Fills : (levels : ℕ) → levels < 3 → Fills levels
  map_from-Fills zero low t m depth prefix r d p enough = leaf-Fills t m depth prefix r d p enough
  map_from-Fills (suc levels) low t m depth prefix r d p enough =
      let (t_small, taken) = r.tables t (suc levels) d in
      let fills = map_from-Fills levels (omega arith) in
      let place : prefix_at levels va ≡ prefix t * 512 + index_at (suc levels) va =
        prefix_at-suc levels va (omega arith)
        ∙ ap (λ x. x * 512 + index_at (suc levels) va) (sym p) in
      elim (r.lower t levels (index_at (suc levels) va) d (omega arith)) [
        | inl empty ↦
            let (m', e, a, _) =
              through_new_table levels t m depth prefix (omega arith) fills r t_small taken empty
                (λ k e. (omega (arith, d, e), place)) enough in
            (m', e, a)
        | inr (g, leads, dg, pg) ↦
            let (m', e, a, _) =
              through_table levels t g m depth prefix (omega arith) fills r t_small taken leads dg
                (pg ∙ sym place) enough in
            (m', e, a)
      ]
