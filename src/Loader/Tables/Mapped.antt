-- ===== src/Loader/Tables/Mapped.antt =====
-- What `map_4k_to` of surtrc/arch/x86/page.c makes of the tables on the way to a page.
use ymirc.Prelude.{
  ℕ, zero, suc, ◌+◌, ◌*◌, ◌%◌, ◌^◌, ◌≤◌, ◌<◌, ◌≡◌, ◌≢◌, inl, inr, refl, sym, ap, ◌∙◌, arith, true,
  bit_and, some, done,
}
use ymirc.Npt.{phys_mask, Memory, write, with_words}
use ymirc.Npt.Entries.{entry_address}
use ymirc.Npt.Walk.{target}
use ymirc.Pages.Direct.{kernel_table, kernel_page}
use ymirc.Pages.Walk.{is_present, walk}
use ymirc.Loader.Tables.{Firmware, link_page, map_last}
use ymirc.Loader.Tables.Mapping.{
  NewPage, FirmwareLaws, word, index_at, page_value_lem, get_entry_at_lem, map_from,
}
use ymirc.Loader.Tables.Linked.{
  Leads, Way, Way-empty, word_other, word_here, Leads-address, kernel_table-Leads, walk-Leads,
  Changed, cleared, linked, cleared_other, cleared_own, fresh_ne, descend-vacant, descend-Leads,
}

module _ {S : Type 0} (fw : Firmware S) (laws : FirmwareLaws fw) where
  module _ (va phys : ℕ) where
    -- Memory after the way from the table in page `t` on was completed.
    pub record Mapped (levels t : ℕ) (m m' : Memory S) : Type 0 where
      pub found : walk levels m'.words (t * 4096) va ≡ some (phys + va % 4096)
      pub page : ℕ
      pub place : ℕ
      pub changed : Changed fw laws m m' page place
      pub here :
          m.words (word t (index_at levels va)) ≡ 0 → (page ≡ t) × (place ≡ index_at levels va)
      pub leads :
          (n : ℕ) → levels ≡ suc n → (g : ℕ) × Leads (m'.words (word t (index_at levels va))) g

    -- The page itself.
    abbrev pub paged : ℕ → Memory S → Memory S
    paged t m = with_words (write (word t (index_at zero va)) (kernel_page phys) m.words) m

    pub map_last_lem :
        (t : ℕ) (m : Memory S)
        → phys < 2 ^ 52
        → phys % 2 ^ 12 ≡ 0
        → m.words (word t (index_at zero va)) ≡ 0
        → map_last (word t (index_at zero va)) phys m ≡ done (paged t m)
    unfolding map_last link_page
    map_last_lem t m small aligned vacant = rw (vacant, page_value_lem phys small aligned) refl

    paged-Mapped :
        (t : ℕ) (m : Memory S)
        → phys < 2 ^ 52
        → phys % 2 ^ 12 ≡ 0
        → laws.used m.pages t ≡ true
        → m.words (word t (index_at zero va)) ≡ 0
        → Mapped zero t m (paged t m)
    unfolding walk
    paged-Mapped t m small aligned taken vacant = record {
      found =
          let e : (paged t m).words (word t (index_at zero va)) ≡ kernel_page phys =
            word_here t (index_at zero va) (kernel_page phys) m.words in
          let at : target 12 (kernel_page phys) ≡ phys = omega arith in
          let set : is_present (kernel_page phys) ≡ true = ground arith in rw (e, at, set) refl;
      page = t;
      place = index_at zero va;
      changed = record {
        kept = λ f used. used;
        index = omega arith;
        in_use = taken;
        empty = vacant;
        same = λ f i used hi apart.
            word_other t (index_at zero va) f i (kernel_page phys) m.words (omega arith) hi apart;
      };
      here = λ e. (refl, refl);
      leads = λ n e. absurd (omega arith);
    }

    -- The way through a new table.
    grown :
        (levels t f : ℕ) (m : Memory S) (s' : S) (m₂ : Memory S)
        → laws.used m.pages t ≡ true
        → m.words (word t (index_at (suc levels) va)) ≡ 0
        → NewPage (laws.used m.pages) (laws.used s') f
        → Mapped levels f (linked fw laws t (index_at (suc levels) va) f m s') m₂
        → Mapped (suc levels) t m m₂
    grown levels t f m s' m₂ taken vacant new r =
        let i = index_at (suc levels) va in
        let m₁ = linked fw laws t i f m s' in
        let hi : i < 512 = omega arith in
        let other : (u : ℕ) → laws.used m.pages u ≡ true → u ≢ f =
          λ u used. fresh_ne fw laws f u (laws.used m.pages) new.fresh used in
        let bare : m₁.words (word f (index_at levels va)) ≡ 0 =
          word_other t i f (index_at levels va) _ (cleared fw laws f m s').words hi (omega arith)
            (λ e. absurd (other t taken (sym e)))
          ∙ cleared_own fw laws f (index_at levels va) m s' (omega arith) in
        let at = r.here bare in
        let far : (u j : ℕ)
            → laws.used m.pages u ≡ true
            → j < 512
            → m₂.words (word u j) ≡ m₁.words (word u j) =
          λ u j used hj.
            r.changed.same u j (new.kept u used) hj (λ e. absurd (other u used (e ∙ at.0))) in
        let entry : m₂.words (word t i) ≡ kernel_table (f * 4096) =
          far t i taken hi
          ∙ word_here t i (kernel_table (f * 4096)) (cleared fw laws f m s').words in
        let l : Leads (m₂.words (word t i)) f = rw entry (kernel_table-Leads f new.small) in
        record {
          found = walk-Leads levels t f va m₂.words l ∙ r.found;
          page = t;
          place = i;
          changed = record {
            kept = λ u used. r.changed.kept u (new.kept u used);
            index = hi;
            in_use = taken;
            empty = vacant;
            same = λ u j used hj apart.
                far u j used hj
                ∙ word_other t i u j _ (cleared fw laws f m s').words hi hj apart
                ∙ cleared_other fw laws f u j m s' hj (other u used);
          };
          here = λ e. (refl, refl);
          leads = λ n e. (f, l);
        }

    -- The way through a table that is there.
    passed :
        (levels t g : ℕ) (m m₂ : Memory S)
        → laws.used m.pages t ≡ true
        → Leads (m.words (word t (index_at (suc levels) va))) g
        → Mapped levels g m m₂
        → Mapped (suc levels) t m m₂
    passed levels t g m m₂ taken leads r =
        let i = index_at (suc levels) va in
        let present = leads.present in
        let apart : (t ≡ r.page) → i ≢ r.place = λ e e'. ground (
          arith,
          present,
          ap (λ x. m.words x) (ap (λ c. word c i) e ∙ ap (word r.page) e') ∙ r.changed.empty,
        ) in
        let entry : m₂.words (word t i) ≡ m.words (word t i) =
          r.changed.same t i taken (omega arith) apart in
        let l : Leads (m₂.words (word t i)) g = rw entry leads in
        record {
          found = walk-Leads levels t g va m₂.words l ∙ r.found;
          page = r.page;
          place = r.place;
          changed = r.changed;
          here = λ e. ground (arith, present, e);
          leads = λ n e. (g, l);
        }

    pub map_from_lem :
        (levels t : ℕ) (m : Memory S)
        → levels < 4
        → phys < 2 ^ 52
        → phys % 2 ^ 12 ≡ 0
        → levels ≤ laws.free m.pages
        → Way (laws.used m.pages) m.words va levels t
        → (m' : Memory S) × (map_from fw va phys levels (t * 4096) m ≡ done m')
          × Mapped levels t m m'
    unfolding map_from
    map_from_lem zero t m low small aligned enough (t_small, taken, vacant) = (
      paged t m,
      rw (get_entry_at_lem zero va t low t_small) (map_last_lem t m small aligned vacant),
      paged-Mapped t m small aligned taken vacant,
    )
    map_from_lem (suc levels) t m low small aligned enough (t_small, taken, inl vacant) =
        let i = index_at (suc levels) va in
        let (f, s', e, new, count) =
          descend-vacant fw laws t i m (omega arith) taken (omega arith) vacant in
        let m₁ = linked fw laws t i f m s' in
        let apart : f ≢ t =
          λ eq. fresh_ne fw laws f t (laws.used m.pages) new.fresh taken (sym eq) in
        let empty : (j : ℕ) → j < 512 → m₁.words (word f j) ≡ 0 = λ j hj.
          word_other t i f j _ (cleared fw laws f m s').words (omega arith) hj
            (λ eq. absurd (apart eq))
          ∙ cleared_own fw laws f j m s' hj in
        let address : bit_and (m₁.words (word t i)) phys_mask ≡ f * 4096 =
          ap (λ v. bit_and v phys_mask)
            (word_here t i (kernel_table (f * 4096)) (cleared fw laws f m s').words)
          ∙ entry_address 3 (f * 4096) (omega arith) (omega (arith, new.small)) (omega arith) in
        let (m₂, e', r) =
          map_from_lem levels f m₁ (omega arith) small aligned (omega (arith, count))
            (Way-empty (laws.used s') m₁.words va levels f new.small new.taken empty) in
        (
          m₂,
          rw (get_entry_at_lem (suc levels) va t low t_small, e, address) e',
          grown levels t f m s' m₂ taken vacant new r,
        )
    map_from_lem (suc levels) t m low small aligned enough (t_small, taken, inr (g, leads, path)) =
        let i = index_at (suc levels) va in
        let (m₂, e, r) = map_from_lem levels g m (omega arith) small aligned (omega arith) path in
        (
          m₂,
          rw
              (
                get_entry_at_lem (suc levels) va t low t_small,
                descend-Leads fw laws (word t i) g m leads,
                Leads-address (m.words (word t i)) g leads,
              )
              e,
          passed levels t g m m₂ taken leads r,
        )
