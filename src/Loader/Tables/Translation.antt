-- ===== src/Loader/Tables/Translation.antt =====
-- `map_4k_to` of surtrc/arch/x86/page.c and the translation of addresses by the processor.
use ymirc.Prelude.{
  ℕ, zero, suc, ◌+◌, ◌*◌, ◌%◌, ◌^◌, ◌≤◌, ◌<◌, ◌≡◌, inl, inr, refl, sym, ap, ◌∙◌, arith, Bool, true,
  false, Bool-cases, some, done,
}
use ymirc.Npt.{Memory}
use ymirc.Npt.Walk.{is_large, target}
use ymirc.Pages.Walk.{is_present, is_canonical, walk, translate_kernel}
use ymirc.Loader.Tables.{Firmware, map_4k_to}
use ymirc.Loader.Tables.Mapping.{FirmwareLaws, word, index_at, map_4k_to-map_from}
use ymirc.Loader.Tables.Linked.{Leads, Way, Changed, walk-Leads}
use ymirc.Loader.Tables.Mapped.{map_from_lem}

-- The tables that the walk for `va` reads stand in pages in use.
abbrev pub Reads : (ℕ → Bool) → (ℕ → ℕ) → ℕ → ℕ → ℕ → Type 0
Reads used words va zero t = used t ≡ true
Reads used words va (suc levels) t =
    (used t ≡ true)
    × (is_present (words (word t (index_at (suc levels) va))) ≡ true
        → is_large (words (word t (index_at (suc levels) va))) ≡ false
        → (g : ℕ) × (target 12 (words (word t (index_at (suc levels) va))) ≡ g * 4096)
          × Reads used words va levels g)

-- The same with the table of level 4, where the bit PS does not end the walk.
abbrev pub ReadsFrom : (ℕ → Bool) → (ℕ → ℕ) → ℕ → ℕ → Type 0
ReadsFrom used words root va =
    (used root ≡ true)
    × (is_present (words (word root (index_at 3 va))) ≡ true
        → (g : ℕ) × (target 12 (words (word root (index_at 3 va))) ≡ g * 4096)
          × Reads used words va 2 g)

-- The processor translates `va` to `pa`.
abbrev pub Finds : (ℕ → Bool) → (ℕ → ℕ) → ℕ → ℕ → ℕ → Type 0
Finds used words root va pa =
    ReadsFrom used words root va × (translate_kernel words (root * 4096) va ≡ some pa)

module _ {S : Type 0} (fw : Firmware S) (laws : FirmwareLaws fw) (m m' : Memory S) (c j : ℕ)
    (changed : Changed fw laws m m' c j) where
  -- An entry that is present does not change.
  present_kept :
      (t i : ℕ)
      → laws.used m.pages t ≡ true
      → i < 512
      → is_present (m.words (word t i)) ≡ true
      → m'.words (word t i) ≡ m.words (word t i)
  present_kept t i used hi present = changed.same t i used hi (λ e e'.
      ground (
        arith,
        present,
        ap (λ x. m.words x) (ap (λ c. word c i) e ∙ ap (word c) e') ∙ changed.empty,
      ))

  walk-Changed :
      (levels t va pa : ℕ)
      → Reads (laws.used m.pages) m.words va levels t
      → walk levels m.words (t * 4096) va ≡ some pa
      → Reads (laws.used m'.pages) m'.words va levels t
        × (walk levels m'.words (t * 4096) va ≡ some pa)
  unfolding walk
  walk-Changed zero t va pa used found =
      elim (Bool-cases (is_present (m.words (word t (index_at zero va))))) [
        | inl on ↦ (
          changed.kept t used,
          rw (present_kept t (index_at zero va) used (omega arith) on) found,
        )
        | inr off ↦ ground (arith, off, found)
      ]
  walk-Changed (suc levels) t va pa (used, reads) found =
      elim (Bool-cases (is_present (m.words (word t (index_at (suc levels) va))))) [
        | inr off ↦ ground (arith, off, found)
        | inl on ↦
            let same = present_kept t (index_at (suc levels) va) used (omega arith) on in
            elim (Bool-cases (is_large (m.words (word t (index_at (suc levels) va))))) [
              | inl large ↦ (
                (changed.kept t used, λ on' lower. absurd (ground (arith, same, large, lower))),
                rw (same, on, large) (ground (arith, on, large, found)),
              )
              | inr lower ↦
                  let (g, at, reads') = reads on lower in
                  let found' : walk levels m.words (g * 4096) va ≡ some pa =
                    ground (arith, on, lower, at, found) in
                  let (reads'', found'') = walk-Changed levels g va pa reads' found' in
                  (
                    (changed.kept t used, λ _ _. (g, ap (target 12) same ∙ at, reads'')),
                    rw (same, on, lower, at) found'',
                  )
            ]
      ]

  Finds-Changed :
      (root va pa : ℕ)
      → root < 2 ^ 40
      → Finds (laws.used m.pages) m.words root va pa
      → Finds (laws.used m'.pages) m'.words root va pa
  unfolding translate_kernel
  Finds-Changed root va pa small ((used, reads), found) =
      let top : target 12 (root * 4096) ≡ root * 4096 = omega arith in
      elim (Bool-cases (is_canonical va)) [
        | inr off ↦ ground (arith, off, found)
        | inl canonical ↦ elim (Bool-cases (is_present (m.words (word root (index_at 3 va))))) [
          | inr off ↦ ground (arith, top, off, canonical, found)
          | inl on ↦
              let same = present_kept root (index_at 3 va) used (omega arith) on in
              let (g, at, reads') = reads on in
              let found' : walk 2 m.words (g * 4096) va ≡ some pa =
                ground (arith, top, canonical, on, at, found) in
              let (reads'', found'') = walk-Changed 2 g va pa reads' found' in
              (
                (changed.kept root used, λ _. (g, ap (target 12) same ∙ at, reads'')),
                rw (top, same, on, canonical, at) found'',
              )
        ]
      ]

module _ {S : Type 0} (fw : Firmware S) (laws : FirmwareLaws fw) where
  -- Memory after a page was mapped.
  pub record Added (root va phys : ℕ) (m m' : Memory S) : Type 0 where
    pub translates : translate_kernel m'.words (root * 4096) va ≡ some (phys + va % 4096)
    pub page : ℕ
    pub place : ℕ
    pub changed : Changed fw laws m m' page place
    pub others :
        (va' pa : ℕ)
        → Finds (laws.used m.pages) m.words root va' pa
        → Finds (laws.used m'.pages) m'.words root va' pa

  top_table :
      (root va pa : ℕ) (words : ℕ → ℕ) (g : ℕ)
      → root < 2 ^ 40
      → is_canonical va ≡ true
      → Leads (words (word root (index_at 3 va))) g
      → walk 3 words (root * 4096) va ≡ some pa
      → translate_kernel words (root * 4096) va ≡ some pa
  unfolding translate_kernel
  top_table root va pa words g small canonical l found =
      let top : target 12 (root * 4096) ≡ root * 4096 = omega arith in
      let at : target 12 (words (word root (index_at 3 va))) ≡ g * 4096 =
        omega (arith, l.page, l.page_small) in
      rw (canonical, top, l.present, at) (sym (walk-Leads 2 root g va words l) ∙ found)

  -- With three free pages, where the tables on the way to an address stand in pages in use and the
  -- way ends with an empty entry, `map_4k_to` returns. Then the processor translates the address to
  -- its offset in the page, and the other addresses whose tables stand in pages in use as before; in
  -- the pages that were in use one word has changed, an entry that was empty.
  pub map_4k_to_lem :
      (root va phys : ℕ) (m : Memory S)
      → phys < 2 ^ 52
      → phys % 2 ^ 12 ≡ 0
      → is_canonical va ≡ true
      → 3 ≤ laws.free m.pages
      → Way (laws.used m.pages) m.words va 3 root
      → (m' : Memory S) × (map_4k_to fw (root * 4096) va phys m ≡ done m') × Added root va phys m m'
  map_4k_to_lem root va phys m small aligned canonical enough path =
      let (m', e, r) =
        map_from_lem fw laws va phys 3 root m (omega arith) small aligned enough path in
      let (g, l) = r.leads 2 refl in
      let root_small : root < 2 ^ 40 = path.0 in
      (
        m',
        map_4k_to-map_from fw (root * 4096) va phys m ∙ e,
        record {
          translates =
              top_table root va (phys + va % 4096) m'.words g root_small canonical l r.found;
          page = r.page;
          place = r.place;
          changed = r.changed;
          others = λ va' pa finds.
              Finds-Changed fw laws m m' r.page r.place r.changed root va' pa root_small finds;
        },
      )
