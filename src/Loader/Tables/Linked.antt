-- ===== src/Loader/Tables/Linked.antt =====
-- The entries on the way of `map_4k_to` of surtrc/arch/x86/page.c, and a new table under one of them.
use ymirc.Prelude.{
  ℕ, zero, suc, ◌+◌, ◌*◌, ◌/◌, ◌^◌, ◌≤◌, ◌<◌, ◌≡◌, ◌≢◌, ◌⊎◌, inl, inr, refl, ap, ◌∙◌, arith, Bool,
  true, false, ◌==◌, bit_and, some, done,
}
use ymirc.Bits.Fields.{bit_and-field_mask}
use ymirc.Npt.{phys_mask, Memory, write, with_words, clear_entries}
use ymirc.Npt.Words.{clear_entries-inside, clear_entries-outside}
use ymirc.Npt.Walk.{is_large, target}
use ymirc.Pages.Direct.{kernel_table}
use ymirc.Pages.Walk.{is_present, walk}
use ymirc.Loader.Tables.{Firmware, allocate_pages, allocate_lower, link_lower, descend}
use ymirc.Loader.Tables.Mapping.{
  NewPage, FirmwareLaws, word, index_at, table_value_lem, present_bit_lem,
}

-- The entry leads to the table in page `g`.
pub record Leads (e g : ℕ) : Type 0 where
  pub present : is_present e ≡ true
  pub small : e < 2 ^ 63
  pub lower : is_large e ≡ false
  pub page : e / 2 ^ 12 ≡ g
  pub page_small : g < 2 ^ 40

-- The tables from the one in page `t` on, which has `levels` levels below it, stand in pages in use as far as
-- the address leads, and the way ends with an empty entry.
abbrev pub Way : (ℕ → Bool) → (ℕ → ℕ) → ℕ → ℕ → ℕ → Type 0
Way used words va zero t = (t < 2 ^ 40) × (used t ≡ true) × (words (word t (index_at zero va)) ≡ 0)
Way used words va (suc levels) t =
    (t < 2 ^ 40)
    × (used t ≡ true)
    × ((words (word t (index_at (suc levels) va)) ≡ 0)
        ⊎ ((g : ℕ) × Leads (words (word t (index_at (suc levels) va))) g
            × Way used words va levels g))

pub Way-empty :
    (used : ℕ → Bool) (words : ℕ → ℕ) (va levels t : ℕ)
    → t < 2 ^ 40
    → used t ≡ true
    → ((i : ℕ) → i < 512 → words (word t i) ≡ 0)
    → Way used words va levels t
Way-empty used words va zero t small taken empty = (small, taken, empty _ (omega arith))
Way-empty used words va (suc levels) t small taken empty =
    (small, taken, inl (empty _ (omega arith)))

word-inj : (t i u j : ℕ) → i < 512 → j < 512 → word t i ≡ word u j → (t ≡ u) × (i ≡ j)
word-inj t i u j hi hj e = (omega arith, omega arith)

pub word_other :
    (t i u j v : ℕ) (words : ℕ → ℕ)
    → i < 512
    → j < 512
    → (u ≡ t → j ≢ i)
    → write (word t i) v words (word u j) ≡ words (word u j)
word_other t i u j v words hi hj apart =
    let other : (word u j == word t i) ≡ false = ground (arith, word-inj u j t i hj hi, apart) in
    rw other refl

pub word_here : (t i v : ℕ) (words : ℕ → ℕ) → write (word t i) v words (word t i) ≡ v
word_here t i v words = ground arith

pub Leads-address : (e g : ℕ) → Leads e g → bit_and e phys_mask ≡ g * 4096
Leads-address e g l =
    bit_and-field_mask 12 51 e (omega (arith, l.small)) ∙ omega (arith, l.small, l.page)

pub kernel_table-Leads : (g : ℕ) → g < 2 ^ 40 → Leads (kernel_table (g * 4096)) g
kernel_table-Leads g small = record {
  present = ground arith;
  small = omega arith;
  lower = ground arith;
  page = omega arith;
  page_small = small;
}

pub walk-Leads :
    (levels t g va : ℕ) (words : ℕ → ℕ)
    → Leads (words (word t (index_at (suc levels) va))) g
    → walk (suc levels) words (t * 4096) va ≡ walk levels words (g * 4096) va
unfolding walk
walk-Leads levels t g va words l =
    let at : target 12 (words (word t (index_at (suc levels) va))) ≡ g * 4096 =
      omega (arith, l.page, l.page_small) in
    rw (l.present, l.lower, at) refl

module _ {S : Type 0} (fw : Firmware S) (laws : FirmwareLaws fw) where
  -- One entry in the pages that were in use changes, which was empty.
  pub record Changed (m m' : Memory S) (c j : ℕ) : Type 0 where
    pub kept : (f : ℕ) → laws.used m.pages f ≡ true → laws.used m'.pages f ≡ true
    pub index : j < 512
    pub in_use : laws.used m.pages c ≡ true
    pub empty : m.words (word c j) ≡ 0
    pub same :
        (f i : ℕ)
        → laws.used m.pages f ≡ true
        → i < 512
        → (f ≡ c → i ≢ j)
        → m'.words (word f i) ≡ m.words (word f i)

  abbrev pub cleared : ℕ → Memory S → S → Memory S
  cleared f m s' = with_words (clear_entries 512 (word f 0) m.words) (record m { pages = s' })

  abbrev pub linked : ℕ → ℕ → ℕ → Memory S → S → Memory S
  linked t i f m s' =
      with_words (write (word t i) (kernel_table (f * 4096)) (cleared f m s').words)
        (cleared f m s')

  pub cleared_other :
      (f u i : ℕ) (m : Memory S) (s' : S)
      → i < 512
      → u ≢ f
      → (cleared f m s').words (word u i) ≡ m.words (word u i)
  cleared_other f u i m s' hi ne =
      clear_entries-outside 512 (word f 0) (word u i) m.words
        (λ k lt e. ne ((word-inj u i f k hi lt (e ∙ omega arith)).0))

  pub cleared_own :
      (f i : ℕ) (m : Memory S) (s' : S) → i < 512 → (cleared f m s').words (word f i) ≡ 0
  cleared_own f i m s' hi =
      ap (clear_entries 512 (word f 0) m.words) (omega arith)
      ∙ clear_entries-inside 512 (word f 0) i m.words hi

  allocate_pages-some :
      (m : Memory S) (addr : ℕ) (s' : S)
      → fw m.pages ≡ some (addr, s')
      → allocate_pages fw m ≡ done (addr, record m { pages = s' })
  unfolding allocate_pages
  allocate_pages-some m addr s' e = rw (allocate_pages, e) refl

  allocate_lower_lem :
      (m : Memory S)
      → 1 ≤ laws.free m.pages
      → (f : ℕ) × (s' : S) × (allocate_lower fw m ≡ done (f * 4096, cleared f m s'))
        × NewPage (laws.used m.pages) (laws.used s') f
        × (laws.free m.pages ≤ laws.free s' + 1)
  unfolding allocate_lower
  allocate_lower_lem m enough = elim (laws.supply m.pages) [
    | inl (e, none_free) ↦ absurd (omega (arith, none_free))
    | inr (f, s', e, new, count) ↦
        let at : f * 4096 ≡ word f 0 = omega arith in
        (
          f,
          s',
          rw (allocate_pages-some m (f * 4096) s' e) (
              ap
                (λ a.
                  done
                    (f * 4096, with_words (clear_entries 512 a m.words) (record m { pages = s' })))
                at),
          new,
          count,
        )
  ]

  pub fresh_ne : (f t : ℕ) (used : ℕ → Bool) → used f ≡ false → used t ≡ true → t ≢ f
  fresh_ne f t used fresh taken e = ground (arith, fresh, taken, e)

  -- A new table under an empty entry.
  pub descend-vacant :
      (t i : ℕ) (m : Memory S)
      → 1 ≤ laws.free m.pages
      → laws.used m.pages t ≡ true
      → i < 512
      → m.words (word t i) ≡ 0
      → (f : ℕ) × (s' : S) × (descend fw (word t i) m ≡ done (linked t i f m s'))
        × NewPage (laws.used m.pages) (laws.used s') f
        × (laws.free m.pages ≤ laws.free s' + 1)
  unfolding descend link_lower
  descend-vacant t i m enough taken hi vacant =
      let (f, s', e, new, count) = allocate_lower_lem m enough in
      let value =
        cleared_other f t i m s' hi (fresh_ne f t (laws.used m.pages) new.fresh taken) ∙ vacant in
      let stored = table_value_lem (f * 4096) (omega (arith, new.small)) (omega arith) in
      (f, s', rw (vacant, e, value, stored) refl, new, count)

  pub descend-Leads :
      (entry g : ℕ) (m : Memory S) → Leads (m.words entry) g → descend fw entry m ≡ done m
  unfolding descend
  descend-Leads entry g m l = rw (present_bit_lem (m.words entry), l.present) refl
