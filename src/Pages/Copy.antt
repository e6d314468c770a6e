-- ===== src/Pages/Copy.antt =====
-- The copy of one table of ymirc/arch/x86/page.c, and what a clone may change.
use ymirc.Prelude.{
  ℕ, zero, suc, ◌+◌, ◌*◌, ◌≤◌, ◌<◌, ◌≡◌, ◌≢◌, ◌⊎◌, inl, inr, refl, ap, ◌∙◌, arith, Bool, true,
  false, ◌==◌, done, stop, panicked,
}
use ymirc.Mem.{page_size, phys2virt}
use ymirc.Npt.{TableSource, Memory, with_words, clear_entries, allocate_table}
use ymirc.Npt.Words.{clear_entries-outside}
use ymirc.Npt.Tree.{slot}
use ymirc.Npt.Grow.{NewFrame, Supplies, slot-inj}
use ymirc.Npt.Ensure.{allocate_table_some, allocate_table_null, page_address}
use ymirc.Pages.{copy_entries}

copy_entries-outside :
    (left source address a : ℕ) (words : ℕ → ℕ)
    → ((k : ℕ) → k < left → a ≢ address + k * 8)
    → copy_entries left source address words a ≡ words a
unfolding copy_entries
copy_entries-outside zero source address a words out = refl
copy_entries-outside (suc left) source address a words out =
    let here : (a == address) ≡ false = ground (arith, out 0) in
    copy_entries-outside left (source + 8) (address + 8) a _
      (λ k h e. out (suc k) (omega arith) (omega arith))
    ∙ rw here refl

copy_entries-inside :
    (left source address i : ℕ) (words : ℕ → ℕ)
    → i < left
    → ((k : ℕ) (l : ℕ) → k < left → l < left → source + k * 8 ≢ address + l * 8)
    → copy_entries left source address words (address + i * 8) ≡ words (source + i * 8)
unfolding copy_entries
copy_entries-inside zero source address i words h apart = absurd (omega arith)
copy_entries-inside (suc left) source address zero words h apart =
    let at : (address + 0 == address) ≡ true = ground arith in
    copy_entries-outside left (source + 8) (address + 8) (address + 0) _ (λ k lt e. omega arith)
    ∙ rw at (ap words (omega arith))
copy_entries-inside (suc left) source address (suc i) words h apart =
    let e : address + suc i * 8 ≡ address + 8 + i * 8 = omega arith in
    let s : source + suc i * 8 ≡ source + 8 + i * 8 = omega arith in
    let other : (source + 8 + i * 8 == address) ≡ false = ground (arith, apart (suc i) 0) in
    rw (e, s)
      (copy_entries-inside left (source + 8) (address + 8) i _ (omega arith)
          (λ k l hk hl eq. apart (suc k) (suc l) (omega arith) (omega arith) (omega arith))
        ∙ rw other refl)

module _ {S : Type 0} (mapped : Bool) (pa : TableSource S) (laws : Supplies mapped pa) where
  -- The allocator is good, and every word in a frame that was in use is as it was.
  pub record Extends (m m' : Memory S) : Type 0 where
    pub good : laws.IsGood m'.pages
    pub kept : (f : ℕ) → laws.used m.pages f ≡ true → laws.used m'.pages f ≡ true
    pub same :
        (f i : ℕ)
        → laws.used m.pages f ≡ true
        → i < 512
        → m'.words (slot mapped f i) ≡ m.words (slot mapped f i)

  pub Extends-refl : (m : Memory S) → laws.IsGood m.pages → Extends m m
  Extends-refl m good = record { good = good; kept = λ f u. u; same = λ f i u h. refl }

  pub Extends-trans : (m m' m'' : Memory S) → Extends m m' → Extends m' m'' → Extends m m''
  Extends-trans m m' m'' a b = record {
    good = b.good;
    kept = λ f u. b.kept f (a.kept f u);
    same = λ f i u h. b.same f i (a.kept f u) h ∙ a.same f i u h;
  }

  -- A copy in a frame that was not in use.
  pub record Copied (tbl : ℕ) (m : Memory S) (f : ℕ) (m' : Memory S) : Type 0 where
    pub extends : Extends m m'
    pub fresh : laws.used m.pages f ≡ false
    pub taken : laws.used m'.pages f ≡ true
    pub entries :
        (t i : ℕ)
        → tbl ≡ slot mapped t 0
        → laws.used m.pages t ≡ true
        → i < 512
        → m'.words (slot mapped f i) ≡ m.words (slot mapped t i)

  abbrev pub copy : ℕ → Memory S → ℕ → S → Memory S
  copy tbl m f s' =
      with_words
        (copy_entries 512 tbl (slot mapped f 0) (clear_entries 512 (slot mapped f 0) m.words))
        (record m { pages = s' })

  pub copy-Copied :
      (tbl : ℕ) (m : Memory S) (f : ℕ) (s' : S)
      → NewFrame (laws.used m.pages) (laws.used s') f
      → laws.IsGood s'
      → Copied tbl m f (copy tbl m f s')
  copy-Copied tbl m f s' new good' = record {
    extends = record {
      good = good';
      kept = new.kept;
      same = λ g i u h.
          let other : g ≢ f = λ e. ground (arith, new.fresh, u, e) in
          copy_entries-outside 512 tbl (slot mapped f 0) (slot mapped g i) _
            (λ k lt e. other ((slot-inj mapped g i f k h lt (e ∙ omega arith)).0))
          ∙ clear_entries-outside 512 (slot mapped f 0) (slot mapped g i) m.words
              (λ k lt e. other ((slot-inj mapped g i f k h lt (e ∙ omega arith)).0));
    };
    fresh = new.fresh;
    taken = new.taken;
    entries = λ t i at u h.
        let other : t ≢ f = λ e. ground (arith, new.fresh, u, e) in
        ap (copy tbl m f s').words (omega arith)
        ∙ copy_entries-inside 512 tbl (slot mapped f 0) i _ h
            (λ k l hk hl e. other ((slot-inj mapped t k f l hk hl (omega (arith, e, at))).0))
        ∙ clear_entries-outside 512 (slot mapped f 0) (tbl + i * 8) m.words
            (λ k lt e. other ((slot-inj mapped t i f k h lt (omega (arith, e, at))).0))
        ∙ ap m.words (omega (arith, at));
  }

  -- A table from the allocator, with cleared entries; it panics if no page is free.
  pub allocate_table_cases :
      (m : Memory S)
      → laws.IsGood m.pages
      → ((allocate_table pa m ≡ stop panicked) × (laws.free m.pages ≡ 0))
        ⊎ ((f : ℕ) × (s' : S) × (allocate_table pa m
              ≡ done (
                slot mapped f 0,
                with_words (clear_entries 512 (slot mapped f 0) m.words) (record m { pages = s' }),
              ))
            × NewFrame (laws.used m.pages) (laws.used s') f
            × laws.IsGood s'
            × (laws.free m.pages ≤ laws.free s' + 1))
  allocate_table_cases m good = by_supply (laws.supply m.pages good)
    where
      by_supply :
          ((ptr : ℕ) × (s' : S) × (pa.alloc_aligned_pages 1 page_size m.pages ≡ done (ptr, s'))
            × (((ptr ≡ 0) × (laws.free m.pages ≡ 0))
                ⊎ ((f : ℕ) × (ptr ≡ phys2virt mapped (f * page_size))
                    × NewFrame (laws.used m.pages) (laws.used s') f
                    × laws.IsGood s'
                    × (laws.free m.pages ≤ laws.free s' + 1))))
          → ((allocate_table pa m ≡ stop panicked) × (laws.free m.pages ≡ 0))
            ⊎ ((f : ℕ) × (s' : S) × (allocate_table pa m
                  ≡ done (
                    slot mapped f 0,
                    with_words
                        (clear_entries 512 (slot mapped f 0) m.words)
                        (record m { pages = s' }),
                  ))
                × NewFrame (laws.used m.pages) (laws.used s') f
                × laws.IsGood s'
                × (laws.free m.pages ≤ laws.free s' + 1))
      by_supply (ptr, s', e, inl (null, few)) =
          inl (allocate_table_null pa m (e ∙ ap (λ p. done (p, s')) null), few)
      by_supply (ptr, s', e, inr (f, at, new, good', count)) = inr (
        f,
        s',
        allocate_table_some pa m (e ∙ ap (λ p. done (p, s')) (at ∙ page_address mapped f new.small))
            (omega (arith, new.positive)),
        new,
        good',
        count,
      )
