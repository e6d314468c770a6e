-- ===== src/Npt/Step.antt =====
-- `map2m` as a whole: one more page of the guest is mapped, and no other mapping changes.
use ymirc.Prelude.{
  ℕ, ◌+◌, ◌*◌, ◌/◌, ◌%◌, ◌^◌, ◌<◌, ◌≡◌, inl, inr, refl, sym, ap, ◌∙◌, arith, Bool, if◌then◌else◌,
  bit_and, bit_and-ones, shr,
}
use ymirc.Prelude.{Outcome, ◌>>=◌}
use ymirc.Mem.{phys2virt}
use ymirc.Npt.{
  TableLevel, write, shift_of, TableSource, Memory, level2, level3, lv4_shift, index_mask,
  phys_mask, entry_at, get_entry_address, ensure_table, map_page, map2m, with_words,
}
use ymirc.Npt.Entries.{table_entry, page_entry, entry_address}
use ymirc.Npt.Tree.{
  Place, third, second, below, is_directory, frames, offset, offset-le, slot, phys2virt-offset,
  maps, leaf, follow,
}
use ymirc.Npt.Grow.{Supplies}
use ymirc.Npt.Grow.Leaves.{follow-table, directory-placed}
use ymirc.Npt.Ensure.{Built, Ensured, Grows, ensure_table_lem}
use ymirc.Npt.Mapping.{same_path, leaf-write, Tree-write, map_page_eq}

-- The three indices of a guest address.
abbrev pub index4 : ℕ → ℕ
index4 gpa = gpa / 2 ^ 39 % 512

abbrev pub index3 : ℕ → ℕ
index3 gpa = gpa / 2 ^ 30 % 512

abbrev pub index2 : ℕ → ℕ
index2 gpa = gpa / 2 ^ 21 % 512

entry_at-slot :
    (mapped : Bool) (f i : ℕ)
    → f < frames
    → i < 512
    → entry_at (slot mapped f 0) i ≡ slot mapped f i
entry_at-slot mapped f i hf hi = omega (arith, offset-le mapped)

top_entry :
    (mapped : Bool) (root gpa : ℕ)
    → root < frames
    → entry_at (slot mapped root 0) (bit_and (shr gpa lv4_shift) index_mask)
      ≡ slot mapped root (index4 gpa)
top_entry mapped root gpa h =
    ap (entry_at (slot mapped root 0)) (bit_and-ones 9 (shr gpa 39))
    ∙ entry_at-slot mapped root (index4 gpa) h (omega arith)

-- The address of an entry in the table that an entry refers to.
lower_entry :
    (mapped : Bool) (e f gpa : ℕ) (level : TableLevel)
    → e ≡ table_entry (f * 4096)
    → f < frames
    → get_entry_address mapped gpa (bit_and e phys_mask) level
      ≡ slot mapped f (shr gpa (shift_of level) % 512)
unfolding get_entry_address
lower_entry mapped e f gpa level eq h =
    ap (λ a. entry_at (phys2virt mapped a) (bit_and (shr gpa (shift_of level)) index_mask))
      (ap (λ x. bit_and x phys_mask) eq
        ∙ entry_address 7 (f * 4096) (omega arith) (omega arith) (omega arith))
    ∙ ap (λ a. entry_at a (bit_and (shr gpa (shift_of level)) index_mask))
        (phys2virt-offset mapped (f * 4096) (omega arith)
          ∙ (let e0 : offset mapped + f * 4096 ≡ slot mapped f 0 = omega arith in e0))
    ∙ ap (entry_at (slot mapped f 0)) (bit_and-ones 9 (shr gpa (shift_of level)))
    ∙ entry_at-slot mapped f (shr gpa (shift_of level) % 512) h (omega arith)

pub Grows-bind :
    {S : Type 0} (mapped : Bool) (pa : TableSource S) (laws : Supplies mapped pa) (k k' : ℕ)
    (m : Memory S) (P Q : Memory S → Type 0) {x : Outcome (Memory S)}
    {f : Memory S → Outcome (Memory S)}
    → Grows mapped pa laws k m P x
    → ((m' : Memory S) → P m' → Grows mapped pa laws k' m' Q (f m'))
    → Grows mapped pa laws (k + k') m Q (x >>= f)
Grows-bind mapped pa laws k k' m P Q {x} {f} (inl (few, e)) next =
    rw e (inl (omega (arith, few), refl))
Grows-bind {S} mapped pa laws k k' m P Q {x} {f} (inr (m', e, cost, p)) next =
    rw e (add (next m' p))
  where
    add :
        {y : Outcome (Memory S)}
        → Grows mapped pa laws k' m' Q y
        → Grows mapped pa laws (k + k') m Q y
    add (inl (few, e')) = inl (omega (arith, few, cost), e')
    add (inr (m'', e', cost', q)) = inr (m'', e', omega (arith, cost, cost'), q)

pub Grows-map :
    {S : Type 0} (mapped : Bool) (pa : TableSource S) (laws : Supplies mapped pa) (k : ℕ)
    (m : Memory S) {P Q : Memory S → Type 0} {x : Outcome (Memory S)}
    → Grows mapped pa laws k m P x
    → ((m' : Memory S) → P m' → Q m')
    → Grows mapped pa laws k m Q x
Grows-map mapped pa laws k m (inl stopped) f = inl stopped
Grows-map mapped pa laws k m (inr (m', e, cost, p)) f = inr (m', e, cost, f m' p)

-- One more page.
pub record OneMore {S : Type 0} (mapped : Bool) (pa : TableSource S) (laws : Supplies mapped pa)
    (root gpa h : ℕ) (m m' : Memory S) : Type 0 where
  pub owner : ℕ → Place
  pub built : Built mapped pa laws owner root m'
  pub leaves :
      (j k l : ℕ)
      → j < 512
      → k < 512
      → l < 512
      → leaf mapped m'.words root j k l ≡ (
          if same_path j k l (index4 gpa) (index3 gpa) (index2 gpa)
          then page_entry (h * 2 ^ 21)
          else leaf mapped m.words root j k l)

-- The entry that the path leads to.
leaf-path :
    (mapped : Bool) (words : ℕ → ℕ) (root j k l f₃ f₂ : ℕ)
    → words (slot mapped root j) ≡ table_entry (f₃ * 4096)
    → words (slot mapped f₃ k) ≡ table_entry (f₂ * 4096)
    → leaf mapped words root j k l ≡ words (slot mapped f₂ l)
unfolding leaf
leaf-path mapped words root j k l f₃ f₂ e₄ e₃ =
    ap (λ e. follow mapped words (follow mapped words e k) l) e₄
    ∙ ap (λ e. follow mapped words e l) (follow-table mapped words f₃ k ∙ e₃)
    ∙ follow-table mapped words f₂ l

module _ {S : Type 0} (mapped : Bool) (pa : TableSource S) (laws : Supplies mapped pa)
    (root gpa h : ℕ) (m : Memory S) (page : h < 2 ^ 30)
    (free : leaf mapped m.words root (index4 gpa) (index3 gpa) (index2 gpa) ≡ 0) where
  -- The page's entry, once both tables are there.
  map_page_lem :
      (owner : ℕ → Place) (f₃ f₂ : ℕ) (m₂ : Memory S)
      → Built mapped pa laws owner root m₂
      → m₂.words (slot mapped root (index4 gpa)) ≡ table_entry (f₃ * 4096)
      → m₂.words (slot mapped f₃ (index3 gpa)) ≡ table_entry (f₂ * 4096)
      → owner f₂ ≡ second (index4 gpa) (index3 gpa)
      → f₂ < frames
      → ((j k l : ℕ)
          → j < 512
          → k < 512
          → l < 512
          → leaf mapped m₂.words root j k l ≡ leaf mapped m.words root j k l)
      → Grows mapped pa laws 0 m₂ (OneMore mapped pa laws root gpa h m) (
          map_page
            (get_entry_address mapped gpa
              (bit_and (m₂.words (slot mapped f₃ (index3 gpa))) phys_mask)
              level2)
            (h * 2 ^ 21)
            m₂)
  map_page_lem owner f₃ f₂ m₂ built e₄ e₃ place small same =
      let at = lower_entry mapped _ f₂ gpa level2 e₃ small in
      let vacant : m₂.words (slot mapped f₂ (index2 gpa)) ≡ 0 =
        sym (leaf-path mapped m₂.words root (index4 gpa) (index3 gpa) (index2 gpa) f₃ f₂ e₄ e₃)
        ∙ same (index4 gpa) (index3 gpa) (index2 gpa) (omega arith) (omega arith) (omega arith)
        ∙ free in
      inr (
        with_words (write (slot mapped f₂ (index2 gpa)) (page_entry (h * 2 ^ 21)) m₂.words) m₂,
        ap (λ a. map_page a (h * 2 ^ 21) m₂) at
            ∙ map_page_eq (slot mapped f₂ (index2 gpa)) h m₂ vacant page,
        omega arith,
        record {
          owner = owner;
          built = record {
            tree =
                Tree-write mapped m₂.words (laws.used m₂.pages) owner root (index4 gpa) (index3 gpa)
                  (index2 gpa) f₃ f₂ (page_entry (h * 2 ^ 21)) built.tree e₄ e₃ place (omega arith)
                  (maps h refl page);
            good = built.good;
          };
          leaves = λ j k l hj hk hl.
              leaf-write mapped m₂.words (laws.used m₂.pages) owner root (index4 gpa) (index3 gpa)
                (index2 gpa) f₃ f₂ (page_entry (h * 2 ^ 21)) built.tree e₄ e₃ place (omega arith) j
                k l hj hk hl
              ∙ ap
                  (λ x.
                    if same_path j k l (index4 gpa) (index3 gpa) (index2 gpa)
                    then page_entry (h * 2 ^ 21)
                    else x)
                  (same j k l hj hk hl);
        },
      )

  pub map2m_lem :
      (owner : ℕ → Place)
      → Built mapped pa laws owner root m
      → Grows mapped pa laws 2 m
          (OneMore mapped pa laws root gpa h m)
          (map2m mapped pa gpa (h * 2 ^ 21) (slot mapped root 0) m)
  unfolding map2m
  map2m_lem owner built = rw (top_entry mapped root gpa built.tree.root_frame) (
      Grows-bind mapped pa laws 1 1 m _ _
        (ensure_table_lem mapped pa laws owner root root (index4 gpa) m built built.tree.root_frame
          (omega arith) (ap is_directory built.tree.root_top))
        (λ m₁ (owner₁, f₃, one). third_level m₁ owner₁ f₃ one))
    where
      third_level :
          (m₁ : Memory S) (owner₁ : ℕ → Place) (f₃ : ℕ)
          → Ensured mapped pa laws owner root root (index4 gpa) m owner₁ f₃ m₁
          → Grows mapped pa laws 1 m₁ (OneMore mapped pa laws root gpa h m) (
              ensure_table mapped pa
                (get_entry_address mapped gpa
                  (bit_and (m₁.words (slot mapped root (index4 gpa))) phys_mask)
                  level3)
                m₁
              >>= (λ m₂.
                  map_page
                    (get_entry_address mapped gpa
                      (bit_and
                        (m₂.words (
                          get_entry_address mapped gpa
                            (bit_and (m₁.words (slot mapped root (index4 gpa))) phys_mask)
                            level3))
                        phys_mask)
                      level2)
                    (h * 2 ^ 21)
                    m₂))
      third_level m₁ owner₁ f₃ one =
          let place : owner₁ f₃ ≡ third (index4 gpa) =
            one.place ∙ ap (λ p. below p (index4 gpa)) built.tree.root_top in
          let top₁ = one.built.tree.root_top in
          rw (lower_entry mapped _ f₃ gpa level3 one.entry one.small) (
            Grows-bind mapped pa laws 1 0 m₁ _ _
              (ensure_table_lem mapped pa laws owner₁ root f₃ (index3 gpa) m₁ one.built one.small
                (omega arith) (ap is_directory place))
              (λ m₂ (owner₂, f₂, two).
                map_page_lem owner₂ f₃ f₂ m₂ two.built
                  (two.same_entries root (index4 gpa) f₃ built.tree.root_frame (omega arith)
                    one.entry (directory-placed (owner₁ root) (ap is_directory top₁)))
                  two.entry (two.place ∙ ap (λ p. below p (index3 gpa)) place) two.small
                  (λ j k l hj hk hl.
                    two.same_leaves j k l hj hk hl ∙ one.same_leaves j k l hj hk hl)))
