-- ===== src/Npt/Ensure.antt =====
-- `allocate_table`, `initialize_table_reference_entry` and the test in front of it.
use ymirc.Prelude.{
  ℕ, ◌+◌, ◌*◌, ◌%◌, ◌≤◌, ◌<◌, ◌≡◌, ◌≢◌, ◌⊎◌, inl, inr, refl, sym, ap, ◌∙◌, arith, Bool, true, false,
  ◌==◌,
}
use ymirc.Prelude.{List, Outcome, done, stop, panicked, some}
use ymirc.Bits.{set_fields, isset}
use ymirc.Mem.{page_size, virt2phys, phys2virt}
use ymirc.Mem.RoundTrip.{virt2phys-phys2virt}
use ymirc.Npt.{
  TableSource, Memory, write, with_words, clear_entries, allocate_table, store_fields, entry_fields,
  initialize_table_reference_entry, ensure_table,
}
use ymirc.Npt.Entries.{table_entry, table_fields, present-isset}
use ymirc.Npt.Words.{clear_entries-outside}
use ymirc.Npt.Tree.{
  Place, elsewhere, below, is_directory, frames, slot, phys2virt-offset, Link, empty, linked, Tree,
  leaf,
}
use ymirc.Npt.Grow.{NewFrame, Supplies, Grown, Grown-write, claim, Tree-grow, owner'-eq, owner'-new}
use ymirc.Npt.Grow.Leaves.{leaf-grow}

-- The tables under `root` in memory, with a good page allocator.
pub record Built {S : Type 0} (mapped : Bool) (pa : TableSource S) (laws : Supplies mapped pa)
    (owner : ℕ → Place) (root : ℕ) (m : Memory S) : Type 0 where
  pub tree : Tree mapped m.words (laws.used m.pages) owner root
  pub good : laws.IsGood m.pages

pub allocate_table_null :
    {S : Type 0} (pa : TableSource S) (m : Memory S) {s' : S}
    → pa.alloc_aligned_pages 1 page_size m.pages ≡ done (0, s')
    → allocate_table pa m ≡ stop panicked
unfolding allocate_table
allocate_table_null pa m e = rw e

pub allocate_table_some :
    {S : Type 0} (pa : TableSource S) (m : Memory S) {ptr : ℕ} {s' : S}
    → pa.alloc_aligned_pages 1 page_size m.pages ≡ done (ptr, s')
    → ptr ≢ 0
    → allocate_table pa m
      ≡ done (ptr, record m { words = clear_entries 512 ptr m.words; pages = s' })
unfolding allocate_table
allocate_table_some pa m {ptr} e nz =
    let some_page : (ptr == 0) ≡ false = ground arith in rw (e, some_page)

pub store_fields-some :
    {S : Type 0} (entry : ℕ) (fields : List (ℕ × ℕ)) (m : Memory S) {v : ℕ}
    → set_fields fields (m.words entry) ≡ some v
    → store_fields entry fields m ≡ done (with_words (write entry v m.words) m)
unfolding store_fields
store_fields-some entry fields m e = rw (store_fields, e)

pub page_address :
    (mapped : Bool) (f : ℕ) → f < frames → phys2virt mapped (f * page_size) ≡ slot mapped f 0
page_address mapped f h = phys2virt-offset mapped (f * 4096) (omega arith) ∙ omega arith

-- The whole call, for an empty entry of another table.
initialize_eq :
    {S : Type 0} (mapped : Bool) (pa : TableSource S) (m : Memory S) (t i f : ℕ) {s' : S}
    → pa.alloc_aligned_pages 1 page_size m.pages ≡ done (phys2virt mapped (f * page_size), s')
    → f < frames
    → 0 < f
    → i < 512
    → t ≢ f
    → m.words (slot mapped t i) ≡ 0
    → initialize_table_reference_entry mapped pa (slot mapped t i) m
      ≡ done (record m {
        words =
            write
              (slot mapped t i)
              (table_entry (f * 4096))
              (clear_entries 512 (slot mapped f 0) m.words);
        pages = s';
      })
unfolding initialize_table_reference_entry
initialize_eq {S} mapped pa m t i f {s'} e small pos hi ne vacant =
    rw (allocated, physical)
      (store_fields-some (slot mapped t i) (entry_fields 0 (f * 4096)) cleared (
        ap (set_fields (entry_fields 0 (f * 4096))) still
        ∙ table_fields (f * 4096) (omega arith) (omega arith)))
  where
    cleared : Memory S
    cleared = record m { words = clear_entries 512 (slot mapped f 0) m.words; pages = s' }

    allocated : allocate_table pa m ≡ done (slot mapped f 0, cleared)
    allocated =
        allocate_table_some pa m (e ∙ ap (λ p. done (p, s')) (page_address mapped f small))
          (omega arith)

    physical : virt2phys mapped (slot mapped f 0) ≡ f * 4096
    physical =
        ap (virt2phys mapped) (sym (page_address mapped f small))
        ∙ virt2phys-phys2virt mapped (f * 4096) (omega arith)

    still : cleared.words (slot mapped t i) ≡ 0
    still =
        clear_entries-outside 512 (slot mapped f 0) (slot mapped t i) m.words
          (λ k lt eq. omega arith)
        ∙ vacant

-- After `ensure_table` the entry leads to the table in frame `g`; the tables are as before but
-- for the table that may be new, and lead to the same entries of level 2.
pub record Ensured {S : Type 0} (mapped : Bool) (pa : TableSource S) (laws : Supplies mapped pa)
    (owner : ℕ → Place) (root t i : ℕ) (m : Memory S) (owner' : ℕ → Place) (g : ℕ) (m' : Memory S)
    : Type 0 where
  pub built : Built mapped pa laws owner' root m'
  pub entry : m'.words (slot mapped t i) ≡ table_entry (g * 4096)
  pub small : g < frames
  pub place : owner' g ≡ below (owner t) i
  pub kept : (u : ℕ) → owner u ≢ elsewhere → owner' u ≡ owner u
  pub same_entries :
      (u j g : ℕ)
      → u < frames
      → j < 512
      → m.words (slot mapped u j) ≡ table_entry (g * 4096)
      → owner u ≢ elsewhere
      → m'.words (slot mapped u j) ≡ table_entry (g * 4096)
  pub same_leaves :
      (j k l : ℕ)
      → j < 512
      → k < 512
      → l < 512
      → leaf mapped m'.words root j k l ≡ leaf mapped m.words root j k l

-- What a call that takes at most `k` pages may do: it stops, where fewer are free, or it returns
-- such a state.
abbrev pub Grows :
    {S : Type 0} (mapped : Bool) (pa : TableSource S)
    → Supplies mapped pa
    → ℕ
    → Memory S
    → (Memory S → Type 0)
    → Outcome (Memory S)
    → Type 0
Grows {S} mapped pa laws k m P out =
    ((laws.free m.pages < k) × (out ≡ stop panicked))
    ⊎ ((m' : Memory S) × (out ≡ done m') × (laws.free m.pages ≤ laws.free m'.pages + k) × P m')

ensure_table_present :
    {S : Type 0} (mapped : Bool) (pa : TableSource S) (a : ℕ) (m : Memory S)
    → m.words a % 2 ≡ 1
    → ensure_table mapped pa a m ≡ done m
unfolding ensure_table
ensure_table_present mapped pa a m odd =
    let set : isset (m.words a) 0 ≡ true = present-isset (m.words a) ∙ ground arith in rw set

ensure_table_absent :
    {S : Type 0} (mapped : Bool) (pa : TableSource S) (a : ℕ) (m : Memory S)
    → m.words a ≡ 0
    → ensure_table mapped pa a m ≡ initialize_table_reference_entry mapped pa a m
unfolding ensure_table
ensure_table_absent mapped pa a m z =
    let clear : isset (m.words a) 0 ≡ false = present-isset (m.words a) ∙ ground arith in rw clear

initialize_null :
    {S : Type 0} (mapped : Bool) (pa : TableSource S) (a : ℕ) (m : Memory S) {s' : S}
    → pa.alloc_aligned_pages 1 page_size m.pages ≡ done (0, s')
    → initialize_table_reference_entry mapped pa a m ≡ stop panicked
unfolding initialize_table_reference_entry
initialize_null mapped pa a m e = rw (allocate_table_null pa m e)

module _ {S : Type 0} (mapped : Bool) (pa : TableSource S) (laws : Supplies mapped pa)
    (owner : ℕ → Place) (root t i : ℕ) (m : Memory S) (built : Built mapped pa laws owner root m)
    (small : t < frames) (index : i < 512) (directory : is_directory (owner t) ≡ true) where
  abbrev Result : Outcome (Memory S) → Type 0
  Result out =
      Grows mapped pa laws 1 m
        (λ m'. (owner' : ℕ → Place) × (g : ℕ) × Ensured mapped pa laws owner root t i m owner' g m')
        out

  present :
      (g : ℕ)
      → m.words (slot mapped t i) ≡ table_entry (g * 4096)
      → g < frames
      → owner g ≡ below (owner t) i
      → Result (ensure_table mapped pa (slot mapped t i) m)
  present g eq lt o = inr (
    m,
    ensure_table_present mapped pa (slot mapped t i) m (rw eq (omega arith)),
    omega arith,
    (
      owner,
      g,
      record {
        built = built;
        entry = eq;
        small = lt;
        place = o;
        kept = λ u h. refl;
        same_entries = λ u j g lt hj e h. e;
        same_leaves = λ j k l hj hk hl. refl;
      },
    ),
  )

  -- The memory after a table was put in frame `f`.
  grown_memory : ℕ → S → Memory S
  grown_memory f s' = record m {
    words =
        write (slot mapped t i) (table_entry (f * 4096))
          (clear_entries 512 (slot mapped f 0) m.words);
    pages = s';
  }

  absent :
      (f : ℕ) (s' : S)
      → m.words (slot mapped t i) ≡ 0
      → pa.alloc_aligned_pages 1 page_size m.pages ≡ done (phys2virt mapped (f * page_size), s')
      → NewFrame (laws.used m.pages) (laws.used s') f
      → laws.IsGood s'
      → laws.free m.pages ≤ laws.free s' + 1
      → Result (ensure_table mapped pa (slot mapped t i) m)
  unfolding grown_memory
  absent f s' z e new good cost = inr (
    grown_memory f s',
    ensure_table_absent mapped pa (slot mapped t i) m z
        ∙ initialize_eq mapped pa m t i f e new.small new.positive index apart z,
    cost,
    (
      claim owner f (below (owner t) i),
      f,
      record {
        built = record {
          tree =
              Tree-grow mapped m.words words' was now owner root t i f built.tree grown new small
                index directory z;
          good = good;
        };
        entry = grown.here;
        small = new.small;
        place =
            owner'-new mapped m.words words' was now owner root t i f built.tree grown new small
              index directory z;
        kept = λ u h.
            owner'-eq mapped m.words words' was now owner root t i f built.tree grown new small
              index directory z u (not_new u h);
        same_entries = λ u j g lt hj e h.
            grown.same u j hj (not_new u h) (λ eu ej.
              omega
                (arith, e, z, ap m.words {x = slot mapped u j} {y = slot mapped t i} (omega arith)))
            ∙ e;
        same_leaves =
            leaf-grow mapped m.words words' was now owner root t i f built.tree grown new small
              index directory z;
      },
    ),
  )
    where
      apart : t ≢ f
      apart eq = cc (directory, ap is_directory (ap owner eq ∙ built.tree.unused_free f new.fresh))

      words' : ℕ → ℕ
      words' = (grown_memory f s').words

      was : ℕ → Bool
      was = laws.used m.pages

      now : ℕ → Bool
      now = laws.used s'

      not_new : (u : ℕ) → owner u ≢ elsewhere → u ≢ f
      not_new u h eq = h (ap owner eq ∙ built.tree.unused_free f new.fresh)

      grown : Grown mapped m.words (grown_memory f s').words t i f
      grown = Grown-write mapped m.words t i f index apart

  pub ensure_table_lem : Result (ensure_table mapped pa (slot mapped t i) m)
  ensure_table_lem = by_link (built.tree.links t i small index directory)
    where
      by_supply :
          m.words (slot mapped t i) ≡ 0
          → ((ptr : ℕ) × (s' : S) × (pa.alloc_aligned_pages 1 page_size m.pages ≡ done (ptr, s'))
              × (((ptr ≡ 0) × (laws.free m.pages ≡ 0))
                  ⊎ ((f : ℕ) × (ptr ≡ phys2virt mapped (f * page_size))
                      × NewFrame (laws.used m.pages) (laws.used s') f
                      × laws.IsGood s'
                      × (laws.free m.pages ≤ laws.free s' + 1))))
          → Result (ensure_table mapped pa (slot mapped t i) m)
      by_supply z (ptr, s', e, inl (null, out_of_pages)) =
          let none_left : pa.alloc_aligned_pages 1 page_size m.pages ≡ done (0, s') =
            e ∙ ap (λ p. done (p, s')) null in
          inl (
            omega (arith, out_of_pages),
            ensure_table_absent mapped pa (slot mapped t i) m z
                ∙ initialize_null mapped pa (slot mapped t i) m none_left,
          )
      by_supply z (ptr, s', e, inr (f, at, new, good, cost)) =
          absent f s' z (e ∙ ap (λ p. done (p, s')) at) new good cost

      by_link :
          Link owner (laws.used m.pages) (below (owner t) i) (m.words (slot mapped t i))
          → Result (ensure_table mapped pa (slot mapped t i) m)
      by_link (linked g eq lt o u) = present g eq lt o
      by_link (empty z) = by_supply z (laws.supply m.pages built.good)
