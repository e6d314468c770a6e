-- ===== src/Npt/Grow.antt =====
-- A new table under an entry: what changes in memory, and that the tables stay a tree.
pub mod Leaves
use ymirc.Prelude.{
  ℕ, ◌+◌, ◌*◌, ◌/◌, ◌%◌, ◌^◌, ◌≤◌, ◌<◌, ◌≡◌, ◌≢◌, ◌⊎◌, inl, inr, refl, sym, ap, ◌∙◌, arith, Bool,
  true, false, Bool-cases, ◌==◌, ◌&&◌, if◌then◌else◌,
}
use ymirc.Prelude.{Outcome, done, stop, panicked, ◌>>=◌, u64}
use ymirc.Mem.{page_size, virt2phys, phys2virt, direct_map_base}
use ymirc.Mem.RoundTrip.{virt2phys-phys2virt}
use ymirc.Npt.{
  TableSource, Memory, write, with_words, clear_entries, allocate_table, store_fields, entry_fields,
  initialize_table_reference_entry,
}
use ymirc.Npt.Entries.{table_entry, page_entry, table_fields}
use ymirc.Npt.Words.{clear_entries-inside, clear_entries-outside}
use ymirc.Npt.Tree.{
  Place, elsewhere, top, third, second, below, is_directory, frames, offset, slot, phys2virt-offset,
  offset-le, Link, empty, linked, Leaf, unmapped, Tree, follow, leaf,
}

-- The page allocator hands out frame `f`.
pub record NewFrame (used used' : ℕ → Bool) (f : ℕ) : Type 0 where
  pub small : f < frames
  pub positive : 0 < f
  pub fresh : used f ≡ false
  pub taken : used' f ≡ true
  pub kept : (g : ℕ) → used g ≡ true → used' g ≡ true

-- What the tables need of a page allocator: in a good state a request for one page returns the
-- address of a frame that was not in use, and leaves a good state; or it returns NULL, where the
-- count of free pages is 0. A request takes at most one of them.
pub record Supplies {S : Type 0} (mapped : Bool) (pa : TableSource S) : Type 1 where
  pub IsGood : S → Type 0
  pub used : S → ℕ → Bool
  pub free : S → ℕ
  pub supply :
      (s : S)
      → IsGood s
      → (ptr : ℕ) × (s' : S) × (pa.alloc_aligned_pages 1 page_size s ≡ done (ptr, s'))
        × (((ptr ≡ 0) × (free s ≡ 0))
            ⊎ ((f : ℕ) × (ptr ≡ phys2virt mapped (f * page_size))
                × NewFrame (used s) (used s') f
                × IsGood s'
                × (free s ≤ free s' + 1)))

-- Memory after a table in frame `f` was put under entry `i` of the table in frame `t`.
pub record Grown (mapped : Bool) (words words' : ℕ → ℕ) (t i f : ℕ) : Type 0 where
  pub here : words' (slot mapped t i) ≡ table_entry (f * 4096)
  pub cleared : (j : ℕ) → j < 512 → words' (slot mapped f j) ≡ 0
  pub same :
      (u j : ℕ)
      → j < 512
      → u ≢ f
      → (u ≡ t → j ≢ i)
      → words' (slot mapped u j) ≡ words (slot mapped u j)

-- Different entries have different addresses.
pub slot-inj :
    (mapped : Bool) (t i u j : ℕ)
    → i < 512
    → j < 512
    → slot mapped t i ≡ slot mapped u j
    → (t ≡ u) × (i ≡ j)
slot-inj mapped t i u j hi hj e = (omega arith, omega arith)

pub Grown-write :
    (mapped : Bool) (words : ℕ → ℕ) (t i f : ℕ)
    → i < 512
    → t ≢ f
    → Grown mapped words
        (write
          (slot mapped t i)
          (table_entry (f * 4096))
          (clear_entries 512 (slot mapped f 0) words))
        t
        i
        f
Grown-write mapped words t i f hi ne = record {
  here = ground arith;
  cleared = λ j h.
      let apart : (slot mapped f j == slot mapped t i) ≡ false = ground arith in
      let e : slot mapped f j ≡ slot mapped f 0 + j * 8 = omega arith in
      rw (apart, e) (clear_entries-inside 512 (slot mapped f 0) j words h);
  same = λ u j h nf other.
      let apart : (slot mapped u j == slot mapped t i) ≡ false =
        ground (arith, slot-inj mapped u j t i h hi, other) in
      rw apart (
        clear_entries-outside 512 (slot mapped f 0) (slot mapped u j) words
          (λ k lt e. omega arith));
}

-- The owners after frame `f` became the table at a place.
abbrev pub claim : (ℕ → Place) → ℕ → Place → ℕ → Place
claim owner f place g = if g == f then place else owner g

module _ (mapped : Bool) (words words' : ℕ → ℕ) (used used' : ℕ → Bool) (owner : ℕ → Place)
    (root t i f : ℕ) (tree : Tree mapped words used owner root)
    (grown : Grown mapped words words' t i f) (new : NewFrame used used' f) (small : t < frames)
    (index : i < 512) (directory : is_directory (owner t) ≡ true)
    (vacant : words (slot mapped t i) ≡ 0) where
  abbrev pub owner' : ℕ → Place
  owner' = claim owner f (below (owner t) i)

  pub f_elsewhere : owner f ≡ elsewhere
  f_elsewhere = tree.unused_free f new.fresh

  -- A frame that has a place is not the new one.
  pub placed-ne : (u : ℕ) (p : Place) → owner u ≡ p → p ≢ elsewhere → u ≢ f
  placed-ne u p e ne same = ne (sym e ∙ ap owner same ∙ f_elsewhere)

  pub owner'-eq : (u : ℕ) → u ≢ f → owner' u ≡ owner u
  owner'-eq u ne = let apart : (u == f) ≡ false = ground arith in rw apart

  pub owner'-new : owner' f ≡ below (owner t) i
  owner'-new = let e : (f == f) ≡ true = ground arith in rw e

  pub t-ne : t ≢ f
  t-ne e = ground (arith, ap is_directory (ap owner e ∙ f_elsewhere))

  Link-keep : (place : Place) (e : ℕ) → Link owner used place e → Link owner' used' place e
  Link-keep place e (empty z) = empty z
  Link-keep place e (linked g eq lt o u) =
      linked g eq lt (owner'-eq g (λ same. cc (u, ap used same, new.fresh)) ∙ o) (new.kept g u)

  -- The entry that was filled, and every other entry of a directory.
  Link-here : Link owner' used' (below (owner t) i) (words' (slot mapped t i))
  Link-here = linked f grown.here new.small owner'-new new.taken

  Link-entry :
      (u j : ℕ)
      → u < frames
      → j < 512
      → is_directory (owner u) ≡ true
      → u ≢ f
      → Link owner' used' (below (owner u) j) (words' (slot mapped u j))
  Link-entry u j lt hj dir ne = elim (Bool-cases (u == t && j == i)) [
    | inl here ↦
        let eu : u ≡ t = ground arith in let ej : j ≡ i = ground arith in rw (eu, ej) Link-here
    | inr other ↦
        rw (grown.same u j hj ne (λ e e'. ground arith))
          (Link-keep (below (owner u) j) (words (slot mapped u j)) (tree.links u j lt hj dir))
  ]

  links' :
      (u j : ℕ)
      → u < frames
      → j < 512
      → is_directory (owner' u) ≡ true
      → Link owner' used' (below (owner' u) j) (words' (slot mapped u j))
  links' u j lt hj dir = elim (Bool-cases (u == f)) [
    | inl e ↦
        let same : u ≡ f = ground arith in
        empty (ap (λ x. words' (slot mapped x j)) same ∙ grown.cleared j hj)
    | inr other ↦
        let ne : u ≢ f = ground arith in
        rw (owner'-eq u ne) (Link-entry u j lt hj (sym (ap is_directory (owner'-eq u ne)) ∙ dir) ne)
  ]

  -- The entries of a table of level 2 stay.
  pub leaf-same :
      (u j k l : ℕ)
      → l < 512
      → owner u ≡ second j k
      → words' (slot mapped u l) ≡ words (slot mapped u l)
  leaf-same u j k l hl o =
      grown.same u l hl (placed-ne u (second j k) o (λ e. cc e))
        (λ e _. cc (directory, ap is_directory (ap owner (sym e) ∙ o)))

  leaves' :
      (u j k l : ℕ) → u < frames → l < 512 → owner' u ≡ second j k → Leaf (words' (slot mapped u l))
  leaves' u j k l lt hl o = elim (Bool-cases (u == f)) [
    | inl e ↦
        let same : u ≡ f = ground arith in
        unmapped (ap (λ x. words' (slot mapped x l)) same ∙ grown.cleared l hl)
    | inr other ↦
        let ne : u ≢ f = ground arith in
        rw (leaf-same u j k l hl (sym (owner'-eq u ne) ∙ o))
          (tree.leaves u j k l lt hl (sym (owner'-eq u ne) ∙ o))
  ]

  unused_free' : (g : ℕ) → used' g ≡ false → owner' g ≡ elsewhere
  unused_free' g h = elim (Bool-cases (used g)) [
    | inl was ↦ cc (h, new.kept g was)
    | inr free ↦ owner'-eq g (λ e. cc (h, ap used' e, new.taken)) ∙ tree.unused_free g free
  ]

  pub Tree-grow : Tree mapped words' used' owner' root
  Tree-grow = record {
    root_top = owner'-eq root (placed-ne root top tree.root_top (λ e. cc e)) ∙ tree.root_top;
    root_frame = tree.root_frame;
    unused_free = unused_free';
    links = links';
    leaves = leaves';
  }
