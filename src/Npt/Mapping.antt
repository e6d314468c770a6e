-- ===== src/Npt/Mapping.antt =====
-- `map2m`: the entry of a page, at the end of the path that two calls of `ensure_table` made.
use ymirc.Prelude.{
  ℕ, ◌*◌, ◌^◌, ◌<◌, ◌≡◌, ◌≢◌, inl, inr, refl, sym, ap, ◌∙◌, arith, Bool, true, false, Bool-cases,
  ◌==◌, ◌&&◌, if◌then◌else◌,
}
use ymirc.Prelude.{done}
use ymirc.Bits.{isset, set_fields}
use ymirc.Npt.{Memory, write, with_words, entry_fields, initialize_page_reference_entry, map_page}
use ymirc.Npt.Entries.{table_entry, page_entry, page_fields, present-isset}
use ymirc.Npt.Tree.{
  Place, third, second, below, is_directory, frames, slot, Link, empty, linked, Leaf, Tree, follow,
  leaf,
}
use ymirc.Npt.Grow.{slot-inj}
use ymirc.Npt.Ensure.{store_fields-some}
use ymirc.Npt.Grow.Leaves.{follow-zero, follow-table, follow-Link}

-- The three indices agree.
abbrev pub same_path : ℕ → ℕ → ℕ → ℕ → ℕ → ℕ → Bool
same_path j k l j' k' l' = j == j' && (k == k' && l == l')

-- Storing an entry of level 2.
module _ (mapped : Bool) (words : ℕ → ℕ) (used : ℕ → Bool) (owner : ℕ → Place)
    (root j₀ k₀ l₀ f₃ f₂ v : ℕ) (tree : Tree mapped words used owner root)
    (upper : words (slot mapped root j₀) ≡ table_entry (f₃ * 4096))
    (lower : words (slot mapped f₃ k₀) ≡ table_entry (f₂ * 4096)) (placed : owner f₂ ≡ second j₀ k₀)
    (index : l₀ < 512) where
  abbrev pub after : ℕ → ℕ
  after = write (slot mapped f₂ l₀) v words

  after-here : after (slot mapped f₂ l₀) ≡ v
  after-here = ground arith

  after-other :
      (u l : ℕ) → l < 512 → (u ≡ f₂ → l ≢ l₀) → after (slot mapped u l) ≡ words (slot mapped u l)
  after-other u l hl ne =
      let apart : (slot mapped u l == slot mapped f₂ l₀) ≡ false =
        ground (arith, slot-inj mapped u l f₂ l₀ hl index, ne) in
      rw apart

  -- The entries of directories stay.
  after-directory :
      (u l : ℕ)
      → l < 512
      → is_directory (owner u) ≡ true
      → after (slot mapped u l) ≡ words (slot mapped u l)
  after-directory u l hl dir =
      after-other u l hl (λ e _. cc (dir, ap is_directory (ap owner e ∙ placed)))

  follow-after :
      (p : Place) (e j : ℕ)
      → is_directory p ≡ true
      → j < 512
      → Link owner used p e
      → follow mapped after e j ≡ follow mapped words e j
  follow-after p e j dir hj (empty z) =
      rw z (follow-zero mapped after j ∙ sym (follow-zero mapped words j))
  follow-after p e j dir hj (linked g eq lt o u) =
      rw (eq, follow-table mapped after g j, follow-table mapped words g j)
        (after-directory g j hj (ap is_directory o ∙ dir))

  top-dir : is_directory (owner root) ≡ true
  top-dir = ap is_directory tree.root_top

  upper-Link : (j : ℕ) → j < 512 → Link owner used (third j) (words (slot mapped root j))
  upper-Link j hj =
      rw (← (ap (λ p. below p j) tree.root_top)) (tree.links root j tree.root_frame hj top-dir)

  third-entry : ℕ → ℕ → ℕ
  third-entry j k = follow mapped words (words (slot mapped root j)) k

  leaf-after :
      (j k l : ℕ)
      → j < 512
      → k < 512
      → leaf mapped after root j k l ≡ follow mapped after (third-entry j k) l
  unfolding leaf third-entry
  leaf-after j k l hj hk =
      ap (λ e. follow mapped after (follow mapped after e k) l) (after-directory root j hj top-dir)
      ∙ ap (λ e. follow mapped after e l)
          (follow-after (third j) (words (slot mapped root j)) k refl hk (upper-Link j hj))

  on_path : third-entry j₀ k₀ ≡ table_entry (f₂ * 4096)
  unfolding third-entry
  on_path = ap (λ e. follow mapped words e k₀) upper ∙ follow-table mapped words f₃ k₀ ∙ lower

  off_path :
      (j k l : ℕ)
      → l < 512
      → same_path j k l j₀ k₀ l₀ ≡ false
      → Link owner used (second j k) (third-entry j k)
      → follow mapped after (third-entry j k) l ≡ follow mapped words (third-entry j k) l
  off_path j k l hl off (empty z) =
      rw z (follow-zero mapped after l ∙ sym (follow-zero mapped words l))
  off_path j k l hl off (linked g eq lt o u) =
      rw (eq, follow-table mapped after g l, follow-table mapped words g l)
        (after-other g l hl (λ e el. clash (sym o ∙ ap owner e ∙ placed) el))
    where
      clash : second j k ≡ second j₀ k₀ → l ≢ l₀
      clash p el = let ej : j ≡ j₀ = cc p in let ek : k ≡ k₀ = cc p in absurd (ground arith)

  written : (j k l : ℕ) → j ≡ j₀ → k ≡ k₀ → l ≡ l₀ → follow mapped after (third-entry j k) l ≡ v
  written j k l ej ek el = rw (ej, ek, el, on_path, follow-table mapped after f₂ l₀) after-here

  pub leaf-write :
      (j k l : ℕ)
      → j < 512
      → k < 512
      → l < 512
      → leaf mapped after root j k l
        ≡ (if same_path j k l j₀ k₀ l₀ then v else leaf mapped words root j k l)
  leaf-write j k l hj hk hl = elim (Bool-cases (same_path j k l j₀ k₀ l₀)) [
    | inl on ↦
        rw on (leaf-after j k l hj hk ∙ written j k l (ground arith) (ground arith) (ground arith))
    | inr off ↦ rw off (
        leaf-after j k l hj hk
        ∙ off_path j k l hl off (
            unfold third-entry in
            follow-Link mapped words used owner root (third j) (words (slot mapped root j)) k tree
              refl hk (upper-Link j hj))
        ∙ (unfold leaf third-entry in refl))
  ]

  Link-after :
      (u l : ℕ)
      → u < frames
      → l < 512
      → is_directory (owner u) ≡ true
      → Link owner used (below (owner u) l) (after (slot mapped u l))
  Link-after u l lt hl dir = rw (after-directory u l hl dir) (tree.links u l lt hl dir)

  Leaf-after :
      Leaf v
      → (u j k l : ℕ) → u < frames
      → l < 512
      → owner u ≡ second j k
      → Leaf (after (slot mapped u l))
  Leaf-after fits u j k l lt hl o = elim (Bool-cases (u == f₂ && l == l₀)) [
    | inl here ↦
        let eu : u ≡ f₂ = ground arith in
        let el : l ≡ l₀ = ground arith in rw (eu, el, after-here) fits
    | inr other ↦ rw (after-other u l hl (λ e el. ground arith)) (tree.leaves u j k l lt hl o)
  ]

  pub Tree-write : Leaf v → Tree mapped after used owner root
  Tree-write fits = record {
    root_top = tree.root_top;
    root_frame = tree.root_frame;
    unused_free = tree.unused_free;
    links = Link-after;
    leaves = Leaf-after fits;
  }

-- `map_page` of an empty entry writes it.
pub map_page_eq :
    {S : Type 0} (entry h : ℕ) (m : Memory S)
    → m.words entry ≡ 0
    → h < 2 ^ 30
    → map_page entry (h * 2 ^ 21) m
      ≡ done (with_words (write entry (page_entry (h * 2 ^ 21)) m.words) m)
unfolding map_page initialize_page_reference_entry
map_page_eq entry h m z lt =
    let clear : isset (m.words entry) 0 ≡ false = present-isset (m.words entry) ∙ ground arith in
    rw clear (
      store_fields-some entry (entry_fields 1 (h * 2 ^ 21)) m (
        ap (set_fields (entry_fields 1 (h * 2 ^ 21))) z
        ∙ page_fields (h * 2 ^ 21) (omega arith) (omega arith)))
