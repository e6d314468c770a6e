-- ===== src/Npt/Grow/Leaves.antt =====
-- A new table changes no entry of level 2 that the tables lead to.
use ymirc.Prelude.{
  ℕ, ◌*◌, ◌/◌, ◌<◌, ◌≡◌, ◌≢◌, ◌⊎◌, inl, inr, refl, sym, ap, ◌∙◌, arith, Bool, true, false,
  Bool-cases, ◌==◌, ◌&&◌,
}
use ymirc.Npt.Entries.{table_entry}
use ymirc.Npt.Tree.{
  Place, elsewhere, top, third, second, below, is_directory, frames, slot, Link, empty, linked,
  Tree, follow, leaf,
}
use ymirc.Npt.Grow.{NewFrame, Grown, placed-ne, leaf-same}

pub follow-zero : (mapped : Bool) (words : ℕ → ℕ) (j : ℕ) → follow mapped words 0 j ≡ 0
unfolding follow
follow-zero mapped words j = refl

pub follow-table :
    (mapped : Bool) (words : ℕ → ℕ) (g j : ℕ)
    → follow mapped words (table_entry (g * 4096)) j ≡ words (slot mapped g j)
unfolding follow
follow-table mapped words g j =
    let some_entry : (table_entry (g * 4096) == 0) ≡ false = ground arith in
    let frame : table_entry (g * 4096) / 4096 ≡ g = omega arith in rw (some_entry, frame)

pub directory-placed : (p : Place) → is_directory p ≡ true → p ≢ elsewhere
directory-placed p h e = cc (h, ap is_directory e)

-- What an entry leads to is again an entry of the tree.
pub follow-Link :
    (mapped : Bool) (words : ℕ → ℕ) (used : ℕ → Bool) (owner : ℕ → Place) (root : ℕ) (p : Place)
    (e j : ℕ)
    → Tree mapped words used owner root
    → is_directory p ≡ true
    → j < 512
    → Link owner used p e
    → Link owner used (below p j) (follow mapped words e j)
follow-Link mapped words used owner root p e j tree dir hj (empty z) =
    empty (ap (λ x. follow mapped words x j) z ∙ follow-zero mapped words j)
follow-Link mapped words used owner root p e j tree dir hj (linked g eq lt o u) =
    rw (eq, follow-table mapped words g j, ← o) (tree.links g j lt hj (ap is_directory o ∙ dir))

module _ (mapped : Bool) (words words' : ℕ → ℕ) (used used' : ℕ → Bool) (owner : ℕ → Place)
    (root t i f : ℕ) (tree : Tree mapped words used owner root)
    (grown : Grown mapped words words' t i f) (new : NewFrame used used' f) (small : t < frames)
    (index : i < 512) (directory : is_directory (owner t) ≡ true)
    (vacant : words (slot mapped t i) ≡ 0) where
  -- An entry before and after: it is the same, or it was empty and leads to the new table.
  Change : ℕ → ℕ → Type 0
  Change e e' = (e' ≡ e) ⊎ ((e ≡ 0) × (e' ≡ table_entry (f * 4096)))

  slot-Change :
      (u j : ℕ) → j < 512 → u ≢ f → Change (words (slot mapped u j)) (words' (slot mapped u j))
  unfolding Change
  slot-Change u j hj ne = elim (Bool-cases (u == t && j == i)) [
    | inl here ↦
        let eu : u ≡ t = ground arith in
        let ej : j ≡ i = ground arith in rw (eu, ej) (inr (vacant, grown.here))
    | inr other ↦ inl (grown.same u j hj ne (λ e e'. ground arith))
  ]

  -- The new table leads nowhere.
  follow-new : (j : ℕ) → j < 512 → follow mapped words' (table_entry (f * 4096)) j ≡ 0
  follow-new j hj = follow-table mapped words' f j ∙ grown.cleared j hj

  follow-Change :
      (p : Place) (e e' j : ℕ)
      → is_directory p ≡ true
      → j < 512
      → Link owner used p e
      → Change e e'
      → Change (follow mapped words e j) (follow mapped words' e' j)
  unfolding Change
  follow-Change p e e' j dir hj l (inr (z, n)) = inl (
      ap (λ x. follow mapped words' x j) n
      ∙ follow-new j hj
      ∙ sym (ap (λ x. follow mapped words x j) z ∙ follow-zero mapped words j))
  follow-Change p e e' j dir hj (empty z) (inl same) =
      rw (same, z) (inl (follow-zero mapped words' j ∙ sym (follow-zero mapped words j)))
  follow-Change p e e' j dir hj (linked g eq lt o u) (inl same) =
      rw (same, eq, follow-table mapped words g j, follow-table mapped words' g j)
        (slot-Change g j hj (
          placed-ne mapped words words' used used' owner root t i f tree grown new small index
            directory vacant g p o (directory-placed p dir)))

  follow-same :
      (e e' j k l : ℕ)
      → l < 512
      → Link owner used (second j k) e
      → Change e e'
      → follow mapped words' e' l ≡ follow mapped words e l
  unfolding Change
  follow-same e e' j k l hl lk (inr (z, n)) =
      ap (λ x. follow mapped words' x l) n
      ∙ follow-new l hl
      ∙ sym (ap (λ x. follow mapped words x l) z ∙ follow-zero mapped words l)
  follow-same e e' j k l hl (empty z) (inl same) =
      rw (same, z) (follow-zero mapped words' l ∙ sym (follow-zero mapped words l))
  follow-same e e' j k l hl (linked g eq lt o u) (inl same) =
      rw (same, eq, follow-table mapped words g l, follow-table mapped words' g l)
        (leaf-same mapped words words' used used' owner root t i f tree grown new small index
          directory vacant g j k l hl o)

  pub leaf-grow :
      (j k l : ℕ)
      → j < 512
      → k < 512
      → l < 512
      → leaf mapped words' root j k l ≡ leaf mapped words root j k l
  unfolding leaf
  leaf-grow j k l hj hk hl =
      follow-same _ _ j k l hl second_link
        (follow-Change (third j) _ _ k refl hk first_link (slot-Change root j hj root-ne))
    where
      root-ne : root ≢ f
      root-ne =
          placed-ne mapped words words' used used' owner root t i f tree grown new small index
            directory vacant root top tree.root_top (λ e. cc e)

      first_link : Link owner used (third j) (words (slot mapped root j))
      first_link =
          rw (← (ap (λ p. below p j) tree.root_top))
            (tree.links root j tree.root_frame hj (ap is_directory tree.root_top))

      second_link :
          Link owner used (second j k) (follow mapped words (words (slot mapped root j)) k)
      second_link = follow-Link mapped words used owner root (third j) _ k tree refl hk first_link
