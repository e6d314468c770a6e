-- ===== src/Npt/Translation.antt =====
-- What the processor makes of tables in memory: the page that the entry of level 2 names.
use ymirc.Prelude.{
  ℕ, ◌+◌, ◌*◌, ◌/◌, ◌%◌, ◌^◌, ◌<◌, ◌≡◌, refl, ap, ◌∙◌, arith, Bool, true, false, ◌==◌, ltb,
  if◌then◌else◌, Option, none, some,
}
use ymirc.Npt.{Memory}
use ymirc.Npt.Entries.{table_entry, page_entry}
use ymirc.Npt.Walk.{ram, grants, is_large, target, entry_of, walk_level2, walk_level3, translate}
use ymirc.Npt.Tree.{
  Place, third, second, below, is_directory, frames, slot, phys2virt-offset, Link, empty, linked,
  Leaf, unmapped, maps, Tree, follow, leaf,
}
use ymirc.Npt.Grow.Leaves.{follow-zero, follow-table}
use ymirc.Npt.Step.{index4, index3, index2}

-- An entry of level 2, as an address in its page.
abbrev pub page_address_of : ℕ → ℕ → Option ℕ
page_address_of e gpa = if e == 0 then none else some (e / 2 ^ 21 * 2 ^ 21 + gpa % 2 ^ 21)

module _ {S : Type 0} (mapped : Bool) (m : Memory S) (gpa : ℕ) where
  pub entry_of-slot :
      (f shift : ℕ)
      → f < frames
      → entry_of (ram mapped m) (f * 4096) shift gpa
        ≡ m.words (slot mapped f (gpa / 2 ^ shift % 512))
  entry_of-slot f shift h =
      ap m.words
        (phys2virt-offset mapped (f * 4096 + gpa / 2 ^ shift % 512 * 8) (omega arith) ∙ omega arith)

  table_grants : (f : ℕ) → grants (table_entry (f * 4096)) ≡ true
  table_grants f = let e : table_entry (f * 4096) % 8 ≡ 7 = omega arith in rw e

  table_target : (f : ℕ) → f < frames → target 12 (table_entry (f * 4096)) ≡ f * 4096
  table_target f h = omega arith

  table_small : (f : ℕ) → f < frames → is_large (table_entry (f * 4096)) ≡ false
  table_small f h = let e : table_entry (f * 4096) / 2 ^ 7 % 2 ≡ 0 = omega arith in rw e

  walk_level2-Leaf :
      (f : ℕ)
      → f < frames
      → Leaf (m.words (slot mapped f (index2 gpa)))
      → walk_level2 (ram mapped m) (f * 4096) gpa
        ≡ page_address_of (m.words (slot mapped f (index2 gpa))) gpa
  unfolding walk_level2
  walk_level2-Leaf f h (unmapped z) = rw (entry_of-slot f 21 h, z) refl
  walk_level2-Leaf f h (maps p e lt) =
      let g : grants (page_entry (p * 2 ^ 21)) ≡ true = page_grants in
      let l : is_large (page_entry (p * 2 ^ 21)) ≡ true = page_large in
      let nz : (page_entry (p * 2 ^ 21) == 0) ≡ false = ground arith in
      let t : target 21 (page_entry (p * 2 ^ 21)) ≡ page_entry (p * 2 ^ 21) / 2 ^ 21 * 2 ^ 21 =
        omega arith in
      rw (entry_of-slot f 21 h, e, g, l, nz, t) refl
    where
      page_grants : grants (page_entry (p * 2 ^ 21)) ≡ true
      page_grants = let e : page_entry (p * 2 ^ 21) % 8 ≡ 7 = omega arith in rw e

      page_large : is_large (page_entry (p * 2 ^ 21)) ≡ true
      page_large = let e : page_entry (p * 2 ^ 21) / 2 ^ 7 % 2 ≡ 1 = omega arith in rw e

  module _ (used : ℕ → Bool) (owner : ℕ → Place) (root : ℕ)
      (tree : Tree mapped m.words used owner root) where
    -- Below an entry of level 3.
    level2 :
        (j k e : ℕ)
        → Link owner used (second j k) e
        → (if grants e
            then if is_large e
              then some (target 30 e + gpa % 2 ^ 30)
              else walk_level2 (ram mapped m) (target 12 e) gpa
            else none)
          ≡ page_address_of (follow mapped m.words e (index2 gpa)) gpa
    level2 j k e (empty z) = rw (z, follow-zero mapped m.words (index2 gpa)) refl
    level2 j k e (linked f eq lt o u) =
        rw
          (
            eq,
            table_grants f,
            table_small f lt,
            table_target f lt,
            follow-table mapped m.words f (index2 gpa),
          )
          (walk_level2-Leaf f lt (tree.leaves f j k (index2 gpa) lt (omega arith) o))

    -- Below an entry of level 4.
    level3 :
        (j e : ℕ)
        → Link owner used (third j) e
        → (if grants e then walk_level3 (ram mapped m) (target 12 e) gpa else none)
          ≡ page_address_of
              (follow mapped m.words (follow mapped m.words e (index3 gpa)) (index2 gpa))
              gpa
    unfolding walk_level3
    level3 j e (empty z) =
        rw (z, follow-zero mapped m.words (index3 gpa), follow-zero mapped m.words (index2 gpa))
          refl
    level3 j e (linked f eq lt o u) =
        rw
          (
            eq,
            table_grants f,
            table_target f lt,
            follow-table mapped m.words f (index3 gpa),
            entry_of-slot f 30 lt,
          )
          (level2 j (index3 gpa) _ (
            rw (← (ap (λ p. below p (index3 gpa)) o))
              (tree.links f (index3 gpa) lt (omega arith) (ap is_directory o))))

    pub translate-leaf :
        gpa < 2 ^ 48
        → translate (ram mapped m) (root * 4096) gpa
          ≡ page_address_of (leaf mapped m.words root (index4 gpa) (index3 gpa) (index2 gpa)) gpa
    unfolding translate leaf
    translate-leaf lt =
        let narrow : ltb gpa (2 ^ 48) ≡ true = ground arith in
        rw (narrow, entry_of-slot root 39 tree.root_frame)
          (level3 (index4 gpa) _ (
            rw (← (ap (λ p. below p (index4 gpa)) tree.root_top)) (
              tree.links root (index4 gpa) tree.root_frame (omega arith)
                (ap is_directory tree.root_top))))
