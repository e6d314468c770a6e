-- ===== src/Npt/Tree.antt =====
-- The shape of the tables: who owns a frame, and what the entries of its table may be.
use ymirc.Prelude.{
  ℕ, ◌+◌, ◌*◌, ◌/◌, ◌^◌, ◌≤◌, ◌<◌, ◌≡◌, arith, Bool, true, false, ◌==◌, if◌then◌else◌,
}
use ymirc.Mem.{direct_map_base, phys2virt}
use ymirc.Npt.Entries.{table_entry, page_entry}

-- What a frame is to the tables: no table, the table of level 4, the table of level 3 under an
-- entry, or the table of level 2 under two of them.
pub data Place : Type 0 where
  elsewhere top : Place
  third : ℕ → Place
  second : ℕ → ℕ → Place

-- The place of the table under entry `i` of a table.
abbrev pub below : Place → ℕ → Place
below top i = third i
below (third i) j = second i j
below (second i j) k = elsewhere
below elsewhere i = elsewhere

-- A table whose entries refer to tables.
abbrev pub is_directory : Place → Bool
is_directory top = true
is_directory (third i) = true
is_directory (second i j) = false
is_directory elsewhere = false

-- The frames that tables may stand in are those of the page allocator: 2^25 frames.
abbrev pub frames : ℕ
frames = 2 ^ 25

-- Where physical address 0 is mapped.
abbrev pub offset : Bool → ℕ
offset true = direct_map_base
offset false = 0

-- The address of entry `i` of the table in frame `f`.
abbrev pub slot : Bool → ℕ → ℕ → ℕ
slot mapped f i = offset mapped + f * 4096 + i * 8

pub phys2virt-offset : (mapped : Bool) (p : ℕ) → p < 2 ^ 39 → phys2virt mapped p ≡ offset mapped + p
unfolding phys2virt
phys2virt-offset true p h = omega arith
phys2virt-offset false p h = omega arith

pub offset-le : (mapped : Bool) → offset mapped ≤ direct_map_base
offset-le true = omega arith
offset-le false = omega arith

-- The entry is empty, or refers to the table in a frame at a place.
pub data Link (owner : ℕ → Place) (used : ℕ → Bool) (place : Place) (e : ℕ) : Type 0 where
  empty : e ≡ 0 → Link owner used place e
  linked :
      (f : ℕ)
      → e ≡ table_entry (f * 4096)
      → f < frames
      → owner f ≡ place
      → used f ≡ true
      → Link owner used place e

-- The entry is empty, or maps a page of 2 MiB.
pub data Leaf (e : ℕ) : Type 0 where
  unmapped : e ≡ 0 → Leaf e
  maps : (h : ℕ) → e ≡ page_entry (h * 2 ^ 21) → h < 2 ^ 30 → Leaf e

pub record Tree (mapped : Bool) (words : ℕ → ℕ) (used : ℕ → Bool) (owner : ℕ → Place) (root : ℕ)
    : Type 0 where
  pub root_top : owner root ≡ top
  pub root_frame : root < frames
  pub unused_free : (f : ℕ) → used f ≡ false → owner f ≡ elsewhere
  pub links :
      (t i : ℕ)
      → t < frames
      → i < 512
      → is_directory (owner t) ≡ true
      → Link owner used (below (owner t) i) (words (slot mapped t i))
  pub leaves :
      (t i j k : ℕ) → t < frames → k < 512 → owner t ≡ second i j → Leaf (words (slot mapped t k))

-- The word that an entry for a table leads to; 0 where there is none.
unfoldable pub follow : Bool → (ℕ → ℕ) → ℕ → ℕ → ℕ
follow mapped words e i = if e == 0 then 0 else words (slot mapped (e / 4096) i)

-- The entry of level 2 that three indices lead to, 0 where a table on the way is missing.
unfoldable pub leaf : Bool → (ℕ → ℕ) → ℕ → ℕ → ℕ → ℕ → ℕ
leaf mapped words root i j k =
    follow mapped words (follow mapped words (words (slot mapped root i)) j) k
