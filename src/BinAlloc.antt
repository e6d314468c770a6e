-- ===== src/BinAlloc.antt =====
-- ymirc/bin_allocator.c: free lists of chunks of seven sizes. The lists are threaded through the
-- free chunks themselves: `next` is the word at each chunk's address, and 0 is NULL. The page
-- allocator that `init_bin_allocator` is given is the parameter `PageOps`.
pub mod Chunks
pub mod Refill
use ymirc.Prelude.{
  Bool, true, false, ℕ, zero, suc, ◌+◌, ◌*◌, ◌/◌, ◌%◌, ◌==◌, leb, not, if◌then◌else◌, u64,
}
use ymirc.Prelude.{List, [], ◌∷◌, Option, none, some, Stop, panicked, Outcome, done, stop, ◌>>=◌}
use ymirc.Mem.{page_size}

-- `page_allocator_ops_t`, of the functions that are called.
pub record PageOps (S : Type 0) : Type 0 where
  pub alloc_pages : ℕ → S → Outcome (ℕ × S)
  pub free_pages : ℕ → ℕ → S → Outcome S

-- The free lists with the memory of their chunks, and the page allocator's state.
pub record Bins (S : Type 0) : Type 0 where
  pub list_heads : ℕ → ℕ
  pub next : ℕ → ℕ
  pub pages : S

abbrev pub bin_sizes : List ℕ
bin_sizes = 0x20 ∷ 0x40 ∷ 0x80 ∷ 0x100 ∷ 0x200 ∷ 0x400 ∷ 0x800 ∷ []

unfoldable pub size_at : List ℕ → ℕ → ℕ
size_at [] i = 0
size_at (s ∷ rest) zero = s
size_at (s ∷ rest) (suc i) = size_at rest i

abbrev pub store : (ℕ → ℕ) → ℕ → ℕ → ℕ → ℕ
store f a v x = if x == a then v else f x

unfoldable pub push : {S : Type 0} → ℕ → ℕ → Bins S → Bins S
push node bin s =
    if not (s.list_heads bin == 0)
    then record s {
      next = store s.next node (s.list_heads bin);
      list_heads = store s.list_heads bin node;
    }
    else record s { next = store s.next node 0; list_heads = store s.list_heads bin node }

unfoldable pub pop : {S : Type 0} → ℕ → Bins S → Outcome (ℕ × Bins S)
pop bin s =
    let first = s.list_heads bin in
    if not (first == 0)
    then done (first, record s { list_heads = store s.list_heads bin (s.next first) })
    else stop panicked

-- The loop of `init_bin_page`, from chunk `count - 1` down to chunk 0.
unfoldable pub push_chunks : {S : Type 0} → ℕ → ℕ → ℕ → ℕ → Bins S → Bins S
push_chunks zero page size bin s = s
push_chunks (suc i) page size bin s =
    push_chunks i page size bin (push (u64 (page + i * size)) bin s)

-- The loop of `bin_index` at index `i`; `none` is -1.
unfoldable pub find_bin : List ℕ → ℕ → ℕ → Option ℕ
find_bin [] size i = none
find_bin (s ∷ rest) size i =
    let later = find_bin rest size (i + 1) in if leb size s then some i else later

unfoldable pub bin_index : ℕ → Option ℕ
bin_index size = find_bin bin_sizes size 0

unfoldable pub is_aligned_to_bin : ℕ → ℕ → Bool
is_aligned_to_bin addr bin_size = addr % page_size % bin_size == 0

-- `init_bin_page`, which answers whether there was a page.
unfoldable pub init_bin_page : {S : Type 0} → PageOps S → ℕ → Bins S → Outcome (Bool × Bins S)
init_bin_page ops bin s = do
  (new_page, pages') ← ops.alloc_pages page_size s.pages
  let size = size_at bin_sizes bin in
      let s' = push_chunks (page_size / size) new_page size bin (record s { pages = pages' }) in
      if new_page == 0 then done (false, record s { pages = pages' }) else done (true, s')

-- `return (void*)pop(bin_index)` of `alloc_from_bin`, after the refill if the list was empty.
unfoldable pub alloc_from_bin : {S : Type 0} → PageOps S → ℕ → Bins S → Outcome (ℕ × Bins S)
alloc_from_bin ops bin s =
    if s.list_heads bin == 0
    then (do
      (refilled, s') ← init_bin_page ops bin s
      if refilled then pop bin s' else done (0, s'))
    else pop bin s

abbrev pub with_pages : {S : Type 0} → Bins S → S → Bins S
with_pages s pages' = record s { pages = pages' }

unfoldable pub bin_alloc : {S : Type 0} → PageOps S → ℕ → Bins S → Outcome (ℕ × Bins S)
bin_alloc ops n s = elim (bin_index n) [
  | some bin ↦ alloc_from_bin ops bin s
  | none ↦ do (ptr, pages') ← ops.alloc_pages n s.pages; done (ptr, with_pages s pages')
]

unfoldable pub bin_free : {S : Type 0} → PageOps S → ℕ → ℕ → Bins S → Outcome (Bins S)
bin_free ops ptr n s = elim (bin_index n) [
  | some bin ↦
      if is_aligned_to_bin ptr (size_at bin_sizes bin) then done (push ptr bin s) else done s
  | none ↦ do pages' ← ops.free_pages ptr n s.pages; done (with_pages s pages')
]
