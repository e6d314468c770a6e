-- ===== src/BinAlloc/Chunks.antt =====
-- Which bin serves a size, and what a free chunk is worth.
use ymirc.Prelude.{
  ℕ, zero, suc, ◌+◌, ◌≤◌, ◌<◌, ◌≡◌, ◌≢◌, refl, ap, ◌∙◌, arith, true, false, ◌==◌, leb, Bool-cases,
  inl, inr, ==_iff,
}
use ymirc.Prelude.{List, [], ◌∷◌, Option, none, some, done, ◌>>=◌, length, leb→le, leb→gt}
use ymirc.BinAlloc.{
  PageOps, Bins, bin_sizes, size_at, store, push, pop, find_bin, bin_index, is_aligned_to_bin,
  alloc_from_bin, bin_alloc, bin_free,
}

-- What the search in `l`, whose first index is `i`, returns.
abbrev Least : List ℕ → ℕ → ℕ → Option ℕ → Type 0
Least l n i (some j) =
    (d : ℕ) × (j ≡ i + d) × (d < length l) × (n ≤ size_at l d) × ((k : ℕ) → k < d → size_at l k < n)
Least l n i none = (k : ℕ) → k < length l → size_at l k < n

Least-skip :
    (x : ℕ) (l : List ℕ) (n i : ℕ) (r : Option ℕ)
    → x < n
    → Least l n (i + 1) r
    → Least (x ∷ l) n i r
unfolding size_at
Least-skip x l n i (some j) h (d, e, lt, fit, before) =
    (suc d, omega arith, omega arith, fit, earlier)
  where
    earlier : (k : ℕ) → k < suc d → size_at (x ∷ l) k < n
    earlier zero p = h
    earlier (suc k) p = before k (omega arith)
Least-skip x l n i none h c = later
  where
    later : (k : ℕ) → k < length (x ∷ l) → size_at (x ∷ l) k < n
    later zero p = h
    later (suc k) p = c k (omega arith)

find_bin-Least : (l : List ℕ) (n i : ℕ) → Least l n i (find_bin l n i)
unfolding find_bin size_at
find_bin-Least [] n i = λ k h. absurd (omega arith)
find_bin-Least (x ∷ l) n i = elim (Bool-cases (leb n x)) [
  | inl fits ↦ rw fits (0, omega arith, omega arith, leb→le n x fits, λ k h. absurd (omega arith))
  | inr small ↦
      rw small
        (Least-skip x l n i (find_bin l n (i + 1)) (leb→gt n x small) (find_bin-Least l n (i + 1)))
]

-- The bin that serves a size: the first whose chunks are large enough.
abbrev pub Serves : ℕ → Option ℕ → Type 0
Serves n (some bin) =
    (bin < 7) × (n ≤ size_at bin_sizes bin) × ((i : ℕ) → i < bin → size_at bin_sizes i < n)
Serves n none = 2048 < n

serves : (n : ℕ) (r : Option ℕ) → Least bin_sizes n 0 r → Serves n r
unfolding size_at
serves n (some j) (d, e, lt, fit, before) =
    let same : j ≡ d = omega arith in rw same (lt, fit, before)
serves n none c = c 6 (omega arith)

-- A request of at most 2048 bytes is served by the least bin whose chunks are large enough, and a
-- larger one by no bin.
pub bin_index_lem : (n : ℕ) → Serves n (bin_index n)
unfolding bin_index
bin_index_lem n = serves n (find_bin bin_sizes n 0) (find_bin-Least bin_sizes n 0)

-- A pushed chunk holds the old head, whether there was one or not.
abbrev pub linked : {S : Type 0} → ℕ → ℕ → Bins S → Bins S
linked node bin s = record s {
  next = store s.next node (s.list_heads bin);
  list_heads = store s.list_heads bin node;
}

pub push-linked : {S : Type 0} (node bin : ℕ) (s : Bins S) → push node bin s ≡ linked node bin s
unfolding push
push-linked {S} node bin s = elim (Bool-cases (s.list_heads bin == 0)) [
  | inl empty ↦ rw empty (ap filled ((==_iff 0 (s.list_heads bin)).0 (ground arith)))
  | inr full ↦ rw full
]
  where
    filled : ℕ → Bins S
    filled h = record s { next = store s.next node h; list_heads = store s.list_heads bin node }

-- The free lists, every word but the one at `ptr`, and the page allocator are the same.
abbrev pub SameLists : {S : Type 0} → Bins S → Bins S → ℕ → Type 0
SameLists s s' ptr =
    ((b : ℕ) → s'.list_heads b ≡ s.list_heads b)
    × ((a : ℕ) → a ≢ ptr → s'.next a ≡ s.next a)
    × (s'.pages ≡ s.pages)

-- Taking the head of a list.
abbrev popped : {S : Type 0} → ℕ → Bins S → Bins S
popped bin s = record s { list_heads = store s.list_heads bin (s.next (s.list_heads bin)) }

alloc_from_bin-linked :
    {S : Type 0} (ops : PageOps S) (s : Bins S) (node bin : ℕ)
    → node ≢ 0
    → alloc_from_bin ops bin (linked node bin s) ≡ done (node, popped bin (linked node bin s))
unfolding alloc_from_bin pop
alloc_from_bin-linked ops s node bin h =
    let same : (bin == bin) ≡ true = ground arith in
    let some_node : (node == 0) ≡ false = ground arith in rw (alloc_from_bin, pop, same, some_node)

popped-linked :
    {S : Type 0} (s : Bins S) (node bin : ℕ) → SameLists s (popped bin (linked node bin s)) node
popped-linked s node bin = (λ b. heads (s.list_heads) b, λ a ne. ground arith, refl)
  where
    heads :
        (f : ℕ → ℕ) (b : ℕ)
        → store (store f bin node) bin (store s.next node (f bin) (store f bin node bin)) b ≡ f b
    heads f b = elim (Bool-cases (b == bin)) [
      | inl e ↦ rw ((==_iff b bin).0 e) (ground arith)
      | inr ne ↦ rw ne
    ]

-- The chunk freed last is the chunk allocated next: freeing a chunk at an address that suits the
-- bin of its size, and then asking for that size, returns the chunk, and leaves every list, every
-- other word and the page allocator as they were.
pub bin_alloc-bin_free :
    {S : Type 0} (ops : PageOps S) (s : Bins S) (ptr n bin : ℕ)
    → bin_index n ≡ some bin
    → is_aligned_to_bin ptr (size_at bin_sizes bin) ≡ true
    → ptr ≢ 0
    → (s' : Bins S) × ((bin_free ops ptr n s >>= bin_alloc ops n) ≡ done (ptr, s'))
      × SameLists s s' ptr
unfolding bin_alloc bin_free
bin_alloc-bin_free ops s ptr n bin e aligned non_null = (
  popped bin (linked ptr bin s),
  ap (λ r. r >>= bin_alloc ops n) freed ∙ taken ∙ alloc_from_bin-linked ops s ptr bin non_null,
  popped-linked s ptr bin,
)
  where
    freed : bin_free ops ptr n s ≡ done (linked ptr bin s)
    freed = rw (bin_free, e, aligned, push-linked ptr bin s)

    taken : bin_alloc ops n (linked ptr bin s) ≡ alloc_from_bin ops bin (linked ptr bin s)
    taken = rw (bin_alloc, e)
