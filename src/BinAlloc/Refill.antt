-- ===== src/BinAlloc/Refill.antt =====
-- How `init_bin_page` cuts a page into chunks.
use native.Mathlib.Nat.{div-mul-le_self}
use ymirc.Prelude.{
  ℕ, zero, suc, ◌+◌, ◌*◌, ◌/◌, ◌^◌, ◌≤◌, ◌<◌, ◌≡◌, ◌≢◌, refl, ap, ◌∙◌, arith, true, false, ◌==◌,
  u64,
}
use ymirc.Prelude.{List, [], ◌∷◌, done}
use ymirc.Mem.{page_size}
use ymirc.BinAlloc.{
  PageOps, Bins, bin_sizes, size_at, store, push, push_chunks, init_bin_page, with_pages,
}
use ymirc.BinAlloc.Chunks.{linked, push-linked}

-- Following the words `next` from `head` visits these addresses, and ends at NULL.
abbrev pub IsChain : (ℕ → ℕ) → ℕ → List ℕ → Type 0
IsChain next head [] = head ≡ 0
IsChain next head (a ∷ l) = (head ≡ a) × (a ≢ 0) × IsChain next (next a) l

-- The addresses are `lo` or above.
abbrev pub AllFrom : ℕ → List ℕ → Type 0
AllFrom lo [] = Unit
AllFrom lo (a ∷ l) = (lo ≤ a) × AllFrom lo l

-- The chunks 0 to `count - 1` of a page, in this order, before `rest`.
unfoldable pub chunk_list : ℕ → ℕ → ℕ → List ℕ → List ℕ
chunk_list page size zero rest = rest
chunk_list page size (suc i) rest = chunk_list page size i ((page + i * size) ∷ rest)

AllFrom-weaken : (lo lo' : ℕ) (l : List ℕ) → lo ≤ lo' → AllFrom lo' l → AllFrom lo l
AllFrom-weaken lo lo' [] h a = tt
AllFrom-weaken lo lo' (x ∷ l) h (p, a) = (omega arith, AllFrom-weaken lo lo' l h a)

-- A store below all its chunks leaves a chain as it is.
IsChain-store :
    (next : ℕ → ℕ) (node v head : ℕ) (l : List ℕ)
    → AllFrom (node + 1) l
    → IsChain next head l
    → IsChain (store next node v) head l
IsChain-store next node v head [] a c = c
IsChain-store next node v head (x ∷ l) (p, a) (e, nz, c) =
    let apart : (x == node) ≡ false = ground arith in
    (e, nz, rw apart (IsChain-store next node v (next x) l a c))

-- The chunks of `s` in a bin, all at `lo` or above.
abbrev Holds : {S : Type 0} → Bins S → ℕ → ℕ → List ℕ → Type 0
Holds s bin lo l = AllFrom lo l × IsChain s.next (s.list_heads bin) l

Holds-linked :
    {S : Type 0} (node bin : ℕ) (s : Bins S) (l : List ℕ)
    → node ≢ 0
    → Holds s bin (node + 1) l
    → Holds (linked node bin s) bin node (node ∷ l)
Holds-linked node bin s l nz (above, c) =
    let same : (bin == bin) ≡ true = ground arith in
    let here : (node == node) ≡ true = ground arith in
    (
      (omega arith, AllFrom-weaken node (node + 1) l (omega arith) above),
      rw (same, here)
          (refl, nz, IsChain-store s.next node (s.list_heads bin) (s.list_heads bin) l above c),
    )

-- The other bins and the page allocator stay.
abbrev pub Others : {S : Type 0} → Bins S → ℕ → Bins S → Type 0
Others s bin s' =
    ((b : ℕ) → (b == bin) ≡ false → s'.list_heads b ≡ s.list_heads b) × (s'.pages ≡ s.pages)

size_pos : (bin : ℕ) → bin < 7 → 0 < size_at bin_sizes bin
unfolding size_at
size_pos zero h = omega arith
size_pos (suc zero) h = omega arith
size_pos (suc (suc zero)) h = omega arith
size_pos (suc (suc (suc zero))) h = omega arith
size_pos (suc (suc (suc (suc zero)))) h = omega arith
size_pos (suc (suc (suc (suc (suc zero))))) h = omega arith
size_pos (suc (suc (suc (suc (suc (suc zero)))))) h = omega arith
size_pos (suc (suc (suc (suc (suc (suc (suc bin))))))) h = absurd (omega arith)

whole : (size : ℕ) → page_size / size * size ≤ page_size
whole size = div-mul-le_self page_size size

module _ (page size bin : ℕ) (page_nz : page ≢ 0) (some_size : 0 < size) where
  push_chunks-suc :
      {S : Type 0} (i : ℕ) (s : Bins S)
      → u64 (page + i * size) ≡ page + i * size
      → push_chunks (suc i) page size bin s
        ≡ push_chunks i page size bin (linked (page + i * size) bin s)
  unfolding push_chunks
  push_chunks-suc i s word =
      ap (λ n. push_chunks i page size bin (push n bin s)) word
      ∙ ap (push_chunks i page size bin) (push-linked (page + i * size) bin s)

  push_chunks_lem :
      {S : Type 0} (i : ℕ) (s : Bins S) (l : List ℕ)
      → page + i * size ≤ 2 ^ 64
      → Holds s bin (page + i * size) l
      → IsChain
          (push_chunks i page size bin s).next
          ((push_chunks i page size bin s).list_heads bin)
          (chunk_list page size i l)
        × Others s bin (push_chunks i page size bin s)
  unfolding push_chunks chunk_list
  push_chunks_lem zero s l fits h = (h.1, ((λ b ne. refl), refl))
  push_chunks_lem {S} (suc i) s l fits h =
      let next_chunk : suc i * size ≡ i * size + size = grind arith in
      let word : u64 (page + i * size) ≡ page + i * size = omega arith in
      let below : page + i * size + 1 ≤ page + suc i * size = omega arith in
      rw (push_chunks-suc i s word) (
        after (push_chunks i page size bin (linked (page + i * size) bin s)) (
          push_chunks_lem i (linked (page + i * size) bin s) ((page + i * size) ∷ l) (omega arith) (
            Holds-linked (page + i * size) bin s l (omega arith)
              (AllFrom-weaken (page + i * size + 1) (page + suc i * size) l below h.0, h.1))))
    where
      after :
          (x : Bins S) {c : Type 0}
          → c × Others (linked (page + i * size) bin s) bin x
          → c × Others s bin x
      after x (c, (heads, same)) = (c, ((λ b ne. heads b ne ∙ rw ne), same))

-- Given a page inside memory, an empty bin is refilled with its chunks: following the free list of
-- the bin visits chunk 0, chunk 1 and so on to the last chunk of the page, and ends. The other
-- bins keep their lists.
pub init_bin_page_lem :
    {S : Type 0} (ops : PageOps S) (bin page : ℕ) (s : Bins S) (pages' : S)
    → ops.alloc_pages page_size s.pages ≡ done (page, pages')
    → page ≢ 0
    → page + page_size ≤ 2 ^ 64
    → bin < 7
    → s.list_heads bin ≡ 0
    → (s' : Bins S) × (init_bin_page ops bin s ≡ done (true, s'))
      × IsChain s'.next
          (s'.list_heads bin)
          (chunk_list page (size_at bin_sizes bin) (page_size / size_at bin_sizes bin) [])
      × Others (with_pages s pages') bin s'
unfolding init_bin_page
init_bin_page_lem ops bin page s pages' e nz fits lt empty =
    let some_page : (page == 0) ≡ false = ground arith in
    let (chain, others) =
      push_chunks_lem page (size_at bin_sizes bin) bin nz (size_pos bin lt)
        (page_size / size_at bin_sizes bin) (with_pages s pages') []
        (omega (arith, whole (size_at bin_sizes bin))) (tt, empty) in
    (
      push_chunks (page_size / size_at bin_sizes bin) page (size_at bin_sizes bin) bin
          (with_pages s pages'),
      rw (e, some_page),
      chain,
      others,
    )
