-- ===== src/Tests/Chunks.antt =====
-- The bin allocator of ymirc/bin_allocator.c over a page allocator that hands out one page after
-- the other.
use ymirc.Prelude.{ℕ, ◌+◌, ◌*◌, ◌/◌, ◌≡◌, refl, arith, true, [], some, done, ◌>>=◌}
use ymirc.Mem.{page_size}
use ymirc.BinAlloc.{
  PageOps, Bins, bin_sizes, size_at, find_bin, bin_index, is_aligned_to_bin, init_bin_page,
  bin_alloc, bin_free, with_pages,
}
use ymirc.BinAlloc.Chunks.{Serves, SameLists, bin_index_lem, bin_alloc-bin_free}
use ymirc.BinAlloc.Refill.{IsChain, chunk_list, Others, init_bin_page_lem}

-- The state is the number of the next page.
abbrev counter : PageOps ℕ
counter = record {
  alloc_pages = λ n s. done (s * page_size, s + 1);
  free_pages = λ ptr n s. done s;
}

abbrev empty_bins : Bins ℕ
empty_bins = record { list_heads = λ bin. 0; next = λ a. 0; pages = 5 }

smallest : bin_index 100 ≡ some 2
unfolding bin_index find_bin
smallest = refl

too_large : bin_alloc counter 5000 empty_bins ≡ done (5 * page_size, with_pages empty_bins 6)
unfolding bin_alloc bin_index find_bin
too_large = refl

aligned : is_aligned_to_bin 0x5080 (size_at bin_sizes 2) ≡ true
unfolding is_aligned_to_bin size_at
aligned = refl

bin_index_lem_example : Serves 100 (bin_index 100)
bin_index_lem_example = bin_index_lem 100

bin_alloc-bin_free_example :
    (s' : Bins ℕ) × ((bin_free counter 0x5080 100 empty_bins >>= bin_alloc counter 100)
      ≡ done (0x5080, s'))
    × SameLists empty_bins s' 0x5080
bin_alloc-bin_free_example =
    bin_alloc-bin_free counter empty_bins 0x5080 100 2 smallest aligned (omega arith)

init_bin_page_lem_example :
    (s' : Bins ℕ) × (init_bin_page counter 6 empty_bins ≡ done (true, s'))
    × IsChain s'.next
        (s'.list_heads 6)
        (chunk_list 0x5000 (size_at bin_sizes 6) (page_size / size_at bin_sizes 6) [])
    × Others (with_pages empty_bins 6) 6 s'
init_bin_page_lem_example =
    init_bin_page_lem counter 6 0x5000 empty_bins 6 refl (omega arith) (omega arith) (omega arith)
      refl
