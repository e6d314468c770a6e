-- ===== src/Npt/Init.antt =====
-- `init_npt`: the tables it builds, read by the processor, map the guest's memory to the host's.
use ymirc.Prelude.{
  ℕ, ◌+◌, ◌-◌, ◌*◌, ◌/◌, ◌%◌, ◌^◌, ◌≤◌, ◌<◌, ◌≡◌, ◌≢◌, ◌⊎◌, inl, inr, refl, sym, ap, ◌∙◌, arith,
  Bool, true, false, Bool-cases, ◌==◌, ◌&&◌, leb, ltb, if◌then◌else◌, Option, none, some,
}
use ymirc.Prelude.{done, stop, panicked}
use ymirc.Mem.{page_size, page_size_2mb, virt2phys, phys2virt}
use ymirc.Mem.RoundTrip.{virt2phys-phys2virt}
use ymirc.Npt.{TableSource, Memory, clear_entries, allocate_table, map_range, init_npt}
use ymirc.Npt.Entries.{page_entry}
use ymirc.Npt.Words.{clear_entries-inside}
use ymirc.Npt.Walk.{ram, translate}
use ymirc.Npt.Tree.{Place, elsewhere, top, is_directory, slot, empty, Tree, leaf}
use ymirc.Npt.Grow.{NewFrame, Supplies}
use ymirc.Npt.Grow.Leaves.{follow-zero}
use ymirc.Npt.Ensure.{Grows, allocate_table_some, allocate_table_null, page_address}
use ymirc.Npt.Step.{index4, index3, index2}
use ymirc.Npt.Range.{page_number, within, Covers, map_range_lem}
use ymirc.Npt.Translation.{page_address_of, translate-leaf}

abbrev only_root : ℕ → ℕ → Place
only_root root f = if f == root then top else elsewhere

module _ {S : Type 0} (mapped : Bool) (pa : TableSource S) (laws : Supplies mapped pa)
    (m : Memory S) (root : ℕ) (s' : S) (new : NewFrame (laws.used m.pages) (laws.used s') root)
    (good : laws.IsGood s') where
  first_table : Memory S
  first_table = record m { words = clear_entries 512 (slot mapped root 0) m.words; pages = s' }

  cleared : (i : ℕ) → i < 512 → first_table.words (slot mapped root i) ≡ 0
  unfolding first_table
  cleared i h =
      let e : slot mapped root i ≡ slot mapped root 0 + i * 8 = omega arith in
      rw e (clear_entries-inside 512 (slot mapped root 0) i m.words h)

  root-top : only_root root root ≡ top
  root-top = let e : (root == root) ≡ true = ground arith in rw e

  other : (f : ℕ) → f ≢ root → only_root root f ≡ elsewhere
  other f ne = let e : (f == root) ≡ false = ground arith in rw e

  placed-root : (f : ℕ) → only_root root f ≢ elsewhere → f ≡ root
  placed-root f ne = elim (Bool-cases (f == root)) [
    | inl e ↦ ground arith
    | inr e ↦ absurd (ne (other f (ground arith)))
  ]

  first_table-Tree : Tree mapped first_table.words (laws.used s') (only_root root) root
  first_table-Tree = record {
    root_top = root-top;
    root_frame = new.small;
    unused_free = λ f h. other f (λ e. cc (h, ap (laws.used s') e, new.taken));
    links = λ t i lt hi dir.
        let e : t ≡ root = placed-root t (λ o. cc (dir, ap is_directory o)) in
        empty (ap (λ x. first_table.words (slot mapped x i)) e ∙ cleared i hi);
    leaves = λ t i j k lt hk o.
        let e : t ≡ root = placed-root t (λ o'. cc (o, o')) in
        absurd (cc (sym o ∙ ap (only_root root) e ∙ root-top));
  }

  first_table-Covers : (g h : ℕ) → Covers mapped pa laws root g h 0 first_table
  first_table-Covers g h = record {
    owner = only_root root;
    built = record {
      tree = unfold first_table in first_table-Tree;
      good = unfold first_table in good;
    };
    leaves = λ j k l hj hk hl.
        let out : within g 0 (page_number j k l) ≡ false = ground arith in
        rw out (
          unfold leaf in
          rw (
            cleared j hj,
            follow-zero mapped first_table.words k,
            follow-zero mapped first_table.words l,
          ));
  }

-- The whole of the mapping, from pages to addresses.
Covers-translate :
    {S : Type 0} (mapped : Bool) (pa : TableSource S) (laws : Supplies mapped pa) (root g h n : ℕ)
    (m : Memory S) (gpa : ℕ)
    → Covers mapped pa laws root g h n m
    → g * 2 ^ 21 + n * 2 ^ 21 ≤ 2 ^ 48
    → translate (ram mapped m) (root * 4096) gpa ≡ (
        if leb (g * 2 ^ 21) gpa && ltb gpa (g * 2 ^ 21 + n * 2 ^ 21)
        then some (h * 2 ^ 21 + (gpa - g * 2 ^ 21))
        else none)
Covers-translate mapped pa laws root g h n m gpa cov fits = elim (Bool-cases (ltb gpa (2 ^ 48))) [
  | inl narrow ↦
      translate-leaf mapped m gpa (laws.used m.pages) cov.owner root cov.built.tree (ground arith)
      ∙ ap (λ e. page_address_of e gpa)
          (cov.leaves (index4 gpa) (index3 gpa) (index2 gpa) (omega arith) (omega arith)
            (omega arith))
      ∙ ap
          (λ p.
            page_address_of (if within g n p then page_entry ((h + (p - g)) * 2 ^ 21) else 0) gpa)
          (number (ground arith))
      ∙ by_side
  | inr wide ↦ too_wide wide
]
  where
    too_wide :
        ltb gpa (2 ^ 48) ≡ false
        → translate (ram mapped m) (root * 4096) gpa ≡ (
            if leb (g * 2 ^ 21) gpa && ltb gpa (g * 2 ^ 21 + n * 2 ^ 21)
            then some (h * 2 ^ 21 + (gpa - g * 2 ^ 21))
            else none)
    too_wide wide =
        let off : (leb (g * 2 ^ 21) gpa && ltb gpa (g * 2 ^ 21 + n * 2 ^ 21)) ≡ false =
          ground arith in
        unfold translate in rw (wide, off) refl

    number : gpa < 2 ^ 48 → page_number (index4 gpa) (index3 gpa) (index2 gpa) ≡ gpa / 2 ^ 21
    number lt = omega arith

    by_side :
        page_address_of
          (if within g n (gpa / 2 ^ 21) then page_entry ((h + (gpa / 2 ^ 21 - g)) * 2 ^ 21) else 0)
          gpa
        ≡ (if leb (g * 2 ^ 21) gpa && ltb gpa (g * 2 ^ 21 + n * 2 ^ 21)
            then some (h * 2 ^ 21 + (gpa - g * 2 ^ 21))
            else none)
    by_side = elim (Bool-cases (within g n (gpa / 2 ^ 21))) [
      | inl inside ↦
          let at_least : g ≤ gpa / 2 ^ 21 = ground arith in
          let less : gpa / 2 ^ 21 < g + n = ground arith in
          let lo : leb (g * 2 ^ 21) gpa ≡ true = ground arith in
          let hi : ltb gpa (g * 2 ^ 21 + n * 2 ^ 21) ≡ true = ground arith in
          let nz : (page_entry ((h + (gpa / 2 ^ 21 - g)) * 2 ^ 21) == 0) ≡ false = ground arith in
          let sum : page_entry ((h + (gpa / 2 ^ 21 - g)) * 2 ^ 21) / 2 ^ 21 * 2 ^ 21 + gpa % 2 ^ 21
              ≡ h * 2 ^ 21 + (gpa - g * 2 ^ 21) =
            omega arith in
          rw (inside, lo, hi, nz, sum) refl
      | inr outside ↦
          let off : (leb (g * 2 ^ 21) gpa && ltb gpa (g * 2 ^ 21 + n * 2 ^ 21)) ≡ false =
            ground arith in
          rw (outside, off) refl
    ]

-- Where a guest address should lead.
abbrev pub host_address : ℕ → ℕ → ℕ → ℕ → Option ℕ
host_address guest_start host_start size gpa =
    if leb guest_start gpa && ltb gpa (guest_start + size / page_size_2mb * page_size_2mb)
    then some (host_start + (gpa - guest_start))
    else none

-- What `init_npt` returns: the physical address of the table of level 4, and memory in which the
-- processor finds the mapping.
pub record Nested {S : Type 0} (mapped : Bool) (pa : TableSource S) (laws : Supplies mapped pa)
    (guest_start host_start size n_cr3 : ℕ) (m' : Memory S) : Type 0 where
  pub maps_memory :
      (gpa : ℕ) → translate (ram mapped m') n_cr3 gpa ≡ host_address guest_start host_start size gpa
  pub good : laws.IsGood m'.pages
  pub aligned : n_cr3 % page_size ≡ 0

module _ {S : Type 0} (mapped : Bool) (pa : TableSource S) (laws : Supplies mapped pa)
    (g h size : ℕ) (m : Memory S) (guest : g * 2 ^ 21 + size ≤ 2 ^ 48)
    (host : h * 2 ^ 21 + size ≤ 2 ^ 51) where
  abbrev Result : Type 0
  Result =
      ((laws.free m.pages < 1 + size / 2 ^ 21 * 2)
        × (init_npt mapped pa (g * 2 ^ 21) (h * 2 ^ 21) size m ≡ stop panicked))
      ⊎ ((n_cr3 : ℕ) × (m' : Memory S) × (init_npt mapped pa (g * 2 ^ 21) (h * 2 ^ 21) size m
            ≡ done (n_cr3, m'))
          × Nested mapped pa laws (g * 2 ^ 21) (h * 2 ^ 21) size n_cr3 m')

  null_case :
      (s' : S)
      → pa.alloc_aligned_pages 1 page_size m.pages ≡ done (0, s')
      → laws.free m.pages ≡ 0
      → Result
  null_case s' e z = inl (omega (arith, z), (unfold init_npt in rw (allocate_table_null pa m e)))

  frame_case :
      (f : ℕ) (s' : S)
      → pa.alloc_aligned_pages 1 page_size m.pages ≡ done (slot mapped f 0, s')
      → NewFrame (laws.used m.pages) (laws.used s') f
      → laws.IsGood s'
      → laws.free m.pages ≤ laws.free s' + 1
      → Result
  frame_case f s' e new good cost = finish (
      map_range_lem mapped pa laws f g h (size / 2 ^ 21) 0 start (omega arith) (omega arith) covers)
    where
      start : Memory S
      start = first_table mapped pa laws m f s' new good

      covers : Covers mapped pa laws f g h 0 start
      covers = first_table-Covers mapped pa laws m f s' new good g h

      allocated : allocate_table pa m ≡ done (slot mapped f 0, start)
      allocated = unfold first_table in allocate_table_some pa m e (omega arith)

      root_phys : virt2phys mapped (slot mapped f 0) ≡ f * 4096
      root_phys =
          ap (virt2phys mapped) (sym (page_address mapped f new.small))
          ∙ virt2phys-phys2virt mapped (f * 4096) (omega (arith, new.small))

      zero_add : 0 + size / 2 ^ 21 ≡ size / 2 ^ 21
      zero_add = omega arith

      fewer : laws.free start.pages < size / 2 ^ 21 * 2 → laws.free m.pages < 1 + size / 2 ^ 21 * 2
      fewer = unfold first_table in (λ few. omega (arith, few, cost))

      finish :
          Grows mapped pa laws
            (size / 2 ^ 21 * 2)
            start
            (Covers mapped pa laws f g h (0 + size / 2 ^ 21))
            (map_range mapped pa
              (g * 2 ^ 21)
              (h * 2 ^ 21)
              (slot mapped f 0)
              (size / 2 ^ 21)
              0
              start)
          → Result
      finish (inl (few, e')) = inl (fewer few, (unfold init_npt in rw (allocated, e')))
      finish (inr (m', e', cost', cov)) = inr (
        f * 4096,
        m',
        (unfold init_npt in rw (allocated, e', root_phys)),
        record {
          maps_memory = λ gpa.
              Covers-translate mapped pa laws f g h (size / 2 ^ 21) m' gpa (rw (← zero_add) cov)
                (omega arith);
          good = cov.built.good;
          aligned = omega arith;
        },
      )

  pub init_npt_pages : laws.IsGood m.pages → Result
  init_npt_pages good = by_supply (laws.supply m.pages good)
    where
      by_supply :
          ((ptr : ℕ) × (s' : S) × (pa.alloc_aligned_pages 1 page_size m.pages ≡ done (ptr, s'))
            × (((ptr ≡ 0) × (laws.free m.pages ≡ 0))
                ⊎ ((f : ℕ) × (ptr ≡ phys2virt mapped (f * page_size))
                    × NewFrame (laws.used m.pages) (laws.used s') f
                    × laws.IsGood s'
                    × (laws.free m.pages ≤ laws.free s' + 1))))
          → Result
      by_supply (ptr, s', e, inl (null, z)) = null_case s' (e ∙ ap (λ p. done (p, s')) null) z
      by_supply (ptr, s', e, inr (f, at, new, good', cost)) =
          frame_case f s' (e ∙ ap (λ p. done (p, s')) (at ∙ page_address mapped f new.small)) new
            good' cost

-- `init_npt` over any page allocator that keeps the laws of `Supplies`, for starts at multiples of
-- 2 MiB, a guest range within 2^48 and a host range within 2^51, from a good state of the
-- allocator: it panics, and then fewer pages were free than one and two for each page of 2 MiB; or
-- it returns an aligned address and tables in which the processor finds exactly the requested
-- mapping.
pub init_npt_lem :
    {S : Type 0} (mapped : Bool) (pa : TableSource S) (laws : Supplies mapped pa)
    (guest_start host_start size : ℕ) (m : Memory S)
    → guest_start % page_size_2mb ≡ 0
    → host_start % page_size_2mb ≡ 0
    → guest_start + size ≤ 2 ^ 48
    → host_start + size ≤ 2 ^ 51
    → laws.IsGood m.pages
    → ((laws.free m.pages < 1 + size / page_size_2mb * 2)
        × (init_npt mapped pa guest_start host_start size m ≡ stop panicked))
      ⊎ ((n_cr3 : ℕ) × (m' : Memory S) × (init_npt mapped pa guest_start host_start size m
            ≡ done (n_cr3, m'))
          × Nested mapped pa laws guest_start host_start size n_cr3 m')
init_npt_lem mapped pa laws guest_start host_start size m ga ha guest host good =
    let eg : guest_start ≡ guest_start / 2 ^ 21 * 2 ^ 21 = omega arith in
    let eh : host_start ≡ host_start / 2 ^ 21 * 2 ^ 21 = omega arith in
    rw (eg, eh)
      (init_npt_pages mapped pa laws (guest_start / 2 ^ 21) (host_start / 2 ^ 21) size m
        (omega arith) (omega arith) good)
