-- ===== src/Loader/Tables/Image.antt =====
-- The loop of surtrc/boot.c that maps the image of the kernel.
use ymirc.Prelude.{
  ℕ, zero, suc, ◌+◌, ◌-◌, ◌*◌, ◌%◌, ◌^◌, ◌≤◌, ◌<◌, ◌≡◌, inl, inr, refl, sym, ap, ◌∙◌, arith, true,
  Bool-cases, ltb, some, done, u64,
}
use ymirc.Npt.{Memory}
use ymirc.Pages.Walk.{is_canonical, translate_kernel}
use ymirc.Loader.Tables.{Firmware, map_4k_to, map_image}
use ymirc.Loader.Tables.Mapping.{FirmwareLaws, word, index_at}
use ymirc.Loader.Tables.Translation.{Finds}
use ymirc.Loader.Tables.Offsets.{translate_kernel-offset}
use ymirc.Loader.Tables.Region.{page_of}
use ymirc.Loader.Tables.Round.{Filled, Filled-ReadsFrom, map_4k_to-Filled, Filled-same}

-- Where the image is mapped: at most 2 GiB, inside the region of one entry of level 4.
pub record Image (start_virt start_phys pages : ℕ) : Type 0 where
  pub word_virt : start_virt < 2 ^ 64
  pub canonical : is_canonical start_virt ≡ true
  pub aligned_virt : start_virt % 4096 ≡ 0
  pub aligned_phys : start_phys % 4096 ≡ 0
  pub small : pages * 4096 ≤ 2 ^ 31
  pub in_region : start_virt % 2 ^ 39 + pages * 4096 ≤ 2 ^ 39
  pub in_memory : start_phys + pages * 4096 ≤ 2 ^ 52

module _ {S : Type 0} (fw : Firmware S) (laws : FirmwareLaws fw) (root sv sp pages : ℕ)
    (image : Image sv sp pages) where
  Image-canonical : (o : ℕ) → o < pages * 4096 → is_canonical (sv + o) ≡ true
  Image-canonical o h = ground (arith, image.canonical, image.in_region, image.word_virt)

  map_image-suc :
      (left i : ℕ) (m m₁ m₂ : Memory S)
      → i < pages
      → map_4k_to fw (root * 4096) (sv + i * 4096) (sp + i * 4096) m ≡ done m₁
      → map_image fw (root * 4096) sv sp left (i + 1) m₁ ≡ done m₂
      → map_image fw (root * 4096) sv sp (suc left) i m ≡ done m₂
  unfolding map_image
  map_image-suc left i m m₁ m₂ h e e' =
      let word_va : u64 (sv + i * 4096) ≡ sv + i * 4096 =
        omega (arith, image.word_virt, image.in_region) in
      let fits : ltb (i * 4096) (2 ^ 31) ≡ true = ground (arith, h, image.small) in
      let word_pa : u64 (sp + i * 4096) ≡ sp + i * 4096 = omega (arith, image.in_memory) in
      rw (fits, word_va, word_pa, e) e'

  rounds :
      (left i : ℕ) (m : Memory S)
      → i + left ≡ pages
      → Filled fw laws root sv m (page_of sv + i)
      → 3 * left ≤ laws.free m.pages
      → (m' : Memory S) × (map_image fw (root * 4096) sv sp left i m ≡ done m')
        × ((o : ℕ)
            → i * 4096 ≤ o
            → o < pages * 4096
            → translate_kernel m'.words (root * 4096) (sv + o) ≡ some (sp + o))
        × ((va pa : ℕ)
            → Finds (laws.used m.pages) m.words root va pa
            → Finds (laws.used m'.pages) m'.words root va pa)
  unfolding map_image
  rounds zero i m h r enough = (m, refl, λ o low high. absurd (omega arith), λ va pa finds. finds)
  rounds (suc left) i m h r enough =
      let va = sv + i * 4096 in
      let phys = sp + i * 4096 in
      let index : index_at 3 sv ≡ index_at 3 va = omega (arith, image.in_region) in
      let number : page_of sv + i ≡ page_of va =
        omega (arith, image.in_region, image.aligned_virt) in
      let (m₁, e, r₁, count, added) =
        map_4k_to-Filled fw laws root va phys (omega (arith, image.in_memory))
          (omega (arith, image.aligned_phys)) m
          (Filled-same fw laws root sv va m (page_of sv + i) (page_of va) index number r)
          (Image-canonical (i * 4096) (omega arith)) (omega arith) in
      let (m₂, e', maps, others) =
        rounds left (i + 1) m₁ (omega arith)
          (Filled-same fw laws root va sv m₁ (page_of va + 1) (page_of sv + (i + 1)) (sym index)
            (omega (arith, number)) r₁)
          (omega (arith, count)) in
      let exact : phys + va % 4096 ≡ phys = omega (arith, image.aligned_virt) in
      let (_, here) = others va phys (
        Filled-ReadsFrom fw laws root va m₁ (page_of va + 1) r₁,
        added.translates ∙ ap some exact,
      ) in
      (
        m₂,
        map_image-suc left i m m₁ m₂ (omega arith) e e',
        λ o low high. elim (Bool-cases (ltb o ((i + 1) * 4096))) [
          | inr later ↦ maps o (ground (arith, later)) high
          | inl now ↦
              let place : sv + o ≡ va + (o - i * 4096) = omega arith in
              let found : sp + o ≡ phys + (o - i * 4096) = omega arith in
              rw (place, found)
                (translate_kernel-offset (root * 4096) va (o - i * 4096) phys m₂.words
                  (omega (arith, image.aligned_virt)) (ground (arith, now))
                  (ap is_canonical (sym place) ∙ Image-canonical o high) here)
        ],
        λ va' pa finds. others va' pa (added.others va' pa finds),
      )

  -- For an image of at most 2 GiB, at addresses of whole pages, canonical ones inside the 512 GiB of
  -- one entry of level 4 that is empty and physical ones below 2^52, with the table of level 4 in a
  -- page in use and three free pages for each page of the image: the loop that maps it returns. Then
  -- the processor translates every address of the image to its place in memory, and every address
  -- that it translated by way of tables in pages in use as before.
  pub map_image_lem :
      (m : Memory S)
      → root < 2 ^ 40
      → laws.used m.pages root ≡ true
      → m.words (word root (index_at 3 sv)) ≡ 0
      → 3 * pages ≤ laws.free m.pages
      → (m' : Memory S) × (map_image fw (root * 4096) sv sp pages 0 m ≡ done m')
        × ((o : ℕ)
            → o < pages * 4096
            → translate_kernel m'.words (root * 4096) (sv + o) ≡ some (sp + o))
        × ((va pa : ℕ)
            → Finds (laws.used m.pages) m.words root va pa
            → Finds (laws.used m'.pages) m'.words root va pa)
  map_image_lem m small taken vacant enough =
      let start : Filled fw laws root sv m (page_of sv + 0) = record {
        depth = λ _. 0;
        prefix = λ _. 0;
        region = record {
          tables = λ f l e. absurd (omega arith);
          lower = λ f l i e. absurd (omega arith);
          leaf = λ f i e. absurd (omega arith);
        };
        top = record { small = small; taken = taken; outside = refl; entry = inl vacant };
      } in
      let (m', e, maps, others) = rounds pages 0 m (omega arith) start enough in
      (m', e, λ o high. maps o (omega arith) high, others)
