-- ===== src/Loader/Tables/Loaded.antt =====
-- The image of the kernel as surtrc/boot.c maps it, with its attributes.
use ymirc.Prelude.{ℕ, ◌+◌, ◌*◌, ◌^◌, ◌<◌, ◌≡◌, ◌∙◌, true, some, done, ◌≤◌, List}
use ymirc.Npt.{Memory}
use ymirc.Pages.Walk.{translate_kernel}
use ymirc.Loader.{ProgramHeader}
use ymirc.Loader.Tables.{Firmware, map_image}
use ymirc.Loader.Tables.Mapping.{FirmwareLaws, word, index_at}
use ymirc.Loader.Tables.Translation.{Finds}
use ymirc.Loader.Tables.Image.{Image, map_image_lem}
use ymirc.Loader.Tables.Protect.{protect_segments}
use ymirc.Loader.Tables.Attributes.{protect_segments-translate}

module _ {S : Type 0} (fw : Firmware S) (laws : FirmwareLaws fw) (root sv sp pages : ℕ)
    (image : Image sv sp pages) where
  -- For an image of at most 2 GiB, at addresses of whole pages, canonical ones inside the 512 GiB of
  -- one entry of level 4 that is empty and physical ones below 2^52, with the table of level 4 in a
  -- page in use and three free pages for each page of the image: the loop that maps it returns. Then
  -- the processor translates every address of the image to its place in memory, and every address
  -- that it translated by way of tables in pages in use as before; and so it does after the
  -- attributes were set, whatever the headers are.
  pub protect_segments-map_image :
      (m : Memory S)
      → root < 2 ^ 40
      → laws.used m.pages root ≡ true
      → m.words (word root (index_at 3 sv)) ≡ 0
      → 3 * pages ≤ laws.free m.pages
      → (m' : Memory S) × (map_image fw (root * 4096) sv sp pages 0 m ≡ done m')
        × ((phdr : List ProgramHeader) (o : ℕ)
            → o < pages * 4096
            → translate_kernel (protect_segments (root * 4096) phdr m').words (root * 4096) (sv + o)
              ≡ some (sp + o))
        × ((phdr : List ProgramHeader) (va pa : ℕ)
            → Finds (laws.used m.pages) m.words root va pa
            → translate_kernel (protect_segments (root * 4096) phdr m').words (root * 4096) va
              ≡ some pa)
  protect_segments-map_image m small taken vacant enough =
      let (m', e, maps, others) =
        map_image_lem fw laws root sv sp pages image m small taken vacant enough in
      (
        m',
        e,
        λ phdr o h.
            protect_segments-translate (root * 4096) phdr m' (root * 4096) (sv + o) ∙ maps o h,
        λ phdr va pa finds.
            protect_segments-translate (root * 4096) phdr m' (root * 4096) va
            ∙ (others va pa finds).1,
      )
