-- ===== src/Tests/Loader.antt =====
-- The page tables of surtrc/arch/x86/page.c with a firmware that hands out 64 pages in order.
use ymirc.Prelude.{
  List, ℕ, ◌+◌, ◌-◌, ◌*◌, ◌<◌, ◌≡◌, inl, inr, refl, arith, Bool-cases, ltb, if◌then◌else◌, none,
  some, done,
}
use ymirc.Npt.{Memory}
use ymirc.Pages.Walk.{translate_kernel}
use ymirc.Loader.Tables.{Firmware, map_image}
use ymirc.Loader.Tables.Mapping.{FirmwareLaws}
use ymirc.Loader.Tables.Translation.{Finds}
use ymirc.Loader.{ProgramHeader}
use ymirc.Loader.Tables.Image.{Image}
use ymirc.Loader.Tables.Protect.{protect_segments}
use ymirc.Loader.Tables.Loaded.{protect_segments-map_image}

abbrev in_order : Firmware ℕ
in_order n = if ltb n 64 then some (n * 4096, n + 1) else none

abbrev in_order-FirmwareLaws : FirmwareLaws in_order
in_order-FirmwareLaws = record {
  used = λ n f. ltb f n;
  free = λ n. 64 - n;
  supply = λ n. elim (Bool-cases (ltb n 64)) [
    | inr off ↦ inl (rw off refl, ground arith)
    | inl on ↦ inr (
      n,
      n + 1,
      rw on refl,
      record {
        small = ground arith;
        fresh = ground arith;
        taken = ground arith;
        kept = λ g h. ground arith;
      },
      omega arith,
    )
  ];
}

-- The table of level 4 in page 2 is empty.
abbrev started : Memory ℕ
started = record { words = λ _. 0; pages = 3 }

-- An image of five pages in the upper 2 GiB.
five-Image : Image 0xFFFFFFFF80100000 0x100000 5
five-Image = record {
  word_virt = omega arith;
  canonical = refl;
  aligned_virt = refl;
  aligned_phys = refl;
  small = omega arith;
  in_region = omega arith;
  in_memory = omega arith;
}

protect_segments-map_image_example :
    (m' : Memory ℕ) × (map_image in_order (2 * 4096) 0xFFFFFFFF80100000 0x100000 5 0 started
      ≡ done m')
    × ((phdr : List ProgramHeader) (o : ℕ)
        → o < 5 * 4096
        → translate_kernel
            (protect_segments (2 * 4096) phdr m').words
            (2 * 4096)
            (0xFFFFFFFF80100000 + o)
          ≡ some (0x100000 + o))
    × ((phdr : List ProgramHeader) (va pa : ℕ)
        → Finds (in_order-FirmwareLaws.used started.pages) started.words 2 va pa
        → translate_kernel (protect_segments (2 * 4096) phdr m').words (2 * 4096) va ≡ some pa)
protect_segments-map_image_example =
    protect_segments-map_image in_order in_order-FirmwareLaws 2 0xFFFFFFFF80100000 0x100000 5
      five-Image started (omega arith) refl refl (omega arith)
