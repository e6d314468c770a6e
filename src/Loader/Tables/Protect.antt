-- ===== src/Loader/Tables/Protect.antt =====
-- The loop of `load_segment` in surtrc/boot.c that sets the attributes of the pages of the image. The
-- rest of `load_segment` reads the file into the image, by way of the firmware.
use ymirc.Prelude.{
  ℕ, zero, suc, ◌+◌, ◌*◌, ◌/◌, if◌then◌else◌, bit_and, not_64, u64, sub_64, List, [], ◌∷◌,
}
use ymirc.Npt.{Memory}
use ymirc.Loader.{ProgramHeader, is_loaded, PageAttribute, read_p_flags}
use ymirc.Loader.Tables.{change_map_4k}

abbrev pub page_start : ProgramHeader → ℕ
page_start ph = bit_and ph.p_vaddr (not_64 0xFFF)

abbrev pub page_end : ProgramHeader → ℕ
page_end ph = bit_and (u64 (ph.p_vaddr + ph.p_memsz + 4095)) (not_64 0xFFF)

-- The loop over the pages of a segment, from page `i` on.
unfoldable pub protect_pages : {S : Type 0} → ℕ → ℕ → PageAttribute → ℕ → ℕ → Memory S → Memory S
protect_pages cr3 start attr zero i m = m
protect_pages cr3 start attr (suc left) i m =
    protect_pages cr3 start attr left (i + 1) (change_map_4k cr3 (u64 (start + 4096 * i)) attr m)

unfoldable pub protect_segment : {S : Type 0} → ℕ → ProgramHeader → Memory S → Memory S
protect_segment cr3 ph m =
    protect_pages cr3 (page_start ph) (read_p_flags ph)
      (sub_64 (page_end ph) (page_start ph) / 4096) 0 m

-- The loop of `load_segment` over the headers.
unfoldable pub protect_segments : {S : Type 0} → ℕ → List ProgramHeader → Memory S → Memory S
protect_segments cr3 [] m = m
protect_segments cr3 (ph ∷ rest) m =
    protect_segments cr3 rest (if is_loaded ph then protect_segment cr3 ph m else m)
