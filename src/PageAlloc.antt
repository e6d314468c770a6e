-- ===== src/PageAlloc.antt =====
-- ymirc/page_allocator.c: the bitmap of page frames and the allocator over it.
-- The static variables are the record `PageAllocator`; `frame_begin` is never written. An access
-- to the bitmap out of range stops the machine with `undefined`.
pub mod Status
pub mod Scan
pub mod Alloc
pub mod Aligned
pub mod Reserved
pub mod Free
pub mod Boot
use ymirc.Prelude.{ℕ, zero, suc, ◌+◌, ◌-◌, ◌*◌, ◌/◌, ◌%◌, ◌^◌, bit_and, bit_or, ◌==◌, ltb, leb}
use ymirc.Prelude.{Bool, true, false, not, ◌&&◌, ◌||◌, if◌then◌else◌, List, [], ◌∷◌, ◌++◌, length}
use ymirc.Prelude.{u64, u32, not_64, sub_64, truth}
use ymirc.Prelude.{Stop, panicked, undefined, out_of_fuel, Outcome, done, stop, ◌>>=◌, ◌>>◌}
use ymirc.Bits.{tobit}
use ymirc.Mem.{page_size, page_mask, virt2phys, phys2virt}

abbrev pub max_physical_size : ℕ
max_physical_size = 128 * 1024 * 1024 * 1024

abbrev pub frame_count : ℕ
frame_count = max_physical_size / page_size

abbrev pub bits_per_mapline : ℕ
bits_per_mapline = 64

abbrev pub num_maplines : ℕ
num_maplines = frame_count / bits_per_mapline

abbrev pub frame_begin : ℕ
frame_begin = 1

-- The words of the bitmap, by line index.
abbrev pub Bitmap : Type 0
Bitmap = ℕ → ℕ

pub record UefiReservedRegion : Type 0 where
  pub frame : ℕ
  pub num_frames : ℕ

abbrev pub max_uefi_reserved_regions : ℕ
max_uefi_reserved_regions = 1024

-- `reserved` holds the first `reserved_region_count` entries of `reserved_regions`.
pub record PageAllocator : Type 0 where
  pub bitmap : Bitmap
  pub frame_end : ℕ
  pub reserved : List UefiReservedRegion

unfoldable pub add_reserved_region : PageAllocator → ℕ → ℕ → Outcome PageAllocator
add_reserved_region pa frame num_frames =
    if leb max_uefi_reserved_regions (length pa.reserved)
    then stop panicked
    else done (record pa {
      reserved = pa.reserved ++ (record { frame = frame; num_frames = num_frames } ∷ []);
    })

-- The loop over the reserved regions, from `start` to `end`.
unfoldable pub overlaps_any : List UefiReservedRegion → ℕ → ℕ → Bool
overlaps_any [] start end = false
overlaps_any (r ∷ rs) start end =
    (ltb start (u64 (r.frame + r.num_frames)) && ltb r.frame end) || overlaps_any rs start end

unfoldable pub overlaps_reserved : PageAllocator → ℕ → ℕ → Bool
overlaps_reserved pa frame num_frames = overlaps_any pa.reserved frame (u64 (frame + num_frames))

pub data FrameStatus : Type 0 where
  used unused : FrameStatus

-- `int line_index`: a value from 2^31 on is a negative index, so out of range as well.
abbrev pub line_index : ℕ → ℕ
line_index frame = u32 (frame / bits_per_mapline)

abbrev pub bit_index : ℕ → ℕ
bit_index frame = frame % bits_per_mapline

unfoldable pub frame_status_at : Bitmap → ℕ → Outcome FrameStatus
frame_status_at bitmap frame =
    if ltb (line_index frame) num_maplines
    then done (
        if truth (bit_and (bitmap (line_index frame)) (tobit (bit_index frame)))
        then used
        else unused)
    else stop undefined

-- The word that replaces a line.
abbrev pub new_line : ℕ → ℕ → FrameStatus → ℕ
new_line line bit used = bit_or line (tobit bit)
new_line line bit unused = bit_and line (not_64 (tobit bit))

abbrev pub update : Bitmap → ℕ → ℕ → Bitmap
update bitmap i v j = if j == i then v else bitmap j

unfoldable pub set_frame_status : Bitmap → ℕ → FrameStatus → Outcome Bitmap
set_frame_status bitmap frame status =
    let i = line_index frame in
    if ltb i num_maplines
    then done (update bitmap i (new_line (bitmap i) (bit_index frame) status))
    else stop undefined

-- The loop of `mark_allocated` and `mark_not_used`, at round `i` with `left` rounds to go.
unfoldable pub mark : FrameStatus → Bitmap → ℕ → ℕ → ℕ → Outcome Bitmap
mark status bitmap frame zero i = done bitmap
mark status bitmap frame (suc left) i = do
  bitmap' ← set_frame_status bitmap (u64 (frame + i)) status
  mark status bitmap' frame left (i + 1)

unfoldable pub mark_allocated : PageAllocator → ℕ → ℕ → Outcome PageAllocator
mark_allocated pa frame num_frames = do
  bitmap' ← mark used pa.bitmap frame num_frames 0
  done (record pa { bitmap = bitmap' })

unfoldable pub mark_not_used : PageAllocator → ℕ → ℕ → Outcome PageAllocator
mark_not_used pa frame num_frames = do
  bitmap' ← mark unused pa.bitmap frame num_frames 0
  done (record pa { bitmap = bitmap' })

unfoldable pub mark_uefi_reserved : PageAllocator → ℕ → ℕ → Outcome PageAllocator
mark_uefi_reserved pa frame num_frames = do
  pa' ← mark_allocated pa frame num_frames
  add_reserved_region pa' frame num_frames

abbrev pub phys2frame : ℕ → ℕ
phys2frame phys = phys / page_size

abbrev pub frame2phys : ℕ → ℕ
frame2phys frame = u64 (frame * page_size)

-- How the `for` loop over the candidate's frames ends.
pub data ScanEnd : Type 0 where
  beyond : ScanEnd  -- a frame is not managed: `return NULL`
  busy : ℕ → ScanEnd  -- `break` at this index
  clear : ScanEnd  -- every frame is unused

abbrev pub is_used : FrameStatus → Bool
is_used used = true
is_used unused = false

-- That loop at index `i` with `left` rounds to go.
unfoldable pub scan : Bitmap → ℕ → ℕ → ℕ → ℕ → Outcome ScanEnd
scan bitmap frame_end start zero i = done clear
scan bitmap frame_end start (suc left) i =
    let next = scan bitmap frame_end start left (i + 1) in
    if leb frame_end (u64 (start + i)) then done beyond else do
      status ← frame_status_at bitmap (u64 (start + i))
      if is_used status then done (busy i) else next

-- Taking the frames found: `return (void *)phys2virt(frame2phys(start_frame))`.
unfoldable pub take_frames : Bool → PageAllocator → ℕ → ℕ → Outcome (ℕ × PageAllocator)
take_frames mapped pa start num_frames = do
  pa' ← mark_allocated pa start num_frames
  done (phys2virt mapped (frame2phys start), pa')

-- The `while (1)` of `alloc`, with fuel.
unfoldable pub alloc_loop : ℕ → Bool → PageAllocator → ℕ → ℕ → Outcome (ℕ × PageAllocator)
alloc_loop zero mapped pa num_frames start = stop out_of_fuel
alloc_loop (suc fuel) mapped pa num_frames start = do
  found ← scan pa.bitmap pa.frame_end start num_frames 0
  elim found [
    | beyond ↦ done (0, pa)
    | busy i ↦ alloc_loop fuel mapped pa num_frames (u64 (start + (i + 1)))
    | clear ↦ take_frames mapped pa start num_frames
  ]

-- `(n + PAGE_SIZE - 1) / PAGE_SIZE`
abbrev pub frames_of : ℕ → ℕ
frames_of n = u64 (n + 4095) / page_size

-- `alloc`. The pointer is an address, 0 for NULL; `mapped` is `mapping_reconstructed`.
unfoldable pub alloc : Bool → PageAllocator → ℕ → Outcome (ℕ × PageAllocator)
alloc mapped pa n = alloc_loop (pa.frame_end + 1) mapped pa (frames_of n) frame_begin

unfoldable pub free : Bool → PageAllocator → ℕ → ℕ → Outcome PageAllocator
free mapped pa ptr n =
    let start_frame = phys2frame (virt2phys mapped (bit_and ptr (not_64 page_mask))) in
    if overlaps_reserved pa start_frame (frames_of n)
    then stop panicked
    else mark_not_used pa start_frame (frames_of n)

-- The `while (1)` of `alloc_aligned_pages`, with fuel.
unfoldable pub aligned_loop : ℕ → Bool → PageAllocator → ℕ → ℕ → ℕ → Outcome (ℕ × PageAllocator)
aligned_loop zero mapped pa num_frames align_frame start = stop out_of_fuel
aligned_loop (suc fuel) mapped pa num_frames align_frame start = do
  found ← scan pa.bitmap pa.frame_end start num_frames 0
  elim found [
    | beyond ↦ done (0, pa)
    | busy i ↦
        (let start' = u64 (start + align_frame) in
          let next = aligned_loop fuel mapped pa num_frames align_frame start' in
          if leb pa.frame_end (u64 (start' + num_frames)) then done (0, pa) else next)
    | clear ↦ take_frames mapped pa start num_frames
  ]

unfoldable pub alloc_aligned_pages : Bool → PageAllocator → ℕ → ℕ → Outcome (ℕ × PageAllocator)
alloc_aligned_pages mapped pa num_pages align_size =
    if not (align_size % page_size == 0)
    then done (0, pa)
    else aligned_loop (pa.frame_end + 1) mapped pa num_pages (frames_of align_size)
        (frames_of align_size)
