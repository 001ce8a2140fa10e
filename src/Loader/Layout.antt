-- ===== src/Loader/Layout.antt =====
-- loader.c: where `loader_read_elf` places the loadable segments in the image.
pub mod Offset
pub mod Laws
pub mod Pair
use rv32isam.Base.{ℕ, ◌+◌, ◌-◌, ◌<◌, List, [], ◌∷◌, Bool, not, ltb, leb, ◌==◌, ◌&&◌, if◌then◌else◌}
use rv32isam.Base.Word.{add32, sub32, add64, sub64, u8}
use rv32isam.BitMath.{align_upwards64}
use rv32isam.Elf.{Phdr}
use rv32isam.Loader.{LoadableSegment, PageDescr, add_page, set_page_end}

-- What the loop over the segments leaves: both lists, the entry point in the image, and the end of
-- the last segment, which is `full_memory_image_size`.
pub record Placed : Type 0 where
  pub segms : List LoadableSegment
  pub pages : List PageDescr
  pub entrypoint : ℕ
  pub end : ℕ

-- The first two adjustments of `next_segment_offset` for the segment `segm` after `prev`.
pub gap_offset : LoadableSegment → ℕ → Phdr → ℕ
gap_offset prev next segm =
    let distance_between_starts = sub32 segm.p_vaddr prev.phdr.p_vaddr in
    let distance_end_to_start = sub64 distance_between_starts prev.phdr.p_memsz in
    let curr_distance = sub64 next prev.mem_offset in
    if ltb curr_distance distance_end_to_start
    then add64 next (sub64 distance_end_to_start curr_distance)
    else next

pub aligned_offset : ℕ → Phdr → ℕ
aligned_offset offset segm =
    if leb 2 segm.p_align then align_upwards64 offset segm.p_align else offset

-- The entry point, when it lies in this segment.
pub patch_entrypoint : ℕ → ℕ → Phdr → ℕ → ℕ
patch_entrypoint e_entry entrypoint segm offset =
    if leb segm.p_vaddr e_entry && ltb e_entry (add32 segm.p_vaddr segm.p_memsz)
    then add64 (sub32 e_entry segm.p_vaddr) offset
    else entrypoint

abbrev pub needs_page : PageDescr → Phdr → Bool
needs_page page segm = not (segm.p_flags == page.flags)

-- `next_segment_offset` after all adjustments, which is where `segm` goes.
pub segment_offset : ℕ → LoadableSegment → PageDescr → ℕ → Phdr → ℕ
segment_offset page_size prev page next segm =
    let in_order = aligned_offset (gap_offset prev next segm) segm in
    if needs_page page segm then align_upwards64 in_order page_size else in_order

module _ (page_size e_entry : ℕ) where
  -- The rounds of the loop for the segments that remain. `page` is the last page, still open.
  pub place_all : LoadableSegment → PageDescr → ℕ → ℕ → List Phdr → Placed
  place_all prev page next entrypoint [] = record {
    segms = [];
    pages = set_page_end page next ∷ [];
    entrypoint = entrypoint;
    end = next;
  }
  place_all prev page next entrypoint (segm ∷ rest) =
      let offset = segment_offset page_size prev page next segm in
      let other = needs_page page segm in
      let placed : LoadableSegment = record { mem_offset = offset; phdr = segm } in
      let after =
        place_all placed (if other then add_page offset segm.p_flags else page)
          (add64 offset segm.p_memsz) (patch_entrypoint e_entry entrypoint segm offset) rest in
      record after {
        segms = placed ∷ after.segms;
        pages = if other then set_page_end page offset ∷ after.pages else after.pages;
      }

  -- From the first segment, which begins the image.
  pub layout : ℕ → Phdr → List Phdr → Placed
  layout entrypoint head rest =
      let first : LoadableSegment = record { mem_offset = 0; phdr = head } in
      let after = place_all first (add_page 0 head.p_flags) head.p_memsz entrypoint rest in
      record after { segms = first ∷ after.segms }
