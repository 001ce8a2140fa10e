-- ===== src/Loader.antt =====
-- loader.c and loader.h: the lists of segments and pages, and the layout of the memory image.
pub mod Layout
pub mod Image
pub mod Sections
pub mod Host
pub mod Lists
pub mod ReadElf
pub mod ReadRaw
pub mod Kept
pub mod Runs
use rv32isam.Base.{ℕ, ◌-◌, List, [], ◌∷◌}
use rv32isam.Base.Word.{sub64, u8}
use rv32isam.Elf.{Phdr}

-- `struct loadable_segment`, once its place is known, and `struct page_descr`. The linked lists are
-- appended to at their end and read from their start: they are lists in that order.
pub record LoadableSegment : Type 0 where
  pub mem_offset : ℕ
  pub phdr : Phdr

pub record PageDescr : Type 0 where
  pub offset_from_mmap : ℕ
  pub flags : ℕ
  pub size : ℕ

-- A new page, whose size is set when its end is known; `flags` is a `uint8_t`.
unfoldable pub add_page : ℕ → ℕ → PageDescr
add_page offset flags = record { offset_from_mmap = offset; flags = u8 flags; size = 0 }

unfoldable pub set_page_end : PageDescr → ℕ → PageDescr
set_page_end page end_offset = record page { size = sub64 end_offset page.offset_from_mmap }
