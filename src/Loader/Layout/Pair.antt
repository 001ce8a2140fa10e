-- ===== src/Loader/Layout/Pair.antt =====
-- An image of two segments.
use rv32isam.Base.{ℕ, zero, suc, ◌-◌, ◌^◌, ◌≤◌, ◌≡◌, refl, arith, [], ◌∷◌}
use rv32isam.BitMath.{align_upwards64}
use rv32isam.BitMath.Align.{round_up}
use rv32isam.Elf.{Phdr}
use rv32isam.Loader.{LoadableSegment, add_page}
use rv32isam.Loader.Layout.{layout, place_all, segment_offset, gap_offset, aligned_offset}

abbrev pub first_of : Phdr → LoadableSegment
first_of head = record { mem_offset = 0; phdr = head }

-- Where the second goes.
abbrev pub second_offset : ℕ → Phdr → Phdr → ℕ
second_offset page_size head segm =
    segment_offset page_size (first_of head) (add_page 0 head.p_flags) head.p_memsz segm

pub layout-two :
    (page_size e_entry entrypoint : ℕ) (head segm : Phdr)
    → (layout page_size e_entry entrypoint head (segm ∷ [])).segms
      ≡ first_of head ∷ record { mem_offset = second_offset page_size head segm; phdr = segm } ∷ []
unfolding layout place_all
layout-two page_size e_entry entrypoint head segm = refl

-- A segment of 3072 bytes at 0x10000 that can be written to.
abbrev pub data_header : ℕ → ℕ → Phdr
data_header p_offset page_size = record {
  p_type = 1;
  p_offset = p_offset;
  p_vaddr = 0x10000;
  p_paddr = 0x10000;
  p_filesz = 0;
  p_memsz = 3072;
  p_flags = 6;
  p_align = page_size;
}

-- A segment of code at the first page after it.
abbrev pub text_header : ℕ → ℕ → Phdr
text_header n page_size = record {
  p_type = 1;
  p_offset = 468;
  p_vaddr = round_up 68608 page_size;
  p_paddr = round_up 68608 page_size;
  p_filesz = n;
  p_memsz = n;
  p_flags = 5;
  p_align = page_size;
}

-- With pages of at most 64 KB, the second of the two lies as far from the first as its address does.
pub data-then-text :
    (p_offset n k : ℕ)
    → k ≤ 16
    → second_offset (2 ^ k) (data_header p_offset (2 ^ k)) (text_header n (2 ^ k))
      ≡ round_up 68608 (2 ^ k) - 0x10000
unfolding segment_offset gap_offset aligned_offset align_upwards64 add_page
data-then-text flags n zero h = refl
data-then-text flags n (suc zero) h = refl
data-then-text flags n (suc (suc zero)) h = refl
data-then-text flags n (suc (suc (suc zero))) h = refl
data-then-text flags n (suc (suc (suc (suc zero)))) h = refl
data-then-text flags n (suc (suc (suc (suc (suc zero))))) h = refl
data-then-text flags n (suc (suc (suc (suc (suc (suc zero)))))) h = refl
data-then-text flags n (suc (suc (suc (suc (suc (suc (suc zero))))))) h = refl
data-then-text flags n (suc (suc (suc (suc (suc (suc (suc (suc zero)))))))) h = refl
data-then-text flags n (suc (suc (suc (suc (suc (suc (suc (suc (suc zero))))))))) h = refl
data-then-text flags n (suc (suc (suc (suc (suc (suc (suc (suc (suc (suc zero)))))))))) h = refl
data-then-text flags n (suc (suc (suc (suc (suc (suc (suc (suc (suc (suc (suc zero))))))))))) h =
    refl
data-then-text flags n (suc (suc (suc (suc (suc (suc (suc (suc (suc (suc (suc (suc zero))))))))))))
      h =
    refl
data-then-text flags n
      (suc (suc (suc (suc (suc (suc (suc (suc (suc (suc (suc (suc (suc zero))))))))))))) h =
    refl
data-then-text flags n
      (suc (suc (suc (suc (suc (suc (suc (suc (suc (suc (suc (suc (suc (suc zero)))))))))))))) h =
    refl
data-then-text flags n
      (suc (suc (suc (suc (suc (suc (suc (suc (suc (suc (suc (suc (suc (suc (suc zero)))))))))))))))
      h =
    refl
data-then-text flags n
      (suc (
        suc
          (suc (suc (suc (suc (suc (suc (suc (suc (suc (suc (suc (suc (suc (suc zero))))))))))))))))
      h =
    refl
data-then-text flags n
      (suc (
        suc (
          suc
            (suc (suc (suc (suc (suc (suc (suc (suc (suc (suc (suc (suc (suc (suc k)))))))))))))))))
      h =
    absurd (omega arith)
