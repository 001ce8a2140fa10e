-- ===== src/Loader/Image.antt =====
-- loader.c: the segments of the file are copied to their places in the image.
pub mod Laws
use rv32isam.Base.{
  ℕ, ◌+◌, ◌-◌, List, [], ◌∷◌, Option, none, some, Bool, ltb, leb, ◌&&◌, if◌then◌else◌,
}
use rv32isam.Base.Lists.{◌>>=◌}
use rv32isam.Loader.{LoadableSegment}

-- `memcpy` of `n` bytes of another memory, and `memset` to 0.
abbrev pub memcpy : (ℕ → ℕ) → ℕ → (ℕ → ℕ) → ℕ → ℕ → ℕ → ℕ
memcpy bytes dest source src n a =
    if leb dest a && ltb a (dest + n) then source (src + (a - dest)) else bytes a

abbrev pub clear : (ℕ → ℕ) → ℕ → ℕ → ℕ → ℕ
clear bytes dest n a = if leb dest a && ltb a (dest + n) then 0 else bytes a

module _ (file : ℕ → ℕ) (size : ℕ) where
  -- A round of the loop, on an image of `size` bytes. A copy beyond its end is undefined: `none`.
  pub copy_segment : (ℕ → ℕ) → LoadableSegment → Option (ℕ → ℕ)
  copy_segment bytes segm =
      let copied = memcpy bytes segm.mem_offset file segm.phdr.p_offset segm.phdr.p_filesz in
      if leb (segm.mem_offset + segm.phdr.p_filesz) size
        && leb (segm.mem_offset + segm.phdr.p_memsz) size
      then some (
          if ltb segm.phdr.p_filesz segm.phdr.p_memsz
          then clear copied (segm.mem_offset + segm.phdr.p_filesz)
              (segm.phdr.p_memsz - segm.phdr.p_filesz)
          else copied)
      else none

  pub copy_segments : (ℕ → ℕ) → List LoadableSegment → Option (ℕ → ℕ)
  copy_segments bytes [] = some bytes
  copy_segments bytes (segm ∷ rest) = do bytes' ← copy_segment bytes segm; copy_segments bytes' rest
