-- ===== src/Loader/Image/Laws.antt =====
-- What the image holds after the copying.
use rv32isam.Base.{
  leb, ◌&&◌, ℕ, ◌+◌, ◌-◌, ◌≤◌, ◌<◌, ◌≡◌, refl, ap, ◌∙◌, arith, List, [], ◌∷◌, Option, none, some,
  Bool, true, false, ltb, if◌then◌else◌,
}
use mathlib.Core.Path.{subst}
use rv32isam.Base.Lists.{◌>>=◌, All, none_left, and_all}
use rv32isam.Base.Bytes.{IsByte}
use rv32isam.Loader.{LoadableSegment}
use rv32isam.Loader.Layout.Laws.{Packed, full, then_packed}
use rv32isam.Loader.Image.{memcpy, clear, copy_segment, copy_segments}

-- The file gives at most what the segment takes in memory.
abbrev pub IsFilled : LoadableSegment → Type 0
IsFilled segm = segm.phdr.p_filesz ≤ segm.phdr.p_memsz

-- Byte `j` of a segment: the file's, or 0 beyond what the file gives.
abbrev pub segment_byte : (ℕ → ℕ) → LoadableSegment → ℕ → ℕ
segment_byte file segm j = if ltb j segm.phdr.p_filesz then file (segm.phdr.p_offset + j) else 0

abbrev pub Holds : (ℕ → ℕ) → (ℕ → ℕ) → LoadableSegment → Type 0
Holds file bytes segm =
    (j : ℕ) → j < segm.phdr.p_memsz → bytes (segm.mem_offset + j) ≡ segment_byte file segm j

Packed-end : {from to : ℕ} {l : List LoadableSegment} → Packed from l to → from ≤ to
Packed-end full = omega arith
Packed-end (then_packed h rest) = omega (arith, h, Packed-end rest)

copy_segment-Holds :
    (file bytes : ℕ → ℕ) (size : ℕ) (segm : LoadableSegment)
    → IsFilled segm
    → segm.mem_offset + segm.phdr.p_memsz ≤ size
    → (bytes' : ℕ → ℕ) × (copy_segment file size bytes segm ≡ some bytes')
      × Holds file bytes' segm
      × ((a : ℕ) → a < segm.mem_offset → bytes' a ≡ bytes a)
unfolding copy_segment
copy_segment-Holds file bytes size segm filled h = (
  (if ltb segm.phdr.p_filesz segm.phdr.p_memsz
      then clear (memcpy bytes segm.mem_offset file segm.phdr.p_offset segm.phdr.p_filesz)
          (segm.mem_offset + segm.phdr.p_filesz) (segm.phdr.p_memsz - segm.phdr.p_filesz)
      else memcpy bytes segm.mem_offset file segm.phdr.p_offset segm.phdr.p_filesz),
  ground arith,
  λ j lt.
      written segm.phdr.p_filesz segm.phdr.p_memsz j lt filled
      ∙ ap (λ (t : ℕ). if ltb j segm.phdr.p_filesz then file (segm.phdr.p_offset + t) else 0)
          (omega arith),
  λ a lt. ground arith,
)
  where
    written :
        (fs ms j : ℕ)
        → j < ms
        → fs ≤ ms
        → (if ltb fs ms
              then clear
                  (memcpy bytes segm.mem_offset file segm.phdr.p_offset fs)
                  (segm.mem_offset + fs)
                  (ms - fs)
              else memcpy bytes segm.mem_offset file segm.phdr.p_offset fs)
            (segm.mem_offset + j)
          ≡ (if ltb j fs
              then file (segm.phdr.p_offset + (segm.mem_offset + j - segm.mem_offset))
              else 0)
    written fs ms j lt le = ground arith

-- Copying segments that lie one after another within the image is defined; afterwards each of them
-- holds its bytes, and nothing before the first has changed.
pub copy_segments-Holds :
    (file bytes : ℕ → ℕ) (size : ℕ) {from : ℕ} {segms : List LoadableSegment}
    → Packed from segms size
    → All IsFilled segms
    → (bytes' : ℕ → ℕ) × (copy_segments file size bytes segms ≡ some bytes')
      × All (Holds file bytes') segms
      × ((a : ℕ) → a < from → bytes' a ≡ bytes a)
unfolding copy_segments
copy_segments-Holds file bytes size full none_left = (bytes, refl, none_left, λ a h. refl)
copy_segments-Holds file bytes size (then_packed {segm = segm} h rest) (and_all p filled) =
    let (one, e, holds, below) = copy_segment-Holds file bytes size segm p (Packed-end rest) in
    let (all, f, others, kept) = copy_segments-Holds file one size rest filled in
    (
      all,
      rw (e, f),
      and_all (λ j lt. kept (segm.mem_offset + j) (omega arith) ∙ holds j lt) others,
      λ a lt. kept a (omega arith) ∙ below a (omega arith),
    )

abbrev HasBytes : Option (ℕ → ℕ) → Type 0
HasBytes none = Unit
HasBytes (some bytes) = (a : ℕ) → IsByte (bytes a)

HasBytes-if :
    (b : Bool) (bytes : ℕ → ℕ)
    → ((a : ℕ) → IsByte (bytes a))
    → HasBytes (if b then some bytes else none)
HasBytes-if true bytes h = h
HasBytes-if false bytes h = tt

module _ (file : ℕ → ℕ) (size : ℕ) (all_bytes : (a : ℕ) → IsByte (file a)) where
  copy_segment-HasBytes :
      (bytes : ℕ → ℕ) (segm : LoadableSegment)
      → ((a : ℕ) → IsByte (bytes a))
      → HasBytes (copy_segment file size bytes segm)
  unfolding copy_segment
  copy_segment-HasBytes bytes segm b =
      HasBytes-if
        (leb (segm.mem_offset + segm.phdr.p_filesz) size
          && leb (segm.mem_offset + segm.phdr.p_memsz) size)
        (if ltb segm.phdr.p_filesz segm.phdr.p_memsz
          then clear copied (segm.mem_offset + segm.phdr.p_filesz)
              (segm.phdr.p_memsz - segm.phdr.p_filesz)
          else copied)
        (λ a. ground (arith, all_bytes (segm.phdr.p_offset + (a - segm.mem_offset)), b a))
    where
      copied : ℕ → ℕ
      copied = memcpy bytes segm.mem_offset file segm.phdr.p_offset segm.phdr.p_filesz

  copy_segments-HasBytes :
      (bytes : ℕ → ℕ) (segms : List LoadableSegment)
      → ((a : ℕ) → IsByte (bytes a))
      → HasBytes (copy_segments file size bytes segms)
  unfolding copy_segments
  copy_segments-HasBytes bytes [] b = b
  copy_segments-HasBytes bytes (segm ∷ rest) b =
      then_rest (copy_segment file size bytes segm) (copy_segment-HasBytes bytes segm b)
        (λ bytes' b'. copy_segments-HasBytes bytes' rest b')
    where
      then_rest :
          (o : Option (ℕ → ℕ))
          → HasBytes o
          → ((bytes' : ℕ → ℕ)
              → ((a : ℕ) → IsByte (bytes' a))
              → HasBytes (copy_segments file size bytes' rest))
          → HasBytes (o >>= λ bytes'. copy_segments file size bytes' rest)
      then_rest none h later = tt
      then_rest (some bytes') h later = later bytes' h

  -- Copies of bytes leave bytes.
  pub copy_segments-IsByte :
      (bytes : ℕ → ℕ) (segms : List LoadableSegment) {bytes' : ℕ → ℕ}
      → ((a : ℕ) → IsByte (bytes a))
      → copy_segments file size bytes segms ≡ some bytes'
      → (a : ℕ) → IsByte (bytes' a)
  copy_segments-IsByte bytes segms b e = subst HasBytes e (copy_segments-HasBytes bytes segms b)
