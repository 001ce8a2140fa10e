-- ===== src/Loader/Layout/Laws.antt =====
-- The image as a whole: segments that do not overlap, in pages that have their protection.
use native.Mathlib.Nat.{zero-mod, zero-add}
use rv32isam.Base.{
  ℕ, ◌+◌, ◌*◌, ◌%◌, ◌^◌, ◌≤◌, ◌<◌, ◌≡◌, refl, ap, arith, List, [], ◌∷◌, true, false, Bool-cases,
  inl, inr,
}
use rv32isam.Base.Lists.{length, map, Any, here, there, All, none_left, and_all, All-map}
use rv32isam.Base.Word.{IsU32, add64, u8}
use rv32isam.Elf.{Phdr}
use rv32isam.Loader.{LoadableSegment, PageDescr, add_page, set_page_end}
use rv32isam.Loader.Layout.{Placed, needs_page, segment_offset, patch_entrypoint, place_all, layout}
use rv32isam.Loader.Layout.Offset.{IsPowTwo, Follows, IsPlace, segment_offset-IsPlace}

-- The loadable segments come in the order of their addresses, apart from each other.
pub data Ascending : Phdr → List Phdr → Type 0 where
  last : {prev : Phdr} → Ascending prev []
  then_follows :
      {prev segm : Phdr} {rest : List Phdr}
      → Follows prev segm
      → Ascending segm rest
      → Ascending prev (segm ∷ rest)

-- Segments that lie one after another between two offsets, the last one up to the end.
pub data Packed : ℕ → List LoadableSegment → ℕ → Type 0 where
  full : {from : ℕ} → Packed from [] from
  then_packed :
      {from to : ℕ} {segm : LoadableSegment} {rest : List LoadableSegment}
      → from ≤ segm.mem_offset
      → Packed (segm.mem_offset + segm.phdr.p_memsz) rest to
      → Packed from (segm ∷ rest) to

-- Pages that cover everything between two offsets, each from a multiple of the page size on.
pub data Paged (page_size : ℕ) : ℕ → List PageDescr → ℕ → Type 0 where
  covered : {from : ℕ} → Paged page_size from [] from
  then_paged :
      {page : PageDescr} {rest : List PageDescr} {to : ℕ}
      → page.offset_from_mmap % page_size ≡ 0
      → Paged page_size (page.offset_from_mmap + page.size) rest to
      → Paged page_size page.offset_from_mmap (page ∷ rest) to

-- A segment inside a page that has its flags.
pub record IsIn (segm : LoadableSegment) (page : PageDescr) : Type 0 where
  pub same_flags : page.flags ≡ u8 segm.phdr.p_flags
  pub from : page.offset_from_mmap ≤ segm.mem_offset
  pub to : segm.mem_offset + segm.phdr.p_memsz ≤ page.offset_from_mmap + page.size

abbrev pub InSome : List PageDescr → LoadableSegment → Type 0
InSome pages segm = Any (IsIn segm) pages

abbrev pub IsAlignedSegment : LoadableSegment → Type 0
IsAlignedSegment segm = IsPowTwo segm.phdr.p_align → segm.mem_offset % segm.phdr.p_align ≡ 0

-- What the rounds for `rest` give, from the open page `page` and the offset `next`.
pub record IsLaidOut (page_size : ℕ) (page : PageDescr) (next : ℕ) (rest : List Phdr) (out : Placed)
    : Type 0 where
  pub same_headers : map (λ (s : LoadableSegment). s.phdr) out.segms ≡ rest
  pub packed : Packed next out.segms out.end
  pub paged : Paged page_size page.offset_from_mmap out.pages out.end
  pub in_pages : All (InSome out.pages) out.segms
  pub aligned : All IsAlignedSegment out.segms
  pub bounded : out.end ≤ next + length rest * 2 ^ 34
  -- What lies in the open page before `next` is in one of the pages.
  pub kept :
      (s : LoadableSegment)
      → page.flags ≡ u8 s.phdr.p_flags
      → page.offset_from_mmap ≤ s.mem_offset
      → s.mem_offset + s.phdr.p_memsz ≤ next
      → InSome out.pages s

-- A whole image of the segments with these headers.
pub record IsImage (page_size : ℕ) (headers : List Phdr) (out : Placed) : Type 0 where
  pub same_headers : map (λ (s : LoadableSegment). s.phdr) out.segms ≡ headers
  pub packed : Packed 0 out.segms out.end
  pub paged : Paged page_size 0 out.pages out.end
  pub in_pages : All (InSome out.pages) out.segms
  pub aligned : All IsAlignedSegment out.segms
  pub bounded : out.end < 2 ^ 51

-- The open page before a round.
pub record IsOpen (page_size : ℕ) (page : PageDescr) (next : ℕ) : Type 0 where
  pub byte_flags : page.flags < 256
  pub start : page.offset_from_mmap % page_size ≡ 0
  pub before : page.offset_from_mmap ≤ next

set_page_end-size :
    (page : PageDescr) (end : ℕ)
    → page.offset_from_mmap ≤ end
    → end ≤ 2 ^ 63
    → page.offset_from_mmap + (set_page_end page end).size ≡ end
unfolding set_page_end
set_page_end-size page end h k = omega arith

add_page-lem :
    (offset flags : ℕ)
    → ((add_page offset flags).offset_from_mmap ≡ offset)
      × ((add_page offset flags).flags ≡ u8 flags)
unfolding add_page
add_page-lem offset flags = (refl, refl)

abbrev placed_at : ℕ → Phdr → LoadableSegment
placed_at offset segm = record { mem_offset = offset; phdr = segm }

module _ (page_size : ℕ) (page : PageDescr) (next : ℕ) (segm : Phdr) (offset : ℕ)
    (o : IsOpen page_size page next) (p : IsPlace page_size page next segm offset)
    (low : offset ≤ 2 ^ 63) where
  -- A round that stays on the open page.
  extend_page :
      {rest : List Phdr} {after : Placed}
      → needs_page page segm ≡ false
      → IsLaidOut page_size page (offset + segm.p_memsz) rest after
      → IsU32 segm.p_memsz
      → IsLaidOut page_size page next
          (segm ∷ rest)
          (record after { segms = placed_at offset segm ∷ after.segms })
  extend_page {rest} {after} same ih fits =
      let flags : page.flags ≡ u8 segm.p_flags = ground (arith, same, o.byte_flags) in
      record {
        same_headers = ap (λ (l : List Phdr). segm ∷ l) ih.same_headers;
        packed = then_packed p.not_below ih.packed;
        paged = ih.paged;
        in_pages =
            and_all
              (ih.kept (placed_at offset segm) flags (omega (arith, o.before, p.not_below))
                (omega arith))
              ih.in_pages;
        aligned = and_all p.aligned ih.aligned;
        bounded = omega (arith, ih.bounded, p.near, fits);
        kept = λ s e from to. ih.kept s e from (omega (arith, to, p.not_below));
      }

  -- A round that closes the open page and begins one.
  begin_page :
      {rest : List Phdr} {after : Placed}
      → needs_page page segm ≡ true
      → IsLaidOut page_size (add_page offset segm.p_flags) (offset + segm.p_memsz) rest after
      → IsU32 segm.p_memsz
      → IsLaidOut page_size page next (segm ∷ rest) (record after {
        segms = placed_at offset segm ∷ after.segms;
        pages = set_page_end page offset ∷ after.pages;
      })
  unfolding set_page_end add_page
  begin_page {rest} {after} other ih fits =
      let size = set_page_end-size page offset (omega (arith, o.before, p.not_below)) low in
      record {
        same_headers = ap (λ (l : List Phdr). segm ∷ l) ih.same_headers;
        packed = then_packed p.not_below ih.packed;
        paged = then_paged o.start (rw size ih.paged);
        in_pages =
            and_all (there (ih.kept (placed_at offset segm) refl (omega arith) (omega arith)))
              (All-map (λ s m. there m) ih.in_pages);
        aligned = and_all p.aligned ih.aligned;
        bounded = omega (arith, ih.bounded, p.near, fits);
        kept = λ s e from to.
            here
              (record { same_flags = e; from = from; to = omega (arith, size, to, p.not_below) });
      }

begun :
    (page_size offset end : ℕ) (segm : Phdr)
    → offset % page_size ≡ 0
    → offset ≤ end
    → IsOpen page_size (add_page offset segm.p_flags) end
unfolding add_page
begun page_size offset end segm e h = record { byte_flags = omega arith; start = e; before = h }

module _ (page_size e_entry : ℕ) (pow : IsPowTwo page_size) where
  place_all-IsLaidOut :
      (prev : LoadableSegment) (page : PageDescr) (next entrypoint : ℕ) (rest : List Phdr)
      → Ascending prev.phdr rest
      → IsOpen page_size page next
      → next ≡ prev.mem_offset + prev.phdr.p_memsz
      → next + length rest * 2 ^ 34 ≤ 2 ^ 62
      → IsLaidOut page_size page next rest
          (place_all page_size e_entry prev page next entrypoint rest)
  unfolding place_all set_page_end
  place_all-IsLaidOut prev page next entrypoint [] last o e h =
      let size = set_page_end-size page next o.before (omega arith) in
      record {
        same_headers = refl;
        packed = full;
        paged = then_paged o.start (rw size covered);
        in_pages = none_left;
        aligned = none_left;
        bounded = omega arith;
        kept = λ s e from to.
            here (record { same_flags = e; from = from; to = omega (arith, size, to) });
      }
  place_all-IsLaidOut prev page next entrypoint (segm ∷ rest) (then_follows f asc) o e h =
      let offset = segment_offset page_size prev page next segm in
      let p = segment_offset-IsPlace page_size prev page segm next pow f e (omega arith) in
      let sum : add64 offset segm.p_memsz ≡ offset + segm.p_memsz =
        omega (arith, p.near, f.memsz_fits) in
      let low : offset ≤ 2 ^ 63 = omega (arith, p.near) in
      let room : offset + segm.p_memsz + length rest * 2 ^ 34 ≤ 2 ^ 62 =
        omega (arith, p.near, f.memsz_fits) in
      let entry = patch_entrypoint e_entry entrypoint segm offset in
      let put = placed_at offset segm in
      elim (Bool-cases (needs_page page segm)) [
        | inl other ↦
            let ih =
              place_all-IsLaidOut put (add_page offset segm.p_flags) (offset + segm.p_memsz) entry
                rest asc
                (begun page_size offset (offset + segm.p_memsz) segm (p.page_start other)
                  (omega arith))
                refl room in
            rw (other, sum)
              (begin_page page_size page next segm offset o p low other ih f.memsz_fits)
        | inr same ↦
            let ih =
              place_all-IsLaidOut put page (offset + segm.p_memsz) entry rest asc
                record {
                  byte_flags = o.byte_flags;
                  start = o.start;
                  before = omega (arith, o.before, p.not_below);
                }
                refl room in
            rw (same, sum)
              (extend_page page_size page next segm offset o p low same ih f.memsz_fits)
      ]

  -- For loadable segments in the order of their addresses, fewer than 2 ^ 16 after the first, with
  -- alignments that are powers of two, and for a page size that is one: the image holds the segments
  -- in their order without overlap, each where its alignment asks, up to its end; the pages cover it
  -- from its start to its end, each from a multiple of the page size on; and every segment lies in a
  -- page with its flags.
  pub layout-IsImage :
      (entrypoint : ℕ) (head : Phdr) (rest : List Phdr)
      → Ascending head rest
      → IsU32 head.p_memsz
      → length rest < 2 ^ 16
      → IsImage page_size (head ∷ rest) (layout page_size e_entry entrypoint head rest)
  unfolding layout add_page
  layout-IsImage entrypoint head rest asc fits few =
      let out =
        place_all-IsLaidOut (placed_at 0 head) (add_page 0 head.p_flags) head.p_memsz entrypoint
          rest asc (begun page_size 0 head.p_memsz head (zero-mod page_size) (omega arith))
          (omega arith) (omega arith) in
      let start = (add_page-lem 0 head.p_flags).0 in
      record {
        same_headers = ap (λ (l : List Phdr). head ∷ l) out.same_headers;
        packed = then_packed (omega arith) (rw zero-add out.packed);
        paged = rw start at out.paged;
        in_pages =
            and_all
              (out.kept (placed_at 0 head) (add_page-lem 0 head.p_flags).1 (omega (arith, start))
                (omega arith))
              out.in_pages;
        aligned = and_all (λ q. zero-mod head.p_align) out.aligned;
        bounded = omega (arith, out.bounded);
      }
