-- ===== src/Loader/Host/Protection.antt =====
-- The protection of the image's bytes once all pages are protected.
use Prim.Native.Nat.{bit_and}
use rv32isam.Base.{
  ℕ, ◌+◌, ◌<◌, ◌≡◌, refl, ◌∙◌, ap, arith, List, [], ◌∷◌, Bool, true, false, not, ◌==◌,
  if◌then◌else◌,
}
use rv32isam.Base.Lists.{Any, here, there}
use rv32isam.Base.Word.{u8}
use rv32isam.Elf.{pf_x, pf_w, pf_r}
use rv32isam.Loader.{LoadableSegment, PageDescr}
use rv32isam.Loader.Layout.Laws.{Paged, covered, then_paged, IsIn}
use rv32isam.Loader.Host.{
  Host, hasflag, page_prot, prot_at, can_read, can_write, covers, protect_pages,
}

pub protect_pages_zero :
    (host : Host) (memory : ℕ) (pages : List PageDescr)
    → ((address size prot : ℕ) → host.mprotect address size prot ≡ 0)
    → protect_pages host memory pages ≡ 0
unfolding protect_pages
protect_pages_zero host memory [] h = refl
protect_pages_zero host memory (page ∷ rest) h =
    let e = h (memory + page.offset_from_mmap) page.size (page_prot page) in
    rw (e, protect_pages_zero host memory rest h)

can_write_sum :
    (r w x : Bool)
    → can_write ((if r then 1 else 0) + (if w then 2 else 0) + (if x then 4 else 0)) ≡ w
can_write_sum true true true = refl
can_write_sum true true false = refl
can_write_sum true false true = refl
can_write_sum true false false = refl
can_write_sum false true true = refl
can_write_sum false true false = refl
can_write_sum false false true = refl
can_write_sum false false false = refl

can_read_sum :
    (r w x : Bool)
    → can_read ((if r then 1 else 0) + (if w then 2 else 0) + (if x then 4 else 0)) ≡ r
can_read_sum true true true = refl
can_read_sum true true false = refl
can_read_sum true false true = refl
can_read_sum true false false = refl
can_read_sum false true true = refl
can_read_sum false true false = refl
can_read_sum false false true = refl
can_read_sum false false false = refl

page_prot-can_read : (page : PageDescr) → can_read (page_prot page) ≡ hasflag page pf_r
unfolding page_prot
page_prot-can_read page = can_read_sum (hasflag page pf_r) (hasflag page pf_w) (hasflag page pf_x)

page_prot-can_write : (page : PageDescr) → can_write (page_prot page) ≡ hasflag page pf_w
unfolding page_prot
page_prot-can_write page = can_write_sum (hasflag page pf_r) (hasflag page pf_w) (hasflag page pf_x)

-- Pages that begin beyond a byte do not change its protection.
prot_at-before :
    {page_size from to : ℕ} {pages : List PageDescr} (prot a : ℕ)
    → Paged page_size from pages to
    → a < from
    → prot_at prot pages a ≡ prot
unfolding prot_at
prot_at-before prot a covered h = refl
prot_at-before prot a (then_paged {page = page} start rest) h =
    let e : covers page a ≡ false = ground arith in rw e (prot_at-before prot a rest (omega arith))

-- A byte of a segment has the protection of a page with the segment's flags.
prot_at-InSome :
    {page_size from to : ℕ} {pages : List PageDescr} (prot : ℕ) (segm : LoadableSegment) (j : ℕ)
    → Paged page_size from pages to
    → Any (IsIn segm) pages
    → j < segm.phdr.p_memsz
    → (page : PageDescr) × (prot_at prot pages (segm.mem_offset + j) ≡ page_prot page)
      × (page.flags ≡ u8 segm.phdr.p_flags)
unfolding prot_at
prot_at-InSome prot segm j covered m h = elim m [ ]
prot_at-InSome prot segm j (then_paged {page = page} start rest) (here p) h =
    let e : covers page (segm.mem_offset + j) ≡ true = ground (arith, p.from, p.to) in
    (
      page,
      rw (e, prot_at-before (page_prot page) (segm.mem_offset + j) rest (omega (arith, p.to))) refl,
      p.same_flags,
    )
prot_at-InSome prot segm j (then_paged {page = page} start rest) (there m) h =
    prot_at-InSome _ segm j rest m h

-- It can be read, and written to, just if the segment's flags say so.
pub can_read-InSome :
    {page_size from to : ℕ} {pages : List PageDescr} (prot : ℕ) (segm : LoadableSegment) (j : ℕ)
    → Paged page_size from pages to
    → Any (IsIn segm) pages
    → j < segm.phdr.p_memsz
    → can_read (prot_at prot pages (segm.mem_offset + j))
      ≡ not (bit_and (u8 segm.phdr.p_flags) pf_r == 0)
can_read-InSome prot segm j paged m h =
    let (page, e, flags) = prot_at-InSome prot segm j paged m h in
    ap can_read e ∙ page_prot-can_read page ∙ ap (λ (f : ℕ). not (bit_and f pf_r == 0)) flags

pub can_write-InSome :
    {page_size from to : ℕ} {pages : List PageDescr} (prot : ℕ) (segm : LoadableSegment) (j : ℕ)
    → Paged page_size from pages to
    → Any (IsIn segm) pages
    → j < segm.phdr.p_memsz
    → can_write (prot_at prot pages (segm.mem_offset + j))
      ≡ not (bit_and (u8 segm.phdr.p_flags) pf_w == 0)
can_write-InSome prot segm j paged m h =
    let (page, e, flags) = prot_at-InSome prot segm j paged m h in
    ap can_write e ∙ page_prot-can_write page ∙ ap (λ (f : ℕ). not (bit_and f pf_w == 0)) flags
