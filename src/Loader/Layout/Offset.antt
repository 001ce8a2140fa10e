-- ===== src/Loader/Layout/Offset.antt =====
-- Where one segment goes, after the one before it.
use native.Mathlib.Nat.{div-mul-le_self, lt-div-mul-add, mul-mod_left, div-add-mod, mul_assoc}
use native.Mathlib.Decide.{dec_lt}
use rv32isam.Base.{
  ℕ, ◌+◌, ◌-◌, ◌*◌, ◌/◌, ◌%◌, ◌^◌, ◌≤◌, ◌<◌, ◌≡◌, ap, ◌∙◌, arith, true, false, Bool-cases, inl, inr,
  ◌⊎◌, leb,
}
use rv32isam.Base.Word.{IsU32}
use rv32isam.Base.Masks.{two_pow_add, two_pow_pos, two_pow_lt}
use rv32isam.BitMath.{align_upwards64}
use rv32isam.BitMath.Align.{align_upwards64-IsRoundUp}
use rv32isam.Elf.{Phdr}
use rv32isam.Loader.{LoadableSegment, PageDescr}
use rv32isam.Loader.Layout.{gap_offset, aligned_offset, needs_page, segment_offset}

-- A power of two that a `u32` holds.
pub record IsPowTwo (n : ℕ) : Type 0 where
  pub exponent : ℕ
  pub small : exponent < 32
  pub value : n ≡ 2 ^ exponent

-- What `align_upwards64` gives for such an alignment, far from 2 ^ 64.
pub record IsAligned (val m r : ℕ) : Type 0 where
  pub multiple : r % m ≡ 0
  pub not_below : val ≤ r
  pub near : r ≤ val + m

pub align-IsAligned :
    (val : ℕ) {m : ℕ} → IsPowTwo m → val ≤ 2 ^ 63 → IsAligned val m (align_upwards64 val m)
align-IsAligned val p h =
    let k = p.exponent in
    let pos = two_pow_pos k in
    let up =
      align_upwards64-IsRoundUp val k (omega (arith, p.small))
        (omega (arith, two_pow_lt k 32 p.small, pos, h)) in
    let next = succ_mul (val / 2 ^ k) (2 ^ k) in
    rw p.value record {
      multiple = up.multiple;
      not_below = up.not_below;
      near = omega (
        arith,
        up.least (val / 2 ^ k + 1) (omega (arith, next, lt-div-mul-add {a = val} pos)),
        next,
        div-mul-le_self val (2 ^ k),
      );
    }
  where
    succ_mul : (q m : ℕ) → (q + 1) * m ≡ q * m + m
    succ_mul q m = grind arith

multiple_of : (r c b : ℕ) → r % (c * b) ≡ 0 → r % b ≡ 0
multiple_of r c b h = ap (λ (t : ℕ). t % b) split ∙ mul-mod_left (r / (c * b) * c) b
  where
    split : r ≡ r / (c * b) * c * b
    split = omega (arith, div-add-mod r (c * b), h, mul_assoc (r / (c * b)) c b)

pub multiple-two_pow : (r j k : ℕ) → j ≤ k → r % 2 ^ k ≡ 0 → r % 2 ^ j ≡ 0
multiple-two_pow r j k h e =
    multiple_of r (2 ^ (k - j)) (2 ^ j) (rw (← two_pow_add (k - j) j, same) e)
  where
    same : k - j + j ≡ k
    same = omega arith

-- Rounding up keeps a multiple of a power of two one.
pub align-keeps :
    (val : ℕ) {m n : ℕ}
    → IsPowTwo m
    → IsPowTwo n
    → val ≤ 2 ^ 63
    → val % n ≡ 0
    → align_upwards64 val m % n ≡ 0
align-keeps val p q h e = elim (dec_lt p.exponent q.exponent) [
  | yes lt ↦
      let k = p.exponent in
      let up =
        align_upwards64-IsRoundUp val k (omega (arith, p.small))
          (omega (arith, two_pow_lt k 32 p.small, two_pow_pos k, h)) in
      let exact : val ≡ val / 2 ^ k * 2 ^ k = omega (
        arith,
        div-add-mod val (2 ^ k),
        multiple-two_pow val k q.exponent (omega arith) (rw (← q.value) e),
      ) in
      let same : align_upwards64 val (2 ^ k) ≡ val =
        omega (arith, up.not_below, up.least (val / 2 ^ k) (omega (arith, exact)), exact) in
      rw (p.value, same) e
  | no ge ↦ rw q.value (
      multiple-two_pow _ q.exponent p.exponent (omega arith)
        (rw (← p.value) (align-IsAligned val p h).multiple))
]

-- An alignment request: none, or a power of two.
abbrev pub IsRequest : ℕ → Type 0
IsRequest p_align = (p_align < 2) ⊎ IsPowTwo p_align

-- `segm` begins, in the program's addresses, where `prev` ends or later.
pub record Follows (prev segm : Phdr) : Type 0 where
  pub after : prev.p_vaddr + prev.p_memsz ≤ segm.p_vaddr
  pub vaddr_fits : IsU32 segm.p_vaddr
  pub memsz_fits : IsU32 segm.p_memsz
  pub align_request : IsRequest segm.p_align

-- The place found is at or after the end of the last segment, and near it.
pub record IsPlace (page_size : ℕ) (page : PageDescr) (next : ℕ) (segm : Phdr) (offset : ℕ)
    : Type 0 where
  pub not_below : next ≤ offset
  pub near : offset ≤ next + 3 * 2 ^ 32
  pub aligned : IsPowTwo segm.p_align → offset % segm.p_align ≡ 0
  pub page_start : needs_page page segm ≡ true → offset % page_size ≡ 0

gap_offset-near :
    (prev : LoadableSegment) (segm : Phdr) (next : ℕ)
    → Follows prev.phdr segm
    → next ≡ prev.mem_offset + prev.phdr.p_memsz
    → next ≤ 2 ^ 62
    → (next ≤ gap_offset prev next segm) × (gap_offset prev next segm ≤ next + 2 ^ 32)
unfolding gap_offset
gap_offset-near prev segm next f e h = ground (arith, f.after, f.vaddr_fits, f.memsz_fits)

aligned_offset-near :
    (segm : Phdr) (offset : ℕ)
    → IsRequest segm.p_align
    → offset ≤ 2 ^ 63
    → (offset ≤ aligned_offset offset segm)
      × (aligned_offset offset segm ≤ offset + 2 ^ 32)
      × (IsPowTwo segm.p_align → aligned_offset offset segm % segm.p_align ≡ 0)
unfolding aligned_offset
aligned_offset-near segm offset (inl small) h =
    let e : leb 2 segm.p_align ≡ false = ground arith in
    rw e (
      omega arith,
      omega arith,
      λ p.
          let one : segm.p_align ≡ 1 = omega (arith, p.value, two_pow_pos p.exponent) in
          rw one (omega arith),
    )
aligned_offset-near segm offset (inr p) h = elim (Bool-cases (leb 2 segm.p_align)) [
  | inl e ↦
      let a = align-IsAligned offset p h in
      rw e (
        a.not_below,
        omega (arith, a.near, p.value, two_pow_lt p.exponent 32 p.small),
        λ q. a.multiple,
      )
  | inr e ↦
      let small : segm.p_align < 2 = ground (arith, e) in
      let one : segm.p_align ≡ 1 = omega (arith, p.value, two_pow_pos p.exponent) in
      rw (e, one) (omega arith, omega arith, λ q. omega arith)
]

pub segment_offset-IsPlace :
    (page_size : ℕ) (prev : LoadableSegment) (page : PageDescr) (segm : Phdr) (next : ℕ)
    → IsPowTwo page_size
    → Follows prev.phdr segm
    → next ≡ prev.mem_offset + prev.phdr.p_memsz
    → next ≤ 2 ^ 62
    → IsPlace page_size page next segm (segment_offset page_size prev page next segm)
unfolding segment_offset
segment_offset-IsPlace page_size prev page segm next pow f e h =
    let g = gap_offset-near prev segm next f e h in
    let a =
      aligned_offset-near segm (gap_offset prev next segm) f.align_request (omega (arith, g.1)) in
    elim (Bool-cases (needs_page page segm)) [
      | inl other ↦
          let low : aligned_offset (gap_offset prev next segm) segm ≤ 2 ^ 63 =
            omega (arith, g.1, a.1) in
          let p = align-IsAligned (aligned_offset (gap_offset prev next segm) segm) pow low in
          rw other record {
            not_below = omega (arith, g.0, a.0, p.not_below);
            near = omega (arith, g.1, a.1, p.near, pow.value, two_pow_lt pow.exponent 32 pow.small);
            aligned = λ q. align-keeps _ pow q low (a.2 q);
            page_start = λ t. p.multiple;
          }
      | inr same ↦ rw same record {
        not_below = omega (arith, g.0, a.0);
        near = omega (arith, g.1, a.1);
        aligned = a.2;
        page_start = λ t. absurd (ground (arith, same, t));
      }
    ]
