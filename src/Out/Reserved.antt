-- ===== src/Out/Reserved.antt =====
-- Arrays that begin with bytes reserved for headers, which are stored later than what follows them.
use rv32isam.Base.{
  ℕ, ◌+◌, ◌≤◌, ◌<◌, ◌≡◌, refl, ◌∙◌, ap, arith, List, [], ◌∷◌, ◌++◌, ◌^◌, ltb, true, Bool-cases, inl,
  inr,
}
use rv32isam.Base.Lists.{length, length-append}
use rv32isam.Base.Bytes.{update}
use rv32isam.Base.Word.{add32}
use rv32isam.BitMath.PowTwo.{capacity-power}
use rv32isam.Out.{Out, copy, grown, out_resv_index, out_write}
use rv32isam.Out.Laws.{
  IsValid, HasRoom, slice, contents, slice_agree, slice-add, slice-copy, copy-below,
  out_resv_index-IsValid, out_write-Appends,
}

copy-above : (f : ℕ → ℕ) (a : ℕ) (l : List ℕ) (j : ℕ) → a + length l ≤ j → copy f a l j ≡ f j
copy-above f a [] j h = refl
copy-above f a (b ∷ rest) j h = copy-above (update f a b) (a + 1) rest j (omega arith) ∙ other
  where
    other : update f a b j ≡ f j
    other = ground arith

-- Copies keep two functions the same where they were.
copy-agree : (f g : ℕ → ℕ) (a : ℕ) (l : List ℕ) (j : ℕ) → f j ≡ g j → copy f a l j ≡ copy g a l j
copy-agree f g a [] j e = e
copy-agree f g a (b ∷ rest) j e = copy-agree (update f a b) (update g a b) (a + 1) rest j both
  where
    both : update f a b j ≡ update g a b j
    both = ground (arith, e)

-- A list put after `n` bytes.
slice-copy_after :
    (f : ℕ → ℕ) (a n : ℕ) (l : List ℕ)
    → slice (copy f (a + n) l) a (n + length l) ≡ slice f a n ++ l
slice-copy_after f a n l =
    rw
      (
        slice-add (copy f (a + n) l) a n (length l),
        slice-copy f (a + n) l,
        slice_agree (copy f (a + n) l) f a n (λ j p q. copy-below f (a + n) l j (omega arith)),
      )
      refl

-- A capacity that is a power of two.
pub record HasPower (out : Out) : Type 0 where
  pub exponent : ℕ
  pub value : out.cap ≡ 2 ^ exponent

-- Where an array has to grow, its new capacity is one.
pub first-HasPower :
    (z : ℕ) (out : Out) (count : ℕ)
    → HasRoom out count
    → out.cap < out.len + count
    → HasPower (out_resv_index z out count)
unfolding out_resv_index grown
first-HasPower z out count room grows =
    let sum : add32 out.len count ≡ out.len + count = omega arith in
    let more : ltb out.cap (out.len + count) ≡ true = ground (arith, grows) in
    let (k, e) = capacity-power z (out.len + count) in
    record { exponent = k; value = rw (sum, more) e }

pub out_resv_index-HasPower :
    (z : ℕ) (out : Out) (count : ℕ)
    → IsValid out
    → HasRoom out count
    → HasPower out
    → HasPower (out_resv_index z out count)
unfolding out_resv_index grown
out_resv_index-HasPower z out count valid room power =
    elim (Bool-cases (ltb out.cap (out.len + count))) [
      | inl e ↦ first-HasPower z out count room (ground (arith, e))
      | inr e ↦
          let sum : add32 out.len count ≡ out.len + count = omega arith in
          record { exponent = power.exponent; value = rw (sum, e) power.value }
    ]

module _ (end : ℕ) where
  -- An array whose bytes below `end` are what a function tells, and whose other bytes are those of a
  -- list.
  pub record Split (out : Out) (header : ℕ → ℕ) (body : List ℕ) : Type 0 where
    pub valid : IsValid out
    pub capacity : HasPower out
    pub size : out.len ≡ end + length body
    pub headers : (j : ℕ) → j < end → out.bytes j ≡ header j
    pub rest : slice out.bytes end (length body) ≡ body

  pub reserved-Split :
      {out : Out} → IsValid out → HasPower out → out.len ≡ end → Split out out.bytes []
  reserved-Split valid power e = record {
    valid = valid;
    capacity = power;
    size = omega (arith, e);
    headers = λ j lt. refl;
    rest = refl;
  }

  pub store-Split :
      {out : Out} {header : ℕ → ℕ} {body : List ℕ} (a : ℕ) (l : List ℕ)
      → Split out header body
      → a + length l ≤ end
      → Split (record out { bytes = copy out.bytes a l }) (copy header a l) body
  store-Split {out} {header} {body} a l s h = record {
    valid = record { within = s.valid.within; addressable = s.valid.addressable };
    capacity = record { exponent = s.capacity.exponent; value = s.capacity.value };
    size = s.size;
    headers = λ j lt. copy-agree out.bytes header a l j (s.headers j lt);
    rest =
        slice_agree (copy out.bytes a l) out.bytes end (length body)
          (λ j from to. copy-above out.bytes a l j (omega (arith, from, h)))
        ∙ s.rest;
  }

  pub append-Split :
      (z : ℕ) {out : Out} {header : ℕ → ℕ} {body : List ℕ} (l : List ℕ)
      → Split out header body
      → HasRoom out (length l)
      → Split (out_write z out l) header (body ++ l)
  unfolding out_write
  append-Split z {out} {header} {body} l s room =
      let r = out_resv_index-IsValid z out (length l) s.valid room in
      record {
        valid = (out_write-Appends z out l s.valid room).valid;
        capacity =
            let power = out_resv_index-HasPower z out (length l) s.valid room s.capacity in
            record { exponent = power.exponent; value = power.value };
        size = omega (arith, r.1, s.size, length-append body l);
        headers = λ j lt.
            rw (r.2) (copy-below out.bytes out.len l j (omega (arith, s.size)) ∙ s.headers j lt);
        rest =
            rw (length-append body l, r.2, s.size, slice-copy_after out.bytes end (length body) l)
              (ap (λ (t : List ℕ). t ++ l) s.rest);
      }

  -- The whole array.
  pub contents-Split :
      {out : Out} {header : ℕ → ℕ} {body : List ℕ}
      → Split out header body
      → contents out ≡ slice header 0 end ++ body
  contents-Split {out} {header} {body} s =
      rw (s.size, slice-add out.bytes 0 end (length body), zero_plus)
        (rw (s.rest, slice_agree out.bytes header 0 end (λ j from to. s.headers j (omega arith)))
          refl)
    where
      zero_plus : 0 + end ≡ end
      zero_plus = omega arith
