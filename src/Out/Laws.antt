-- ===== src/Out/Laws.antt =====
-- The array against the list of bytes that it stands for.
use rv32isam.Base.{
  ℕ, zero, suc, ◌+◌, ◌%◌, ◌/◌, ◌^◌, ◌≤◌, ◌<◌, ◌≡◌, refl, ◌∙◌, arith, List, [], ◌∷◌, ◌++◌, ltb, true,
  inr,
}
use mathlib.Core.List.{append_assoc}
use rv32isam.Base.Lists.{length, length-append}
use rv32isam.Base.Word.{add32, u8}
use rv32isam.Base.Bytes.{update, store_u32}
use rv32isam.BitMath.PowTwo.{capacity-ge, next_po2_wraps, max_po2-one_eight}
use rv32isam.Out.{Out, copy, grown, out_resv_index, out_write, out_writeb, out_write_u32le}

-- What is in use lies within what is allocated.
pub record IsValid (out : Out) : Type 0 where
  pub within : out.len ≤ out.cap
  pub addressable : out.cap < 2 ^ 32

-- `count` more bytes leave the array at 2 ^ 31 bytes at most.
abbrev pub HasRoom : Out → ℕ → Type 0
HasRoom out count = out.len + count ≤ 2 ^ 31

module _ (z : ℕ) where
  grown-ge :
      (cap required : ℕ)
      → required ≤ 2 ^ 31
      → cap < 2 ^ 32
      → (required ≤ grown z cap required)
        × (grown z cap required < 2 ^ 32)
        × (cap ≤ grown z cap required)
  unfolding grown
  grown-ge cap zero h fits = ground arith
  grown-ge cap (suc r) h fits = ground (arith, capacity-ge z (suc r) (omega arith) h)

  -- Reserving bytes in a valid array with room for them keeps it valid, moves its end by their number,
  -- touches no byte and does not lessen the capacity, whatever `__builtin_clz` gives at 0.
  pub out_resv_index-IsValid :
      (out : Out) (count : ℕ)
      → IsValid out
      → HasRoom out count
      → IsValid (out_resv_index z out count)
        × ((out_resv_index z out count).len ≡ out.len + count)
        × ((out_resv_index z out count).bytes ≡ out.bytes)
        × (out.cap ≤ (out_resv_index z out count).cap)
  unfolding out_resv_index
  out_resv_index-IsValid out count v room =
      let e : add32 out.len count ≡ out.len + count = omega arith in
      rw e (
        let g = grown-ge out.cap (out.len + count) room v.addressable in
        (record { within = g.0; addressable = g.1 }, refl, refl, g.2))

-- The bytes in use.
abbrev pub slice : (ℕ → ℕ) → ℕ → ℕ → List ℕ
slice f a zero = []
slice f a (suc n) = f a ∷ slice f (a + 1) n

abbrev pub contents : Out → List ℕ
contents out = slice out.bytes 0 out.len

pub slice_agree :
    (f g : ℕ → ℕ) (a n : ℕ) → ((j : ℕ) → a ≤ j → j < a + n → f j ≡ g j) → slice f a n ≡ slice g a n
slice_agree f g a zero h = refl
slice_agree f g a (suc n) h =
    rw
      (
        h a (omega arith) (omega arith),
        slice_agree f g (a + 1) n (λ j p q. h j (omega arith) (omega arith)),
      )
      refl

pub slice-add : (f : ℕ → ℕ) (a m n : ℕ) → slice f a (m + n) ≡ slice f a m ++ slice f (a + m) n
slice-add f a zero n = rw (plus_zero a, zero_plus n) refl
  where
    plus_zero : (t : ℕ) → t + 0 ≡ t
    plus_zero t = omega arith

    zero_plus : (t : ℕ) → 0 + t ≡ t
    zero_plus t = omega arith
slice-add f a (suc m) n = rw (shift, slice-add f (a + 1) m n, step) refl
  where
    shift : suc m + n ≡ suc (m + n)
    shift = omega arith

    step : a + 1 + m ≡ a + suc m
    step = omega arith

pub copy-below : (f : ℕ → ℕ) (a : ℕ) (l : List ℕ) (j : ℕ) → j < a → copy f a l j ≡ f j
copy-below f a [] j h = refl
copy-below f a (b ∷ rest) j h = copy-below (update f a b) (a + 1) rest j (omega arith) ∙ other
  where
    other : update f a b j ≡ f j
    other = ground arith

pub slice-copy : (f : ℕ → ℕ) (a : ℕ) (l : List ℕ) → slice (copy f a l) a (length l) ≡ l
slice-copy f a [] = refl
slice-copy f a (b ∷ rest) =
    rw
      (
        copy-below (update f a b) (a + 1) rest a (omega arith),
        written,
        slice-copy (update f a b) (a + 1) rest,
      )
      refl
  where
    written : update f a b a ≡ b
    written = ground arith

-- Putting a list at the end.
slice-copy_end :
    (f : ℕ → ℕ) (n : ℕ) (l : List ℕ) → slice (copy f n l) 0 (n + length l) ≡ slice f 0 n ++ l
slice-copy_end f n l =
    rw
      (
        slice-add (copy f n l) 0 n (length l),
        zero_plus,
        slice-copy f n l,
        slice_agree (copy f n l) f 0 n (λ j p q. copy-below f n l j (omega arith)),
      )
      refl
  where
    zero_plus : 0 + n ≡ n
    zero_plus = omega arith

-- The bytes of a word, lowest first.
abbrev pub word_bytes : ℕ → List ℕ
word_bytes v = v % 2 ^ 8 ∷ v / 2 ^ 8 % 2 ^ 8 ∷ v / 2 ^ 16 % 2 ^ 8 ∷ v / 2 ^ 24 % 2 ^ 8 ∷ []

pub store_u32-copy : (f : ℕ → ℕ) (a v : ℕ) → store_u32 f a v ≡ copy f a (word_bytes v)
store_u32-copy f a v = rw (two, three) refl
  where
    two : a + 1 + 1 ≡ a + 2
    two = omega arith

    three : a + 2 + 1 ≡ a + 3
    three = omega arith

module _ (z : ℕ) where
  pub record Appends (out : Out) (l : List ℕ) (out' : Out) : Type 0 where
    pub valid : IsValid out'
    pub new_len : out'.len ≡ out.len + length l
    pub new_contents : contents out' ≡ contents out ++ l

  -- Writing bytes to a valid array with room for them puts them after those that it held, moves its end
  -- by their number and keeps it valid.
  pub out_write-Appends :
      (out : Out) (src : List ℕ)
      → IsValid out
      → HasRoom out (length src)
      → Appends out src (out_write z out src)
  unfolding out_write
  out_write-Appends out src v room =
      let r = out_resv_index-IsValid z out (length src) v room in
      record {
        valid = record { within = r.0.within; addressable = r.0.addressable };
        new_len = r.1;
        new_contents = rw (r.1, r.2) (slice-copy_end out.bytes out.len src);
      }

  pub out_writeb-Appends :
      (out : Out) (byte : ℕ)
      → IsValid out
      → HasRoom out 1
      → Appends out (u8 byte ∷ []) (out_writeb z out byte)
  unfolding out_write out_writeb
  out_writeb-Appends out byte v room = out_write-Appends out (u8 byte ∷ []) v room

  -- The same for the word stored after a reservation.
  pub out_write_u32le-store :
      (out : Out) (val : ℕ)
      → IsValid out
      → HasRoom out 4
      → Appends out (word_bytes val) (record (out_resv_index z out 4) {
        bytes = store_u32 (out_resv_index z out 4).bytes out.len val;
      })
  unfolding out_write
  out_write_u32le-store out val v room =
      rw (store_u32-copy (out_resv_index z out 4).bytes out.len val)
        (out_write-Appends out (word_bytes val) v room)

  pub out_write_u32le-Appends :
      (out : Out) (val : ℕ)
      → IsValid out
      → HasRoom out 4
      → Appends out (word_bytes val) (out_write_u32le z out val)
  unfolding out_write_u32le
  out_write_u32le-Appends out val v room = out_write_u32le-store out val v room

  pub Appends-trans :
      {out out' out'' : Out} {l m : List ℕ}
      → Appends out l out'
      → Appends out' m out''
      → Appends out (l ++ m) out''
  Appends-trans {out} {out'} {out''} {l} {m} p q = record {
    valid = q.valid;
    new_len = omega (arith, p.new_len, q.new_len, length-append l m);
    new_contents = rw (q.new_contents, p.new_contents) (append_assoc (contents out) l m);
  }

  -- Where an array has to grow beyond 2 ^ 31 bytes, and to less than 2 ^ 32, reserving leaves it with a
  -- capacity of 8 and a length that is the sum.
  pub out_resv_index_shrinks :
      (out : Out) (count : ℕ)
      → out.cap < out.len + count
      → 2 ^ 31 < out.len + count
      → out.len + count < 2 ^ 32
      → (out_resv_index z out count).cap ≡ 8 × ((out_resv_index z out count).len ≡ out.len + count)
  unfolding out_resv_index grown
  out_resv_index_shrinks out count small big fits =
      let e : add32 out.len count ≡ out.len + count = omega arith in
      let t : ltb out.cap (out.len + count) ≡ true = ground arith in
      rw (e, t, next_po2_wraps z (out.len + count) fits (inr big)) (max_po2-one_eight z, refl)
