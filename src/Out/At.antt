-- ===== src/Out/At.antt =====
-- The bytes of a list by their place, and the bytes of an array by the list it holds.
use rv32isam.Base.{
  ℕ, zero, suc, ◌+◌, ◌%◌, ◌^◌, ◌≤◌, ◌<◌, ◌≡◌, refl, sym, ◌∙◌, ap, arith, List, [], ◌∷◌, ◌++◌, inl,
  inr, ◌⊎◌,
}
use mathlib.Core.Path.{subst}
use rv32isam.Base.Lists.{length, length-append}
use rv32isam.Base.Bytes.{load_u32, store_u32}
use rv32isam.Out.{Out}
use rv32isam.Out.Laws.{slice, slice-add, slice-copy, store_u32-copy, word_bytes, contents}

-- Byte `j` of a list, and 0 beyond its end.
abbrev pub at : List ℕ → ℕ → ℕ
at [] j = 0
at (b ∷ l) zero = b
at (b ∷ l) (suc j) = at l j

pub at-append : (l m : List ℕ) (j : ℕ) → j < length l → at (l ++ m) j ≡ at l j
at-append [] m j h = absurd (omega arith)
at-append (b ∷ l) m zero h = refl
at-append (b ∷ l) m (suc j) h = at-append l m j (omega arith)

pub length-slice : (f : ℕ → ℕ) (a n : ℕ) → length (slice f a n) ≡ n
length-slice f a zero = refl
length-slice f a (suc n) = omega (arith, length-slice f (a + 1) n)

pub at-slice : (f : ℕ → ℕ) (a n j : ℕ) → j < n → at (slice f a n) j ≡ f (a + j)
at-slice f a zero j h = absurd (omega arith)
at-slice f a (suc n) zero h = ap f (omega arith)
at-slice f a (suc n) (suc j) h = at-slice f (a + 1) n j (omega arith) ∙ ap f (omega arith)

pub at-from : (l m : List ℕ) (j : ℕ) → at (l ++ m) (length l + j) ≡ at m j
at-from [] m j = ap (at m) (omega arith)
at-from (b ∷ l) m j = ap (at ((b ∷ l) ++ m)) shift ∙ at-from l m j
  where
    shift : suc (length l) + j ≡ suc (length l + j)
    shift = omega arith

-- Bytes that are those of a list.
pub slice-at :
    (f : ℕ → ℕ) (a : ℕ) (l : List ℕ)
    → ((j : ℕ) → j < length l → f (a + j) ≡ at l j)
    → slice f a (length l) ≡ l
slice-at f a [] h = refl
slice-at f a (b ∷ l) h =
    rw (first, slice-at f (a + 1) l (λ j lt. ap f (omega arith) ∙ h (suc j) (omega (arith, lt))))
      refl
  where
    first : f a ≡ b
    first = ap f (omega arith) ∙ h 0 (omega arith)

store_u32-other : (f : ℕ → ℕ) (a v b : ℕ) → (b < a) ⊎ (a + 4 ≤ b) → store_u32 f a v b ≡ f b
store_u32-other f a v b h = ground (arith, h)

-- An array that holds a word after `l` and before `m`.
module _ (out : Out) (l : List ℕ) (w : ℕ) (m : List ℕ)
    (held : contents out ≡ l ++ (word_bytes w ++ m)) where
  held-len : out.len ≡ length l + (4 + length m)
  held-len =
      omega (
        arith,
        ap length held,
        length-slice out.bytes 0 out.len,
        length-append l (word_bytes w ++ m),
      )

  held-at : (j : ℕ) → j < out.len → out.bytes j ≡ at (l ++ (word_bytes w ++ m)) j
  held-at j lt =
      ap out.bytes (omega arith)
      ∙ sym (at-slice out.bytes 0 out.len j lt)
      ∙ ap (λ (bs : List ℕ). at bs j) held

  held-word : (j : ℕ) → j < 4 → out.bytes (length l + j) ≡ at (word_bytes w ++ m) j
  held-word j lt =
      held-at (length l + j) (omega (arith, held-len)) ∙ at-from l (word_bytes w ++ m) j

  -- The word that is loaded from there.
  pub load_u32-held : load_u32 out.bytes (length l) ≡ w % 2 ^ 32
  load_u32-held =
      rw (first, held-word 1 (omega arith), held-word 2 (omega arith), held-word 3 (omega arith))
        (omega arith)
    where
      first : out.bytes (length l) ≡ w % 2 ^ 8
      first = ap out.bytes (omega arith) ∙ held-word 0 (omega arith)

  -- What the array holds when another word is stored there.
  pub store_u32-held :
      (v : ℕ) → slice (store_u32 out.bytes (length l) v) 0 out.len ≡ l ++ (word_bytes v ++ m)
  store_u32-held v =
      ap (slice stored 0) held-len
      ∙ slice-add stored 0 n (4 + length m)
      ∙ ap (λ (t : ℕ). slice stored 0 n ++ slice stored t (4 + length m)) zero_plus
      ∙ ap (λ (bs : List ℕ). slice stored 0 n ++ bs) (slice-add stored n 4 (length m))
      ∙ ap (λ (bs : List ℕ). bs ++ (slice stored n 4 ++ slice stored (n + 4) (length m))) before
      ∙ ap (λ (bs : List ℕ). l ++ (bs ++ slice stored (n + 4) (length m))) word
      ∙ ap (λ (bs : List ℕ). l ++ (word_bytes v ++ bs)) after
    where
      n : ℕ
      n = length l

      stored : ℕ → ℕ
      stored = store_u32 out.bytes (length l) v

      zero_plus : 0 + n ≡ n
      zero_plus = omega arith

      before : slice stored 0 n ≡ l
      before = slice-at stored 0 l (λ j lt.
          store_u32-other out.bytes n v (0 + j) (inl (omega arith))
          ∙ ap out.bytes (omega arith)
          ∙ held-at j (omega (arith, held-len, lt))
          ∙ at-append l (word_bytes w ++ m) j lt)

      word : slice stored n 4 ≡ word_bytes v
      word =
          subst (λ (g : ℕ → ℕ). slice g n 4 ≡ word_bytes v) (sym (store_u32-copy out.bytes n v))
            (slice-copy out.bytes n (word_bytes v))

      after : slice stored (n + 4) (length m) ≡ m
      after = slice-at stored (n + 4) m (λ j lt.
          store_u32-other out.bytes n v (n + 4 + j) (inr (omega arith))
          ∙ ap out.bytes (omega arith)
          ∙ held-at (n + suc (suc (suc (suc j)))) (omega (arith, held-len, lt))
          ∙ at-from l (word_bytes w ++ m) (suc (suc (suc (suc j)))))
