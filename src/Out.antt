-- ===== src/Out.antt =====
-- bfc/out.h and bfc/out.c: a growing array of bytes.
pub mod Laws
pub mod At
pub mod Reserved
use rv32isam.Base.{ℕ, ◌+◌, List, [], ◌∷◌, ltb, if◌then◌else◌}
use rv32isam.Base.Lists.{length}
use rv32isam.Base.Word.{add32, u8}
use rv32isam.Base.Bytes.{update, store_u32}
use rv32isam.BitMath.{next_po2, max_po2}

-- `bytes` goes by offsets. What lies at and beyond `cap` is what the memory that `realloc` will give
-- happens to hold: any function may stand there, and `realloc` keeps the bytes below `cap`. That
-- it has memory to give is taken for granted, as the code does.
pub record Out : Type 0 where
  pub bytes : ℕ → ℕ
  pub len : ℕ
  pub cap : ℕ

-- `struct out x = {0}`, over such a memory.
abbrev pub empty : (ℕ → ℕ) → Out
empty memory = record { bytes = memory; len = 0; cap = 0 }

-- A memory copy of a list of bytes.
abbrev pub copy : (ℕ → ℕ) → ℕ → List ℕ → ℕ → ℕ
copy f a [] = f
copy f a (b ∷ rest) = copy (update f a b) (a + 1) rest

module _ (clz_of_zero : ℕ) where
  -- The capacity after the test of `out_resv`.
  unfoldable pub grown : ℕ → ℕ → ℕ
  grown cap required_cap =
      if ltb cap required_cap
      then max_po2 clz_of_zero (next_po2 clz_of_zero required_cap) 8
      else cap

  -- The address returned is the offset of the old end.
  unfoldable pub out_resv_index : Out → ℕ → Out
  out_resv_index out count = record out {
    len = add32 out.len count;
    cap = grown out.cap (add32 out.len count);
  }

  unfoldable pub out_write : Out → List ℕ → Out
  out_write out src =
      let out' = out_resv_index out (length src) in
      record out' { bytes = copy out'.bytes out.len src }

  pub out_writeb : Out → ℕ → Out
  out_writeb out byte =
      let out' = out_resv_index out 1 in record out' { bytes = update out'.bytes out.len (u8 byte) }

  pub out_write_u32le : Out → ℕ → Out
  out_write_u32le out val =
      let out' = out_resv_index out 4 in record out' { bytes = store_u32 out'.bytes out.len val }

  -- The characters up to the terminating 0, which is not written.
  pub out_write_cstr : Out → List ℕ → Out
  out_write_cstr out [] = out
  out_write_cstr out (c ∷ cstr) = out_write_cstr (out_writeb out c) cstr

  -- The offset at which the bytes were put, and the array.
  unfoldable pub out_write_index : Out → List ℕ → record { index : ℕ; out : Out }
  out_write_index out src = record { index = out.len; out = out_write out src }
