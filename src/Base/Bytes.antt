-- ===== src/Base/Bytes.antt =====
-- Memory as a function from addresses to bytes, and little-endian words in it.
use Prim.Native.Nat.{ℕ, ◌+◌, ◌*◌, ◌/◌, ◌%◌, ◌^◌, ◌≤◌, ◌<◌}
use mathlib.Core.Path.{◌≡◌, fun_ext}
use native.Mathlib.Omega.{arith}
use rv32isam.Base.Tests.{◌==◌, if◌then◌else◌}
use rv32isam.Base.Word.{IsU32}

abbrev pub update : (ℕ → ℕ) → ℕ → ℕ → ℕ → ℕ
update f n v m = if m == n then v else f m

abbrev pub load_u32 : (ℕ → ℕ) → ℕ → ℕ
load_u32 bytes a = bytes a + bytes (a + 1) * 2 ^ 8 + bytes (a + 2) * 2 ^ 16 + bytes (a + 3) * 2 ^ 24

abbrev pub store_u32 : (ℕ → ℕ) → ℕ → ℕ → ℕ → ℕ
store_u32 bytes a v =
    update
      (update (update (update bytes a (v % 2 ^ 8)) (a + 1) (v / 2 ^ 8 % 2 ^ 8)) (a + 2)
        (v / 2 ^ 16 % 2 ^ 8))
      (a + 3) (v / 2 ^ 24 % 2 ^ 8)

abbrev pub IsByte : ℕ → Type 0
IsByte b = b < 256

pub update-IsByte :
    (bytes : ℕ → ℕ) (n v : ℕ)
    → ((a : ℕ) → IsByte (bytes a))
    → IsByte v
    → (a : ℕ) → IsByte (update bytes n v a)
update-IsByte bytes n v h hv a = ground (arith, h a)

pub load_u32-IsU32 :
    (bytes : ℕ → ℕ) (a : ℕ) → ((a : ℕ) → IsByte (bytes a)) → IsU32 (load_u32 bytes a)
load_u32-IsU32 bytes a h = omega (arith, h a, h (a + 1), h (a + 2), h (a + 3))

pub store_u32-IsByte :
    (bytes : ℕ → ℕ) (n v : ℕ)
    → ((a : ℕ) → IsByte (bytes a))
    → (a : ℕ) → IsByte (store_u32 bytes n v a)
store_u32-IsByte bytes n v h a = ground (arith, h a)

-- What was stored is loaded again.
pub load_u32-store_u32 : (bytes : ℕ → ℕ) (a v : ℕ) → IsU32 v → load_u32 (store_u32 bytes a v) a ≡ v
load_u32-store_u32 bytes a v h = ground arith

-- Storing the word that is there changes nothing.
pub store_u32-load_u32 :
    (bytes : ℕ → ℕ) (a : ℕ)
    → ((b : ℕ) → a ≤ b → b < a + 4 → IsByte (bytes b))
    → store_u32 bytes a (load_u32 bytes a) ≡ bytes
store_u32-load_u32 bytes a h = fun_ext λ b. ground (
  arith,
  h a (omega arith) (omega arith),
  h (a + 1) (omega arith) (omega arith),
  h (a + 2) (omega arith) (omega arith),
  h (a + 3) (omega arith) (omega arith),
)
