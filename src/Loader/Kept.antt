-- ===== src/Loader/Kept.antt =====
-- Bytes of an image that may not be written to, in a run.
use rv32isam.Base.{ℕ, ◌≡◌, arith, false}
use rv32isam.Interpret.State.{Memory}
use rv32isam.Interpret.Exec.Frame.{IsFramed}

pub read_only-kept :
    {memory memory' : Memory}
    → IsFramed memory memory'
    → (a : ℕ) → memory.writable a ≡ false
    → memory'.bytes a ≡ memory.bytes a
read_only-kept {memory} framed a e = framed.kept a (ground (arith, e))
