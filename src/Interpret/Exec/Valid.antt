-- ===== src/Interpret/Exec/Valid.antt =====
-- `step` keeps the state valid, and writes to memory only where that is allowed.
use Prim.Native.Nat.{bit_or}
use rv32isam.Base.{ℕ, ◌≡◌, arith, Bool, true, false, ◌==◌, if◌then◌else◌}
use rv32isam.Base.Word.{IsU32, u8, add32, sub32}
use rv32isam.Base.Masks.{bit_or-lt}
use rv32isam.Rv.Dasm
use rv32isam.Rv.Dasm.{Disassembly, dasm}
use rv32isam.Rv.Immediate.{read_upper_immediate}
use rv32isam.Rv.Immediate.Value.{read_upper_immediate_lem}
use rv32isam.Interpret.State.{
  Cpu, Outcome, running, aborted, trapped, undefined, write_register, read_register,
}
use rv32isam.Interpret.State.Valid.{
  IsValid, write_register-IsValid, set_pc-IsValid, set_bytes-IsValid,
}
use rv32isam.Base.Bytes.{update-IsByte, load_u32-IsU32, store_u32-IsByte}
use rv32isam.Interpret.Exec.{
  exec, exec_imm, exec_load, exec_store, store_byte, store_word, branch_if, exec_branch, exec_op,
  exec_jalr, exec_jal, footer, exec_word, step,
}
use rv32isam.Interpret.Exec.Values.{imm_value-IsU32}

-- A state that the loop goes on with satisfies `P`.
pub data Ensures (P : Cpu → Type 0) : Outcome → Type 0 where
  goes_on : {cpu : Cpu} → P cpu → Ensures P (running cpu)
  has_aborted : Ensures P aborted
  has_trapped : Ensures P trapped
  is_undefined : Ensures P undefined

pub Ensures-running : {P : Cpu → Type 0} {cpu : Cpu} → Ensures P (running cpu) → P cpu
Ensures-running (goes_on p) = p

pub Ensures-if :
    {P : Cpu → Type 0} (b : Bool) {x y : Outcome}
    → Ensures P x
    → Ensures P y
    → Ensures P (if b then x else y)
Ensures-if true p q = p
Ensures-if false p q = q

-- A jump: the link, then the program counter.
jump-IsValid :
    (cpu : Cpu) (i v pc : ℕ)
    → IsU32 v
    → IsU32 pc
    → IsValid cpu
    → IsValid (record (write_register cpu i v) { pc = pc })
jump-IsValid cpu i v pc hv hp valid =
    set_pc-IsValid (write_register cpu i v) pc hp (write_register-IsValid cpu i v hv valid)

module _ (raw : ℕ) (cpu : Cpu) (word : IsU32 raw) (valid : IsValid cpu) where
  exec_imm-IsValid : Ensures IsValid (exec_imm raw cpu)
  unfolding exec_imm
  exec_imm-IsValid =
      goes_on
        (write_register-IsValid cpu _ _ (imm_value-IsU32 raw _ word (valid.registers_fit _)) valid)

  byte-IsU32 : (a : ℕ) → IsU32 (cpu.memory.bytes a)
  byte-IsU32 a = omega (arith, valid.bytes_fit a)

  exec_load-IsValid : Ensures IsValid (exec_load raw cpu)
  unfolding exec_load
  exec_load-IsValid =
      Ensures-if _
        (Ensures-if _ (goes_on (write_register-IsValid cpu _ _ (byte-IsU32 _) valid)) is_undefined)
        (Ensures-if _ has_aborted (goes_on valid))

  store_byte-IsValid : (a v : ℕ) → Ensures IsValid (store_byte cpu a v)
  unfolding store_byte
  store_byte-IsValid a v =
      let fits = update-IsByte cpu.memory.bytes a (u8 v) valid.bytes_fit (omega arith) in
      Ensures-if _ (goes_on (set_bytes-IsValid cpu _ fits valid)) is_undefined

  store_word-IsValid : (a v : ℕ) → Ensures IsValid (store_word cpu a v)
  unfolding store_word
  store_word-IsValid a v =
      let fits = store_u32-IsByte cpu.memory.bytes a v valid.bytes_fit in
      Ensures-if _ (goes_on (set_bytes-IsValid cpu _ fits valid)) is_undefined

  exec_store-IsValid : Ensures IsValid (exec_store raw cpu)
  unfolding exec_store
  exec_store-IsValid =
      search (Ensures-if, store_byte-IsValid, store_word-IsValid, has_trapped, has_aborted, goes_on)
        depth 9

  branch_if-IsValid : (taken : Bool) (offset : ℕ) → Ensures IsValid (branch_if taken offset cpu)
  branch_if-IsValid taken offset =
      let next : IsU32 (add32 cpu.pc (sub32 offset 4)) = omega arith in
      Ensures-if taken (goes_on (set_pc-IsValid cpu _ next valid)) (goes_on valid)

  exec_branch-IsValid : Ensures IsValid (exec_branch raw cpu)
  unfolding exec_branch
  exec_branch-IsValid = search (Ensures-if, branch_if-IsValid, has_aborted, goes_on) depth 9

  writes : (i v : ℕ) → IsU32 v → Ensures IsValid (running (write_register cpu i v))
  writes i v h = goes_on (write_register-IsValid cpu i v h valid)

  sum-IsU32 : (a b : ℕ) → IsU32 (add32 a b)
  sum-IsU32 a b = omega arith

  either-IsU32 : (i j : ℕ) → IsU32 (bit_or (read_register cpu i) (read_register cpu j))
  either-IsU32 i j = bit_or-lt 32 _ _ (valid.registers_fit i) (valid.registers_fit j)

  exec_op-IsValid : Ensures IsValid (exec_op raw cpu)
  unfolding exec_op
  exec_op-IsValid = search (Ensures-if, writes, either-IsU32, sum-IsU32, has_aborted) depth 9

  jumps :
      (i v pc : ℕ)
      → IsU32 pc
      → Ensures IsValid (running (record (write_register cpu i (add32 v 4)) { pc = pc }))
  jumps i v pc h = goes_on (jump-IsValid cpu i (add32 v 4) pc (sum-IsU32 v 4) h valid)

  difference-IsU32 : (a b : ℕ) → IsU32 (sub32 a b)
  difference-IsU32 a b = omega arith

  exec_jalr-IsValid : Ensures IsValid (exec_jalr raw cpu)
  unfolding exec_jalr
  exec_jalr-IsValid = jumps _ _ _ (difference-IsU32 _ 4)

  exec_jal-IsValid : Ensures IsValid (exec_jal raw cpu)
  unfolding exec_jal
  exec_jal-IsValid = jumps _ _ _ (difference-IsU32 _ 4)

  upper-IsU32 : IsU32 (read_upper_immediate raw)
  upper-IsU32 = omega (arith, read_upper_immediate_lem raw word)

  exec-IsValid : Ensures IsValid (exec raw cpu)
  unfolding exec
  exec-IsValid =
      search
        (
          Ensures-if, exec_jalr-IsValid, exec_jal-IsValid, writes, upper-IsU32, sum-IsU32,
          exec_imm-IsValid, exec_load-IsValid, exec_store-IsValid, exec_branch-IsValid,
          exec_op-IsValid, has_aborted, goes_on,
        )
        depth 14

Ensures-footer : (o : Outcome) → Ensures IsValid o → Ensures IsValid (footer o)
Ensures-footer (running cpu) (goes_on valid) =
    goes_on (set_pc-IsValid cpu (add32 cpu.pc 4) (omega arith) valid)
Ensures-footer aborted h = has_aborted
Ensures-footer trapped h = has_trapped
Ensures-footer undefined h = is_undefined

exec_word-IsValid :
    (raw : ℕ) (cpu : Cpu) → IsU32 raw → IsValid cpu → Ensures IsValid (exec_word raw cpu)
unfolding exec_word
exec_word-IsValid raw cpu word valid = by_text (dasm raw cpu.pc)
  where
    by_text :
        (d : Disassembly)
        → Ensures IsValid (elim d [
          | Dasm.printed pieces ↦ if raw == 0 then trapped else footer (exec raw cpu)
          | Dasm.aborted ↦ aborted
          | Dasm.undefined ↦ undefined
        ])
    by_text (Dasm.printed pieces) =
        Ensures-if _ has_trapped (Ensures-footer _ (exec-IsValid raw cpu word valid))
    by_text Dasm.aborted = has_aborted
    by_text Dasm.undefined = is_undefined

-- From a state whose registers, program counter and memory bytes are in range, a round of the loop
-- that goes on leaves them in range.
pub step-IsValid : {cpu cpu' : Cpu} → IsValid cpu → step cpu ≡ running cpu' → IsValid cpu'
unfolding step
step-IsValid {cpu} valid e = Ensures-running (rw e at ensured)
  where
    ensured : Ensures IsValid (step cpu)
    ensured =
        search
          (
            Ensures-if,
            exec_word-IsValid,
            load_u32-IsU32 cpu.memory.bytes cpu.pc valid.bytes_fit,
            is_undefined,
            has_aborted,
          )
          depth 8
