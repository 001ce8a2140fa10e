-- ===== src/Interpret/Exec/Frame.antt =====
-- `step` writes to memory only where that is allowed.
use rv32isam.Base.{
  ℕ, ◌≡◌, refl, arith, ◌∙◌, Bool, true, false, Bool-cases, inl, inr, ◌==◌, if◌then◌else◌,
}
use rv32isam.Base.Word.{u8}
use rv32isam.Rv.Dasm
use rv32isam.Rv.Dasm.{Disassembly, dasm}
use rv32isam.Interpret.State.{
  Cpu, Memory, Outcome, running, aborted, trapped, undefined, write_register, writable_u8,
  writable_u32, set_bytes,
}
use rv32isam.Base.Bytes.{update, store_u32}
use rv32isam.Interpret.State.Registers.{write_register-memory}
use rv32isam.Interpret.Exec.{
  exec, exec_imm, exec_load, exec_store, store_byte, store_word, branch_if, exec_branch, exec_op,
  exec_jalr, exec_jal, footer, exec_word, step,
}
use rv32isam.Interpret.Exec.Valid.{
  Ensures, goes_on, has_aborted, has_trapped, is_undefined, Ensures-running, Ensures-if,
}

-- `after` is `before` with other bytes at most where they are mapped and writable.
pub record IsFramed (before after : Memory) : Type 0 where
  pub same_base : after.base ≡ before.base
  pub same_size : after.size ≡ before.size
  pub same_readable : after.readable ≡ before.readable
  pub same_writable : after.writable ≡ before.writable
  pub kept : (a : ℕ) → writable_u8 before a ≡ false → after.bytes a ≡ before.bytes a

abbrev Keeps : Memory → Cpu → Type 0
Keeps before cpu = IsFramed before cpu.memory

pub IsFramed-trans : {l m n : Memory} → IsFramed l m → IsFramed m n → IsFramed l n
IsFramed-trans {l} {m} {n} p q = record {
  same_base = q.same_base ∙ p.same_base;
  same_size = q.same_size ∙ p.same_size;
  same_readable = q.same_readable ∙ p.same_readable;
  same_writable = q.same_writable ∙ p.same_writable;
  kept = λ a h. q.kept a (rw (p.same_size, p.same_writable) h) ∙ p.kept a h;
}

pub IsFramed-refl : (m : Memory) → IsFramed m m
IsFramed-refl m = record {
  same_base = refl;
  same_size = refl;
  same_readable = refl;
  same_writable = refl;
  kept = λ a h. refl;
}

write_register-Keeps :
    (m : Memory) (cpu : Cpu) (i v : ℕ) → Keeps m cpu → Keeps m (write_register cpu i v)
write_register-Keeps m cpu i v h = rw write_register-memory h

update-kept :
    (m : Memory) (n v a : ℕ)
    → writable_u8 m n ≡ true
    → writable_u8 m a ≡ false
    → update m.bytes n v a ≡ m.bytes a
update-kept m n v a can cannot = ground (arith)

store_u32-kept :
    (m : Memory) (n v a : ℕ)
    → writable_u32 m n ≡ true
    → writable_u8 m a ≡ false
    → store_u32 m.bytes n v a ≡ m.bytes a
store_u32-kept m n v a can cannot = ground (arith)

set_bytes-Keeps :
    (m : Memory) (cpu : Cpu) (bytes : ℕ → ℕ)
    → Keeps m cpu
    → ((a : ℕ) → writable_u8 m a ≡ false → bytes a ≡ cpu.memory.bytes a)
    → Keeps m (set_bytes cpu bytes)
set_bytes-Keeps m cpu bytes h same = record {
  same_base = h.same_base;
  same_size = h.same_size;
  same_readable = h.same_readable;
  same_writable = h.same_writable;
  kept = λ a cannot. same a cannot ∙ h.kept a cannot;
}

module _ (raw : ℕ) (cpu : Cpu) where
  stays : Keeps cpu.memory cpu
  stays = IsFramed-refl cpu.memory

  writes : (i v : ℕ) → Keeps cpu.memory (write_register cpu i v)
  writes i v = write_register-Keeps cpu.memory cpu i v stays

  store_byte-Keeps : (a v : ℕ) → Ensures (Keeps cpu.memory) (store_byte cpu a v)
  unfolding store_byte
  store_byte-Keeps a v = elim (Bool-cases (writable_u8 cpu.memory a)) [
    | inl can ↦ rw can (
        goes_on (
          set_bytes-Keeps cpu.memory cpu _ stays
            (λ n cannot. update-kept cpu.memory a (u8 v) n can cannot)))
    | inr cannot ↦ rw cannot is_undefined
  ]

  store_word-Keeps : (a v : ℕ) → Ensures (Keeps cpu.memory) (store_word cpu a v)
  unfolding store_word
  store_word-Keeps a v = elim (Bool-cases (writable_u32 cpu.memory a)) [
    | inl can ↦ rw can (
        goes_on (
          set_bytes-Keeps cpu.memory cpu _ stays
            (λ n cannot. store_u32-kept cpu.memory a v n can cannot)))
    | inr cannot ↦ rw cannot is_undefined
  ]

  exec_imm-Keeps : Ensures (Keeps cpu.memory) (exec_imm raw cpu)
  unfolding exec_imm
  exec_imm-Keeps = goes_on (writes _ _)

  exec_load-Keeps : Ensures (Keeps cpu.memory) (exec_load raw cpu)
  unfolding exec_load
  exec_load-Keeps = search (Ensures-if, goes_on, writes, stays, is_undefined, has_aborted) depth 9

  exec_store-Keeps : Ensures (Keeps cpu.memory) (exec_store raw cpu)
  unfolding exec_store
  exec_store-Keeps =
      search
        (Ensures-if, store_byte-Keeps, store_word-Keeps, goes_on, stays, has_trapped, has_aborted)
        depth 9

  branch_if-Keeps :
      (taken : Bool) (offset : ℕ) → Ensures (Keeps cpu.memory) (branch_if taken offset cpu)
  branch_if-Keeps taken offset = Ensures-if taken (goes_on stays) (goes_on stays)

  exec_branch-Keeps : Ensures (Keeps cpu.memory) (exec_branch raw cpu)
  unfolding exec_branch
  exec_branch-Keeps = search (Ensures-if, branch_if-Keeps, goes_on, stays, has_aborted) depth 9

  exec_op-Keeps : Ensures (Keeps cpu.memory) (exec_op raw cpu)
  unfolding exec_op
  exec_op-Keeps = search (Ensures-if, goes_on, writes, has_aborted) depth 9

  exec_jalr-Keeps : Ensures (Keeps cpu.memory) (exec_jalr raw cpu)
  unfolding exec_jalr
  exec_jalr-Keeps = goes_on (writes _ _)

  exec_jal-Keeps : Ensures (Keeps cpu.memory) (exec_jal raw cpu)
  unfolding exec_jal
  exec_jal-Keeps = goes_on (writes _ _)

  exec-Keeps : Ensures (Keeps cpu.memory) (exec raw cpu)
  unfolding exec
  exec-Keeps =
      search
        (
          Ensures-if, exec_jalr-Keeps, exec_jal-Keeps, writes, exec_imm-Keeps, exec_load-Keeps,
          exec_store-Keeps, exec_branch-Keeps, exec_op-Keeps, stays, has_aborted, goes_on,
        )
        depth 14

Keeps-footer : (m : Memory) (o : Outcome) → Ensures (Keeps m) o → Ensures (Keeps m) (footer o)
Keeps-footer m (running cpu) (goes_on h) = goes_on h
Keeps-footer m aborted h = has_aborted
Keeps-footer m trapped h = has_trapped
Keeps-footer m undefined h = is_undefined

exec_word-Keeps : (raw : ℕ) (cpu : Cpu) → Ensures (Keeps cpu.memory) (exec_word raw cpu)
unfolding exec_word
exec_word-Keeps raw cpu = by_text (dasm raw cpu.pc)
  where
    by_text :
        (d : Disassembly)
        → Ensures (Keeps cpu.memory) (elim d [
          | Dasm.printed pieces ↦ if raw == 0 then trapped else footer (exec raw cpu)
          | Dasm.aborted ↦ aborted
          | Dasm.undefined ↦ undefined
        ])
    by_text (Dasm.printed pieces) =
        Ensures-if _ has_trapped (Keeps-footer cpu.memory _ (exec-Keeps raw cpu))
    by_text Dasm.aborted = has_aborted
    by_text Dasm.undefined = is_undefined

-- A round of the loop that goes on leaves the image where it was, with its size and protections,
-- and changes no byte of it that is unmapped or read-only.
pub step-IsFramed :
    (cpu : Cpu) {cpu' : Cpu} → step cpu ≡ running cpu' → IsFramed cpu.memory cpu'.memory
unfolding step
step-IsFramed cpu e = Ensures-running (rw e at framed)
  where
    framed : Ensures (Keeps cpu.memory) (step cpu)
    framed = search (Ensures-if, exec_word-Keeps, is_undefined, has_aborted) depth 8
