-- ===== src/Interpret/Exec/Refines/Jumps.antt =====
-- The jumps and the branches.
use Prim.Native.Nat.{bit_and}
use mathlib.Core.Path.{fun_ext}
use rv32isam.Base.{
  ℕ, ◌+◌, ◌-◌, ◌*◌, ◌/◌, ◌%◌, ◌^◌, ◌<◌, ◌≡◌, ◌≢◌, refl, sym, ap, ◌∙◌, arith, Bool, true, false,
}
use rv32isam.Base.Word.{IsU32, ℤ, pos, negsuc, signed, add32, sub32, not32}
use rv32isam.Base.Masks.{bit_and_low, bit_and-mul_two_pow}
use rv32isam.Isa
use rv32isam.Isa.{
  Instr, Fits, encode, Machine, move, set_x, effect, ImmOp, imm_code, imm_effect, RegOp, op_effect,
  Condition, condition_code, holds, i_word, s_word, b_word, u_word, j_word, r_word,
}
use rv32isam.Rv.Dasm.{dasm}
use rv32isam.Rv.Dasm.Laws.{IsPrinted, dasm-op_jalr, dasm-op_jal, dasm-op_branch}
use rv32isam.Rv.Immediate.{bit_cast_i32, read_i_immediate, read_j_immediate}
use rv32isam.Rv.Immediate.Value.{extend, read_i-extend, read_b-extend, read_j-extend}
use rv32isam.Interpret.State.{Cpu, running, write_register, read_register}
use rv32isam.Interpret.State.Registers.{read_register-record}
use rv32isam.Interpret.Exec.{exec, branch_if, exec_branch, exec_jalr, exec_jal, step}
use rv32isam.Interpret.Exec.Decode.{
  IsIWord, IsBWord, IsJWord, move-extend12, move-extend13, move-extend21,
}
use rv32isam.Interpret.Exec.Fetch.{Fetches}
use rv32isam.Interpret.Exec.Refines.{machine_of, Refines, step-exec, machine_of-write}

-- The loop's footer undoes the 4 that a jump takes off.
footer_undo : (t : ℕ) → IsU32 t → add32 (sub32 t 4) 4 ≡ t
footer_undo t h = omega arith

module _ {cpu : Cpu} {raw : ℕ} (f : Fetches cpu raw) where
  jumps :
      (rd t target : ℕ)
      → raw ≢ 0
      → IsPrinted (dasm raw cpu.pc)
      → exec raw cpu ≡ running (record (write_register cpu rd (add32 cpu.pc 4)) { pc = sub32 t 4 })
      → IsU32 t
      → t ≡ target
      → (cpu' : Cpu) × (step cpu ≡ running cpu')
        × (machine_of cpu'
            ≡ record (Isa.set rd ((cpu.pc + 4) % 2 ^ 32) (machine_of cpu)) { pc = target })
  jumps rd t target ne prints e fits same = (
    record (write_register cpu rd (add32 cpu.pc 4)) { pc = add32 (sub32 t 4) 4 },
    step-exec f ne prints e,
    rw (footer_undo t fits, same) (machine_of-write cpu rd (add32 cpu.pc 4) target),
  )

  pub jal-word :
      (rd imm : ℕ) → imm < 2 ^ 21 → IsJWord 0x6f rd imm raw → Refines cpu (Isa.jal rd imm)
  unfolding exec exec_jal read_j_immediate
  jal-word rd imm h d =
      let ne : raw ≢ 0 = omega (arith, d.opcode_of) in
      jumps rd (add32 cpu.pc (read_j_immediate raw)) (move cpu.pc (signed 21 imm)) ne
        (dasm-op_jal raw cpu.pc ne d.opcode_of) (rw (d.opcode_of, d.rd_of)) (omega arith)
        (rw (read_j-extend 0 raw (omega arith) d.fits, d.imm_of) (move-extend21 cpu.pc imm h))

  -- Clearing the lowest bit of a word.
  clear_lowest : (a : ℕ) → IsU32 a → bit_and a (not32 1) ≡ a / 2 * 2
  clear_lowest a h = omega (arith, bit_and-mul_two_pow 1 a (2 ^ 31 - 1), bit_and_low 31 (a / 2))

  jalr-target :
      (rd rs1 imm : ℕ)
      → imm < 2 ^ 12
      → IsIWord 0x67 rd 0 rs1 imm raw
      → bit_and (add32 (read_i_immediate raw) (read_register cpu rs1)) (not32 1)
        ≡ move (read_register cpu rs1) (signed 12 imm) / 2 * 2
  jalr-target rd rs1 imm h d =
      rw
        (
          clear_lowest (add32 (read_i_immediate raw) (read_register cpu rs1)) (sum_fits _ _),
          read_i-extend raw d.fits,
          d.imm_of,
          sum_comm (extend 12 imm) (read_register cpu rs1),
        )
        (ap (λ (t : ℕ). t / 2 * 2) (move-extend12 (read_register cpu rs1) imm h))
    where
      sum_fits : (a b : ℕ) → IsU32 (add32 a b)
      sum_fits a b = omega arith

      sum_comm : (a b : ℕ) → add32 a b ≡ add32 b a
      sum_comm a b = omega arith

  pub jalr-word :
      (rd rs1 imm : ℕ)
      → imm < 2 ^ 12
      → IsIWord 0x67 rd 0 rs1 imm raw
      → Refines cpu (Isa.jalr rd rs1 imm)
  unfolding exec exec_jalr
  jalr-word rd rs1 imm h d =
      let ne : raw ≢ 0 = omega (arith, d.opcode_of) in
      let target = jalr-target rd rs1 imm h d in
      jumps rd (bit_and (add32 (read_i_immediate raw) (read_register cpu rs1)) (not32 1))
        (move (read_register cpu rs1) (signed 12 imm) / 2 * 2) ne
        (dasm-op_jalr raw cpu.pc ne d.opcode_of) (rw (d.opcode_of, d.rd_of, d.rs1_of))
        (rw target (half_fits _ (move_fits _ _))) target
    where
      half_fits : (a : ℕ) → IsU32 a → IsU32 (a / 2 * 2)
      half_fits a h = omega arith

      move_fits : (a : ℕ) (z : ℤ) → IsU32 (move a z)
      move_fits a (pos n) = omega arith
      move_fits a (negsuc n) = omega arith

  -- The comparison that `exec_branch` makes.
  exec_branch-holds :
      (c : Condition) (rs1 rs2 imm : ℕ)
      → IsBWord 0x63 (condition_code c) rs1 rs2 imm raw
      → exec_branch raw cpu
        ≡ branch_if (holds c (read_register cpu rs1) (read_register cpu rs2)) (extend 13 imm) cpu
  unfolding exec_branch bit_cast_i32
  exec_branch-holds Isa.equal rs1 rs2 imm d =
      rw (d.funct3_of, d.rs1_of, d.rs2_of, read_b-extend raw d.fits, d.imm_of)
  exec_branch-holds Isa.not_equal rs1 rs2 imm d =
      rw (d.funct3_of, d.rs1_of, d.rs2_of, read_b-extend raw d.fits, d.imm_of)
  exec_branch-holds Isa.less_unsigned rs1 rs2 imm d =
      rw (d.funct3_of, d.rs1_of, d.rs2_of, read_b-extend raw d.fits, d.imm_of)
  exec_branch-holds Isa.at_least_unsigned rs1 rs2 imm d =
      rw (d.funct3_of, d.rs1_of, d.rs2_of, read_b-extend raw d.fits, d.imm_of)

  printable : (c : Condition) → (condition_code c ≢ 2) × (condition_code c ≢ 3)
  printable Isa.equal = omega arith
  printable Isa.not_equal = omega arith
  printable Isa.less_unsigned = omega arith
  printable Isa.at_least_unsigned = omega arith

  machine_of-pc : (p : ℕ) → machine_of (record cpu { pc = p }) ≡ record (machine_of cpu) { pc = p }
  machine_of-pc p = λ i. record {
    x = fun_ext (λ j. read_register-record cpu p cpu.memory j) i;
    pc = p;
    mem = cpu.memory.bytes;
  }

  taken_pc :
      (imm : ℕ)
      → imm < 2 ^ 13
      → add32 (add32 cpu.pc (sub32 (extend 13 imm) 4)) 4 ≡ move cpu.pc (signed 13 imm)
  taken_pc imm h = regroup (extend 13 imm) ∙ move-extend13 cpu.pc imm h
    where
      regroup : (e : ℕ) → add32 (add32 cpu.pc (sub32 e 4)) 4 ≡ (cpu.pc + e) % 2 ^ 32
      regroup e = omega arith

  pub branch-word :
      (c : Condition) (rs1 rs2 imm : ℕ)
      → imm < 2 ^ 13
      → IsBWord 0x63 (condition_code c) rs1 rs2 imm raw
      → Refines cpu (Isa.branch c rs1 rs2 imm)
  branch-word c rs1 rs2 imm h d =
      by_test (holds c (read_register cpu rs1) (read_register cpu rs2)) refl
    where
      nonzero : raw ≢ 0
      nonzero z = omega (arith, d.opcode_of)

      prints : IsPrinted (dasm raw cpu.pc)
      prints =
          dasm-op_branch raw cpu.pc nonzero d.opcode_of (λ e. (printable c).0 (sym d.funct3_of ∙ e))
            (λ e. (printable c).1 (sym d.funct3_of ∙ e))

      branches : exec raw cpu ≡ exec_branch raw cpu
      branches = unfold exec in rw d.opcode_of

      by_test :
          (b : Bool)
          → holds c (read_register cpu rs1) (read_register cpu rs2) ≡ b
          → Refines cpu (Isa.branch c rs1 rs2 imm)
      by_test true e = rw e (
        record cpu { pc = add32 (add32 cpu.pc (sub32 (extend 13 imm) 4)) 4 },
        step-exec f nonzero prints (branches ∙ exec_branch-holds c rs1 rs2 imm d ∙ rw e),
        rw (taken_pc imm h) (machine_of-pc (move cpu.pc (signed 13 imm))),
      )
      by_test false e = rw e (
        record cpu { pc = add32 cpu.pc 4 },
        step-exec f nonzero prints (branches ∙ exec_branch-holds c rs1 rs2 imm d ∙ rw e),
        machine_of-pc (add32 cpu.pc 4),
      )
