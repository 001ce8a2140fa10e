-- ===== src/Interpret/Exec/Refines/Memory.antt =====
-- The load and the stores, at addresses in the image.
use Prim.Native.Nat.{bit_or}
use mathlib.Core.Path.{fun_ext}
use rv32isam.Base.{ℕ, ◌+◌, ◌-◌, ◌*◌, ◌/◌, ◌%◌, ◌^◌, ◌≤◌, ◌<◌, ◌≡◌, ◌≢◌, refl, ◌∙◌, arith, true}
use rv32isam.Base.Word.{signed, add32, shl32}
use rv32isam.Base.Bytes.{update, store_u32}
use rv32isam.Base.Masks.{bit_or_comm, bit_or_fields}
use rv32isam.Isa
use rv32isam.Isa.{
  Instr, Fits, encode, Machine, move, set_x, effect, ImmOp, imm_code, imm_effect, RegOp, op_effect,
  Condition, condition_code, holds, i_word, s_word, b_word, u_word, j_word, r_word,
}
use rv32isam.Rv.Dasm.{dasm}
use rv32isam.Rv.Dasm.Laws.{IsPrinted, dasm-lbu, dasm-op_store}
use rv32isam.Rv.Immediate.{bit_cast_i32}
use rv32isam.Rv.Immediate.Value.{sext32_imm12-extend}
use rv32isam.Interpret.State.{
  Cpu, running, read_register, writable_u8, writable_u32, readable_u8, set_bytes,
}
use rv32isam.Interpret.State.Registers.{read_register-record}
use rv32isam.Interpret.State.Valid.{IsValid}
use rv32isam.Interpret.Exec.{
  exec, exec_load, exec_store, store_byte, store_word, step, load_location, store_location,
}
use rv32isam.Interpret.Exec.Decode.{IsIWord, IsSWord, location-move}
use rv32isam.Interpret.Exec.Fetch.{Fetches}
use rv32isam.Interpret.Exec.Refines.{machine_of, Refines, step-exec, writes}

-- What the address is for the interpreter and for the specification.
abbrev pub address : Cpu → ℕ → ℕ → ℕ
address cpu rs1 imm = move (read_register cpu rs1) (signed 12 imm)

-- Addresses below 2 ^ 31 - 2 ^ 11 are reached; the loader's images are far smaller.
abbrev pub IsSmall : Cpu → Type 0
IsSmall cpu = cpu.memory.size ≤ 2 ^ 31 - 2 ^ 11

module _ {cpu : Cpu} (valid : IsValid cpu) (small : IsSmall cpu) {raw : ℕ}
    (f : Fetches cpu raw) where
  load_location-address :
      (rd rs1 imm : ℕ)
      → imm < 2 ^ 12
      → IsIWord 0x03 rd 4 rs1 imm raw
      → address cpu rs1 imm < cpu.memory.size
      → load_location raw cpu ≡ address cpu rs1 imm
  unfolding load_location bit_cast_i32
  load_location-address rd rs1 imm h d lt =
      rw (d.rs1_of, d.imm_of, sext32_imm12-extend imm h)
        (location-move (read_register cpu rs1) imm (valid.registers_fit rs1) h (omega arith))

  pub lbu-word :
      (rd rs1 imm : ℕ)
      → imm < 2 ^ 12
      → IsIWord 0x03 rd 4 rs1 imm raw
      → readable_u8 cpu.memory (address cpu rs1 imm) ≡ true
      → Refines cpu (Isa.lbu rd rs1 imm)
  unfolding exec exec_load
  lbu-word rd rs1 imm h d can =
      let ne : raw ≢ 0 = omega (arith, d.opcode_of) in
      let at = address cpu rs1 imm in
      let there = load_location-address rd rs1 imm h d (ground arith) in
      writes rd (cpu.memory.bytes at) (cpu.memory.bytes at) f ne
        (dasm-lbu raw cpu.pc ne d.opcode_of d.funct3_of)
        (rw (d.opcode_of, d.funct3_of, d.rd_of, there, can)) refl

  -- The state after a store.
  stored :
      (bytes : ℕ → ℕ)
      → IsPrinted (dasm raw cpu.pc)
      → raw ≢ 0
      → exec raw cpu ≡ running (set_bytes cpu bytes)
      → (cpu' : Cpu) × (step cpu ≡ running cpu')
        × (machine_of cpu' ≡ Isa.next (record (machine_of cpu) { mem = bytes }))
  stored bytes prints ne e = (
    record (set_bytes cpu bytes) { pc = add32 cpu.pc 4 },
    step-exec f ne prints e,
    λ i. record {
      x = fun_ext (λ j. read_register-record cpu (add32 cpu.pc 4) (set_bytes cpu bytes).memory j) i;
      pc = add32 cpu.pc 4;
      mem = bytes;
    },
  )

  store_location-address :
      (funct3 rs1 rs2 imm : ℕ)
      → imm < 2 ^ 12
      → IsSWord 0x23 funct3 rs1 rs2 imm raw
      → address cpu rs1 imm < cpu.memory.size
      → store_location raw cpu ≡ address cpu rs1 imm
  unfolding store_location bit_cast_i32
  store_location-address funct3 rs1 rs2 imm h d lt =
      rw (d.rs1_of, d.low_of, d.high_of, joined, sext32_imm12-extend imm h)
        (omega (
          arith,
          location-move (read_register cpu rs1) imm (valid.registers_fit rs1) h (omega arith),
        ))
    where
      no_wrap : imm / 32 * 2 ^ 5 % 2 ^ 32 ≡ imm / 32 * 2 ^ 5
      no_wrap = omega arith

      joined : bit_or (imm % 32) (shl32 (imm / 32) 5) ≡ imm
      joined =
          bit_or_comm (imm % 32) _
          ∙ rw (no_wrap, bit_or_fields 5 (imm / 32) (imm % 32) (omega arith)) (omega arith)

  pub sb-word :
      (rs2 rs1 imm : ℕ)
      → imm < 2 ^ 12
      → IsSWord 0x23 0 rs1 rs2 imm raw
      → writable_u8 cpu.memory (address cpu rs1 imm) ≡ true
      → Refines cpu (Isa.sb rs2 rs1 imm)
  unfolding exec exec_store store_byte
  sb-word rs2 rs1 imm h d can =
      let ne : raw ≢ 0 = omega (arith, d.opcode_of) in
      let there = store_location-address 0 rs1 rs2 imm h d (ground arith) in
      stored (update cpu.memory.bytes (address cpu rs1 imm) (read_register cpu rs2 % 2 ^ 8))
        (dasm-op_store raw cpu.pc ne d.opcode_of (omega (arith, d.funct3_of))) ne
        (rw (d.opcode_of, d.funct3_of, d.rs2_of, there, can))

  pub sw-word :
      (rs2 rs1 imm : ℕ)
      → imm < 2 ^ 12
      → IsSWord 0x23 2 rs1 rs2 imm raw
      → cpu.memory.base + cpu.memory.size ≤ 2 ^ 64
      → (cpu.memory.base + address cpu rs1 imm) % 4 ≡ 0
      → writable_u32 cpu.memory (address cpu rs1 imm) ≡ true
      → Refines cpu (Isa.sw rs2 rs1 imm)
  unfolding exec exec_store store_word
  sw-word rs2 rs1 imm h d host aligned can =
      let ne : raw ≢ 0 = omega (arith, d.opcode_of) in
      let there = store_location-address 2 rs1 rs2 imm h d (ground arith) in
      let on_host : (cpu.memory.base + address cpu rs1 imm) % 2 ^ 64 % 4 ≡ 0 = omega arith in
      stored (store_u32 cpu.memory.bytes (address cpu rs1 imm) (read_register cpu rs2))
        (dasm-op_store raw cpu.pc ne d.opcode_of (omega (arith, d.funct3_of))) ne
        (rw (d.opcode_of, d.funct3_of, d.rs2_of, there, on_host, can))
