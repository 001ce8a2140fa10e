-- ===== src/Rv/Dasm/Laws.antt =====
-- Which words the disassembler prints.
use Prim.Native.String.{String}
use rv32isam.Base.{
  ℕ, zero, suc, ◌^◌, ◌<◌, ◌≡◌, ◌≢◌, refl, arith, List, [], ◌∷◌, Option, none, some, Bool, true,
  false, Bool-cases, inl, inr, ==_iff, ltb, ◌==◌,
}
use rv32isam.Base.Lists.{length}
use rv32isam.Rv.Opcode.{
  op_load, op_imm, op_auipc, op_store, op_op, op_lui, op_branch, op_jalr, op_jal,
}
use rv32isam.Rv.Funct.{imm_func_srli, imm_func_slli, load_func_lbu}
use rv32isam.Rv.Insn.{get, unknown, r_format, i_format, s_format, b_format}
use rv32isam.Rv.Dasm.{
  Piece, Disassembly, printed, aborted, str, hex, entry, reg, abi_reg_names, func_names,
  branch_names, modes, inames, imm_names, fprintf, prepend, sign, text, word, dasm_imm, dasm_switch,
  dasm,
}

abbrev pub IsPrinted : Disassembly → Type 0
IsPrinted d = (ps : List Piece) × (d ≡ printed ps)

abbrev IsGiven : Option Piece → Type 0
IsGiven o = (p : Piece) × (o ≡ some p)

abbrev AllGiven : List (Option Piece) → Type 0
AllGiven [] = Unit
AllGiven (o ∷ rest) = IsGiven o × AllGiven rest

fprintf-IsPrinted : (l : List (Option Piece)) → AllGiven l → IsPrinted (fprintf l)
unfolding fprintf prepend
fprintf-IsPrinted [] h = ([], refl)
fprintf-IsPrinted (o ∷ rest) ((p, e), h) =
    let (ps, es) = fprintf-IsPrinted rest h in (p ∷ ps, rw (e, es))

-- A table with no null entry names every index within it.
abbrev AllNamed : List (Option String) → Type 0
AllNamed [] = Unit
AllNamed (none ∷ rest) = ⊥
AllNamed (some s ∷ rest) = AllNamed rest

entry-IsGiven :
    (table : List (Option String)) (n : ℕ)
    → AllNamed table
    → n < length table
    → IsGiven (entry table n)
unfolding entry
entry-IsGiven [] n h lt = absurd (omega arith)
entry-IsGiven (none ∷ rest) n h lt = absurd h
entry-IsGiven (some s ∷ rest) zero h lt = (str s, refl)
entry-IsGiven (some s ∷ rest) (suc n) h lt = entry-IsGiven rest n h (omega arith)

reg-IsGiven : (n : ℕ) → n < 32 → IsGiven (reg n)
unfolding reg abi_reg_names
reg-IsGiven n h = entry-IsGiven abi_reg_names n tt h

given : (p : Piece) → IsGiven (some p)
given p = (p, refl)

IsGiven-text : (s : String) → IsGiven (text s)
unfolding text
IsGiven-text s = given (str s)

IsGiven-word : (v : ℕ) → IsGiven (word v)
unfolding word
IsGiven-word v = given (hex v)

IsGiven-sign : (v : ℕ) → IsGiven (sign v)
unfolding sign
IsGiven-sign v = elim (Bool-cases (ltb v (2 ^ 31))) [
  | inl e ↦ (str "", rw e)
  | inr e ↦ (str "-", rw e)
]

imm_names-IsGiven : (n : ℕ) → n < 8 → IsGiven (entry imm_names n)
unfolding imm_names
imm_names-IsGiven n h = entry-IsGiven imm_names n tt h

inames-IsGiven : (b : Bool) (n : ℕ) → n < 8 → IsGiven (entry (inames b) n)
unfolding inames
inames-IsGiven true n h = entry-IsGiven (inames true) n tt h
inames-IsGiven false n h = entry-IsGiven (inames false) n tt h

ruleset given_rules = (IsGiven-text, IsGiven-word, IsGiven-sign, given)

module _ (raw offset : ℕ) (nonzero : raw ≢ 0) where
  rd-IsGiven : IsGiven (reg (get i_format.rd raw))
  rd-IsGiven = reg-IsGiven _ (omega arith)

  rs1-IsGiven : IsGiven (reg (get i_format.rs1 raw))
  rs1-IsGiven = reg-IsGiven _ (omega arith)

  rs2-IsGiven : IsGiven (reg (get r_format.rs2 raw))
  rs2-IsGiven = reg-IsGiven _ (omega arith)

  dasm-nonzero : dasm raw offset ≡ dasm_switch raw offset
  unfolding dasm
  dasm-nonzero = ground arith

  pub dasm-op_jalr : get unknown.opcode raw ≡ op_jalr → IsPrinted (dasm raw offset)
  unfolding dasm_switch
  dasm-op_jalr e =
      rw (dasm-nonzero, e) (fprintf-IsPrinted _ (search (given_rules, rd-IsGiven, rs1-IsGiven, tt)))

  pub dasm-op_jal : get unknown.opcode raw ≡ op_jal → IsPrinted (dasm raw offset)
  unfolding dasm_switch
  dasm-op_jal e = rw (dasm-nonzero, e) (fprintf-IsPrinted _ (search (given_rules, rd-IsGiven, tt)))

  pub dasm-op_auipc : get unknown.opcode raw ≡ op_auipc → IsPrinted (dasm raw offset)
  unfolding dasm_switch
  dasm-op_auipc e =
      rw (dasm-nonzero, e) (fprintf-IsPrinted _ (search (given_rules, rd-IsGiven, tt)))

  pub dasm-op_lui : get unknown.opcode raw ≡ op_lui → IsPrinted (dasm raw offset)
  unfolding dasm_switch
  dasm-op_lui e = rw (dasm-nonzero, e) (fprintf-IsPrinted _ (search (given_rules, rd-IsGiven, tt)))

  funct3-lt : get i_format.funct3 raw < 8
  funct3-lt = omega arith

  lbu-IsGiven : IsGiven (entry func_names 4)
  unfolding entry func_names
  lbu-IsGiven = given (str "lbu")

  pub dasm-lbu :
      get unknown.opcode raw ≡ op_load
      → get i_format.funct3 raw ≡ load_func_lbu
      → IsPrinted (dasm raw offset)
  unfolding dasm_switch
  dasm-lbu e f =
      rw (dasm-nonzero, e, f)
        (fprintf-IsPrinted _ (search (given_rules, rd-IsGiven, rs1-IsGiven, lbu-IsGiven, tt)))

  -- A word that is not 0, has the opcode OP-IMM, and is neither SRLI nor SRAI by its funct3, is printed.
  pub dasm-op_imm :
      get unknown.opcode raw ≡ op_imm
      → get i_format.funct3 raw ≢ imm_func_srli
      → IsPrinted (dasm raw offset)
  unfolding dasm_switch dasm_imm
  dasm-op_imm e ne =
      rw (dasm-nonzero, e)
        (elim (Bool-cases (get i_format.funct3 raw == imm_func_slli)) [
          | inl slli ↦
              rw slli (fprintf-IsPrinted _ (search (given_rules, rd-IsGiven, rs1-IsGiven, tt)))
          | inr other ↦ elim (Bool-cases (get i_format.funct3 raw == imm_func_srli)) [
            | inl srli ↦ absurd (ne ((==_iff _ _).0 srli))
            | inr plain ↦
                rw (other, plain)
                  (fprintf-IsPrinted _ (
                    search
                      (given_rules, rd-IsGiven, rs1-IsGiven, imm_names-IsGiven, funct3-lt, tt)))
          ]
        ])

  store-IsGiven : (n : ℕ) → n < 3 → IsGiven (entry modes n)
  unfolding modes
  store-IsGiven n h = entry-IsGiven modes n tt h

  pub dasm-op_store :
      get unknown.opcode raw ≡ op_store → get s_format.funct3 raw < 3 → IsPrinted (dasm raw offset)
  unfolding dasm_switch
  dasm-op_store e f =
      rw (dasm-nonzero, e)
        (fprintf-IsPrinted _
          (search (given_rules, rs1-IsGiven, rs2-IsGiven, store-IsGiven _ f, tt)))

  branch-IsGiven : (n : ℕ) → n < 8 → n ≢ 2 → n ≢ 3 → IsGiven (entry branch_names n)
  unfolding entry branch_names
  branch-IsGiven zero h p q = given (str "beq")
  branch-IsGiven (suc zero) h p q = given (str "bne")
  branch-IsGiven (suc (suc zero)) h p q = absurd (p refl)
  branch-IsGiven (suc (suc (suc zero))) h p q = absurd (q refl)
  branch-IsGiven (suc (suc (suc (suc zero)))) h p q = given (str "blt")
  branch-IsGiven (suc (suc (suc (suc (suc zero))))) h p q = given (str "bge")
  branch-IsGiven (suc (suc (suc (suc (suc (suc zero)))))) h p q = given (str "bltu")
  branch-IsGiven (suc (suc (suc (suc (suc (suc (suc zero))))))) h p q = given (str "bgeu")
  branch-IsGiven (suc (suc (suc (suc (suc (suc (suc (suc n)))))))) h p q = absurd (omega arith)

  -- A word that is not 0, has the branch opcode, and whose funct3 is neither 2 nor 3, is printed.
  pub dasm-op_branch :
      get unknown.opcode raw ≡ op_branch
      → get b_format.funct3 raw ≢ 2
      → get b_format.funct3 raw ≢ 3
      → IsPrinted (dasm raw offset)
  unfolding dasm_switch
  dasm-op_branch e p q =
      rw (dasm-nonzero, e)
        (fprintf-IsPrinted _
          (search (given_rules, rs1-IsGiven, rs2-IsGiven, branch-IsGiven _ funct3-lt p q, tt)))

  pub dasm-op_op : get unknown.opcode raw ≡ op_op → IsPrinted (dasm raw offset)
  unfolding dasm_switch
  dasm-op_op e =
      rw (dasm-nonzero, e)
        (fprintf-IsPrinted _ (
          search
            (given_rules, rd-IsGiven, rs1-IsGiven, rs2-IsGiven, inames-IsGiven, funct3-lt, tt)))

  -- The disassembler aborts on SRLI and SRAI.
  pub dasm-srli :
      get unknown.opcode raw ≡ op_imm
      → get i_format.funct3 raw ≡ imm_func_srli
      → dasm raw offset ≡ aborted
  unfolding dasm_switch dasm_imm
  dasm-srli e f = rw (dasm-nonzero, e, f)
