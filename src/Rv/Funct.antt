-- ===== src/Rv/Funct.antt =====
-- rv/insn.h: the minor opcodes.
use rv32isam.Base.{ℕ}

-- enum insn_store_func
abbrev pub store_func_sb : ℕ
store_func_sb = 0b000

abbrev pub store_func_sh : ℕ
store_func_sh = 0b001

abbrev pub store_func_sw : ℕ
store_func_sw = 0b010

-- enum insn_branch_func
abbrev pub branch_func_beq : ℕ
branch_func_beq = 0b000

abbrev pub branch_func_bne : ℕ
branch_func_bne = 0b001

abbrev pub branch_func_blt : ℕ
branch_func_blt = 0b100

abbrev pub branch_func_bge : ℕ
branch_func_bge = 0b101

abbrev pub branch_func_bltu : ℕ
branch_func_bltu = 0b110

abbrev pub branch_func_bgeu : ℕ
branch_func_bgeu = 0b111

-- enum insn_load_func
abbrev pub load_func_lb : ℕ
load_func_lb = 0b000

abbrev pub load_func_lh : ℕ
load_func_lh = 0b001

abbrev pub load_func_lw : ℕ
load_func_lw = 0b010

abbrev pub load_func_lbu : ℕ
load_func_lbu = 0b100

abbrev pub load_func_lhu : ℕ
load_func_lhu = 0b101

-- enum insn_imm_func
abbrev pub imm_func_addi : ℕ
imm_func_addi = 0b000

abbrev pub imm_func_slti : ℕ
imm_func_slti = 0b010

abbrev pub imm_func_sltiu : ℕ
imm_func_sltiu = 0b011

abbrev pub imm_func_xori : ℕ
imm_func_xori = 0b100

abbrev pub imm_func_ori : ℕ
imm_func_ori = 0b110

abbrev pub imm_func_andi : ℕ
imm_func_andi = 0b111

abbrev pub imm_func_slli : ℕ
imm_func_slli = 0b001

abbrev pub imm_func_srli : ℕ
imm_func_srli = 0b101

abbrev pub imm_func_srai : ℕ
imm_func_srai = 0b101

-- enum shift_func
abbrev pub shift_func_srli : ℕ
shift_func_srli = 0

abbrev pub shift_func_srai : ℕ
shift_func_srai = 32

-- enum insn_op_funct3
abbrev pub op_funct3_add : ℕ
op_funct3_add = 0

abbrev pub op_funct3_sll : ℕ
op_funct3_sll = 1

abbrev pub op_funct3_slt : ℕ
op_funct3_slt = 2

abbrev pub op_funct3_sltu : ℕ
op_funct3_sltu = 3

abbrev pub op_funct3_xor : ℕ
op_funct3_xor = 4

abbrev pub op_funct3_srl : ℕ
op_funct3_srl = 5

abbrev pub op_funct3_or : ℕ
op_funct3_or = 6

abbrev pub op_funct3_and : ℕ
op_funct3_and = 7

-- enum insn_op_funct7
abbrev pub op_funct7_add : ℕ
op_funct7_add = 0

abbrev pub op_funct7_sub : ℕ
op_funct7_sub = 32

abbrev pub op_funct7_sll : ℕ
op_funct7_sll = 0

abbrev pub op_funct7_slt : ℕ
op_funct7_slt = 0

abbrev pub op_funct7_sltu : ℕ
op_funct7_sltu = 0

abbrev pub op_funct7_xor : ℕ
op_funct7_xor = 0

abbrev pub op_funct7_srl : ℕ
op_funct7_srl = 0

abbrev pub op_funct7_sra : ℕ
op_funct7_sra = 32

abbrev pub op_funct7_or : ℕ
op_funct7_or = 0

abbrev pub op_funct7_and : ℕ
op_funct7_and = 0

-- enum ecall_imm
abbrev pub ecall_ecall : ℕ
ecall_ecall = 0

abbrev pub ecall_ebreak : ℕ
ecall_ebreak = 32
