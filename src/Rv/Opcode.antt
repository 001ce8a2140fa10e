-- ===== src/Rv/Opcode.antt =====
-- rv/insn.h: the major opcodes.
use rv32isam.Base.{ℕ}

-- enum insn_op
abbrev pub op_load : ℕ
op_load = 0b0000011

abbrev pub op_load_fp : ℕ
op_load_fp = 0b0000111

abbrev pub op_custom_0 : ℕ
op_custom_0 = 0b0001011

abbrev pub op_misc_mem : ℕ
op_misc_mem = 0b0001111

abbrev pub op_imm : ℕ
op_imm = 0b0010011

abbrev pub op_auipc : ℕ
op_auipc = 0b0010111

abbrev pub op_imm_32 : ℕ
op_imm_32 = 0b0011011

abbrev pub op_store : ℕ
op_store = 0b0100011

abbrev pub op_store_fp : ℕ
op_store_fp = 0b0100111

abbrev pub op_custom_1 : ℕ
op_custom_1 = 0b0101011

abbrev pub op_amo : ℕ
op_amo = 0b0101111

abbrev pub op_op : ℕ
op_op = 0b0110011

abbrev pub op_lui : ℕ
op_lui = 0b0110111

abbrev pub op_op_32 : ℕ
op_op_32 = 0b0111011

abbrev pub op_madd : ℕ
op_madd = 0b1000011

abbrev pub op_msub : ℕ
op_msub = 0b1000111

abbrev pub op_nmsub : ℕ
op_nmsub = 0b1001011

abbrev pub op_nmadd : ℕ
op_nmadd = 0b1001111

abbrev pub op_fp : ℕ
op_fp = 0b1010011

abbrev pub op_custom2_rv128 : ℕ
op_custom2_rv128 = 0b1011011

abbrev pub op_branch : ℕ
op_branch = 0b1100011

abbrev pub op_jalr : ℕ
op_jalr = 0b1100111

abbrev pub op_jal : ℕ
op_jal = 0b1101111

abbrev pub op_system : ℕ
op_system = 0b1110011

abbrev pub op_custom3_rv128 : ℕ
op_custom3_rv128 = 0b1111011
