-- ===== src/Rv/Reg.antt =====
-- rv/insn.h: the registers' ABI names.
use rv32isam.Base.{ℕ}

-- enum rv32_abi_reg
abbrev pub rv_zero : ℕ
rv_zero = 0

abbrev pub rv_ra : ℕ
rv_ra = 1

abbrev pub rv_sp : ℕ
rv_sp = 2

abbrev pub rv_gp : ℕ
rv_gp = 3

abbrev pub rv_tp : ℕ
rv_tp = 4

abbrev pub rv_t0 : ℕ
rv_t0 = 5

abbrev pub rv_t1 : ℕ
rv_t1 = 6

abbrev pub rv_t2 : ℕ
rv_t2 = 7

abbrev pub rv_s0 : ℕ
rv_s0 = 8

abbrev pub rv_fp : ℕ
rv_fp = 8

abbrev pub rv_s1 : ℕ
rv_s1 = 9

abbrev pub rv_a0 : ℕ
rv_a0 = 10

abbrev pub rv_a1 : ℕ
rv_a1 = 11

abbrev pub rv_a2 : ℕ
rv_a2 = 12

abbrev pub rv_a3 : ℕ
rv_a3 = 13

abbrev pub rv_a4 : ℕ
rv_a4 = 14

abbrev pub rv_a5 : ℕ
rv_a5 = 15

abbrev pub rv_a6 : ℕ
rv_a6 = 16

abbrev pub rv_a7 : ℕ
rv_a7 = 17

abbrev pub rv_s2 : ℕ
rv_s2 = 18

abbrev pub rv_s3 : ℕ
rv_s3 = 19

abbrev pub rv_s4 : ℕ
rv_s4 = 20

abbrev pub rv_s5 : ℕ
rv_s5 = 21

abbrev pub rv_s6 : ℕ
rv_s6 = 22

abbrev pub rv_s7 : ℕ
rv_s7 = 23

abbrev pub rv_s8 : ℕ
rv_s8 = 24

abbrev pub rv_s9 : ℕ
rv_s9 = 25

abbrev pub rv_s10 : ℕ
rv_s10 = 26

abbrev pub rv_s11 : ℕ
rv_s11 = 27

abbrev pub rv_t3 : ℕ
rv_t3 = 28

abbrev pub rv_t4 : ℕ
rv_t4 = 29

abbrev pub rv_t5 : ℕ
rv_t5 = 30

abbrev pub rv_t6 : ℕ
rv_t6 = 31
