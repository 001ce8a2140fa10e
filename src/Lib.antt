-- ===== src/Lib.antt =====
-- A verification library for rv32isam: an interpreter of RV32I programs, a disassembler, and a
-- compiler from brainfuck to RV32I.
--
-- The parts, and how they interact. `interpret` (interpret.c) fetches a word from a memory image,
-- disassembles it (rv/dasm.c), and executes it; both read the instruction's fields and immediates by
-- rv/insn.h and rv/bits.h. The compiler (bfc.c) writes instructions by the same bit-fields into a
-- growing array of bytes (bfc/out.h, bfc/out.c), whose capacity comes from common/bit_math.h. The
-- loader (loader.c) maps the image that `interpret` is given.
--
-- The files:
--   Base: Boolean tests, bit operations, C integer types (common/types.h), byte memories, lists.
--     Numbers are native; a `uint32_t` is a number with its wrap-around written out, and an `int32_t`
--     is its two's complement pattern, which `signed` turns into an integer.
--   BitMath: common/bit_math.h. BitMath/Align and BitMath/PowTwo: its theorems.
--   Rv: Rv/Reg, Rv/Opcode and Rv/Funct are the enumerations of rv/insn.h, Rv/Insn its bit-fields;
--     Rv/Immediate is rv/bits.h, under the same names, with its theorems in Rv/Immediate/Value;
--     Rv/Dasm is rv/dasm.c, which gives the pieces that are printed, or an abort, and Rv/Dasm/Laws
--     its theorems.
--   Isa: the specification that interpret.c cites, for the instructions it carries out: operands,
--     encodings and effects, written independently of the code.
--   Interpret: interpret.c. Interpret/State is the register file and the memory image, Interpret/Exec
--     one round of the loop (`step`), a function for each case of its switch, and Interpret/Run the
--     loop. Exec/Valid, Exec/Frame, Exec/Fetch and Exec/Values are about one round; Exec/Decode and
--     Exec/Refines compare a round with Isa, and Exec/Prints the disassembler; Run/Laws is about runs,
--     and Run/Code about runs of code without jumps in memory that may not be written to.
--   Out: bfc/out.h and bfc/out.c, an array over a memory that holds anything at first. Out/Laws,
--     Out/At, the bytes of an array by their place, and Out/Reserved, which is about arrays that begin
--     with bytes reserved for headers.
--   Bfc: the assembler of bfc.c, with Bfc/Laws; Bfc/Compile is `compile_stdin`, with
--     Bfc/Compile/StraightLine for the characters, Bfc/Compile/Loops, Bfc/Compile/LoopWords and
--     Bfc/Compile/LoopCode for the brackets, Bfc/Compile/Balanced, the reference translation of
--     programs with loops, and Bfc/Compile/Program.
--     Bfc/Names and Bfc/Headers are the names and the headers that `emit_elf` fills in, Bfc/Emit that
--     function, Bfc/Emit/File the file that it is to write, in numbers, and Bfc/Emit/Writes and
--     Bfc/Emit/ReadBack the theorems; Bfc/Emit/Relocated, Bfc/Emit/Loaded and Bfc/Emit/Loads are about
--     the file in the loader; Bfc/Main is `main` and `emit_raw`, with Bfc/Main/Laws.
--   Bfc/Tape: what a program without loops means on a tape of cells. Tape/Code compares the code of a
--     character with it, Tape/Runs and Tape/Program runs of whole programs, Tape/Raw and Tape/Elf the
--     way from the compiler through the loader to the interpreter, and Tape/Loop
--     the start of a loop.
--   Elf: the structures and constants of the system's elf.h that the loader reads and bfc.c writes.
--   Loader: loader.c. Loader/Lists is its linked lists over a store of nodes, Loader/Layout the loop
--     that places the segments (Loader/Layout/Pair is about two of them), Loader/Image their copying,
--     Loader/Sections the relocations, Loader/Host what is asked of the system and the protections of
--     pages, Loader/ReadElf `loader_read_elf` and Loader/ReadRaw `loader_read_raw`; each has its
--     theorems in a child. Loader/Kept and Loader/Runs are about loaded programs in the interpreter.
--   Cpu: cpu.c, `parse_options` and `main`, with Cpu/Laws.
--   Tests: the theorems at concrete inputs; Tests/Loading for the loader and the command line,
--     Tests/Emitting for the compiler's files, Tests/Running for compiled programs that are run.
--
-- Bounds. `interpret` has no end of its own: `run` makes a given number of rounds, and theorems hold
-- for every number. All else ends by itself. The comparison with the specification asks for an image
-- of at most 2 ^ 31 - 2 ^ 11 bytes, since the code adds an `int32_t` to the image's address, and
-- arrays have room where they end at or below 2 ^ 31 bytes.
--
-- `emit_elf` stores the place of the section names through a pointer into the array to which the same
-- expression appends them (bfc.c:464). C leaves the order open, so the model gives `none` where that
-- append makes the array grow. `NotCrossed` is the condition under which it does not: no power of two
-- lies from the file's length before the section names to 67 bytes more; they are 68 bytes long.
--
-- What is not code of the repository: `__builtin_clz` at 0 is the parameter `clz_of_zero`; `realloc`
-- keeps the bytes below the old capacity, gives memory of any content, and does not fail; printing is
-- the list of its pieces. Where C leaves a run undefined, the outcome is `undefined` or `none`.
-- Host addresses are 64 bits wide, `char` is signed and bit-fields go up from the lowest bit, as with
-- gcc and clang on the machines that the project builds for.
--
-- The system's calls of the loader (`mmap`, `mprotect`, ...) are the record `Host`, `strtoull`
-- and the opening of a file are parameters. What is read beyond the end of a mapped file is
-- whatever its memory gives. A load or a fetch from a byte whose page has no PROT_READ, and a
-- store to one without PROT_WRITE, ends the program, `undefined`: the test is the system's, and
-- the code has none. A page's protection is taken to reach up to its size, which the image's end
-- only cuts short.
--
-- The system's calls of the compiler are the record `System`.
--
-- Not modelled: the unmapping of memory in loader.c, `out_write_uleb128`, `push` and `pop`, which have
-- no caller, the output of common/log.h, and sam.c.
pub mod Base
pub mod BitMath
pub mod Rv
pub mod Isa
pub mod Interpret
pub mod Out
pub mod Bfc
pub mod Elf
pub mod Loader
pub mod Cpu
pub mod Tests
