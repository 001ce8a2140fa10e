-- ===== src/Cpu.antt =====
-- cpu.c: the command line of the interpreter. Its messages are left out.
pub mod Laws
use Prim.Native.Char.{code}
use Prim.Native.String.{String}
use rv32isam.Base.{
  ℕ, ◌-◌, ◌^◌, List, [], ◌∷◌, Option, none, some, Bool, true, false, not, ◌&&◌, ◌==◌, if◌then◌else◌,
}
use rv32isam.Base.Texts.{equals}
use rv32isam.Base.Word.{u32, add64}
use rv32isam.Interpret.State.{Memory}
use rv32isam.Loader.Host
use rv32isam.Loader.Host.{Host, LoadedExe}
use rv32isam.Loader.ReadElf.{loader_read_elf}
use rv32isam.Loader.ReadRaw.{loader_read_raw}

pub data InputMode : Type 0 where
  mode_raw mode_elf : InputMode

pub record CliOptions : Type 0 where
  pub input_file : Option String
  pub mode : InputMode
  pub empend_segment_size : ℕ
  pub wants_help : Bool

-- What the tests of the loop tell of an argument. `*arg` of an empty one is 0.
pub data Argument : Type 0 where
  positional mode_flag empend_flag help_flag unknown_flag : Argument

unfoldable pub classify : String → Argument
classify String.[] = positional
classify (String.◌∷◌ c arg) =
    if not (code c == 45)
    then positional
    else if equals (String.◌∷◌ c arg) "--mode"
    then mode_flag
    else if equals (String.◌∷◌ c arg) "--empend-segment"
    then empend_flag
    else if equals (String.◌∷◌ c arg) "--help"
    then help_flag
    else unknown_flag

-- `--mode`'s value.
pub read_mode : String → Option InputMode
read_mode mode =
    if equals mode "raw" then some mode_raw else if equals mode "elf" then some mode_elf else none

-- The defaults; `wants_help` keeps whatever it was.
pub defaults : CliOptions → CliOptions
defaults opts = record {
  input_file = none;
  mode = mode_elf;
  empend_segment_size = 0;
  wants_help = opts.wants_help;
}

abbrev pub is_none : Option String → Bool
is_none none = true
is_none (some s) = false

-- After the loop.
pub finish : CliOptions → Bool → Bool × CliOptions
finish opts res = (res && not (is_none opts.input_file), opts)

abbrev pub set_mode : CliOptions → Option InputMode → CliOptions
set_mode opts none = opts
set_mode opts (some mode) = record opts { mode = mode }

abbrev pub is_mode : Option InputMode → Bool
is_mode none = false
is_mode (some mode) = true

-- `strtoull` of a text in any base, ULONG_MAX where it is out of range.
module _ (strtoull : String → ℕ) where
  -- A value is added even where it was out of range.
  pub empend : CliOptions → String → CliOptions
  empend opts size = record opts {
    empend_segment_size = add64 opts.empend_segment_size (strtoull size);
  }

  unfoldable pub in_range : String → Bool
  in_range size = not (strtoull size == 2 ^ 64 - 1)

  -- The loop over the arguments that remain, with `res` so far.
  pub parse_args : CliOptions → Bool → List String → Bool × CliOptions
  parse_args opts res [] = finish opts res
  parse_args opts res (arg ∷ []) = elim (classify arg) [
    | positional ↦ finish (record opts { input_file = some arg }) (res && is_none opts.input_file)
    | mode_flag ↦ finish opts false
    | empend_flag ↦ finish opts false
    | help_flag ↦ (true, record opts { wants_help = true })
    | unknown_flag ↦ finish opts false
  ]
  parse_args opts res (arg ∷ value ∷ rest) = elim (classify arg) [
    | positional ↦
        parse_args (record opts { input_file = some arg }) (res && is_none opts.input_file)
          (value ∷ rest)
    | mode_flag ↦
        parse_args (set_mode opts (read_mode value)) (res && is_mode (read_mode value)) rest
    | empend_flag ↦ parse_args (empend opts value) (res && in_range value) rest
    | help_flag ↦ (true, record opts { wants_help = true })
    | unknown_flag ↦ parse_args opts false (value ∷ rest)
  ]

  pub parse_options : List String → CliOptions → Bool × CliOptions
  parse_options argv opts = parse_args (defaults opts) true argv

-- How `main` ends: with an exit code, by handing the image and the entry point to `interpret`, or in
-- the loader.
pub data Exit : Type 0 where
  exited : ℕ → Exit
  interprets : Memory → ℕ → Exit
  aborted undefined : Exit

pub run_loaded : Host.Loaded → Exit
run_loaded (Host.returned code exe) =
    if code == 0 then interprets exe.mem (u32 exe.entrypoint) else exited code
run_loaded Host.aborted = aborted
run_loaded Host.undefined = undefined

-- `open_file` gives the system around the opened file, if it opens; `opts` and `exe` are what the
-- two uninitialised structures hold. The size of the data segment is cut to 32 bits.
pub main :
    (String → ℕ) → (Option String → Option Host) → CliOptions → LoadedExe → List String → Exit
main strtoull open_file garbage exe [] = exited 0
main strtoull open_file garbage exe (program ∷ argv) =
    let (ok, opts) = parse_options strtoull argv garbage in
    let no_data = opts.empend_segment_size == 0 in
    if not ok then exited 1 else if opts.wants_help then exited 0 else elim opts.mode [
      | mode_raw ↦ elim (open_file opts.input_file) [
        | none ↦ exited 1
        | some host ↦ run_loaded (loader_read_raw host (u32 opts.empend_segment_size) exe)
      ]
      | mode_elf ↦ if not no_data then exited 1 else elim (open_file opts.input_file) [
        | none ↦ exited 1
        | some host ↦ run_loaded (loader_read_elf host exe)
      ]
    ]
