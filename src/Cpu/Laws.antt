-- ===== src/Cpu/Laws.antt =====
-- Command lines that say what they should are read back.
use Prim.Native.String.{String}
use rv32isam.Base.{ℕ, ◌≡◌, List, [], ◌∷◌, Option, none, some, true}
use rv32isam.Cpu.{InputMode, mode_raw, mode_elf, CliOptions, positional, classify, empend, in_range}

-- What a command line asks for, one after another.
pub data Setting : Type 0 where
  file : String → Setting
  with_mode : InputMode → Setting
  with_data : String → Setting

abbrev pub mode_name : InputMode → String
mode_name mode_raw = "raw"
mode_name mode_elf = "elf"

abbrev pub render : List Setting → List String
render [] = []
render (file name ∷ rest) = name ∷ render rest
render (with_mode mode ∷ rest) = "--mode" ∷ mode_name mode ∷ render rest
render (with_data size ∷ rest) = "--empend-segment" ∷ size ∷ render rest

module _ (strtoull : String → ℕ) where
  -- Sizes in range, and one file in all, whose name is no flag; the file may be given already.
  abbrev pub AreGood : Option String → List Setting → Type 0
  AreGood none [] = ⊥
  AreGood (some name) [] = Unit
  AreGood none (file name ∷ rest) = (classify name ≡ positional) × AreGood (some name) rest
  AreGood (some other) (file name ∷ rest) = ⊥
  AreGood given (with_mode mode ∷ rest) = AreGood given rest
  AreGood given (with_data size ∷ rest) = (in_range strtoull size ≡ true) × AreGood given rest

  abbrev pub apply : CliOptions → List Setting → CliOptions
  apply opts [] = opts
  apply opts (file name ∷ rest) = apply (record opts { input_file = some name }) rest
  apply opts (with_mode mode ∷ rest) = apply (record opts { mode = mode }) rest
  apply opts (with_data size ∷ rest) = apply (empend strtoull opts size) rest
