-- ===== src/Base/Texts.antt =====
-- Equality of texts, which `strncmp` over a literal and its terminating 0 tests.
use Prim.Native.String.{String}
use mathlib.Core.Bool.{Bool, true}
use mathlib.Core.Path.{◌≡◌}
use text.Mathlib.Text
use text.Mathlib.TextPositions.{eq_refl}

abbrev pub equals : String → String → Bool
equals s t = Text.◌==◌ s t

pub equals_refl : (s : String) → equals s s ≡ true
equals_refl s = eq_refl s
