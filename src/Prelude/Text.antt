-- ===== src/Prelude/Text.antt =====
-- Texts: dictionaries with text keys, `str.split(".")` and the substring test `in`.
use Prim.Native.Char.{Char, code}
use Prim.Native.String.{String}
use mathlib.Core.Bool.{Bool, ◌||◌}
use mathlib.Core.Option.{Option, none, some}
use mathlib.Core.List.{List, [], ◌∷◌}
use text.Mathlib.Text.{◌==◌ as str_eq, starts_with}
use fraud_detection.Prelude.Tests.{◌==◌, if◌then◌else◌}

-- `table.get(name)`
unfoldable pub named : {V : Type 0} → String → List (String × V) → Option V
named name [] = none
named name ((key, v) ∷ rest) = if str_eq key name then some v else named name rest

-- adds a character to the first part
abbrev pub to_first : Char → List String → List String
to_first c [] = (String.◌∷◌ c "") ∷ []
to_first c (part ∷ parts) = (String.◌∷◌ c part) ∷ parts

-- `text.split(".")`
unfoldable pub split_dots : String → List String
split_dots String.[] = "" ∷ []
split_dots (String.◌∷◌ c rest) =
    let parts = split_dots rest in if code c == b'.' then "" ∷ parts else to_first c parts

-- `needle in haystack`, of texts
unfoldable pub is_part_of : String → String → Bool
is_part_of needle String.[] = starts_with needle ""
is_part_of needle (String.◌∷◌ c rest) =
    starts_with (String.◌∷◌ c rest) needle || is_part_of needle rest
