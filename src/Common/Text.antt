-- ===== src/Common/Text.antt =====
-- Python's text methods over ASCII: `lower`, `upper`, `strip`, `in`. Letters outside ASCII are left
-- as they are.
use Prim.Native.Char.{Char, code}
use Prim.Native.String.{String}
use mathlib.Core.Bool.{Bool, ◌||◌, ◌&&◌}
use text.Mathlib.Text.{starts_with}
use network_operations_platf.Common.Tests.{◌==◌, str_eq, leb, if◌then◌else◌}

-- The character of `to` that stands where `c` stands in `from`, or `c`.
unfoldable pub translate : String → String → Char → Char
translate String.[] to c = c
translate (String.◌∷◌ f from) String.[] c = c
translate (String.◌∷◌ f from) (String.◌∷◌ t to) c =
    let rest = translate from to c in if code c == code f then t else rest

abbrev pub capitals : String
capitals = "ABCDEFGHIJKLMNOPQRSTUVWXYZ"

abbrev pub smalls : String
smalls = "abcdefghijklmnopqrstuvwxyz"

unfoldable pub map_text : (Char → Char) → String → String
map_text f String.[] = String.[]
map_text f (String.◌∷◌ c s) = String.◌∷◌ (f c) (map_text f s)

unfoldable pub lower : String → String
unfolding translate map_text
lower s = map_text (translate capitals smalls) s

unfoldable pub upper : String → String
unfolding translate map_text
upper s = map_text (translate smalls capitals) s

abbrev is_space : Char → Bool
is_space c = code c == 32 || (leb 9 (code c) && leb (code c) 13)

lstrip : String → String
lstrip String.[] = String.[]
lstrip (String.◌∷◌ c s) = let rest = lstrip s in if is_space c then rest else String.◌∷◌ c s

rstrip : String → String
rstrip String.[] = String.[]
rstrip (String.◌∷◌ c s) =
    let rest = rstrip s in if is_space c && str_eq rest "" then String.[] else String.◌∷◌ c rest

unfoldable pub strip : String → String
unfolding lstrip rstrip
strip s = rstrip (lstrip s)

-- `term in text`.
unfoldable pub contains : String → String → Bool
contains term String.[] = str_eq term ""
contains term (String.◌∷◌ c s) = starts_with (String.◌∷◌ c s) term || contains term s
