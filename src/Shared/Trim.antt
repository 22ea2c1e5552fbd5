-- ===== src/Shared/Trim.antt =====
-- `trim()` and `toUpperCase()` on texts.
use Prim.Native.Nat.{ℕ, ◌-◌}
use Prim.Native.Char.{Char, code}
use Prim.Native.String.{String}
use mathlib.Core.Path.{◌≡◌, refl}
use mathlib.Core.Bool.{Bool, true, false, ◌&&◌, ◌||◌}
use training_travel_booking.Shared.Tests.{leb, ◌==◌, if◌then◌else◌}
use training_travel_booking.Shared.Text.{char_at}

abbrev pub is_lower : ℕ → Bool
is_lower c = leb b'a' c && leb c b'z'

-- The white space and line ends of ECMAScript.
abbrev pub is_space : ℕ → Bool
is_space c =
    leb 9 c && leb c 13
    || c == 32
    || c == 160
    || c == 5760
    || leb 8192 c && leb c 8202
    || c == 8232
    || c == 8233
    || c == 8239
    || c == 8287
    || c == 12288
    || c == 65279

abbrev pub is_empty : String → Bool
is_empty String.[] = true
is_empty (String.◌∷◌ c s) = false

abbrev pub cut_before : Char → String → String
cut_before c rest = if is_space (code c) && is_empty rest then String.[] else String.◌∷◌ c rest

unfoldable pub trim_end : String → String
trim_end String.[] = String.[]
trim_end (String.◌∷◌ c s) = cut_before c (trim_end s)

unfoldable pub trim_start : String → String
trim_start String.[] = String.[]
trim_start (String.◌∷◌ c s) =
    let rest = trim_start s in if is_space (code c) then rest else String.◌∷◌ c s

unfoldable pub trim : String → String
unfolding trim_end trim_start
trim s = trim_start (trim_end s)

-- A letter of ASCII as its capital, any other character as it is.
abbrev pub upper : Char → Char
upper c = if is_lower (code c) then char_at (code c - b'a') "ABCDEFGHIJKLMNOPQRSTUVWXYZ" c else c

-- `toUpperCase()` of a text without letters beyond ASCII.
unfoldable pub to_upper_case : String → String
unfolding char_at
to_upper_case String.[] = String.[]
to_upper_case (String.◌∷◌ c s) = String.◌∷◌ (upper c) (to_upper_case s)

to_upper_case_example : to_upper_case (trim " lhr ") ≡ "LHR"
unfolding to_upper_case trim trim_end trim_start char_at
to_upper_case_example = refl
