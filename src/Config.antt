-- ===== src/Config.antt =====
-- internal/config/color.go and colorHex of theme.go: colours as text. A text is a list of runes, of
-- which `len` counts the bytes.
use tuicord_v.Base.{
  ℕ, zero, suc, ◌+◌, ◌-◌, ◌*◌, ◌/◌, ◌%◌, Bool, true, false, ◌&&◌, ◌||◌, List, [], ◌∷◌, ◌++◌, Option,
  none, some, ltb, leb, ◌==◌, if◌then◌else◌,
}
use tuicord_v.Screen.Cells.{Color, rgb, default_color}
pub mod Hex
mod Tests

abbrev pub Text : Type 0
Text = List ℕ

-- `unicode.IsSpace`.
abbrev pub is_space : ℕ → Bool
is_space r =
    leb 9 r && leb r 13
    || r == 32
    || r == 133
    || r == 160
    || r == 5760
    || leb 8192 r && leb r 8202
    || r == 8232
    || r == 8233
    || r == 8239
    || r == 8287
    || r == 12288

abbrev pub trim_start : Text → Text
trim_start [] = []
trim_start (r ∷ rs) = let rest = trim_start rs in if is_space r then rest else r ∷ rs

abbrev pub is_empty : Text → Bool
is_empty [] = true
is_empty (r ∷ rs) = false

abbrev pub trim_end : Text → Text
trim_end [] = []
trim_end (r ∷ rs) = let rest = trim_end rs in if is_space r && is_empty rest then [] else r ∷ rest

-- `strings.TrimSpace`.
abbrev pub trim : Text → Text
trim s = trim_end (trim_start s)

-- `strings.TrimPrefix`, of a number sign.
abbrev pub trim_sign : Text → Text
trim_sign [] = []
trim_sign (r ∷ rs) = if r == 35 then rs else r ∷ rs

abbrev pub rune_bytes : ℕ → ℕ
rune_bytes r = if ltb r 128 then 1 else if ltb r 2048 then 2 else if ltb r 65536 then 3 else 4

abbrev pub byte_length : Text → ℕ
byte_length [] = 0
byte_length (r ∷ rs) = rune_bytes r + byte_length rs

abbrev pub hex_value : ℕ → Option ℕ
hex_value r =
    if leb 48 r && leb r 57
    then some (r - 48)
    else if leb 97 r && leb r 102
    then some (r - 87)
    else if leb 65 r && leb r 70
    then some (r - 55)
    else none

-- `strconv.ParseUint` at base 16, after a value.
abbrev pub parse_hex : ℕ → Text → Option ℕ
parse_hex v [] = some v
parse_hex v (r ∷ rs) = elim (hex_value r) [ none ↦ none | some d ↦ parse_hex (v * 16 + d) rs ]

abbrev pub is_some : Option ℕ → Bool
is_some none = false
is_some (some v) = true

-- The two errors of ParseColor.
pub data ColorResult : Type 0 where
  parsed : Color → ColorResult
  not_six_digits : ColorResult
  not_hex : ColorResult

abbrev pub of_value : Option ℕ → ColorResult
of_value none = not_hex
of_value (some v) = parsed (rgb (v / 65536 % 256) (v / 256 % 256) (v % 256))

-- What is done with the trimmed text.
unfoldable pub parse_trimmed : Text → ColorResult
parse_trimmed hex =
    let digits = trim_sign hex in
    if is_empty hex
    then parsed default_color
    else if byte_length digits == 6
    then of_value (parse_hex 0 digits)
    else not_six_digits

unfoldable pub parse_color : Text → ColorResult
parse_color hex = parse_trimmed (trim hex)

abbrev pub color_or_default : ColorResult → Color
color_or_default (parsed c) = c
color_or_default not_six_digits = default_color
color_or_default not_hex = default_color

unfoldable pub must_color : Text → Color
must_color hex = color_or_default (parse_color hex)

abbrev pub hex_digit : ℕ → ℕ
hex_digit d = if ltb d 10 then 48 + d else 87 + d

abbrev pub two_digits : ℕ → Text
two_digits n = hex_digit (n / 16) ∷ hex_digit (n % 16) ∷ []

unfoldable pub color_hex : Color → Text
color_hex c = if c.is_set then 35 ∷ (two_digits c.r ++ two_digits c.g ++ two_digits c.b) else []
