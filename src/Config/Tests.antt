-- ===== src/Config/Tests.antt =====
-- internal/config/color.go: colours that are read and written.
use tuicord_v.Base.{◌≡◌, refl, ◌&&◌, not, [], ◌∷◌, ◌==◌, arith}
use tuicord_v.Config.{
  Text, trim, trim_sign, is_empty, byte_length, parsed, not_six_digits, not_hex, parse_trimmed,
  parse_color, color_hex,
}
use tuicord_v.Config.Hex.{is_error, all_hex, parse_color-color_hex, is_error-parse_color}
use tuicord_v.Screen.Cells.{rgb}

-- A space, and #5865F2.
abbrev blurple : Text
blurple = 32 ∷ 35 ∷ 53 ∷ 56 ∷ 54 ∷ 53 ∷ 70 ∷ 50 ∷ []

read : parse_color blurple ≡ parsed (rgb 88 101 242)
unfolding parse_color parse_trimmed
read = refl

-- #5865, and six digits of which one is a g.
short : parse_color (35 ∷ 53 ∷ 56 ∷ 54 ∷ 53 ∷ []) ≡ not_six_digits
unfolding parse_color parse_trimmed
short = refl

bad : parse_color (53 ∷ 56 ∷ 54 ∷ 53 ∷ 70 ∷ 103 ∷ []) ≡ not_hex
unfolding parse_color parse_trimmed
bad = refl

parse_color-color_hex_example : parse_color (color_hex (rgb 88 101 242)) ≡ parsed (rgb 88 101 242)
parse_color-color_hex_example =
    parse_color-color_hex (rgb 88 101 242) (omega arith) (omega arith) (omega arith)

is_error-parse_color_example : is_error (parse_color blurple) ≡ (
    not (is_empty (trim blurple))
    && not (byte_length (trim_sign (trim blurple)) == 6 && all_hex (trim_sign (trim blurple))))
is_error-parse_color_example = is_error-parse_color blurple
