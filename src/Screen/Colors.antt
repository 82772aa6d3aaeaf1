-- ===== src/Screen/Colors.antt =====
-- internal/tui/screen/diff.go: the colours of a terminal with sixteen of them.
use tuicord_v.Base.{
  ℕ, ◌+◌, ◌-◌, ◌*◌, Bool, true, false, ◌&&◌, not, List, [], ◌∷◌, ltb, ◌==◌, if◌then◌else◌,
}
use tuicord_v.Screen.Cells.{Color, Style, default_color, rgb}

abbrev pub eq_bool : Bool → Bool → Bool
eq_bool true b = b
eq_bool false b = not b

abbrev pub equal_color : Color → Color → Bool
equal_color a b = a.r == b.r && a.g == b.g && a.b == b.b && eq_bool a.is_set b.is_set

pub data ColorMode : Type 0 where
  true_color : ColorMode
  tty16 : ColorMode

-- Sixteen colours.
abbrev pub Palette : Type 0
Palette = List Color

abbrev pub default_ansi16_palette : Palette
default_ansi16_palette =
    rgb 0 0 0
    ∷ rgb 128 0 0
    ∷ rgb 0 128 0
    ∷ rgb 128 128 0
    ∷ rgb 0 0 128
    ∷ rgb 128 0 128
    ∷ rgb 0 128 128
    ∷ rgb 192 192 192
    ∷ rgb 128 128 128
    ∷ rgb 255 0 0
    ∷ rgb 0 255 0
    ∷ rgb 255 255 0
    ∷ rgb 0 0 255
    ∷ rgb 255 0 255
    ∷ rgb 0 255 255
    ∷ rgb 255 255 255
    ∷ []

-- The square of a difference is that of its size.
abbrev gap : ℕ → ℕ → ℕ
gap a b = (a - b) + (b - a)

unfoldable pub color_distance : Color → Color → ℕ
color_distance a b =
    gap a.r b.r * gap a.r b.r + gap a.g b.g * gap a.g b.g + gap a.b b.b * gap a.b b.b

-- The loop over the candidates, with the best one so far and its distance.
unfoldable pub nearest : Color → Color → ℕ → List Color → Color
nearest c best best_distance [] = best
nearest c best best_distance (q ∷ qs) =
    let distance = color_distance c q in
    if ltb distance best_distance then nearest c q distance qs else nearest c best best_distance qs

unfoldable pub ansi16_color : Color → Palette → Color
ansi16_color c [] = default_color
ansi16_color c (p ∷ ps) = nearest c p (color_distance c p) ps

-- The loop from the index i on.
unfoldable pub find_color : Color → ℕ → Palette → ℕ
find_color c i [] = 0
find_color c i (p ∷ ps) = if equal_color c p then i else find_color c (i + 1) ps

unfoldable pub ansi16_index : Color → Palette → ℕ
ansi16_index c palette = find_color c 0 palette

unfoldable pub encode_style : ColorMode → Palette → Style → Style
encode_style true_color palette style = style
encode_style tty16 palette style = record style {
  fg = if style.fg.is_set then ansi16_color style.fg palette else style.fg;
  bg = if style.bg.is_set then ansi16_color style.bg palette else style.bg;
}
