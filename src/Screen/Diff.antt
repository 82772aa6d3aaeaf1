-- ===== src/Screen/Diff.antt =====
-- internal/tui/screen/diff.go: the writes that turn one frame into the next. What is written into
-- `out` is a list of writes; each stands for its bytes.
use package.text.Mathlib.Text.{◌==◌ as str_eq}
use tuicord_v.Base.{
  ℕ, zero, suc, ◌+◌, Bool, false, ◌&&◌, ◌||◌, not, List, [], ◌∷◌, ◌++◌, Option, none, some, ltb,
  ◌==◌, if◌then◌else◌,
}
use tuicord_v.Screen.Cells.{Style, Cell, Buffer, cell, default_style}
use tuicord_v.Screen.Colors.{
  eq_bool, equal_color, ColorMode, Palette, encode_style, default_ansi16_palette, true_color, tty16,
}

abbrev pub equal_style : Style → Style → Bool
equal_style a b = equal_color a.fg b.fg && equal_color a.bg b.bg && a.attrs == b.attrs

unfoldable pub equal_cell : Cell → Cell → Bool
equal_cell a b =
    str_eq a.content b.content
    && eq_bool a.wide b.wide
    && equal_style a.style b.style
    && eq_bool a.continuation b.continuation

-- `Cell{}`.
abbrev pub zero_cell : Cell
zero_cell = record { content = ""; wide = false; style = default_style; continuation = false }

unfoldable pub prev_cell : Option Buffer → ℕ → ℕ → Cell
prev_cell none x y = zero_cell
prev_cell (some prev) x y = cell prev x y

-- What is written: a cursor position, a style, a cell's content, and the reset of the style.
pub data Output : Type 0 where
  move : ℕ → ℕ → Output
  sgr : Style → Output
  content : Cell → Output
  reset : Output

-- The style that was written last, if any.
abbrev pub Pen : Type 0
Pen = Option Style

abbrev pub is_pen : Pen → Style → Bool
is_pen none style = false
is_pen (some last) style = equal_style style last

abbrev pub width : Cell → ℕ
width c = if c.wide then 2 else 1

-- What is written for one cell.
unfoldable pub write_cell : (Style → Style) → Pen → Cell → List Output
write_cell encode pen c =
    let style = encode c.style in
    if is_pen pen style then content c ∷ [] else sgr style ∷ content c ∷ []

-- The test of both loops: there is nothing to write at x, y.
unfoldable pub is_skipped : Option Buffer → Buffer → ℕ → ℕ → Bool
is_skipped prev next x y =
    (cell next x y).continuation || equal_cell (prev_cell prev x y) (cell next x y)

module _ (encode : Style → Style) (prev : Option Buffer) (next : Buffer) where
  -- The inner loop: the writes, the column where it stops, and the style then. The first number is a
  -- bound of the columns that are left.
  unfoldable pub run : ℕ → ℕ → ℕ → Pen → List Output × ℕ × Pen
  run zero x y pen = ([], x, pen)
  run (suc n) x y pen =
      let c = cell next x y in
      let (out, stop, last) = run n (x + width c) y (some (encode c.style)) in
      if not (ltb x next.w) || is_skipped prev next x y
      then ([], x, pen)
      else (write_cell encode pen c ++ out, stop, last)

  -- The outer loop over a row.
  unfoldable pub scan : ℕ → ℕ → ℕ → Pen → List Output × Pen
  scan zero x y pen = ([], pen)
  scan (suc n) x y pen =
      let (written, stop, last) = run (suc n) x y pen in
      let skip = is_skipped prev next x y in
      let (out, end) = scan n (if skip then x + 1 else stop) y (if skip then pen else last) in
      if not (ltb x next.w)
      then ([], pen)
      else if skip
      then (out, end)
      else (move x y ∷ written ++ out, end)

  -- The loop over the rows from y on.
  unfoldable pub rows : ℕ → ℕ → Pen → List Output × Pen
  rows zero y pen = ([], pen)
  rows (suc n) y pen =
      let (row, last) = scan next.w 0 y pen in
      let (rest, end) = rows n (y + 1) last in (row ++ rest, end)

abbrev pub same_size : Option Buffer → Buffer → Option Buffer
same_size none next = none
same_size (some prev) next = if prev.w == next.w && prev.h == next.h then some prev else none

abbrev pub closing : Pen → List Output
closing none = []
closing (some style) = reset ∷ []

-- `emitDiff`, for a next frame.
unfoldable pub emit_diff : ColorMode → Palette → Option Buffer → Buffer → List Output
emit_diff mode palette prev next =
    let (out, pen) = rows (encode_style mode palette) (same_size prev next) next next.h 0 none in
    out ++ closing pen

-- `DiffWithColorMode`, `Diff` and `DiffWithPalette`.
unfoldable pub diff_with_color_mode : Option Buffer → Buffer → ColorMode → List Output
diff_with_color_mode prev next mode = emit_diff mode default_ansi16_palette prev next

unfoldable pub diff : Option Buffer → Buffer → List Output
diff prev next = diff_with_color_mode prev next true_color

unfoldable pub diff_with_palette : Option Buffer → Buffer → Palette → List Output
diff_with_palette prev next palette = emit_diff tty16 palette prev next
