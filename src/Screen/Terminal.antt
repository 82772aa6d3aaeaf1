-- ===== src/Screen/Terminal.antt =====
-- What a terminal does with the writes of a frame: a grid of cells with a cursor and a style. Where a
-- glyph covers one half of a wide one, the other half is left as a space in some style.
use tuicord_v.Base.{
  ℕ, suc, ◌+◌, ◌<◌, ◌≡◌, Bool, true, false, ◌&&◌, ◌||◌, List, [], ◌∷◌, ◌++◌, refl, ◌==◌,
  if◌then◌else◌,
}
use tuicord_v.Screen.Cells.{Style, Cell, blank, right_of, default_style}
use tuicord_v.Screen.Diff.{Output, move, sgr, content, reset}

-- The grid gives the cell at a column and a row.
pub record Terminal : Type 0 where
  pub grid : ℕ → ℕ → Cell
  pub column : ℕ
  pub row : ℕ
  pub pen : Style

abbrev pub Row : Type 0
Row = ℕ → Cell

abbrev pub debris : Style → Cell
debris left = record blank { style = left }

-- Whether the cell x is the other half of a wide glyph that a glyph at the column cx covers.
abbrev pub is_torn : Row → ℕ → Bool → ℕ → Bool
is_torn cells cx wide x =
    x + 1 == cx && (cells cx).continuation && (cells x).wide
    || x == cx + 1 && (cells cx).wide
    || wide && x == cx + 2 && (cells (cx + 1)).wide

-- A row after a glyph is drawn into it.
abbrev pub drawn : Style → Row → ℕ → Cell → Row
drawn left cells cx glyph x =
    if x == cx
    then glyph
    else if glyph.wide && x == cx + 1
    then right_of glyph
    else if is_torn cells cx glyph.wide x
    then debris left
    else cells x

abbrev pub glyph : Style → Cell → Cell
glyph pen c = record c { style = pen; continuation = false }

module _ (left : Style) where
  unfoldable pub exec : Output → Terminal → Terminal
  exec (move x y) t = record t { column = x; row = y }
  exec (sgr style) t = record t { pen = style }
  exec reset t = record t { pen = default_style }
  exec (content c) t = record t {
    grid = λ x y.
        if y == t.row then drawn left (λ j. t.grid j y) t.column (glyph t.pen c) x else t.grid x y;
    column = t.column + (if c.wide then 2 else 1);
  }

  unfoldable pub exec_all : List Output → Terminal → Terminal
  exec_all [] t = t
  exec_all (o ∷ os) t = exec_all os (exec o t)

  pub exec_all-append :
      (xs ys : List Output) (t : Terminal) → exec_all (xs ++ ys) t ≡ exec_all ys (exec_all xs t)
  unfolding exec_all
  exec_all-append [] ys t = refl
  exec_all-append (x ∷ xs) ys t = exec_all-append xs ys (exec x t)

-- Wide glyphs and right halves come in pairs, none across the right edge.
pub record IsPaired (w : ℕ) (cells : Row) : Type 0 where
  pub whole : (x : ℕ) → x < w → (cells x).wide ≡ true → (cells x).continuation ≡ false
  pub fits : (x : ℕ) → x < w → (cells x).wide ≡ true → suc x < w
  pub right : (x : ℕ) → x < w → (cells x).wide ≡ true → cells (suc x) ≡ right_of (cells x)
  pub left : (x : ℕ) → suc x < w → (cells (suc x)).continuation ≡ true → (cells x).wide ≡ true
  pub first : 0 < w → (cells 0).continuation ≡ false
