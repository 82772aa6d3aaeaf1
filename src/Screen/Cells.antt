-- ===== src/Screen/Cells.antt =====
-- internal/tui/screen/types.go and buffer.go: cells, and a buffer of them. The first cluster of a text
-- with its width comes from a package for Unicode text, so it is a parameter.
use package.text.Mathlib.Text.{◌==◌ as str_eq}
use tuicord_v.Base.{
  ℕ, ◌+◌, ◌-◌, ◌*◌, Bool, true, false, ◌&&◌, List, Option, none, some, String, get_or, set,
  replicate, length, ltb, ◌==◌, if◌then◌else◌, ◌%◌, not,
}

pub record Color : Type 0 where
  pub r : ℕ
  pub g : ℕ
  pub b : ℕ
  pub is_set : Bool

abbrev pub rgb : ℕ → ℕ → ℕ → Color
rgb r g b = record { r = r; g = g; b = b; is_set = true }

-- The zero value, the terminal's default colour.
abbrev pub default_color : Color
default_color = record { r = 0; g = 0; b = 0; is_set = false }

-- The attributes are a set of bits.
pub record Style : Type 0 where
  pub fg : Color
  pub bg : Color
  pub attrs : ℕ

abbrev pub default_style : Style
default_style = record { fg = default_color; bg = default_color; attrs = 0 }

pub record Cell : Type 0 where
  pub content : String
  pub wide : Bool
  pub style : Style
  pub continuation : Bool

-- `Blank`.
abbrev pub blank : Cell
blank = record { content = " "; wide = false; style = default_style; continuation = false }

-- A buffer, its graphics aside.
pub record Buffer : Type 0 where
  pub w : ℕ
  pub h : ℕ
  pub cells : List Cell
  pub layer : ℕ
  pub cell_layer : List ℕ

-- A size below 0 is read as 0.
unfoldable pub new_buffer : ℕ → ℕ → Buffer
new_buffer w h = record {
  w = w;
  h = h;
  cells = replicate (w * h) blank;
  layer = 0;
  cell_layer = replicate (w * h) 0;
}

unfoldable pub clear : Buffer → Buffer
clear b = record b {
  cells = replicate (length b.cells) blank;
  layer = 0;
  cell_layer = replicate (length b.cell_layer) 0;
}

unfoldable pub set_layer : Buffer → ℕ → Buffer
set_layer b n = record b { layer = n }

-- Coordinates that are not negative.
abbrev pub inside : Buffer → ℕ → ℕ → Bool
inside b x y = ltb x b.w && ltb y b.h

abbrev pub index : Buffer → ℕ → ℕ → ℕ
index b x y = y * b.w + x

-- `Cell`: a read out of bounds gives a blank.
unfoldable pub cell : Buffer → ℕ → ℕ → Cell
cell b x y = if inside b x y then get_or b.cells (index b x y) blank else blank

-- A write of one cell, under the layer of the buffer.
unfoldable pub put : Buffer → ℕ → Cell → Buffer
put b i c = record b { cells = set b.cells i c; cell_layer = set b.cell_layer i (b.layer % 256) }

-- The left half of a wide cell is blanked when its right half is.
unfoldable pub clear_left : Buffer → ℕ → ℕ → Cell → Buffer
clear_left b x y c =
    let left = index b (x - 1) y in
    if c.continuation && ltb 0 x && (get_or b.cells left blank).wide then put b left blank else b

unfoldable pub clear_right : Buffer → ℕ → ℕ → Cell → Buffer
clear_right b x y c = if c.wide && ltb (x + 1) b.w then put b (index b x y + 1) blank else b

unfoldable pub clear_cell : Buffer → ℕ → ℕ → Buffer
clear_cell b x y =
    let c = get_or b.cells (index b x y) blank in
    if inside b x y then put (clear_right (clear_left b x y c) x y c) (index b x y) blank else b

-- The right half of a wide cell.
abbrev pub right_of : Cell → Cell
right_of c = record blank { style = c.style; continuation = true }

-- A cell whose content becomes the first cluster, of width 0 a space.
unfoldable pub of_cluster : Cell → Option (String × ℕ) → Cell
of_cluster c none = record c { content = " "; wide = false; continuation = false }
of_cluster c (some (cluster, width)) = record c {
  content = if width == 0 then " " else cluster;
  wide = width == 2;
  continuation = false;
}

module _ (first_cluster : String → Option (String × ℕ)) where
  unfoldable pub normalize_cell : Cell → Cell
  normalize_cell c = of_cluster c (first_cluster (if str_eq c.content "" then " " else c.content))

  -- The cell that is written where x + 1 is the next column.
  unfoldable pub fitting_cell : Buffer → ℕ → Cell → Cell
  fitting_cell b x given =
      let c = normalize_cell given in if c.wide && not (ltb (x + 1) b.w) then blank else c

  -- `Set`, at coordinates that are not negative.
  unfoldable pub set_cell : Buffer → ℕ → ℕ → Cell → Buffer
  set_cell b x y given =
      let c = fitting_cell b x given in
      let cleared = clear_cell b x y in
      let freed = if c.wide then clear_cell cleared (x + 1) y else cleared in
      let written = put freed (index b x y) c in
      if inside b x y
      then (if c.wide then put written (index b x y + 1) (right_of c) else written)
      else b
