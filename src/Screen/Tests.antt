-- ===== src/Screen/Tests.antt =====
-- internal/tui/screen: runs on small frames.
use package.text.Mathlib.Text.{◌==◌ as str_eq}
use package.text.Mathlib.TextEquality.{eq_iff}
use tuicord_v.Base.{
  ℕ, ◌≡◌, refl, sym, ap, false, [], ◌∷◌, Option, none, some, String, if◌then◌else◌, arith, get_or,
  drop, ◌≤◌, Bool-cases, inl, inr, ◌<◌, ◌∙◌,
}
use tuicord_v.Screen.Cells.{
  Cell, Buffer, cell, put, blank, default_style, rgb, default_color, new_buffer, clear_left,
  clear_right, clear_cell, of_cluster, normalize_cell, fitting_cell, set_cell,
}
use tuicord_v.Screen.Colors.{
  true_color, encode_style, ansi16_color, ansi16_index, color_distance, default_ansi16_palette,
}
use tuicord_v.Screen.Nearest.{ansi16_index-nearest}
use tuicord_v.Screen.Diff.{
  move, sgr, content, reset, equal_cell, prev_cell, write_cell, is_skipped, run, scan, rows,
  emit_diff, same_size,
}
use tuicord_v.Screen.Frame.{Shows, emit_diff-Shows}
use tuicord_v.Screen.Repaint.{shown}
use tuicord_v.Screen.SetCell.{HasClusters, new_buffer-IsBuffer, set_cell-IsBuffer}
use tuicord_v.Screen.Terminal.{Terminal, exec_all, IsPaired}
use tuicord_v.Screen.Writes.{IsBuffer}

abbrev letter : String → Cell
letter s = record { content = s; wide = false; style = default_style; continuation = false }

-- Every text is one cluster: a "w" is wide.
abbrev clusters_of : String → Option (String × ℕ)
clusters_of s = if str_eq s "w" then some ("w", 2) else some ("a", 1)

abbrev text_of : Option (String × ℕ) → String
text_of none = "a"
text_of (some (cluster, _)) = cluster

clusters_of-HasClusters : HasClusters clusters_of
clusters_of-HasClusters s cluster width e = elim (Bool-cases (str_eq s "w")) [
  | inl w ↦ λ h. ground (arith, eq_iff "w" "", ap text_of e, w, h)
  | inr a ↦ λ h. ground (arith, eq_iff "a" "", ap text_of e, a, h)
]

abbrev old_frame : Buffer
old_frame = set_cell clusters_of (new_buffer 3 1) 0 0 (letter "w")

abbrev new_frame : Buffer
new_frame = set_cell clusters_of (new_buffer 3 1) 1 0 (letter "w")

old_frame-IsBuffer : IsBuffer old_frame
old_frame-IsBuffer =
    set_cell-IsBuffer clusters_of clusters_of-HasClusters (new_buffer 3 1) (new_buffer-IsBuffer 3 1)
      0 0 (letter "w")

abbrev screen : Terminal
screen = record { grid = λ x y. cell old_frame x y; column = 0; row = 0; pen = default_style }

-- A wide cell that is set one column further tears the old one apart.
writes :
    emit_diff true_color [] (some old_frame) new_frame
    ≡ move 0 0 ∷ sgr default_style ∷ content blank ∷ content (cell new_frame 1 0) ∷ reset ∷ []
unfolding emit_diff encode_style rows scan run is_skipped equal_cell prev_cell write_cell set_cell
    cell fitting_cell normalize_cell of_cluster clear_cell clear_left clear_right put new_buffer
writes = refl

new_frame-IsBuffer : IsBuffer new_frame
new_frame-IsBuffer =
    set_cell-IsBuffer clusters_of clusters_of-HasClusters (new_buffer 3 1) (new_buffer-IsBuffer 3 1)
      1 0 (letter "w")

set_cell-IsBuffer_example : IsBuffer (set_cell clusters_of old_frame 1 0 (letter "w"))
set_cell-IsBuffer_example =
    set_cell-IsBuffer clusters_of clusters_of-HasClusters old_frame old_frame-IsBuffer 1 0
      (letter "w")

old_same_size : same_size (some old_frame) new_frame ≡ some old_frame
unfolding set_cell cell fitting_cell normalize_cell of_cluster clear_cell clear_left clear_right put
    new_buffer
old_same_size = refl

screen-Shows :
    (b : Buffer)
    → same_size (some old_frame) new_frame ≡ some b
    → Shows (encode_style true_color []) b screen
unfolding prev_cell encode_style
screen-Shows b e x y hx hy = ap (λ (o : Option Buffer). prev_cell o x y) (sym old_same_size ∙ e)

screen-IsPaired : (y : ℕ) → y < new_frame.h → IsPaired new_frame.w (λ x. screen.grid x y)
unfolding set_cell cell fitting_cell normalize_cell of_cluster clear_cell clear_left clear_right put
    new_buffer
screen-IsPaired y hy = old_frame-IsBuffer.grid.paired y hy

in_columns : 1 < new_frame.w
unfolding set_cell cell fitting_cell normalize_cell of_cluster clear_cell clear_left clear_right put
    new_buffer
in_columns = omega arith

in_rows : 0 < new_frame.h
unfolding set_cell cell fitting_cell normalize_cell of_cluster clear_cell clear_left clear_right put
    new_buffer
in_rows = omega arith

emit_diff-Shows_example :
    (exec_all default_style (emit_diff true_color [] (some old_frame) new_frame) screen).grid 1 0
    ≡ shown (encode_style true_color []) (cell new_frame 1 0)
emit_diff-Shows_example =
    emit_diff-Shows true_color [] default_style (some old_frame) new_frame screen screen-IsPaired
      new_frame-IsBuffer screen-Shows 1 0 in_columns in_rows

-- An orange becomes the olive of the palette, which is the colour 3.
ansi16_index-nearest_example :
    color_distance (rgb 150 100 0) (
      get_or default_ansi16_palette
        (ansi16_index (ansi16_color (rgb 150 100 0) default_ansi16_palette) default_ansi16_palette)
        default_color)
    ≤ color_distance (rgb 150 100 0) (get_or default_ansi16_palette 11 default_color)
ansi16_index-nearest_example =
    ansi16_index-nearest (rgb 150 100 0) (rgb 0 0 0) (drop 1 default_ansi16_palette) 11
      (omega arith)
