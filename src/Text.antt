-- ===== src/Text.antt =====
-- internal/tui/text: the width of text in cells, truncation, padding and wrapping. A string is the
-- list of its runes, and `clusters` splits it into its grapheme clusters, each the list of its
-- runes, as the package uniseg does: a string that is put together is split anew. The width of a
-- rune is that of the package go-runewidth. Both are parameters.
use tuicord_v.Base.{
  ℕ, zero, suc, ◌+◌, ◌-◌, ◌%◌, max, Bool, true, false, ◌&&◌, ◌||◌, List, [], ◌∷◌, ◌++◌, Option,
  none, some, ltb, leb, ◌==◌, if◌then◌else◌, length, take, drop, replicate,
}
pub mod Width
pub mod Fit
pub mod Wrap
pub mod Content
mod Tests

abbrev pub Rune : Type 0
Rune = ℕ

abbrev pub String : Type 0
String = List Rune

abbrev pub Cluster : Type 0
Cluster = List Rune

-- The clusters of a string.
abbrev pub Text : Type 0
Text = List Cluster

abbrev pub rune_error : Rune
rune_error = 65533

abbrev pub space : Cluster
space = 32 ∷ []

abbrev pub tab : Cluster
tab = 9 ∷ []

abbrev pub newline : Cluster
newline = 10 ∷ []

abbrev pub ellipsis : String
ellipsis = 8230 ∷ []

abbrev pub is_between : ℕ → ℕ → Rune → Bool
is_between low high r = leb low r && leb r high

unfoldable pub is_emoji_presentation : Rune → Bool
is_emoji_presentation r =
    is_between 127462 127487 r
    || is_between 127744 128591 r
    || is_between 128640 128767 r
    || is_between 128768 128895 r
    || is_between 128896 129023 r
    || is_between 129024 129279 r
    || is_between 129280 129535 r
    || is_between 129648 129791 r
    || is_between 129792 130047 r

-- What a rune after the first makes of the width: VS16 and VS15.
unfoldable pub select_width : ℕ → Rune → ℕ
select_width w r =
    if r == 65039
    then (if w == 1 then 2 else w)
    else if r == 65038
    then (if w == 2 then 1 else w)
    else w

-- The loop over the runes after the first.
unfoldable pub select_widths : ℕ → List Rune → ℕ
select_widths w [] = w
select_widths w (r ∷ rs) = select_widths (select_width w r) rs

abbrev pub same_cluster : Cluster → Cluster → Bool
same_cluster [] [] = true
same_cluster [] (y ∷ ys) = false
same_cluster (x ∷ xs) [] = false
same_cluster (x ∷ xs) (y ∷ ys) = x == y && same_cluster xs ys

abbrev pub is_space : Cluster → Bool
is_space c = same_cluster c space

-- `TrimPrefix` of a space.
abbrev pub trim_space : Text → Text
trim_space [] = []
trim_space (c ∷ cs) = if is_space c then cs else c ∷ cs

-- The variables of wrapLine. The place of the last space is a number of clusters.
pub record Line : Type 0 where
  pub line : Text
  pub line_width : ℕ
  pub space_at : Option ℕ
  pub width_at : ℕ

abbrev pub empty_line : Line
empty_line = record { line = []; line_width = 0; space_at = none; width_at = 0 }

module _ (rune_width : Rune → ℕ) where
  unfoldable pub base_rune_width : Rune → ℕ
  base_rune_width r =
      if r == rune_error
      then 1
      else if ltb r 32 || (leb 127 r && ltb r 160)
      then 0
      else if is_emoji_presentation r
      then 2
      else rune_width r

  unfoldable pub cluster_width : Cluster → ℕ
  cluster_width [] = 0
  cluster_width (r ∷ rs) = select_widths (base_rune_width r) rs

  unfoldable pub width : Text → ℕ
  width [] = 0
  width (c ∷ cs) = cluster_width c + width cs

  -- The loop of Truncate over the clusters: what is written.
  unfoldable pub cut : ℕ → ℕ → Text → String
  cut budget used [] = []
  cut budget used (c ∷ cs) =
      let rest = cut budget (used + cluster_width c) cs in
      if ltb budget (used + cluster_width c) then [] else c ++ rest

  -- The loop of ExpandTabs, at a column.
  unfoldable pub expand_from : ℕ → ℕ → Text → String
  expand_from tab_width col [] = []
  expand_from tab_width col (c ∷ cs) =
      let n = tab_width - col % tab_width in
      let is_tab = same_cluster c tab in
      let is_newline = same_cluster c newline in
      let next = if is_tab then col + n else if is_newline then 0 else col + cluster_width c in
      let rest = expand_from tab_width next cs in
      if is_tab then replicate n 32 ++ rest else c ++ rest

  module _ (clusters : String → Text) where
    unfoldable pub string_width : String → ℕ
    string_width s = width (clusters s)

    unfoldable pub truncate : String → ℕ → String → String
    truncate s max_width tail =
        if max_width == 0
        then []
        else if leb (string_width s) max_width
        then s
        else cut (max_width - string_width tail) 0 (clusters s) ++ tail

    -- `strings.Repeat` panics at a negative count, which is none.
    unfoldable pub pad : String → ℕ → Bool → Option String
    pad s n left =
        let shown = if ltb n (string_width s) then truncate s n ellipsis else s in
        let fill = replicate (n - string_width shown) 32 in
        if n == 0
        then some []
        else if ltb n (string_width shown)
        then none
        else some (if left then fill ++ shown else shown ++ fill)

    unfoldable pub pad_right : String → ℕ → Option String
    pad_right s n = pad s n false

    unfoldable pub pad_left : String → ℕ → Option String
    pad_left s n = pad s n true

    unfoldable pub expand_tabs : String → ℕ → String
    expand_tabs s tab_width = expand_from (if tab_width == 0 then 4 else tab_width) 0 (clusters s)

  -- The end of a round of wrapLine.
  unfoldable pub add_cluster : Cluster → Line → Line
  add_cluster c l = record l {
    line = l.line ++ (c ∷ []);
    line_width = l.line_width + cluster_width c;
    space_at = if is_space c then some (length l.line) else l.space_at;
    width_at = if is_space c then l.line_width else l.width_at;
  }

  -- The break of a line, at its last space if there is one.
  unfoldable pub break_at : Line → Option ℕ → Text × Line
  break_at l none = (l.line, record l { line = []; line_width = 0; space_at = none })
  break_at l (some n) = (
    take n l.line,
    record l {
      line = trim_space (drop n l.line);
      line_width = l.line_width - l.width_at - 1;
      space_at = none;
    },
  )

  -- One round: the lines that end, and the new state.
  unfoldable pub wrap_step : ℕ → Cluster → Line → List Text × Line
  wrap_step n c l =
      let (out, rest) = break_at l l.space_at in
      if ltb n (l.line_width + cluster_width c) && ltb 0 l.line_width
      then if is_space c
        then (l.line ∷ [], record l { line = []; line_width = 0; space_at = none })
        else (out ∷ [], add_cluster c rest)
      else ([], add_cluster c l)

  unfoldable pub wrap_from : ℕ → Text → Line → List Text
  wrap_from n [] l = l.line ∷ []
  wrap_from n (c ∷ cs) l = let (out, next) = wrap_step n c l in out ++ wrap_from n cs next

  unfoldable pub wrap_line : Text → ℕ → List Text
  wrap_line s n = wrap_from n s empty_line

  -- The loop of Wrap over the paragraphs.
  unfoldable pub wrap_paragraphs : List Text → ℕ → List Text
  wrap_paragraphs [] n = []
  wrap_paragraphs (s ∷ ss) n = wrap_line s n ++ wrap_paragraphs ss n

  -- `Wrap`, with the paragraphs of s.
  unfoldable pub wrap : Text → List Text → ℕ → List Text
  wrap s paragraphs n = if n == 0 then s ∷ [] else wrap_paragraphs paragraphs n
