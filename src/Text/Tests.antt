-- ===== src/Text/Tests.antt =====
-- internal/tui/text: runs on short texts.
use tuicord_v.Base.{
  ℕ, suc, some, map, ◌+◌, ◌<◌, ◌≤◌, ◌≡◌, refl, [], ◌∷◌, ◌++◌, if◌then◌else◌, leb, arith, take,
  length, ◌-◌,
}
use tuicord_v.Text.{
  Rune, String, Text, space, string_width, pad_left, cut, ellipsis, is_emoji_presentation,
  select_width, select_widths, base_rune_width, cluster_width, width, truncate, pad, expand_tabs,
  expand_from, add_cluster, break_at, wrap_step, wrap_from, wrap_line, wrap_paragraphs, wrap,
}
use tuicord_v.Text.Content.{visible, joined, visible-wrap_line}
use tuicord_v.Text.Fit.{joined_runes, truncate-longest}
use tuicord_v.Text.Wrap.{All, AreWithin, wrap-All}

-- The runes from the ideographs on are wide.
abbrev runes : Rune → ℕ
runes r = if leb 11904 r then 2 else 1

runes_narrow : (r : Rune) → runes r ≤ 2
runes_narrow r = ground arith

-- Every rune is a cluster.
abbrev singles : String → Text
singles s = map (λ r. r ∷ []) s

abbrev letters : String
letters = 97 ∷ 98 ∷ 99 ∷ []

-- A space, two letters and an ideograph.
abbrev mixed : Text
mixed = space ∷ (97 ∷ []) ∷ (98 ∷ []) ∷ (19990 ∷ []) ∷ []

-- The rest of a line that is broken at its first column has no room for a wide cluster.
over : wrap runes mixed (mixed ∷ []) 3 ≡ [] ∷ ((97 ∷ []) ∷ (98 ∷ []) ∷ (19990 ∷ []) ∷ []) ∷ []
unfolding wrap wrap_paragraphs wrap_line wrap_from wrap_step break_at add_cluster cluster_width
    base_rune_width select_widths is_emoji_presentation
over = refl

width-over : width runes ((97 ∷ []) ∷ (98 ∷ []) ∷ (19990 ∷ []) ∷ []) ≡ 4
unfolding width cluster_width base_rune_width select_widths is_emoji_presentation
width-over = refl

-- A heart with VS16 is wide, a tab goes to the next stop.
heart : cluster_width runes (10084 ∷ 65039 ∷ []) ≡ 2
unfolding cluster_width base_rune_width select_widths select_width is_emoji_presentation
heart = refl

tabs : expand_tabs runes singles (97 ∷ 9 ∷ 98 ∷ []) 4 ≡ 97 ∷ 32 ∷ 32 ∷ 32 ∷ 98 ∷ []
unfolding expand_tabs expand_from cluster_width base_rune_width select_widths is_emoji_presentation
tabs = refl

-- Two words of letters, all of one cell.
abbrev words : Text
words = (97 ∷ []) ∷ (98 ∷ []) ∷ space ∷ (99 ∷ []) ∷ (100 ∷ []) ∷ []

words-AreWithin : AreWithin runes refl 3 1 (omega arith) (omega arith) words
unfolding cluster_width base_rune_width select_widths is_emoji_presentation
words-AreWithin = omega arith

wrap-All_example : All (λ t. width runes t < 3 + 1) (wrap runes words (words ∷ []) 3)
wrap-All_example =
    wrap-All runes refl 3 1 (omega arith) (omega arith) words (words ∷ []) (words-AreWithin, tt)

width-letters : string_width runes singles letters ≡ 3
unfolding string_width width cluster_width base_rune_width select_widths is_emoji_presentation
width-letters = refl

-- Three letters in two columns and in five.
padded :
    (pad_left runes singles letters 2 ≡ some (97 ∷ 8230 ∷ []))
    × (pad_left runes singles letters 5 ≡ some (32 ∷ 32 ∷ 97 ∷ 98 ∷ 99 ∷ []))
unfolding pad_left pad truncate cut string_width width cluster_width base_rune_width select_widths
    is_emoji_presentation
padded = (refl, refl)

truncate-longest_example :
    (k : ℕ) × (truncate runes singles letters 2 ellipsis
      ≡ joined_runes (take k (singles letters)) ++ ellipsis)
    × (width runes (take k (singles letters)) ≤ 2 - string_width runes singles ellipsis)
    × (k < length (singles letters)
        → 2 - string_width runes singles ellipsis < width runes (take (suc k) (singles letters)))
truncate-longest_example =
    truncate-longest runes singles letters 2 ellipsis (omega arith) (omega (arith, width-letters))

visible-wrap_line_example : visible (joined (wrap_line runes mixed 3)) ≡ visible mixed
visible-wrap_line_example = visible-wrap_line runes mixed 3
