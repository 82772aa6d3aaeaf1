-- ===== src/Screen/Repaint.antt =====
-- internal/tui/screen/diff.go: one cell of a row is written to a terminal.
use mathlib.Core.Path.{subst}
use package.text.Mathlib.TextEquality.{eq_iff}
use tuicord_v.Base.{
  ℕ, suc, ◌+◌, ◌<◌, ◌≤◌, ◌≡◌, ◌≢◌, refl, sym, ap, ◌∙◌, ◌⊎◌, inl, inr, Bool, true, false, Option,
  none, some, ◌==◌, if◌then◌else◌, arith, Bool-cases,
}
use tuicord_v.Screen.Cells.{Style, Cell, Buffer, cell}
use tuicord_v.Screen.Nearest.{equal_color→≡}
use tuicord_v.Screen.Diff.{
  content, Pen, equal_style, equal_cell, prev_cell, is_skipped, width, write_cell,
}
use tuicord_v.Screen.Row.{IsBetween, write_narrow, write_wide}
use tuicord_v.Screen.Terminal.{Terminal, Row, glyph, drawn, exec, exec_all, IsPaired}

equal_style→≡ : (a b : Style) → equal_style a b ≡ true → a ≡ b
equal_style→≡ a b h = ground (arith, equal_color→≡ a.fg b.fg, equal_color→≡ a.bg b.bg)

pub equal_cell→≡ : (a b : Cell) → equal_cell a b ≡ true → a ≡ b
unfolding equal_cell
equal_cell→≡ a b h = ground (arith, eq_iff a.content b.content, equal_style→≡ a.style b.style)

-- A cell as it looks in the colours of the terminal.
abbrev pub shown : (Style → Style) → Cell → Cell
shown encode c = record c { style = encode c.style }

-- The style of the terminal is the one that was written last.
abbrev pub Holds : Pen → Style → Type 0
Holds none pen = Unit {0}
Holds (some style) pen = pen ≡ style

module _ (encode : Style → Style) (left : Style) where
  abbrev with_pen : Cell → Terminal → Terminal
  with_pen c t = record t { pen = encode c.style }

  exec-write_cell :
      (pen : Pen) (c : Cell) (t : Terminal)
      → Holds pen t.pen
      → exec_all left (write_cell encode pen c) t ≡ exec left (content c) (with_pen c t)
  unfolding write_cell exec_all exec
  exec-write_cell none c t h = refl
  exec-write_cell (some style) c t h = elim (Bool-cases (equal_style (encode c.style) style)) [
    | inr other ↦ rw other refl
    | inl same ↦
        let held : t.pen ≡ encode c.style = h ∙ sym (equal_style→≡ (encode c.style) style same) in
        rw same (ap (λ (s : Style). exec left (content c) (record t { pen = s })) held)
  ]

module _ (encode : Style → Style) (left : Style) (prev : Option Buffer) (next : Buffer)
    (y : ℕ) where
  -- What the row shall show.
  abbrev pub target : Row
  target x = shown encode (cell next x y)

  abbrev pub row_of : Terminal → Row
  row_of t x = t.grid x y

  module _ (old : Row) (p : IsPaired next.w old) (n : IsPaired next.w target)
      (agree : (x : ℕ)
        → x < next.w
        → equal_cell (prev_cell prev x y) (cell next x y) ≡ true
        → old x ≡ target x) where
    pub skipped :
        (x : ℕ)
        → x < next.w
        → is_skipped prev next x y ≡ true
        → ((target x).continuation ≡ true) ⊎ (target x ≡ old x)
    unfolding is_skipped
    skipped x hx s = elim (Bool-cases ((cell next x y).continuation)) [
      | inl continued ↦ inl continued
      | inr whole ↦ inr (sym (agree x hx (ground (arith, s))))
    ]

    not_skipped : (x : ℕ) → is_skipped prev next x y ≡ false → (target x).continuation ≡ false
    unfolding is_skipped
    not_skipped x s = ground (arith, s)

    -- What holds in the middle of the row, at the column x.
    pub record IsAt (x : ℕ) (pen : Pen) (t : Terminal) : Type 0 where
      pub between : IsBetween next.w old target x (row_of t)
      pub in_row : t.row ≡ y
      pub held : Holds pen t.pen
      pub within : x ≤ next.w

    -- The row after one cell is drawn.
    drawn-between :
        (x : ℕ) (pen : Pen) (t : Terminal)
        → x < next.w
        → is_skipped prev next x y ≡ false
        → IsAt x pen t
        → IsBetween next.w old target
            (x + width (cell next x y))
            (drawn left (row_of t) x (target x))
          × (x + width (cell next x y) ≤ next.w)
    drawn-between x pen t hx s a =
        let plain = not_skipped x s in
        elim (Bool-cases ((cell next x y).wide)) [
          | inl wide ↦
              let two : x + width (cell next x y) ≡ suc (suc x) = ground (arith, wide) in
              rw two (
                write_wide next.w old target p n x (row_of t) hx a.between left plain wide,
                omega (arith, n.fits x hx wide),
              )
          | inr narrow ↦
              let one : x + width (cell next x y) ≡ suc x = ground (arith, narrow) in
              rw one (
                write_narrow next.w old target p n x (row_of t) hx a.between left plain narrow,
                omega arith,
              )
        ]

    glyph-target :
        (x : ℕ)
        → is_skipped prev next x y ≡ false
        → glyph (encode (cell next x y).style) (cell next x y) ≡ target x
    glyph-target x s =
        ap (λ (b : Bool). record (target x) { continuation = b }) (sym (not_skipped x s))

    drawn_row :
        (x : ℕ) (t : Terminal)
        → is_skipped prev next x y ≡ false
        → t.column ≡ x
        → t.row ≡ y
        → row_of (exec left (content (cell next x y)) (with_pen encode left (cell next x y) t))
          ≡ drawn left (row_of t) x (target x)
    unfolding exec
    drawn_row x t s col row =
        let c = cell next x y in
        let here : (y == t.row) ≡ true = ground (arith, row) in
        ap {B = Row}
          (λ (b : Bool) (j : ℕ).
            if b then drawn left (row_of t) t.column (glyph (encode c.style) c) j else t.grid j y)
          here
        ∙ ap (λ (k : ℕ). drawn left (row_of t) k (glyph (encode c.style) c)) col
        ∙ ap (drawn left (row_of t) x) (glyph-target x s)

    drawn_elsewhere :
        (c : Cell) (t : Terminal) (i j : ℕ)
        → t.row ≡ y
        → i ≢ y
        → (exec left (content c) (with_pen encode left c t)).grid j i ≡ t.grid j i
    unfolding exec
    drawn_elsewhere c t i j row ne =
        let there : (i == t.row) ≡ false = ground (arith, row, ne) in rw there refl

    drawn_place :
        (c : Cell) (t : Terminal)
        → let t' = exec left (content c) (with_pen encode left c t) in
          (t'.row ≡ t.row) × (t'.pen ≡ encode c.style) × (t'.column ≡ t.column + width c)
    unfolding exec
    drawn_place c t = (refl, refl, refl)

    -- One cell is written.
    pub written :
        (x : ℕ) (pen : Pen) (t : Terminal)
        → x < next.w
        → is_skipped prev next x y ≡ false
        → t.column ≡ x
        → IsAt x pen t
        → let c = cell next x y in
          let t' = exec_all left (write_cell encode pen c) t in
          IsAt (x + width c) (some (encode c.style)) t'
          × (t'.column ≡ x + width c)
          × ((i j : ℕ) → i ≢ y → t'.grid j i ≡ t.grid j i)
    written x pen t hx s col a =
        let c = cell next x y in
        let (same_row, new_pen, new_column) = drawn_place c t in
        let (between, fits) = drawn-between x pen t hx s a in
        rw (exec-write_cell encode left pen c t a.held) (
          record {
            between =
                subst (IsBetween next.w old target (x + width c))
                  (sym (drawn_row x t s col a.in_row)) between;
            in_row = same_row ∙ a.in_row;
            held = new_pen;
            within = fits;
          },
          new_column ∙ ap (λ (k : ℕ). k + width c) col,
          λ i j ne. drawn_elsewhere c t i j a.in_row ne,
        )
