-- ===== src/Screen/Frame.antt =====
-- internal/tui/screen/diff.go: the writes of a frame turn a terminal that shows the previous frame into
-- one that shows the next.
use native.Mathlib.Decide.{dec_lt}
use mathlib.Core.Path.{subst}
use tuicord_v.Base.{
  ℕ, zero, suc, ◌+◌, ◌<◌, ◌≤◌, ◌≡◌, refl, sym, ap, ◌∙◌, inl, true, Option, none, some, arith,
}
use tuicord_v.Screen.Cells.{Style, Cell, Buffer, cell}
use tuicord_v.Screen.Colors.{ColorMode, Palette, encode_style}
use tuicord_v.Screen.Diff.{
  Pen, equal_cell, prev_cell, zero_cell, scan, rows, same_size, closing, emit_diff,
}
use tuicord_v.Screen.Loops.{scan-IsRow}
use tuicord_v.Screen.Repaint.{Holds, shown, equal_cell→≡}
use tuicord_v.Screen.Row.{IsBetween}
use tuicord_v.Screen.Writes.{IsBuffer}
use tuicord_v.Screen.Terminal.{Terminal, Row, exec, exec_all, exec_all-append, IsPaired}

-- The terminal looks like the buffer, in the colours of the terminal.
abbrev pub Shows : (Style → Style) → Buffer → Terminal → Type 0
Shows encode b t = (x y : ℕ) → x < b.w → y < b.h → t.grid x y ≡ shown encode (cell b x y)

pub shown-IsPaired :
    (encode : Style → Style) (w : ℕ) (cells : Row)
    → IsPaired w cells
    → IsPaired w (λ x. shown encode (cells x))
shown-IsPaired encode w cells p = record {
  whole = p.whole;
  fits = p.fits;
  right = λ x hx wide. ap (shown encode) (p.right x hx wide);
  left = p.left;
  first = p.first;
}

module _ (encode : Style → Style) (left : Style) (prev : Option Buffer) (next : Buffer)
    (t0 : Terminal) (p : (y : ℕ) → y < next.h → IsPaired next.w (λ x. t0.grid x y))
    (whole : IsBuffer next)
    (agree : (x y : ℕ)
      → x < next.w
      → y < next.h
      → equal_cell (prev_cell prev x y) (cell next x y) ≡ true
      → t0.grid x y ≡ shown encode (cell next x y)) where
  -- The rows before y are written, the others are as they were.
  record IsDown (y : ℕ) (pen : Pen) (t : Terminal) : Type 0 where
    above : (i j : ℕ) → i < y → j < next.w → t.grid j i ≡ shown encode (cell next j i)
    below : (i j : ℕ) → y ≤ i → t.grid j i ≡ t0.grid j i
    held : Holds pen t.pen

  scan-IsDown :
      (y : ℕ) (pen : Pen) (t : Terminal)
      → y < next.h
      → IsDown y pen t
      → let r = scan encode prev next next.w 0 y pen in IsDown (y + 1) r.1 (exec_all left r.0 t)
  scan-IsDown y pen t hy d =
      let old : ℕ → Cell = λ x. t0.grid x y in
      let a = λ (x : ℕ) (hx : x < next.w). agree x y hx hy in
      let start : IsBetween next.w old (λ x. shown encode (cell next x y)) 0 (λ x. t.grid x y) =
        record {
          done = λ j hj. absurd (omega (arith, hj));
          rest = λ j hj hw. inl (d.below y j (omega arith));
          half = λ k e hw wide. absurd (omega (arith, e));
        } in
      let r =
        scan-IsRow encode left prev next y old (p y hy)
          (shown-IsPaired encode next.w (λ x. cell next x y) (whole.grid.paired y hy)) a next.w 0
          pen t (omega arith) (record { between = start; held = d.held; within = omega arith }) in
      record {
        above = λ i j hi hj. elim (dec_lt i y) [
          | yes before ↦ r.elsewhere i j (omega arith) ∙ d.above i j before hj
          | no now ↦
              let i_is : y ≡ i = omega arith in
              subst
                (λ k.
                  (exec_all left (scan encode prev next next.w 0 y pen).0 t).grid j k
                  ≡ shown encode (cell next j k))
                i_is (r.whole j hj)
        ];
        below = λ i j hi. r.elsewhere i j (omega arith) ∙ d.below i j (omega arith);
        held = r.held;
      }

  rows-IsDown :
      (n y : ℕ) (pen : Pen) (t : Terminal)
      → y + n ≡ next.h
      → IsDown y pen t
      → let r = rows encode prev next n y pen in IsDown next.h r.1 (exec_all left r.0 t)
  unfolding rows exec_all
  rows-IsDown zero y pen t e d = subst (λ k. IsDown k pen t) (omega arith) d
  rows-IsDown (suc n) y pen t e d =
      let (row, last) = scan encode prev next next.w 0 y pen in
      let (more, end) = rows encode prev next n (y + 1) last in
      let b = scan-IsDown y pen t (omega arith) d in
      subst (IsDown next.h end) (sym (exec_all-append left row more t))
        (rows-IsDown n (y + 1) last (exec_all left row t) (omega arith) b)

  start-IsDown : IsDown 0 none t0
  start-IsDown = record {
    above = λ i j hi hj. absurd (omega (arith, hi));
    below = λ i j hi. refl;
    held = tt;
  }

closing-grid :
    (left : Style) (pen : Pen) (t : Terminal) → (exec_all left (closing pen) t).grid ≡ t.grid
unfolding exec_all exec
closing-grid left none t = refl
closing-grid left (some style) t = refl

same_size→≡ :
    (prev : Option Buffer) (next b : Buffer)
    → same_size prev next ≡ some b
    → (b.w ≡ next.w) × (b.h ≡ next.h)
same_size→≡ none next b e = cc
same_size→≡ (some prev) next b e = ground arith

agree :
    (encode : Style → Style) (prev : Option Buffer) (next : Buffer) (t : Terminal)
    → IsBuffer next
    → ((b : Buffer) → same_size prev next ≡ some b → Shows encode b t)
    → (x y : ℕ) → x < next.w
    → y < next.h
    → equal_cell (prev_cell (same_size prev next) x y) (cell next x y) ≡ true
    → t.grid x y ≡ shown encode (cell next x y)
unfolding prev_cell
agree encode prev next t whole shows x y hx hy same = go (same_size prev next) refl same
  where
    go :
        (before : Option Buffer)
        → same_size prev next ≡ before
        → equal_cell (prev_cell before x y) (cell next x y) ≡ true
        → t.grid x y ≡ shown encode (cell next x y)
    go none e h = absurd (
        whole.grid.filled x y hx hy
          (sym (ap (λ (c : Cell). c.content) (equal_cell→≡ zero_cell (cell next x y) h))))
    go (some b) e h =
        let (same_w, same_h) = same_size→≡ prev next b e in
        shows b e x y (omega arith) (omega arith)
        ∙ ap (shown encode) (equal_cell→≡ (cell b x y) (cell next x y) h)

-- For every frame: if the terminal shows the previous frame, or its size has changed, it shows the
-- next frame after the writes of `emitDiff`. The rows of the terminal hold wide glyphs in whole,
-- and the next frame is a buffer without halves of wide cells and without empty cells. This is so
-- whatever the terminal leaves of a wide glyph that is half covered, and whichever of the two ways
-- its colours are written.
pub emit_diff-Shows :
    (mode : ColorMode) (palette : Palette) (left : Style) (prev : Option Buffer) (next : Buffer)
    (t : Terminal)
    → ((y : ℕ) → y < next.h → IsPaired next.w (λ x. t.grid x y))
    → IsBuffer next
    → ((b : Buffer) → same_size prev next ≡ some b → Shows (encode_style mode palette) b t)
    → (x y : ℕ) → x < next.w
    → y < next.h
    → (exec_all left (emit_diff mode palette prev next) t).grid x y
      ≡ shown (encode_style mode palette) (cell next x y)
unfolding emit_diff
emit_diff-Shows mode palette left prev next t p whole shows x y hx hy =
    let encode = encode_style mode palette in
    let before = same_size prev next in
    let (out, pen) = rows encode before next next.h 0 none in
    let d =
      rows-IsDown encode left before next t p whole (agree encode prev next t whole shows) next.h 0
        none t (omega arith)
        (start-IsDown encode left before next t p whole (agree encode prev next t whole shows)) in
    ap (λ (u : Terminal). u.grid x y) (exec_all-append left out (closing pen) t)
    ∙ ap (λ (g : ℕ → ℕ → Cell). g x y) (closing-grid left pen (exec_all left out t))
    ∙ d.above y x hy hx
