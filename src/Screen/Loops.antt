-- ===== src/Screen/Loops.antt =====
-- internal/tui/screen/diff.go: the two loops over a row.
use mathlib.Core.Path.{subst}
use native.Mathlib.Decide.{dec_lt}
use tuicord_v.Base.{
  ℕ, zero, suc, ◌+◌, ◌<◌, ◌≤◌, ◌≡◌, ◌≢◌, refl, sym, ap, ◌∙◌, inl, inr, true, false, ◌||◌, not,
  Option, some, ltb, arith, Bool-cases,
}
use tuicord_v.Screen.Cells.{Style, Cell, Buffer, cell}
use tuicord_v.Screen.Diff.{
  move, Pen, equal_cell, prev_cell, is_skipped, width, write_cell, run, scan,
}
use tuicord_v.Screen.Repaint.{Holds, target, row_of, IsAt, written, skipped}
use tuicord_v.Screen.Row.{IsBetween, skip}
use tuicord_v.Screen.Terminal.{Terminal, Row, exec, exec_all, exec_all-append, IsPaired}

module _ (encode : Style → Style) (left : Style) (prev : Option Buffer) (next : Buffer) (y : ℕ)
    (old : Row) (p : IsPaired next.w old) (q : IsPaired next.w (target encode left prev next y))
    (agree : (x : ℕ)
      → x < next.w
      → equal_cell (prev_cell prev x y) (cell next x y) ≡ true
      → old x ≡ target encode left prev next y x) where
  abbrev At : ℕ → Pen → Terminal → Type 0
  At = IsAt encode left prev next y old p q agree

  abbrev goal : Row
  goal = target encode left prev next y

  abbrev this_row : Terminal → Row
  this_row = row_of encode left prev next y

  -- The terminal t' after some writes of the row, and where they stop.
  record IsRun (x stop : ℕ) (last : Pen) (t t' : Terminal) : Type 0 where
    at_stop : At stop last t'
    elsewhere : (i j : ℕ) → i ≢ y → t'.grid j i ≡ t.grid j i
    onward : x ≤ stop

  run-IsRun :
      (n x : ℕ) (pen : Pen) (t : Terminal)
      → t.column ≡ x
      → At x pen t
      → let r = run encode prev next n x y pen in IsRun x r.1 r.2 t (exec_all left r.0 t)
  unfolding run exec_all
  run-IsRun zero x pen t col a = record {
    at_stop = a;
    elsewhere = λ i j ne. refl;
    onward = omega arith;
  }
  run-IsRun (suc n) x pen t col a =
      elim (Bool-cases (not (ltb x next.w) || is_skipped prev next x y)) [
        | inl stops ↦
            rw stops (record { at_stop = a; elsewhere = λ i j ne. refl; onward = omega arith })
        | inr goes ↦
            let c = cell next x y in
            let (b, col', kept) =
              written encode left prev next y old p q agree x pen t (ground arith) (ground arith)
                col a in
            let t' = exec_all left (write_cell encode pen c) t in
            let r = run-IsRun n (x + width c) (some (encode c.style)) t' col' b in
            let (out, stop, last) =
              run encode prev next n (x + width c) y (some (encode c.style)) in
            rw goes (
              subst (IsRun x stop last t)
                (sym (exec_all-append left (write_cell encode pen c) out t))
                (record {
                  at_stop = r.at_stop;
                  elsewhere = λ i j ne. r.elsewhere i j ne ∙ kept i j ne;
                  onward = omega (arith, r.onward);
                }))
      ]

  run-le : (n x : ℕ) (pen : Pen) → x ≤ (run encode prev next n x y pen).1
  unfolding run
  run-le zero x pen = omega arith
  run-le (suc n) x pen = elim (Bool-cases (not (ltb x next.w) || is_skipped prev next x y)) [
    | inl stops ↦ rw stops (omega arith)
    | inr goes ↦
        rw goes (
          omega (arith, run-le n (x + width (cell next x y)) (some (encode (cell next x y).style))))
  ]

  run-lt :
      (n x : ℕ) (pen : Pen)
      → x < next.w
      → is_skipped prev next x y ≡ false
      → x < (run encode prev next (suc n) x y pen).1
  unfolding run
  run-lt n x pen hx s =
      let c = cell next x y in
      let goes : (not (ltb x next.w) || is_skipped prev next x y) ≡ false = ground (arith, s, hx) in
      let some_width : 0 < width c = ground arith in
      rw goes (omega (arith, run-le n (x + width c) (some (encode c.style))))

  -- The same between two runs, where the cursor may be anywhere.
  pub record IsScan (x : ℕ) (pen : Pen) (t : Terminal) : Type 0 where
    pub between : IsBetween next.w old goal x (this_row t)
    pub held : Holds pen t.pen
    pub within : x ≤ next.w

  pub record IsRow (pen : Pen) (t t' : Terminal) : Type 0 where
    pub whole : (j : ℕ) → j < next.w → t'.grid j y ≡ goal j
    pub held : Holds pen t'.pen
    pub elsewhere : (i j : ℕ) → i ≢ y → t'.grid j i ≡ t.grid j i

  moved : (x : ℕ) (pen : Pen) (t : Terminal) → IsScan x pen t → At x pen (exec left (move x y) t)
  unfolding exec
  moved x pen t a = record { between = a.between; in_row = refl; held = a.held; within = a.within }

  moved_place :
      (x : ℕ) (t : Terminal)
      → ((exec left (move x y) t).column ≡ x) × ((exec left (move x y) t).grid ≡ t.grid)
  unfolding exec
  moved_place x t = (refl, refl)

  ended : (x : ℕ) (pen : Pen) (t : Terminal) → IsScan x pen t → next.w ≤ x → IsRow pen t t
  ended x pen t a h = record {
    whole = λ j hj. a.between.done j (omega arith);
    held = a.held;
    elsewhere = λ i j ne. refl;
  }

  pub scan-IsRow :
      (n x : ℕ) (pen : Pen) (t : Terminal)
      → next.w ≤ x + n
      → IsScan x pen t
      → let r = scan encode prev next n x y pen in IsRow r.1 t (exec_all left r.0 t)
  unfolding scan exec_all
  scan-IsRow zero x pen t h a = ended x pen t a (omega arith)
  scan-IsRow (suc m) x pen t h a = elim (dec_lt x next.w) [
    | no out_of ↦
        let past : ltb x next.w ≡ false = ground arith in rw past (ended x pen t a (omega arith))
    | yes hx ↦
        let inside : ltb x next.w ≡ true = ground arith in
        elim (Bool-cases (is_skipped prev next x y)) [
          | inl s ↦
              let b : IsScan (x + 1) pen t = record {
                between =
                    subst (λ k. IsBetween next.w old goal k (this_row t)) (omega arith)
                      (skip next.w old goal p q x (this_row t) hx a.between
                        (skipped encode left prev next y old p q agree x hx s));
                held = a.held;
                within = omega arith;
              } in
              rw (inside, s) (scan-IsRow m (x + 1) pen t (omega arith) b)
          | inr s ↦
              let t1 = exec left (move x y) t in
              let (col, same) = moved_place x t in
              let (out, stop, last) = run encode prev next (suc m) x y pen in
              let r = run-IsRun (suc m) x pen t1 col (moved x pen t a) in
              let t2 = exec_all left out t1 in
              let b : IsScan stop last t2 = record {
                between = r.at_stop.between;
                held = r.at_stop.held;
                within = r.at_stop.within;
              } in
              let (more, end) = scan encode prev next m stop y last in
              let rec = scan-IsRow m stop last t2 (omega (arith, run-lt m x pen hx s)) b in
              rw (inside, s)
                (subst (IsRow end t) (sym (exec_all-append left out more t1)) (record {
                  whole = rec.whole;
                  held = rec.held;
                  elsewhere = λ i j ne.
                      rec.elsewhere i j ne
                      ∙ r.elsewhere i j ne
                      ∙ ap (λ (g : ℕ → ℕ → Cell). g j i) same;
                }))
        ]
  ]
