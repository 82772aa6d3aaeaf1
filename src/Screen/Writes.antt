-- ===== src/Screen/Writes.antt =====
-- internal/tui/screen/buffer.go: no write leaves half a wide cell.
use mathlib.Core.Path.{subst, ap₂}
use native.Mathlib.Decide.{ℕ_discrete}
use package.text.Mathlib.TextEquality.{eq_iff}
use tuicord_v.Base.{
  ℕ, suc, ◌*◌, ◌<◌, ◌≡◌, ◌≢◌, refl, sym, ap, ◌∙◌, ◌⊎◌, inl, inr, true, false, length, arith,
  Bool-cases, length-set,
}
use tuicord_v.Screen.Cells.{
  Cell, Buffer, cell, put, index, blank, clear_left, clear_right, clear_cell,
}
use tuicord_v.Screen.Grid.{cell-put_self, cell-put_ne, IsGrid, write_one-IsGrid, write_two-IsGrid}
use tuicord_v.Screen.Pairs.{IsPlain}
use tuicord_v.Screen.Row.{pred-cases}

-- As many cells as the size says, and a grid of them without halves.
pub record IsBuffer (b : Buffer) : Type 0 where
  pub sized : length b.cells ≡ b.w * b.h
  pub grid : IsGrid b.w b.h (cell b)

-- The buffer b' is b with the place x, y free for another cell.
pub record IsFreed (b b' : Buffer) (x y : ℕ) : Type 0 where
  pub same_w : b'.w ≡ b.w
  pub same_h : b'.h ≡ b.h
  pub valid : IsBuffer b'
  pub free : cell b' x y ≡ blank
  pub others : (i j : ℕ) → (cell b' i j ≡ cell b i j) ⊎ (cell b' i j ≡ blank)

pub blank_content : blank.content ≢ ""
blank_content e = ground (arith, eq_iff " " "")

pub put_one-IsBuffer :
    (b : Buffer)
    → IsBuffer b
    → (x y : ℕ) → x < b.w
    → y < b.h
    → (c : Cell) → IsPlain (cell b x y)
    → IsPlain c
    → c.content ≢ ""
    → IsBuffer (put b (index b x y) c)
unfolding put
put_one-IsBuffer b ok x y hx hy c before plain some_content =
    let here = cell-put_self b ok.sized x y hx hy c in
    record {
      sized = length-set b.cells (index b x y) c ∙ ok.sized;
      grid =
          write_one-IsGrid b.w b.h (cell b) (cell (put b (index b x y) c)) ok.grid x y hy before
            (subst IsPlain (sym here) plain)
            (subst (λ (d : Cell). d.content ≢ "") (sym here) some_content)
            (cell-put_ne b ok.sized x y hx hy c);
    }

module _ (b : Buffer) (sized : length b.cells ≡ b.w * b.h) (x y : ℕ) (hx : x < b.w)
    (hy : y < b.h) where
  others-put :
      (i j : ℕ)
      → (cell (put b (index b x y) blank) i j ≡ cell b i j)
        ⊎ (cell (put b (index b x y) blank) i j ≡ blank)
  others-put i j = elim (ℕ_discrete i x) [
    | no ne ↦ inl (cell-put_ne b sized x y hx hy blank i j (inl ne))
    | yes e ↦ elim (ℕ_discrete j y) [
      | no ne ↦ inl (cell-put_ne b sized x y hx hy blank i j (inr ne))
      | yes f ↦
          inr (ap₂ (cell (put b (index b x y) blank)) e f ∙ cell-put_self b sized x y hx hy blank)
    ]
  ]

module _ (b : Buffer) (ok : IsBuffer b) (x y : ℕ) (hx : x < b.w) (hy : y < b.h) where
  clear_cell_plain : IsPlain (cell b x y) → clear_cell b x y ≡ put b (index b x y) blank
  unfolding cell clear_cell clear_left clear_right
  clear_cell_plain p = ground (arith, p.0, p.1)

  clear_cell_left :
      (k : ℕ)
      → x ≡ suc k
      → (cell b k y).wide ≡ true
      → (cell b x y).continuation ≡ true
      → (cell b x y).wide ≡ false
      → clear_cell b x y ≡ put (put b (index b k y) blank) (index b x y) blank
  unfolding cell clear_cell clear_left clear_right
  clear_cell_left k e wide continued narrow = ground (arith, e, wide, continued, narrow)

  clear_cell_right :
      suc x < b.w
      → (cell b x y).wide ≡ true
      → (cell b x y).continuation ≡ false
      → clear_cell b x y ≡ put (put b (index b (suc x) y) blank) (index b x y) blank
  unfolding cell clear_cell clear_left clear_right
  clear_cell_right fits wide whole = ground (arith, fits, wide, whole)

  put-IsFreed : IsPlain (cell b x y) → IsFreed b (put b (index b x y) blank) x y
  unfolding put
  put-IsFreed p =
      let here = cell-put_self b ok.sized x y hx hy blank in
      record {
        same_w = refl;
        same_h = refl;
        valid = put_one-IsBuffer b ok x y hx hy blank p (refl, refl) blank_content;
        free = here;
        others = others-put b ok.sized x y hx hy;
      }

pub off_place :
    (i j k y place : ℕ)
    → (place ≡ k) ⊎ (place ≡ suc k)
    → ((i ≢ k) × (i ≢ suc k)) ⊎ (j ≢ y)
    → (i ≢ place) ⊎ (j ≢ y)
off_place i j k y place at (inr ne) = inr ne
off_place i j k y place (inl e) (inl (ne, _)) = inl (λ f. ne (f ∙ e))
off_place i j k y place (inr e) (inl (_, ne)) = inl (λ f. ne (f ∙ e))

-- Both halves of a wide cell are blanked, the one at x last.
module _ (b : Buffer) (ok : IsBuffer b) (k y : ℕ) (fits : suc k < b.w) (hy : y < b.h)
    (wide : (cell b k y).wide ≡ true) where
  put_two-IsFreed :
      (first last : ℕ)
      → ((first ≡ k) × (last ≡ suc k)) ⊎ ((first ≡ suc k) × (last ≡ k))
      → IsFreed b (put (put b (index b first y) blank) (index b last y) blank) last y
  unfolding put
  put_two-IsFreed first last order =
      let b1 = put b (index b first y) blank in
      let b2 = put b1 (index b last y) blank in
      let sized1 : length b1.cells ≡ b.w * b.h =
        length-set b.cells (index b first y) blank ∙ ok.sized in
      let h1 : first < b.w = omega (arith, order) in
      let h2 : last < b.w = omega (arith, order) in
      let apart : first ≢ last = omega (arith, order) in
      let at_last = cell-put_self b1 sized1 last y h2 hy blank in
      let at_first =
        cell-put_ne b1 sized1 last y h2 hy blank first y (inl apart)
        ∙ cell-put_self b ok.sized first y h1 hy blank in
      let (left, right) : (cell b2 k y ≡ blank) × (cell b2 (suc k) y ≡ blank) = elim order [
        | inl (e, f) ↦ (
          subst (λ i. cell b2 i y ≡ blank) e at_first,
          subst (λ i. cell b2 i y ≡ blank) f at_last,
        )
        | inr (e, f) ↦ (
          subst (λ i. cell b2 i y ≡ blank) f at_last,
          subst (λ i. cell b2 i y ≡ blank) e at_first,
        )
      ] in
      let pairs = ok.grid.paired y hy in
      let same : (i j : ℕ) → ((i ≢ k) × (i ≢ suc k)) ⊎ (j ≢ y) → cell b2 i j ≡ cell b i j = λ i j d.
        cell-put_ne b1 sized1 last y h2 hy blank i j (off_place i j k y last (omega arith) d)
        ∙ cell-put_ne b ok.sized first y h1 hy blank i j
            (off_place i j k y first (omega arith) d) in
      record {
        same_w = refl;
        same_h = refl;
        valid = record {
          sized = length-set b1.cells (index b last y) blank ∙ sized1;
          grid =
              write_two-IsGrid b.w b.h (cell b) (cell b2) ok.grid k y hy fits
                (pairs.whole k (omega arith) wide)
                (ap (λ (c : Cell). c.wide) (pairs.right k (omega arith) wide))
                (ap (λ (c : Cell). c.continuation) left) (ap (λ (c : Cell). c.wide) right)
                (λ w. cc (ap (λ (c : Cell). c.wide) left))
                (λ c. cc (ap (λ (c : Cell). c.continuation) right))
                (subst (λ (c : Cell). c.content ≢ "") (sym left) blank_content)
                (subst (λ (c : Cell). c.content ≢ "") (sym right) blank_content) same;
        };
        free = at_last;
        others = λ i j. elim (others-put b1 sized1 last y h2 hy i j) [
          | inr e ↦ inr e
          | inl e ↦ elim (others-put b ok.sized first y h1 hy i j) [
            | inl f ↦ inl (e ∙ f)
            | inr f ↦ inr (e ∙ f)
          ]
        ];
      }

-- `clearCell` frees its place, together with the other half of a wide cell.
pub clear_cell-IsFreed :
    (b : Buffer) → IsBuffer b → (x y : ℕ) → x < b.w → y < b.h → IsFreed b (clear_cell b x y) x y
clear_cell-IsFreed b ok x y hx hy =
    let pairs = ok.grid.paired y hy in
    elim (Bool-cases ((cell b x y).wide)) [
      | inl wide ↦
          let fits = pairs.fits x hx wide in
          let whole = pairs.whole x hx wide in
          subst (λ b'. IsFreed b b' x y) (sym (clear_cell_right b ok x y hx hy fits wide whole))
            (put_two-IsFreed b ok x y fits hy wide (suc x) x (inr (refl, refl)))
      | inr narrow ↦ elim (Bool-cases ((cell b x y).continuation)) [
        | inr whole ↦
            subst (λ b'. IsFreed b b' x y) (sym (clear_cell_plain b ok x y hx hy (narrow, whole)))
              (put-IsFreed b ok x y hx hy (narrow, whole))
        | inl continued ↦ elim (pred-cases x) [
          | inl e ↦ cc (pairs.first (omega arith), ap (λ i. (cell b i y).continuation) e, continued)
          | inr (k, e) ↦
              let wide =
                pairs.left k (omega arith)
                  (sym (ap (λ i. (cell b i y).continuation) e) ∙ continued) in
              subst (λ b'. IsFreed b b' x y)
                (sym (clear_cell_left b ok x y hx hy k e wide continued narrow))
                (put_two-IsFreed b ok k y (omega arith) hy wide k x (inl (refl, e)))
        ]
      ]
    ]
