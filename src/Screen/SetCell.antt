-- ===== src/Screen/SetCell.antt =====
-- internal/tui/screen/buffer.go: a buffer stays without halves of wide cells under `Set`.
use mathlib.Core.Path.{subst, subst₂, fun_ext}
use package.text.Mathlib.Text.{◌==◌ as str_eq}
use tuicord_v.Base.{
  ℕ, zero, suc, ◌+◌, ◌*◌, ◌<◌, ◌≡◌, ◌≢◌, refl, sym, ap, ◌∙◌, inl, inr, true, false, ◌&&◌, not,
  Option, none, some, String, length, ltb, if◌then◌else◌, arith, Bool-cases, length-set,
  length-replicate, replicate, get_or,
}
use tuicord_v.Screen.Cells.{
  Cell, Buffer, cell, put, index, inside, blank, right_of, clear_cell, normalize_cell, of_cluster,
  fitting_cell, set_cell, new_buffer, clear,
}
use tuicord_v.Screen.Grid.{cell-put_self, cell-put_ne, write_two-IsGrid}
use tuicord_v.Screen.Pairs.{IsPlain}
use tuicord_v.Screen.Terminal.{IsPaired}
use tuicord_v.Screen.Writes.{
  IsBuffer, IsFreed, clear_cell-IsFreed, put_one-IsBuffer, blank_content, off_place,
}

put_pair-IsBuffer :
    (b : Buffer)
    → IsBuffer b
    → (x y : ℕ) → suc x < b.w
    → y < b.h
    → (c : Cell) → IsPlain (cell b x y)
    → IsPlain (cell b (suc x) y)
    → c.wide ≡ true
    → c.continuation ≡ false
    → c.content ≢ ""
    → IsBuffer (put (put b (index b x y) c) (index b (suc x) y) (right_of c))
unfolding put
put_pair-IsBuffer b ok x y fits hy c left_plain right_plain wide whole some_content =
    let b1 = put b (index b x y) c in
    let b2 = put b1 (index b (suc x) y) (right_of c) in
    let hx : x < b.w = omega arith in
    let sized1 : length b1.cells ≡ b.w * b.h = length-set b.cells (index b x y) c ∙ ok.sized in
    let right = cell-put_self b1 sized1 (suc x) y fits hy (right_of c) in
    let left : cell b2 x y ≡ c =
      cell-put_ne b1 sized1 (suc x) y fits hy (right_of c) x y (inl (omega arith))
      ∙ cell-put_self b ok.sized x y hx hy c in
    record {
      sized = length-set b1.cells (index b (suc x) y) (right_of c) ∙ sized1;
      grid =
          write_two-IsGrid b.w b.h (cell b) (cell b2) ok.grid x y hy fits (left_plain.1)
            (right_plain.0) (ap (λ (d : Cell). d.continuation) left ∙ whole)
            (ap (λ (d : Cell). d.wide) right) (λ w. right ∙ ap right_of (sym left))
            (λ d. ap (λ (d : Cell). d.wide) left ∙ wide)
            (subst (λ (d : Cell). d.content ≢ "") (sym left) some_content)
            (subst (λ (d : Cell). d.content ≢ "") (sym right) blank_content)
            (λ i j d.
              cell-put_ne b1 sized1 (suc x) y fits hy (right_of c) i j
                (off_place i j x y (suc x) (inr refl) d)
              ∙ cell-put_ne b ok.sized x y hx hy c i j (off_place i j x y x (inl refl) d));
    }

get_or-replicate : (n i : ℕ) (c : Cell) → get_or (replicate n c) i c ≡ c
get_or-replicate zero i c = refl
get_or-replicate (suc n) zero c = refl
get_or-replicate (suc n) (suc i) c = get_or-replicate n i c

cell-blank : (b : Buffer) (n : ℕ) → b.cells ≡ replicate n blank → (x y : ℕ) → cell b x y ≡ blank
unfolding cell
cell-blank b n e x y = elim (Bool-cases (inside b x y)) [
  | inr out ↦ rw out refl
  | inl within ↦
      rw within
        (ap (λ cs. get_or cs (index b x y) blank) e ∙ get_or-replicate n (index b x y) blank)
]

blank-IsBuffer : (b : Buffer) (n : ℕ) → b.cells ≡ replicate n blank → n ≡ b.w * b.h → IsBuffer b
blank-IsBuffer b n e sized =
    let at = cell-blank b n e in
    record {
      sized = ap length e ∙ length-replicate n blank ∙ sized;
      grid = record {
        paired = λ y hy. subst (IsPaired b.w) (sym (fun_ext (λ x. at x y))) (record {
          whole = λ x hx w. cc;
          fits = λ x hx w. cc;
          right = λ x hx w. cc;
          left = λ x hx w. cc;
          first = λ w. refl;
        });
        filled = λ x y hx hy. subst (λ (c : Cell). c.content ≢ "") (sym (at x y)) blank_content;
      };
    }

pub new_buffer-IsBuffer : (w h : ℕ) → IsBuffer (new_buffer w h)
unfolding new_buffer
new_buffer-IsBuffer w h = blank-IsBuffer (new_buffer w h) (w * h) refl refl

pub clear-IsBuffer : (b : Buffer) → IsBuffer b → IsBuffer (clear b)
unfolding clear
clear-IsBuffer b ok = blank-IsBuffer (clear b) (length b.cells) refl ok.sized

-- The clusters of a text are not empty.
abbrev pub HasClusters : (String → Option (String × ℕ)) → Type 0
HasClusters first_cluster =
    (s cluster : String) (width : ℕ) → first_cluster s ≡ some (cluster, width) → cluster ≢ ""

of_cluster_lem :
    (c : Cell) (found : Option (String × ℕ))
    → ((cluster : String) (width : ℕ) → found ≡ some (cluster, width) → cluster ≢ "")
    → let n = of_cluster c found in (n.continuation ≡ false) × (n.content ≢ "")
unfolding of_cluster
of_cluster_lem c none h = (refl, blank_content)
of_cluster_lem c (some (cluster, zero)) h = (refl, blank_content)
of_cluster_lem c (some (cluster, suc n)) h = (refl, ground (arith, h cluster (suc n) refl))

module _ (first_cluster : String → Option (String × ℕ)) (clusters : HasClusters first_cluster) where
  record IsWritable (b : Buffer) (x : ℕ) (c : Cell) : Type 0 where
    whole : c.continuation ≡ false
    filled : c.content ≢ ""
    fits : c.wide ≡ true → suc x < b.w

  fitting_cell_lem :
      (b : Buffer) (x : ℕ) (given : Cell) → IsWritable b x (fitting_cell first_cluster b x given)
  unfolding fitting_cell normalize_cell
  fitting_cell_lem b x given =
      let content = if str_eq given.content "" then " " else given.content in
      let c = normalize_cell first_cluster given in
      let (whole, filled) = of_cluster_lem given (first_cluster content) (clusters content) in
      elim (Bool-cases (c.wide && not (ltb (x + 1) b.w))) [
        | inl over ↦ rw over (record { whole = refl; filled = blank_content; fits = λ w. cc })
        | inr fine ↦
            rw fine (record { whole = whole; filled = filled; fits = λ w. ground (arith, fine, w) })
      ]

  -- The place that `clearCell` leaves can be written.
  write_narrow_lem :
      (b b' : Buffer) (x y : ℕ)
      → x < b.w
      → y < b.h
      → IsFreed b b' x y
      → (c : Cell) → IsPlain c
      → c.content ≢ ""
      → IsBuffer (put b' (index b x y) c)
  write_narrow_lem b b' x y hx hy f c plain some_content =
      let same : index b' x y ≡ index b x y = ap (λ w. y * w + x) f.same_w in
      subst (λ i. IsBuffer (put b' i c)) same
        (put_one-IsBuffer b' f.valid x y (omega (arith, f.same_w)) (omega (arith, f.same_h)) c
          (subst IsPlain (sym f.free) (refl, refl)) plain some_content)

  write_wide_lem :
      (b b1 b2 : Buffer) (x y : ℕ)
      → suc x < b.w
      → y < b.h
      → IsFreed b b1 x y
      → IsFreed b1 b2 (x + 1) y
      → (c : Cell) → c.wide ≡ true
      → c.continuation ≡ false
      → c.content ≢ ""
      → IsBuffer (put (put b2 (index b x y) c) (index b x y + 1) (right_of c))
  write_wide_lem b b1 b2 x y fits hy f g c wide whole some_content =
      let same_w : b2.w ≡ b.w = g.same_w ∙ f.same_w in
      let here : index b2 x y ≡ index b x y = ap (λ w. y * w + x) same_w in
      let there : index b2 (suc x) y ≡ index b x y + 1 = omega (arith, ap (λ w. y * w) same_w) in
      let x_plain : IsPlain (cell b2 x y) = elim (g.others x y) [
        | inl e ↦ subst IsPlain (sym (e ∙ f.free)) (refl, refl)
        | inr e ↦ subst IsPlain (sym e) (refl, refl)
      ] in
      let suc_is : x + 1 ≡ suc x = omega arith in
      let right_plain : IsPlain (cell b2 (suc x) y) =
        subst IsPlain (sym (ap (λ i. cell b2 i y) (sym suc_is) ∙ g.free)) (refl, refl) in
      subst₂ (λ i j. IsBuffer (put (put b2 i c) j (right_of c))) here there
        (put_pair-IsBuffer b2 g.valid x y (omega (arith, same_w))
          (omega (arith, g.same_h, f.same_h)) c x_plain right_plain wide whole some_content)

  -- Whatever is written where, a buffer without halves of wide cells stays one.
  pub set_cell-IsBuffer :
      (b : Buffer)
      → IsBuffer b
      → (x y : ℕ) (given : Cell) → IsBuffer (set_cell first_cluster b x y given)
  unfolding set_cell
  set_cell-IsBuffer b ok x y given =
      let c = fitting_cell first_cluster b x given in
      let w = fitting_cell_lem b x given in
      let b1 = clear_cell b x y in
      elim (Bool-cases (inside b x y)) [
        | inr out ↦ rw out ok
        | inl within ↦
            let hx : x < b.w = ground (arith, within) in
            let hy : y < b.h = ground (arith, within) in
            let f = clear_cell-IsFreed b ok x y hx hy in
            elim (Bool-cases c.wide) [
              | inr narrow ↦
                  simp (within, narrow)
                    (write_narrow_lem b b1 x y hx hy f c (narrow, w.whole) w.filled)
              | inl wide ↦
                  let fits = w.fits wide in
                  let g =
                    clear_cell-IsFreed b1 f.valid (x + 1) y (omega (arith, fits, f.same_w))
                      (omega (arith, f.same_h)) in
                  simp (within, wide)
                    (write_wide_lem b b1 (clear_cell b1 (x + 1) y) x y fits hy f g c wide w.whole
                      w.filled)
            ]
      ]
