-- ===== src/Screen/Grid.antt =====
-- internal/tui/screen/buffer.go: what a write into the grid changes, and that no write leaves half
-- a wide cell.
use mathlib.Core.Path.{subst, subst₂, fun_ext}
use native.Mathlib.Decide.{ℕ_discrete, dec_lt}
use native.Mathlib.Nat.{mul-le-mul_right, mul_comm, suc-mul}
use tuicord_v.Base.{
  ℕ, suc, ◌+◌, ◌*◌, ◌<◌, ◌≤◌, ◌≡◌, ◌≢◌, refl, sym, ap, ◌∙◌, ◌⊎◌, inl, inr, true, false, length,
  ◌==◌, arith, Bool-cases, get_or-set,
}
use tuicord_v.Screen.Cells.{Cell, Buffer, cell, put, index, inside, blank, right_of}
use tuicord_v.Screen.Pairs.{IsPlain, write_one-IsPaired, write_two-IsPaired}
use tuicord_v.Screen.Terminal.{IsPaired}

next_row : (w y h : ℕ) → y < h → y * w + w ≤ h * w
next_row w y h hy = omega (arith, mul-le-mul_right {m = suc y} {n = h} w (omega arith), suc-mul y w)

pub index_within : (b : Buffer) (x y : ℕ) → x < b.w → y < b.h → index b x y < b.w * b.h
index_within b x y hx hy = omega (arith, next_row b.w y b.h hy, mul_comm b.w b.h)

-- Two places of the grid with the same index are the same.
index_apart :
    (b : Buffer) (x y i j : ℕ) → x < b.w → i < b.w → (i ≢ x) ⊎ (j ≢ y) → index b x y ≢ index b i j
index_apart b x y i j hx hi d e = elim (dec_lt y j) [
  | yes above ↦ absurd (omega (arith, next_row b.w y j above, e))
  | no low ↦ elim (dec_lt j y) [
    | yes below ↦ absurd (omega (arith, next_row b.w j y below, e))
    | no high ↦
        let same : j ≡ y = omega arith in
        elim d [
          | inr other ↦ other same
          | inl other ↦ other (omega (arith, e, ap (λ k. k * b.w) same))
        ]
  ]
]

module _ (b : Buffer) (sized : length b.cells ≡ b.w * b.h) (x y : ℕ) (hx : x < b.w) (hy : y < b.h)
    (c : Cell) where
  pub cell-put_self : cell (put b (index b x y) c) x y ≡ c
  unfolding cell put
  cell-put_self =
      let at : index b x y < length b.cells = omega (arith, index_within b x y hx hy) in
      ground (arith, get_or-set b.cells (index b x y) (index b x y) c blank at)

  pub cell-put_ne : (i j : ℕ) → (i ≢ x) ⊎ (j ≢ y) → cell (put b (index b x y) c) i j ≡ cell b i j
  unfolding cell put
  cell-put_ne i j d = elim (Bool-cases (inside b i j)) [
    | inr out ↦ rw out refl
    | inl within ↦
        let at : index b x y < length b.cells = omega (arith, index_within b x y hx hy) in
        let apart = index_apart b x y i j hx (ground (arith, within)) d in
        let missed : (index b x y == index b i j) ≡ false = ground (arith, apart) in
        rw within (get_or-set b.cells (index b x y) (index b i j) c blank at ∙ rw missed refl)
  ]

-- A grid of cells: every row holds its wide cells in whole, and no cell is empty.
pub record IsGrid (w h : ℕ) (g : ℕ → ℕ → Cell) : Type 0 where
  pub paired : (y : ℕ) → y < h → IsPaired w (λ x. g x y)
  pub filled : (x y : ℕ) → x < w → y < h → (g x y).content ≢ ""

module _ (w h : ℕ) (old new : ℕ → ℕ → Cell) (g : IsGrid w h old) (k y : ℕ) (hy : y < h) where
  other_row : (j : ℕ) → j ≢ y → j < h → ((x : ℕ) → new x j ≡ old x j) → IsPaired w (λ x. new x j)
  other_row j ne hj same = subst (IsPaired w) (sym (fun_ext same)) (g.paired j hj)

  pub write_one-IsGrid :
      IsPlain (old k y)
      → IsPlain (new k y)
      → (new k y).content ≢ ""
      → ((i j : ℕ) → (i ≢ k) ⊎ (j ≢ y) → new i j ≡ old i j)
      → IsGrid w h new
  write_one-IsGrid before after some_content same = record {
    paired = λ j hj. elim (ℕ_discrete j y) [
      | no ne ↦ other_row j ne hj (λ x. same x j (inr ne))
      | yes e ↦
          subst (λ r. IsPaired w (λ x. new x r)) (sym e)
            (write_one-IsPaired w (λ x. old x y) (λ x. new x y) (g.paired y hy) k before after
              (λ x ne. same x y (inl ne)))
    ];
    filled = λ i j hi hj. elim (ℕ_discrete j y) [
      | no ne ↦ subst (λ (c : Cell). c.content ≢ "") (sym (same i j (inr ne))) (g.filled i j hi hj)
      | yes e ↦ elim (ℕ_discrete i k) [
        | no ne ↦
            subst (λ (c : Cell). c.content ≢ "") (sym (same i j (inl ne))) (g.filled i j hi hj)
        | yes f ↦ subst₂ (λ (a b : ℕ). (new a b).content ≢ "") (sym f) (sym e) some_content
      ]
    ];
  }

  pub write_two-IsGrid :
      suc k < w
      → (old k y).continuation ≡ false
      → (old (suc k) y).wide ≡ false
      → (new k y).continuation ≡ false
      → (new (suc k) y).wide ≡ false
      → ((new k y).wide ≡ true → new (suc k) y ≡ right_of (new k y))
      → ((new (suc k) y).continuation ≡ true → (new k y).wide ≡ true)
      → (new k y).content ≢ ""
      → (new (suc k) y).content ≢ ""
      → ((i j : ℕ) → ((i ≢ k) × (i ≢ suc k)) ⊎ (j ≢ y) → new i j ≡ old i j)
      → IsGrid w h new
  write_two-IsGrid fits a b c d pair half some_left some_right same = record {
    paired = λ j hj. elim (ℕ_discrete j y) [
      | no ne ↦ other_row j ne hj (λ x. same x j (inr ne))
      | yes e ↦
          subst (λ r. IsPaired w (λ x. new x r)) (sym e)
            (write_two-IsPaired w (λ x. old x y) (λ x. new x y) (g.paired y hy) k fits a b c d pair
              half (λ x ne ne'. same x y (inl (ne, ne'))))
    ];
    filled = λ i j hi hj. elim (ℕ_discrete j y) [
      | no ne ↦ subst (λ (c : Cell). c.content ≢ "") (sym (same i j (inr ne))) (g.filled i j hi hj)
      | yes e ↦ elim (ℕ_discrete i k) [
        | yes f ↦ subst₂ (λ (a b : ℕ). (new a b).content ≢ "") (sym f) (sym e) some_left
        | no ne ↦ elim (ℕ_discrete i (suc k)) [
          | yes f ↦ subst₂ (λ (a b : ℕ). (new a b).content ≢ "") (sym f) (sym e) some_right
          | no ne' ↦
              subst (λ (c : Cell). c.content ≢ "") (sym (same i j (inl (ne, ne'))))
                (g.filled i j hi hj)
        ]
      ]
    ];
  }
