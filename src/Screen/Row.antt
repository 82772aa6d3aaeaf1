-- ===== src/Screen/Row.antt =====
-- One row of a terminal while a frame is written into it.
use mathlib.Core.Path.{subst}
use native.Mathlib.Decide.{dec_lt}
use tuicord_v.Base.{
  ℕ, zero, suc, ◌+◌, ◌<◌, ◌≤◌, ◌≡◌, refl, sym, ap, ◌∙◌, ◌⊎◌, inl, inr, true, false, ◌&&◌, ◌==◌,
  arith, Bool-cases, ==_self,
}
use tuicord_v.Screen.Cells.{Style, Cell, right_of}
use tuicord_v.Screen.Terminal.{Row, debris, drawn, IsPaired}

-- The row t shows next before the column x, and from there on prev, but for the remains of a wide glyph
-- of prev where next has no right half.
abbrev pub Rest : Row → Row → Row → ℕ → Type 0
Rest prev next t j =
    (t j ≡ prev j)
    ⊎ (((prev j).continuation ≡ true)
        × ((next j).continuation ≡ false)
        × ((t j).wide ≡ false)
        × ((t j).continuation ≡ false))

pub record IsBetween (w : ℕ) (prev next : Row) (x : ℕ) (t : Row) : Type 0 where
  pub done : (j : ℕ) → j < x → t j ≡ next j
  pub rest : (j : ℕ) → x ≤ j → j < w → Rest prev next t j
  pub half : (k : ℕ) → x ≡ suc k → x < w → (next k).wide ≡ true → t x ≡ next x

pub pred-cases : (x : ℕ) → (x ≡ 0) ⊎ ((k : ℕ) × (x ≡ suc k))
pred-cases zero = inl refl
pred-cases (suc k) = inr (k, refl)

module _ (w : ℕ) (prev next : Row) (p : IsPaired w prev) (n : IsPaired w next) (x : ℕ) (t : Row)
    (at : x < w) (b : IsBetween w prev next x t) where
  -- A cell that is next's already.
  same_cell : next x ≡ prev x → t x ≡ next x
  same_cell e = elim (b.rest x (omega arith) at) [
    | inl old ↦ old ∙ sym e
    | inr (torn, plain, _, _) ↦ cc (ap (λ (c : Cell). c.continuation) e)
  ]

  same_half : (next x).continuation ≡ true → t x ≡ next x
  same_half e = elim (pred-cases x) [
    | inl z ↦ cc (n.first (omega arith), ap (λ j. (next j).continuation) z)
    | inr (k, x_is) ↦
        b.half k x_is at (n.left k (omega arith) (sym (ap (λ j. (next j).continuation) x_is) ∙ e))
  ]

  -- A right half in next stands where prev has the same.
  right_half : next x ≡ prev x → (next x).wide ≡ true → suc x < w → t (suc x) ≡ next (suc x)
  right_half e wide hw =
      let prev_wide : (prev x).wide ≡ true = ap (λ (c : Cell). c.wide) (sym e) ∙ wide in
      elim (b.rest (suc x) (omega arith) hw) [
        | inl old ↦ old ∙ p.right x at prev_wide ∙ ap right_of (sym e) ∙ sym (n.right x at wide)
        | inr (torn, plain, _, _) ↦ cc (ap (λ (c : Cell). c.continuation) (n.right x at wide))
      ]

  pub skip : ((next x).continuation ≡ true) ⊎ (next x ≡ prev x) → IsBetween w prev next (suc x) t
  skip s = record {
    done = λ j hj. elim (dec_lt j x) [
      | yes before ↦ b.done j before
      | no now ↦
          let j_is : x ≡ j = omega arith in
          subst (λ i. t i ≡ next i) j_is (elim s [ inl e ↦ same_half e | inr e ↦ same_cell e ])
    ];
    rest = λ j hj hw. b.rest j (omega arith) hw;
    half = λ k e hw wide.
        let k_is : k ≡ x = omega arith in
        let wide_x : (next x).wide ≡ true = sym (ap (λ i. (next i).wide) k_is) ∙ wide in
        elim s [
          | inl continued ↦ cc (n.whole x at wide_x, continued)
          | inr same ↦ right_half same wide_x hw
        ];
  }

  module _ (left : Style) (plain : (next x).continuation ≡ false) where
    abbrev t' : Row
    t' = drawn left t x (next x)

    -- The cell before is no left half of the one that is covered.
    not_wide_before : (j : ℕ) → suc j ≡ x → (next j).wide ≡ false
    not_wide_before j e = elim (Bool-cases ((next j).wide)) [
      | inr narrow ↦ narrow
      | inl wide ↦ cc (
        ap (λ (c : Cell). c.continuation) (n.right j (omega arith) wide),
        ap (λ i. (next i).continuation) e,
        plain,
      )
    ]

    before-written : (j : ℕ) → j < x → t' j ≡ next j
    before-written j hj = elim (dec_lt (suc j) x) [
      | yes far ↦ ground (arith, b.done j hj)
      | no near ↦
          let same = b.done j hj in
          let narrow : (t j).wide ≡ false =
            ap (λ (c : Cell). c.wide) same ∙ not_wide_before j (omega arith) in
          ground (arith, narrow, same)
    ]

    here-written : t' x ≡ next x
    here-written = ground (arith, ==_self x)

    -- The right half of a wide cell that is still prev's.
    torn_right :
        (j : ℕ)
        → j < w
        → (t j).wide ≡ true
        → (t j ≡ prev j) ⊎ ((t j).wide ≡ false)
        → (suc j < w) × ((prev (suc j)).continuation ≡ true)
    torn_right j hj wide (inr narrow) = cc
    torn_right j hj wide (inl old) =
        let prev_wide : (prev j).wide ≡ true = ap (λ (c : Cell). c.wide) (sym old) ∙ wide in
        (p.fits j hj prev_wide, ap (λ (c : Cell). c.continuation) (p.right j hj prev_wide))

    old_or_narrow : (j : ℕ) → x ≤ j → j < w → (t j ≡ prev j) ⊎ ((t j).wide ≡ false)
    old_or_narrow j hj hw = elim (b.rest j hj hw) [
      | inl old ↦ inl old
      | inr (_, _, narrow, _) ↦ inr narrow
    ]

    next_plain : (k : ℕ) → suc k < w → (next k).wide ≡ false → (next (suc k)).continuation ≡ false
    next_plain k hk narrow = elim (Bool-cases ((next (suc k)).continuation)) [
      | inr whole ↦ whole
      | inl continued ↦ cc (n.left k hk continued)
    ]

    -- A cell that stays, and one that is left torn.
    kept : (j : ℕ) → x ≤ j → j < w → t' j ≡ t j → Rest prev next t' j
    kept j hj hw same = elim (b.rest j hj hw) [
      | inl old ↦ inl (same ∙ old)
      | inr (a, c, d, e) ↦
          inr (a, c, ap (λ (q : Cell). q.wide) same ∙ d, ap (λ (q : Cell). q.continuation) same ∙ e)
    ]

    torn :
        (j k : ℕ)
        → x ≤ k
        → suc k ≡ j
        → j < w
        → (t k).wide ≡ true
        → (next k).wide ≡ false
        → t' j ≡ debris left
        → Rest prev next t' j
    torn j k hk j_is hw wide narrow same =
        let (fits, continued) =
          torn_right k (omega arith) wide (old_or_narrow k hk (omega arith)) in
        inr (
          ap (λ i. (prev i).continuation) (sym j_is) ∙ continued,
          ap (λ i. (next i).continuation) (sym j_is) ∙ next_plain k fits narrow,
          ap (λ (q : Cell). q.wide) same,
          ap (λ (q : Cell). q.continuation) same,
        )

    pub write_narrow : (next x).wide ≡ false → IsBetween w prev next (suc x) t'
    write_narrow narrow = record {
      done = λ j hj. elim (dec_lt j x) [
        | yes before ↦ before-written j before
        | no now ↦ let j_is : x ≡ j = omega arith in subst (λ i. t' i ≡ next i) j_is here-written
      ];
      rest = λ j hj hw. elim (Bool-cases (j == x + 1 && (t x).wide)) [
        | inl hit ↦ torn j x (omega arith) (ground arith) hw (ground arith) narrow (ground arith)
        | inr miss ↦ kept j (omega arith) hw (ground arith)
      ];
      half = λ k e hw wide. let k_is : k ≡ x = omega arith in cc (ap (λ i. (next i).wide) k_is);
    }

    half-written : (next x).wide ≡ true → t' (suc x) ≡ right_of (next x)
    half-written wide = ground (arith, wide)

    right_narrow : (next x).wide ≡ true → (next (x + 1)).wide ≡ false
    right_narrow wide =
        let e : x + 1 ≡ suc x = omega arith in
        ap (λ i. (next i).wide) e ∙ ap (λ (c : Cell). c.wide) (n.right x at wide)

    pub write_wide : (next x).wide ≡ true → IsBetween w prev next (suc (suc x)) t'
    write_wide wide = record {
      done = λ j hj. elim (dec_lt j x) [
        | yes before ↦ before-written j before
        | no now ↦ elim (dec_lt x j) [
          | no same ↦ let j_is : x ≡ j = omega arith in subst (λ i. t' i ≡ next i) j_is here-written
          | yes behind ↦
              let j_is : suc x ≡ j = omega arith in
              subst (λ i. t' i ≡ next i) j_is (half-written wide ∙ sym (n.right x at wide))
        ]
      ];
      rest = λ j hj hw. elim (Bool-cases (j == x + 2 && (t (x + 1)).wide)) [
        | inl hit ↦
            torn j (x + 1) (omega arith) (ground arith) hw (ground arith) (right_narrow wide)
              (ground (arith, wide))
        | inr miss ↦ kept j (omega arith) hw (ground (arith, wide))
      ];
      half = λ k e hw wide_k.
          let k_is : k ≡ x + 1 = omega arith in
          cc (ap (λ i. (next i).wide) k_is, right_narrow wide);
    }
