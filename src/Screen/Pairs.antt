-- ===== src/Screen/Pairs.antt =====
-- Rows whose wide cells are whole: which writes of one or two cells keep them so.
use native.Mathlib.Decide.{ℕ_discrete}
use tuicord_v.Base.{
  ℕ, suc, ◌<◌, ◌≡◌, ◌≢◌, sym, ap, ◌∙◌, true, false, arith, Bool-cases, inl, inr, ◌⊎◌,
}
use tuicord_v.Screen.Cells.{Cell, right_of}
use tuicord_v.Screen.Terminal.{Row, IsPaired}

-- Neither half of a wide cell.
abbrev pub IsPlain : Cell → Type 0
IsPlain c = (c.wide ≡ false) × (c.continuation ≡ false)

module _ (w : ℕ) (old new : Row) (p : IsPaired w old) where
  module _ (k : ℕ) (before : IsPlain (old k)) (after : IsPlain (new k))
      (same : (j : ℕ) → j ≢ k → new j ≡ old j) where
    was_wide : (x : ℕ) → (new x).wide ≡ true → (x ≢ k) × ((old x).wide ≡ true)
    was_wide x wide = elim (ℕ_discrete x k) [
      | yes e ↦ cc (ap (λ j. (new j).wide) e, after.0)
      | no ne ↦ (ne, ap (λ (c : Cell). c.wide) (sym (same x ne)) ∙ wide)
    ]

    was_continued : (x : ℕ) → (new x).continuation ≡ true → (x ≢ k) × ((old x).continuation ≡ true)
    was_continued x continued = elim (ℕ_discrete x k) [
      | yes e ↦ cc (ap (λ j. (new j).continuation) e, after.1)
      | no ne ↦ (ne, ap (λ (c : Cell). c.continuation) (sym (same x ne)) ∙ continued)
    ]

    pub write_one-IsPaired : IsPaired w new
    write_one-IsPaired = record {
      whole = λ x hx wide.
          let (ne, old_wide) = was_wide x wide in
          ap (λ (c : Cell). c.continuation) (same x ne) ∙ p.whole x hx old_wide;
      fits = λ x hx wide. p.fits x hx ((was_wide x wide).1);
      right = λ x hx wide.
          let (ne, old_wide) = was_wide x wide in
          let pair = p.right x hx old_wide in
          elim (ℕ_discrete (suc x) k) [
            | yes e ↦
                cc (
                  ap (λ (c : Cell). c.continuation) pair,
                  ap (λ j. (old j).continuation) e,
                  before.1,
                )
            | no other ↦ same (suc x) other ∙ pair ∙ ap right_of (sym (same x ne))
          ];
      left = λ x hx continued.
          let wide = p.left x hx ((was_continued (suc x) continued).1) in
          elim (ℕ_discrete x k) [
            | yes e ↦ cc (ap (λ j. (old j).wide) e, before.0)
            | no ne ↦ ap (λ (c : Cell). c.wide) (same x ne) ∙ wide
          ];
      first = λ some_width. elim (Bool-cases ((new 0).continuation)) [
        | inr whole ↦ whole
        | inl continued ↦ cc (p.first some_width, (was_continued 0 continued).1)
      ];
    }

  -- Both cells at once, when no wide cell reaches into them or out of them.
  module _ (k : ℕ) (inside : suc k < w) (whole_before : (old k).continuation ≡ false)
      (narrow_before : (old (suc k)).wide ≡ false) (whole_after : (new k).continuation ≡ false)
      (narrow_after : (new (suc k)).wide ≡ false)
      (pair : (new k).wide ≡ true → new (suc k) ≡ right_of (new k))
      (half : (new (suc k)).continuation ≡ true → (new k).wide ≡ true)
      (same : (j : ℕ) → j ≢ k → j ≢ suc k → new j ≡ old j) where
    wide_cases :
        (x : ℕ)
        → (new x).wide ≡ true
        → (x ≡ k) ⊎ ((new x ≡ old x) × ((old x).wide ≡ true) × (x ≢ k))
    wide_cases x wide = elim (ℕ_discrete x k) [
      | yes e ↦ inl e
      | no ne ↦ elim (ℕ_discrete x (suc k)) [
        | yes e ↦ cc (ap (λ j. (new j).wide) e, narrow_after)
        | no other ↦
            inr (same x ne other, ap (λ (c : Cell). c.wide) (sym (same x ne other)) ∙ wide, ne)
      ]
    ]

    continued_cases :
        (x : ℕ)
        → (new x).continuation ≡ true
        → (x ≡ suc k) ⊎ ((x ≢ suc k) × ((old x).continuation ≡ true))
    continued_cases x continued = elim (ℕ_discrete x (suc k)) [
      | yes e ↦ inl e
      | no ne ↦ elim (ℕ_discrete x k) [
        | yes e ↦ cc (ap (λ j. (new j).continuation) e, whole_after)
        | no other ↦ inr (ne, ap (λ (c : Cell). c.continuation) (sym (same x other ne)) ∙ continued)
      ]
    ]

    old_right : (x : ℕ) → x < w → (old x).wide ≡ true → suc x ≢ k
    old_right x hx wide e = cc (
      ap (λ (c : Cell). c.continuation) (p.right x hx wide),
      ap (λ j. (old j).continuation) e,
      whole_before,
    )

    pub write_two-IsPaired : IsPaired w new
    write_two-IsPaired = record {
      whole = λ x hx wide. elim (wide_cases x wide) [
        | inl e ↦ ap (λ j. (new j).continuation) e ∙ whole_after
        | inr (e, old_wide, _) ↦ ap (λ (c : Cell). c.continuation) e ∙ p.whole x hx old_wide
      ];
      fits = λ x hx wide. elim (wide_cases x wide) [
        | inl e ↦ omega (arith, e)
        | inr (e, old_wide, _) ↦ p.fits x hx old_wide
      ];
      right = λ x hx wide. elim (wide_cases x wide) [
        | inl e ↦
            ap (λ j. new (suc j)) e
            ∙ pair (sym (ap (λ j. (new j).wide) e) ∙ wide)
            ∙ sym (ap (λ j. right_of (new j)) e)
        | inr (e, old_wide, ne) ↦
            same (suc x) (old_right x hx old_wide) (λ h. ne (omega (arith, h)))
            ∙ p.right x hx old_wide
            ∙ ap right_of (sym e)
      ];
      left = λ x hx continued. elim (continued_cases (suc x) continued) [
        | inl e ↦
            let x_is : k ≡ x = omega (arith, e) in
            ap (λ j. (new j).wide) (sym x_is)
            ∙ half (sym (ap (λ j. (new j).continuation) e) ∙ continued)
        | inr (other, old_continued) ↦
            let wide = p.left x hx old_continued in
            elim (ℕ_discrete x k) [
              | yes e ↦ absurd (other (ap suc e))
              | no ne ↦ elim (ℕ_discrete x (suc k)) [
                | yes e ↦ cc (ap (λ j. (old j).wide) e, narrow_before)
                | no apart ↦ ap (λ (c : Cell). c.wide) (same x ne apart) ∙ wide
              ]
            ]
      ];
      first = λ some_width. elim (Bool-cases ((new 0).continuation)) [
        | inr whole ↦ whole
        | inl continued ↦ elim (continued_cases 0 continued) [
          | inl e ↦ absurd (omega (arith, e))
          | inr (_, old_continued) ↦ cc (p.first some_width, old_continued)
        ]
      ];
    }
