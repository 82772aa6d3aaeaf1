-- ===== src/Layout/Distribute/Shrink.antt =====
-- `shrink` takes exactly what is needed.
use tuicord_v.Base.{
  ℕ, zero, suc, ◌+◌, ◌-◌, ◌≤◌, ◌<◌, ◌≡◌, refl, List, [], ◌∷◌, length, ◌==◌, arith, ◌⊎◌, inl, inr,
  Bool-cases, ◌∙◌,
}
use tuicord_v.Layout.Distribute.{Slot, total, shrink_pass, shrink_loop, shrink}
use tuicord_v.Layout.Types.{Style}

module _ {Float : Type 0} where
  -- The sum of the sizes falls as the need does.
  total-shrink_pass :
      (floor : Style Float → ℕ) (need : ℕ) (ss : List (Slot Float))
      → (total (shrink_pass floor need ss).0 + need ≡ total ss + (shrink_pass floor need ss).1)
        × ((shrink_pass floor need ss).1 ≤ need)
  unfolding shrink_pass
  total-shrink_pass floor need [] = omega arith
  total-shrink_pass floor need (s ∷ ss) =
      ground (arith, total-shrink_pass floor need ss, total-shrink_pass floor (need - 1) ss)

  abbrev AreBelow : (Style Float → ℕ) → List (Slot Float) → Type 0
  AreBelow floor [] = Unit {0}
  AreBelow floor (s ∷ ss) = (s.size ≤ floor s.child) × AreBelow floor ss

  -- A round that changes nothing has found every size at its floor.
  shrink_pass_stuck :
      (floor : Style Float → ℕ) (need : ℕ) (ss : List (Slot Float))
      → 0 < need
      → (shrink_pass floor need ss).1 ≡ need
      → AreBelow floor ss
  unfolding shrink_pass
  shrink_pass_stuck floor need [] p e = tt
  shrink_pass_stuck floor need (s ∷ ss) p e =
      ground (arith, shrink_pass_stuck floor need ss, total-shrink_pass floor (need - 1) ss)

  -- With enough fuel the loop ends with no need left, or with every size at its floor.
  shrink_loop_ends :
      (fuel : ℕ) (floor : Style Float → ℕ) (need : ℕ) (ss : List (Slot Float))
      → need ≤ fuel
      → ((shrink_loop fuel floor need ss).1 ≡ 0) ⊎ AreBelow floor (shrink_loop fuel floor need ss).0
  unfolding shrink_loop
  shrink_loop_ends zero floor need ss h = inl (omega arith)
  shrink_loop_ends (suc fuel) floor need ss h =
      let (ss', need') = shrink_pass floor need ss in
      elim (Bool-cases (need == 0)) [
        | inl done ↦ rw done (inl (ground arith))
        | inr more ↦ elim (Bool-cases (need' == need)) [
          | inl stuck ↦
              rw (more, stuck) (inr (shrink_pass_stuck floor need ss (ground arith) (ground arith)))
          | inr fell ↦
              rw (more, fell)
                (shrink_loop_ends fuel floor need' ss'
                  (ground (arith, total-shrink_pass floor need ss)))
        ]
      ]

  total-shrink_loop :
      (fuel : ℕ) (floor : Style Float → ℕ) (need : ℕ) (ss : List (Slot Float))
      → (total (shrink_loop fuel floor need ss).0 + need
          ≡ total ss + (shrink_loop fuel floor need ss).1)
        × ((shrink_loop fuel floor need ss).1 ≤ need)
  unfolding shrink_loop
  total-shrink_loop zero floor need ss = omega arith
  total-shrink_loop (suc fuel) floor need ss =
      let (ss', need') = shrink_pass floor need ss in
      ground (arith, total-shrink_pass floor need ss, total-shrink_loop fuel floor need' ss')

  total_of_zero : (ss : List (Slot Float)) → AreBelow (λ _. 0) ss → total ss ≡ 0
  total_of_zero [] b = refl
  total_of_zero (s ∷ ss) b = omega (arith, total_of_zero ss b.1)

  -- `shrink` takes the whole need from the sizes, or all of them.
  pub total-shrink : (ss : List (Slot Float)) (need : ℕ) → total (shrink ss need) ≡ total ss - need
  unfolding shrink
  total-shrink ss need =
      let (ss', need') = shrink_loop need (λ c. c.min) need ss in
      let first = total-shrink_loop need (λ c. c.min) need ss in
      let second = total-shrink_loop need' (λ _. 0) need' ss' in
      elim (shrink_loop_ends need' (λ _. 0) need' ss' (omega arith)) [
        | inl done ↦ omega arith
        | inr empty ↦ omega (arith, total_of_zero (shrink_loop need' (λ _. 0) need' ss').0 empty)
      ]

  length-shrink_pass :
      (floor : Style Float → ℕ) (need : ℕ) (ss : List (Slot Float))
      → length (shrink_pass floor need ss).0 ≡ length ss
  unfolding shrink_pass
  length-shrink_pass floor need [] = refl
  length-shrink_pass floor need (s ∷ ss) =
      ground (arith, length-shrink_pass floor need ss, length-shrink_pass floor (need - 1) ss)

  length-shrink_loop :
      (fuel : ℕ) (floor : Style Float → ℕ) (need : ℕ) (ss : List (Slot Float))
      → length (shrink_loop fuel floor need ss).0 ≡ length ss
  unfolding shrink_loop
  length-shrink_loop zero floor need ss = refl
  length-shrink_loop (suc fuel) floor need ss =
      let (ss', need') = shrink_pass floor need ss in
      ground (arith, length-shrink_pass floor need ss, length-shrink_loop fuel floor need' ss')

  pub length-shrink : (ss : List (Slot Float)) (need : ℕ) → length (shrink ss need) ≡ length ss
  unfolding shrink
  length-shrink ss need =
      let (ss', need') = shrink_loop need (λ c. c.min) need ss in
      length-shrink_loop need' (λ _. 0) need' ss' ∙ length-shrink_loop need (λ c. c.min) need ss
