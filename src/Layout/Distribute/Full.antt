-- ===== src/Layout/Distribute/Full.antt =====
-- internal/tui/layout/solve.go: the loop that hands out what is left of the free space ends when
-- nothing is left, or when no growing child is below its maximum.
use tuicord_v.Base.Word.{sub_int64, at_least_zero}
use tuicord_v.Base.{
  ℕ, zero, suc, ◌+◌, ◌-◌, ◌^◌, ◌≤◌, ◌<◌, ◌≡◌, true, ◌||◌, List, [], ◌∷◌, ◌==◌, arith, ◌⊎◌, inl, inr,
  Bool-cases, ◌∙◌, ap,
}
use tuicord_v.Layout.Distribute.Grow.{
  AreClamped, initial_slots-AreClamped, total-share_pass, total-fill_pass, total-fill_loop,
}
use tuicord_v.Layout.Distribute.{
  Slot, total, at_max, share_pass, fill_pass, fill_loop, total_grow, grow_slots, initial_slots,
  distribute,
}
use tuicord_v.Layout.Types.{Floats, Style}

module _ (f : Floats) where
  open f use {Float, zero_float, is_positive, is_at_most_zero}

  -- No child can grow further.
  abbrev pub AreFull : List (Slot Float) → Type 0
  AreFull [] = Unit {0}
  AreFull (s ∷ ss) =
      ((is_at_most_zero s.child.grow || at_max s.size s.child.max) ≡ true) × AreFull ss

  fill_pass_stuck :
      (remaining : ℕ) (ss : List (Slot Float))
      → 0 < remaining
      → total ss + remaining < 2 ^ 63
      → (fill_pass f remaining ss).1 ≡ remaining
      → AreFull ss
  unfolding fill_pass
  fill_pass_stuck remaining [] p small e = tt
  fill_pass_stuck remaining (s ∷ ss) p small e = ground (
    arith,
    fill_pass_stuck remaining ss p (omega arith),
    total-fill_pass f (remaining - 1) ss (omega arith),
  )

  fill_loop_ends :
      (fuel remaining : ℕ) (ss : List (Slot Float))
      → remaining ≤ fuel
      → total ss + remaining < 2 ^ 63
      → ((fill_loop f fuel remaining ss).1 ≡ 0) ⊎ AreFull (fill_loop f fuel remaining ss).0
  unfolding fill_loop
  fill_loop_ends zero remaining ss h small = inl (omega arith)
  fill_loop_ends (suc fuel) remaining ss h small =
      let (ss', remaining') = fill_pass f remaining ss in
      let pass = total-fill_pass f remaining ss small in
      elim (Bool-cases (remaining == 0)) [
        | inl done ↦ rw done (inl (ground arith))
        | inr more ↦ elim (Bool-cases (remaining' == remaining)) [
          | inl stuck ↦
              rw (more, stuck)
                (inr (fill_pass_stuck remaining ss (ground arith) small (ground arith)))
          | inr fell ↦
              rw (more, fell) (fill_loop_ends fuel remaining' ss' (ground arith) (omega arith))
        ]
      ]

  total-grow_slots_full :
      (free : ℕ) (grow : Float) (ss : List (Slot Float))
      → total ss + free < 2 ^ 63
      → AreClamped f ss
      → (total (grow_slots f free grow ss) ≡ total ss + free) ⊎ AreFull (grow_slots f free grow ss)
  unfolding grow_slots
  total-grow_slots_full free grow ss small c =
      let (ss', remaining) = share_pass f free grow free ss in
      let shared = total-share_pass f free grow free ss small c in
      let rest : at_least_zero remaining ≡ remaining = ground arith in
      let fits : total ss' + at_least_zero remaining < 2 ^ 63 = rw rest (omega arith) in
      let filled = total-fill_loop f (at_least_zero remaining) (at_least_zero remaining) ss' fits in
      let sum = filled ∙ ap (λ n. total ss' + n) rest in
      elim (fill_loop_ends (at_least_zero remaining) (at_least_zero remaining) ss' (omega arith)
        fits) [ inl done ↦ inl (omega arith) | inr full ↦ inr full ]

  -- When the preferred sizes leave some of the available space free and the growth factors add up to
  -- more than 0, the children take all that is available, unless no growing child is below its
  -- maximum. The available space is below 2 ^ 63.
  pub total-distribute_grow :
      (cs : List (Style Float)) (available : ℕ)
      → available < 2 ^ 63
      → total (initial_slots f cs) < available
      → is_positive (total_grow f (initial_slots f cs) zero_float) ≡ true
      → (total (distribute f cs available) ≡ available) ⊎ AreFull (distribute f cs available)
  unfolding distribute
  total-distribute_grow cs available a h g =
      let ss = initial_slots f cs in
      let grow = total_grow f ss zero_float in
      let free = sub_int64 available (total ss) in
      let free_is : free ≡ available - total ss = omega arith in
      let all = total-grow_slots_full free grow ss (omega arith) (initial_slots-AreClamped f cs) in
      ground (arith, all)
