-- ===== src/Focus/Tests.antt =====
-- Runs of the focus manager.
use native.Mathlib.Decide.{ℕ_discrete}
use tuicord_v.Base.{
  ℕ, ◌≤◌, ◌<◌, ◌≡◌, ◌⊎◌, zero, suc, get_elem?, ◌==◌, refl, Bool, true, false, [], ◌∷◌, none, some,
  length, arith, remove_at,
}
use tuicord_v.Focus.State.{
  FocusManager, new_focus_manager, set_on_change, direct, traversal, notify, record_visit,
  prune_from, prune_history, visit_at, focused, is_explicit,
}
use tuicord_v.Focus.Operations.{
  step_index, register, collect, replace, set, step_from, step, next, prev, back_from, forward_from,
  back, forward, clear, remove,
}
use tuicord_v.Focus.Operations.{can_at}
use tuicord_v.Focus.Reach.{Reach, created, observed, replaced, Reach-IsValid}
use tuicord_v.Focus.Walk.{ahead_of, AllCan, step-nearest}
use tuicord_v.Focus.Visits.{back-set}
use tuicord_v.Focus.Removal.{focused-remove_last}

program : Unit {0}
unfolding set_on_change notify record_visit prune_from prune_history visit_at focused is_explicit
    step_index register collect replace set step_from step next prev back_from forward_from back
    forward clear remove ℕ_discrete
program = tt

abbrev all : ℕ → Bool
all w = true

abbrev three : FocusManager ℕ
three =
    replace ℕ_discrete all (λ _. false) (set_on_change new_focus_manager true) (1 ∷ 2 ∷ 3 ∷ 2 ∷ [])

starting : focused three ≡ some 1
unfolding program
starting = refl

around : focused (prev ℕ_discrete all three).0 ≡ some 3
unfolding program
around = refl

returned :
    focused (back ℕ_discrete all (set ℕ_discrete all (next ℕ_discrete all three).0 3 direct).0).0
    ≡ some 2
unfolding program
returned = refl

-- The focus is on the last of three widgets, and the first is removed.
jumped : focused (remove ℕ_discrete (set ℕ_discrete all three 3 direct).0 1).0 ≡ some 2
unfolding program
jumped = refl

three_reached : Reach ℕ_discrete three
three_reached = replaced (observed created true) all (λ w. false) (1 ∷ 2 ∷ 3 ∷ 2 ∷ [])

-- Only the widget 3 can have the focus.
abbrev only : ℕ → Bool
only w = w == 3

abbrev Third : Type 0
Third =
    ((n : ℕ) × (1 ≤ n)
      × (n ≤ length three.ring)
      × (can_at ℕ_discrete only three.ring (ahead_of ℕ_discrete only three true 0 n) ≡ true)
      × ((m : ℕ)
          → 1 ≤ m
          → m < n
          → can_at ℕ_discrete only three.ring (ahead_of ℕ_discrete only three true 0 m) ≡ false)
      × (focused (step ℕ_discrete only three true traversal).0
          ≡ get_elem? three.ring (ahead_of ℕ_discrete only three true 0 n))
      × ((step ℕ_discrete only three true traversal).1
          ≡ get_elem? three.ring (ahead_of ℕ_discrete only three true 0 n)))
    ⊎ (((m : ℕ)
          → 1 ≤ m
          → m ≤ length three.ring
          → can_at ℕ_discrete only three.ring (ahead_of ℕ_discrete only three true 0 m) ≡ false)
        × (step ℕ_discrete only three true traversal ≡ (three, none)))

step-nearest_example : Third
unfolding program
step-nearest_example = step-nearest ℕ_discrete only three true traversal 0 refl (omega arith)

all_can : AllCan ℕ_discrete all three.ring
unfolding program
all_can zero h = refl
all_can (suc zero) h = refl
all_can (suc (suc zero)) h = refl
all_can (suc (suc (suc i))) h = absurd (omega arith)

back-set_example :
    (focused (set ℕ_discrete all three 3 direct).0 ≡ some 3)
    × (focused (back ℕ_discrete all (set ℕ_discrete all three 3 direct).0).0 ≡ some 1)
    × (focused
          (forward ℕ_discrete all (back ℕ_discrete all (set ℕ_discrete all three 3 direct).0).0).0
        ≡ some 3)
unfolding program
back-set_example =
    back-set ℕ_discrete all three 1 3 2 direct (Reach-IsValid ℕ_discrete three_reached) refl
      (omega arith) refl refl refl

abbrev last : FocusManager ℕ
last = (set ℕ_discrete all three 3 direct).0

focused-remove_last_example :
    (focused (remove ℕ_discrete last 1).0 ≡ get_elem? (remove_at 0 last.ring) 0)
    × ((remove ℕ_discrete last 1).0.changes ≡ last.changes)
unfolding program
focused-remove_last_example =
    focused-remove_last ℕ_discrete last 1 0 2 refl refl (omega arith) (omega arith) (omega arith)
