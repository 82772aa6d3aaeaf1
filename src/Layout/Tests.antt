-- ===== src/Layout/Tests.antt =====
-- Runs of the solver, and the theorems at a concrete row of children. The floats are natural
-- numbers here.
use tuicord_v.Base.Int.{pos, ◌+ℤ◌, ◌-ℤ◌}
use tuicord_v.Base.{
  ℕ, ◌+◌, ◌*◌, ◌/◌, ◌≤◌, ◌≡◌, ◌-◌, ◌^◌, ◌==◌, ◌⊎◌, refl, false, List, [], ◌∷◌, some, ltb, arith,
  map,
}
use tuicord_v.Layout.Distribute.Full.{AreFull, total-distribute_grow}
use tuicord_v.Layout.Distribute.Grow.{total-distribute-le}
use tuicord_v.Layout.Distribute.{
  Slot, total, clamp, at_max, shrink_pass, shrink_loop, shrink, total_grow, next_size, share_pass,
  fill_pass, fill_loop, grow_slots, distribute,
}
use tuicord_v.Layout.Solve.Inside.{solve_root-AreInside}
use tuicord_v.Layout.Solve.Rects.{AreInside}
use tuicord_v.Layout.Solve.{
  is_visible, visible_children, inset, child_slots, write_node, solve, solve_root,
}
use tuicord_v.Layout.Types.{Floats, Style, row, Insets, Rect, Node, node, no_nodes, cons_node}

abbrev whole_numbers : Floats
whole_numbers = record {
  Float = ℕ;
  zero_float = 0;
  plus = λ a b. a + b;
  is_positive = λ a. ltb 0 a;
  is_at_most_zero = λ a. a == 0;
  share = λ free a all. free * a / all;
}

program : Unit {0}
unfolding clamp at_max shrink_pass shrink_loop shrink total_grow next_size share_pass fill_pass
    fill_loop grow_slots distribute is_visible visible_children inset child_slots write_node solve
    solve_root ◌+ℤ◌ ◌-ℤ◌
program = tt

abbrev none_in : Insets
none_in = record { top = pos 0; right = pos 0; bottom = pos 0; left = pos 0 }

abbrev style : ℕ → Style ℕ
style k = record {
  key = k;
  hidden = false;
  dir = row;
  grow = 0;
  basis = 0;
  min = 0;
  max = 0;
  gap = 0;
  padding = none_in;
  hide_below = 0;
}

-- `TestSolveRowGrow` and `TestSolveShrinkToMin` of the repository.
abbrev row_grow : Node ℕ
row_grow =
    node (record (style 0) { gap = 1 })
      (cons_node (node (record (style 1) { basis = 10 }) no_nodes) (
        cons_node (node (record (style 2) { grow = 1; min = 5 }) no_nodes)
          (cons_node (node (record (style 3) { basis = 5 }) no_nodes) no_nodes)))

abbrev rect : ℕ → ℕ → ℕ → ℕ → Rect
rect x y w h = record { x = pos x; y = pos y; w = w; h = h }

solve_row_grow :
    solve_root whole_numbers (some row_grow) 30 10
    ≡ (0, rect 0 0 30 10) ∷ (1, rect 0 0 10 10) ∷ (2, rect 11 0 13 10) ∷ (3, rect 25 0 5 10) ∷ []
unfolding program
solve_row_grow = refl

abbrev pair : List (Style ℕ)
pair = record (style 1) { basis = 10; min = 4 } ∷ record (style 2) { basis = 10; min = 4 } ∷ []

shrink_pair : map (λ (s : Slot ℕ). s.size) (distribute whole_numbers pair 11) ≡ 5 ∷ 6 ∷ []
unfolding program
shrink_pair = refl

-- The preferred sizes add up to -2 here: nothing is taken from them.
abbrev max_int : ℕ
max_int = 2 ^ 63 - 1

abbrev widest : List (Style ℕ)
widest = record (style 1) { basis = max_int } ∷ record (style 2) { basis = max_int } ∷ []

wrapped_pair :
    map (λ (s : Slot ℕ). s.size) (distribute whole_numbers widest 30) ≡ max_int ∷ max_int ∷ []
unfolding program
wrapped_pair = refl

solve_root-AreInside_example :
    AreInside (rect 0 0 30 10) (solve_root whole_numbers (some row_grow) 30 10)
unfolding clamp is_visible visible_children
solve_root-AreInside_example =
    solve_root-AreInside whole_numbers row_grow 30 10 (omega arith) (omega arith) (omega arith)

total-distribute-le_example : total (distribute whole_numbers pair 11) ≤ 11
unfolding clamp
total-distribute-le_example = total-distribute-le whole_numbers pair 11 (omega arith) (omega arith)

abbrev growing : List (Style ℕ)
growing = record (style 1) { basis = 3; grow = 1; max = 6 } ∷ record (style 2) { grow = 2 } ∷ []

grow_both : map (λ (s : Slot ℕ). s.size) (distribute whole_numbers growing 30) ≡ 6 ∷ 24 ∷ []
unfolding program
grow_both = refl

total-distribute_grow_example :
    (total (distribute whole_numbers growing 30) ≡ 30)
    ⊎ AreFull whole_numbers (distribute whole_numbers growing 30)
unfolding clamp total_grow
total-distribute_grow_example =
    total-distribute_grow whole_numbers growing 30 (omega arith) (omega arith) refl
