-- ===== src/Layout/Distribute.antt =====
-- internal/tui/layout/solve.go: the sizes of the children along the main axis. A child stands with
-- its size in a slot; sums and differences wrap as the source's ints do.
pub mod Shrink
pub mod Grow
pub mod Full
use tuicord_v.Base.{
  ℕ, zero, suc, ◌+◌, ◌-◌, ◌%◌, ◌^◌, Bool, true, false, ◌&&◌, ◌||◌, not, List, [], ◌∷◌, ltb, leb,
  ◌==◌, map, if◌then◌else◌,
}
use tuicord_v.Base.Word.{add_int64, sub_int64, is_negative, ltb_int64, at_least_zero}
use tuicord_v.Layout.Types.{Floats, Style}

pub record Slot (Float : Type 0) : Type 0 where
  pub child : Style Float
  pub size : ℕ

unfoldable pub clamp : ℕ → ℕ → ℕ → ℕ
clamp v min_size max_size =
    let v' = if ltb v min_size then min_size else v in
    if ltb 0 max_size && ltb max_size v' then max_size else v'

unfoldable pub at_max : ℕ → ℕ → Bool
at_max v max_size = ltb 0 max_size && (leb max_size v && not (is_negative v))

module _ {Float : Type 0} where
  abbrev pub total : List (Slot Float) → ℕ
  total [] = 0
  total (s ∷ ss) = s.size + total ss

  abbrev pub with_size : Slot Float → ℕ → Slot Float
  with_size s n = record s { size = n }

  -- One round over the children of `shrink`; `changed` is whether the need fell.
  unfoldable pub shrink_pass : (Style Float → ℕ) → ℕ → List (Slot Float) → List (Slot Float) × ℕ
  shrink_pass floor need [] = ([], need)
  shrink_pass floor need (s ∷ ss) =
      let skip = need == 0 || leb s.size (floor s.child) in
      let need' = if skip then need else need - 1 in
      let (rest, left) = shrink_pass floor need' ss in
      ((if skip then s else with_size s (s.size - 1)) ∷ rest, left)

  -- `for need > 0`, on fuel.
  unfoldable pub shrink_loop : ℕ → (Style Float → ℕ) → ℕ → List (Slot Float) → List (Slot Float) × ℕ
  shrink_loop zero floor need ss = (ss, need)
  shrink_loop (suc fuel) floor need ss =
      let (ss', need') = shrink_pass floor need ss in
      let again = shrink_loop fuel floor need' ss' in
      if need == 0 || need' == need then (ss, need) else again

  unfoldable pub shrink : List (Slot Float) → ℕ → List (Slot Float)
  shrink ss need =
      let (ss', need') = shrink_loop need (λ c. c.min) need ss in
      (shrink_loop need' (λ _. 0) need' ss').0

module _ (f : Floats) where
  open f use {Float, zero_float, plus, is_positive, is_at_most_zero, share}

  unfoldable pub total_grow : List (Slot Float) → Float → Float
  total_grow [] acc = acc
  total_grow (s ∷ ss) acc =
      total_grow ss (if is_positive s.child.grow then plus acc s.child.grow else acc)

  -- The size after the share of the free space, which is cut to what remains.
  unfoldable pub next_size : ℕ → Float → ℕ → Slot Float → ℕ
  unfolding clamp
  next_size free grow remaining s =
      let part = share free s.child.grow grow % 2 ^ 64 in
      let part' = if ltb_int64 remaining part then remaining else part in
      let next = clamp (at_least_zero (add_int64 s.size part')) s.child.min s.child.max in
      if is_at_most_zero s.child.grow then s.size else next

  -- The loop that hands each growing child its share of the free space.
  unfoldable pub share_pass : ℕ → Float → ℕ → List (Slot Float) → List (Slot Float) × ℕ
  share_pass free grow remaining [] = ([], remaining)
  share_pass free grow remaining (s ∷ ss) =
      let next = next_size free grow remaining s in
      let remaining' = sub_int64 remaining (sub_int64 next s.size) in
      let (rest, left) = share_pass free grow remaining' ss in (with_size s next ∷ rest, left)

  -- One round of the loop that hands out what is left, a cell to each growing child.
  unfoldable pub fill_pass : ℕ → List (Slot Float) → List (Slot Float) × ℕ
  unfolding at_max
  fill_pass remaining [] = ([], remaining)
  fill_pass remaining (s ∷ ss) =
      let skip = remaining == 0 || (is_at_most_zero s.child.grow || at_max s.size s.child.max) in
      let remaining' = if skip then remaining else remaining - 1 in
      let (rest, left) = fill_pass remaining' ss in
      ((if skip then s else with_size s (add_int64 s.size 1)) ∷ rest, left)

  -- `for remaining > 0`, on fuel.
  unfoldable pub fill_loop : ℕ → ℕ → List (Slot Float) → List (Slot Float) × ℕ
  fill_loop zero remaining ss = (ss, remaining)
  fill_loop (suc fuel) remaining ss =
      let (ss', remaining') = fill_pass remaining ss in
      let again = fill_loop fuel remaining' ss' in
      if remaining == 0 || remaining' == remaining then (ss, remaining) else again

  abbrev pub initial_slots : List (Style Float) → List (Slot Float)
  initial_slots = map (λ c. record { child = c; size = clamp c.basis c.min c.max })

  -- The branch of `distribute` with free space and a growing child.
  unfoldable pub grow_slots : ℕ → Float → List (Slot Float) → List (Slot Float)
  grow_slots free grow ss =
      let (ss', remaining) = share_pass free grow free ss in
      let rest = at_least_zero remaining in (fill_loop rest rest ss').0

  unfoldable pub distribute : List (Style Float) → ℕ → List (Slot Float)
  distribute children available =
      let ss = initial_slots children in
      let grow = total_grow ss zero_float in
      let free = sub_int64 available (total ss) in
      if ltb 0 (at_least_zero free) && is_positive grow
      then grow_slots free grow ss
      else if is_negative free
      then shrink ss (at_least_zero (sub_int64 0 free))
      else ss
