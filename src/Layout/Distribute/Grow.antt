-- ===== src/Layout/Distribute/Grow.antt =====
-- The free space: what the children gain and what is left.
use native.Mathlib.Decide.{dec_lt}
use tuicord_v.Base.Word.{add_int64, sub_int64, is_negative, ltb_int64, at_least_zero}
use tuicord_v.Base.{
  ℕ, zero, suc, ◌+◌, ◌-◌, ◌%◌, ◌^◌, ◌≤◌, ◌<◌, ◌≡◌, refl, true, List, [], ◌∷◌, length, length-map,
  if◌then◌else◌, arith, ◌⊎◌, inl, inr, Bool-cases, ◌∙◌, ap,
}
use tuicord_v.Layout.Distribute.Shrink.{total-shrink, length-shrink}
use tuicord_v.Layout.Distribute.{
  Slot, total, clamp, next_size, share_pass, fill_pass, fill_loop, total_grow, grow_slots,
  initial_slots, distribute,
}
use tuicord_v.Layout.Types.{Floats, Style}

clamp-le :
    (v u lo hi room : ℕ)
    → clamp v lo hi ≡ v
    → u ≤ v + room
    → (clamp u lo hi ≤ v + room) × (clamp (clamp u lo hi) lo hi ≡ clamp u lo hi)
unfolding clamp
clamp-le v u lo hi room h b = ground arith

clamp-clamp : (v lo hi : ℕ) → clamp (clamp v lo hi) lo hi ≡ clamp v lo hi
unfolding clamp
clamp-clamp v lo hi = ground arith

-- A share that is cut to what remains adds at most that.
add_share-le :
    (size remaining part : ℕ)
    → size + remaining < 2 ^ 63
    → part < 2 ^ 64
    → at_least_zero (add_int64 size (if ltb_int64 remaining part then remaining else part))
      ≤ size + remaining
add_share-le size remaining part h p = ground arith

-- What remains when a size has become another one, as long as no int wraps.
sub_used :
    (remaining size next : ℕ)
    → size + remaining < 2 ^ 63
    → next ≤ size + remaining
    → sub_int64 remaining (sub_int64 next size) ≡ remaining + size - next
sub_used remaining size next h n = omega arith

module _ (f : Floats) where
  open f use {Float, zero_float}

  -- Every size is one that its limits clamp to itself.
  abbrev pub AreClamped : List (Slot Float) → Type 0
  AreClamped [] = Unit {0}
  AreClamped (s ∷ ss) = (clamp s.size s.child.min s.child.max ≡ s.size) × AreClamped ss

  next_size_bounds :
      (free : ℕ) (grow : Float) (remaining : ℕ) (s : Slot Float)
      → s.size + remaining < 2 ^ 63
      → clamp s.size s.child.min s.child.max ≡ s.size
      → (next_size f free grow remaining s ≤ s.size + remaining)
        × (clamp (next_size f free grow remaining s) s.child.min s.child.max
            ≡ next_size f free grow remaining s)
  unfolding next_size
  next_size_bounds free grow remaining s small h =
      let part = f.share free s.child.grow grow % 2 ^ 64 in
      let part' = if ltb_int64 remaining part then remaining else part in
      let bound = add_share-le s.size remaining part small (omega arith) in
      let kept =
        clamp-le s.size (at_least_zero (add_int64 s.size part')) s.child.min s.child.max remaining h
          bound in
      elim (Bool-cases (f.is_at_most_zero s.child.grow)) [
        | inl skip ↦ rw skip (omega arith, h)
        | inr share ↦ rw share kept
      ]

  pub total-share_pass :
      (free : ℕ) (grow : Float) (remaining : ℕ) (ss : List (Slot Float))
      → total ss + remaining < 2 ^ 63
      → AreClamped ss
      → (total (share_pass f free grow remaining ss).0 + (share_pass f free grow remaining ss).1
          ≡ total ss + remaining)
        × AreClamped (share_pass f free grow remaining ss).0
  unfolding share_pass
  total-share_pass free grow remaining [] small c = (omega arith, tt)
  total-share_pass free grow remaining (s ∷ ss) small c =
      let next = next_size f free grow remaining s in
      let bounds = next_size_bounds free grow remaining s (omega arith) c.0 in
      let used = sub_used remaining s.size next (omega arith) bounds.0 in
      let rest =
        total-share_pass free grow (sub_int64 remaining (sub_int64 next s.size)) ss
          (rw used (omega arith)) c.1 in
      let sum = rest.0 ∙ ap (λ n. total ss + n) used in (omega arith, (bounds.1, rest.1))

  pub total-fill_pass :
      (remaining : ℕ) (ss : List (Slot Float))
      → total ss + remaining < 2 ^ 63
      → (total (fill_pass f remaining ss).0 + (fill_pass f remaining ss).1 ≡ total ss + remaining)
        × ((fill_pass f remaining ss).1 ≤ remaining)
  unfolding fill_pass
  total-fill_pass remaining [] small = omega arith
  total-fill_pass remaining (s ∷ ss) small = ground (
    arith,
    total-fill_pass remaining ss (omega arith),
    total-fill_pass (remaining - 1) ss (omega arith),
  )

  pub total-fill_loop :
      (fuel remaining : ℕ) (ss : List (Slot Float))
      → total ss + remaining < 2 ^ 63
      → total (fill_loop f fuel remaining ss).0 + (fill_loop f fuel remaining ss).1
        ≡ total ss + remaining
  unfolding fill_loop
  total-fill_loop zero remaining ss small = refl
  total-fill_loop (suc fuel) remaining ss small =
      let (ss', remaining') = fill_pass f remaining ss in
      let pass = total-fill_pass remaining ss small in
      ground (arith, total-fill_loop fuel remaining' ss' (omega arith))

  pub initial_slots-AreClamped : (cs : List (Style Float)) → AreClamped (initial_slots f cs)
  initial_slots-AreClamped [] = tt
  initial_slots-AreClamped (c ∷ cs) = (clamp-clamp c.basis c.min c.max, initial_slots-AreClamped cs)

  total-grow_slots :
      (free : ℕ) (grow : Float) (ss : List (Slot Float))
      → total ss + free < 2 ^ 63
      → AreClamped ss
      → total (grow_slots f free grow ss) ≤ total ss + free
  unfolding grow_slots
  total-grow_slots free grow ss small c =
      let (ss', remaining) = share_pass f free grow free ss in
      let shared = total-share_pass free grow free ss small c in
      let rest : at_least_zero remaining ≡ remaining = ground arith in
      let filled =
        total-fill_loop (at_least_zero remaining) (at_least_zero remaining) ss'
          (rw rest (omega arith)) in
      let sum = filled ∙ ap (λ n. total ss' + n) rest in omega arith

  -- The free space of sizes that do not wrap, and what the sizes take too much.
  free_lem :
      (available sum : ℕ)
      → available < 2 ^ 63
      → sum < 2 ^ 63
      → ((sum ≤ available) × (sub_int64 available sum ≡ available - sum))
        ⊎ ((is_negative (sub_int64 available sum) ≡ true)
            × (at_least_zero (sub_int64 0 (sub_int64 available sum)) ≡ sum - available))
  free_lem available sum a s = elim (dec_lt available sum) [
    | yes over ↦ inr (ground arith)
    | no fits ↦ inl (omega arith)
  ]

  -- The sizes of the children add up to at most what is available, whatever their limits and shares
  -- are, when that and the sum of their preferred sizes are ints: below 2 ^ 63.
  pub total-distribute-le :
      (cs : List (Style Float)) (available : ℕ)
      → available < 2 ^ 63
      → total (initial_slots f cs) < 2 ^ 63
      → total (distribute f cs available) ≤ available
  unfolding distribute
  total-distribute-le cs available a small =
      let ss = initial_slots f cs in
      let grow = total_grow f ss zero_float in
      let free = sub_int64 available (total ss) in
      elim (free_lem available (total ss) a small) [
        | inl (fits, e) ↦
            ground
              (arith, total-grow_slots free grow ss (omega arith) (initial_slots-AreClamped cs))
        | inr (over, e) ↦ ground (arith, total-shrink ss (at_least_zero (sub_int64 0 free)))
      ]

  length-share_pass :
      (free : ℕ) (grow : Float) (remaining : ℕ) (ss : List (Slot Float))
      → length (share_pass f free grow remaining ss).0 ≡ length ss
  unfolding share_pass
  length-share_pass free grow remaining [] = refl
  length-share_pass free grow remaining (s ∷ ss) = ap suc (
      length-share_pass free grow
        (sub_int64 remaining (sub_int64 (next_size f free grow remaining s) s.size)) ss)

  length-fill_pass :
      (remaining : ℕ) (ss : List (Slot Float)) → length (fill_pass f remaining ss).0 ≡ length ss
  unfolding fill_pass
  length-fill_pass remaining [] = refl
  length-fill_pass remaining (s ∷ ss) =
      ground (arith, length-fill_pass remaining ss, length-fill_pass (remaining - 1) ss)

  length-fill_loop :
      (fuel remaining : ℕ) (ss : List (Slot Float))
      → length (fill_loop f fuel remaining ss).0 ≡ length ss
  unfolding fill_loop
  length-fill_loop zero remaining ss = refl
  length-fill_loop (suc fuel) remaining ss =
      let (ss', remaining') = fill_pass f remaining ss in
      ground (arith, length-fill_pass remaining ss, length-fill_loop fuel remaining' ss')

  length-grow_slots :
      (free : ℕ) (grow : Float) (ss : List (Slot Float))
      → length (grow_slots f free grow ss) ≡ length ss
  unfolding grow_slots
  length-grow_slots free grow ss =
      let (ss', remaining) = share_pass f free grow free ss in
      length-fill_loop (at_least_zero remaining) (at_least_zero remaining) ss'
      ∙ length-share_pass free grow free ss

  -- Every child has a slot.
  pub length-distribute :
      (cs : List (Style Float)) (available : ℕ) → length (distribute f cs available) ≡ length cs
  unfolding distribute
  length-distribute cs available =
      let ss = initial_slots f cs in
      let grow = total_grow f ss zero_float in
      ground (
        arith,
        length-grow_slots (sub_int64 available (total ss)) grow ss,
        length-shrink ss (at_least_zero (sub_int64 0 (sub_int64 available (total ss)))),
        length-map cs
            (λ c. let s : Slot Float = record { child = c; size = clamp c.basis c.min c.max } in s),
      )
