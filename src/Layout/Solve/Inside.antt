-- ===== src/Layout/Solve/Inside.antt =====
-- Every rectangle of a layout lies inside the rectangle of its parent.
use native.Mathlib.Decide.{dec_lt}
use tuicord_v.Base.Int.{pos}
use tuicord_v.Base.Word.{sub_int64, at_least_zero}
use tuicord_v.Base.{
  ℕ, zero, suc, ◌+◌, ◌-◌, ◌*◌, ◌%◌, ◌^◌, ◌≤◌, ◌<◌, ◌≡◌, refl, Bool, true, false, ◌||◌, not, List,
  [], ◌∷◌, some, ◌==◌, length, arith, ◌⊎◌, inl, inr, Bool-cases, ◌∙◌, ap,
}
use tuicord_v.Layout.Distribute.Grow.{total-distribute-le, length-distribute}
use tuicord_v.Layout.Distribute.{Slot, distribute, total, initial_slots}
use tuicord_v.Layout.Solve.Rects.{
  IsInside, IsInside-refl, IsPadding, IsSmall, IsInside-IsSmall, inset-IsInside,
  child_rect-IsInside, AreInside, AreInside-append, AreInside-trans, main_size-small, no_room,
}
use tuicord_v.Layout.Solve.{
  is_visible, style_of, visible_children, inset, main_size, child_rect, child_slots, is_empty,
  head_size, tail_slots, write_node, solve, solve_children, solve_root,
}
use tuicord_v.Layout.Types.{
  Floats, Style, Direction, Rect, Node, Nodes, node, no_nodes, nil_node, cons_node,
}

-- What the slots take, with a gap behind each.
abbrev extent : {F : Type 0} → ℕ → List (Slot F) → ℕ
extent gap [] = 0
extent gap (s ∷ ss) = s.size + gap + extent gap ss

extent_lem :
    {F : Type 0} (gap : ℕ) (ss : List (Slot F)) → extent gap ss ≡ total ss + gap * length ss
extent_lem gap [] = omega arith
extent_lem gap (s ∷ ss) = omega (arith, extent_lem gap ss)

-- The slots fit behind the position, or all are empty.
abbrev Fits : {F : Type 0} → ℕ → ℕ → ℕ → List (Slot F) → Type 0
Fits room at gap ss = (total ss ≡ 0) ⊎ (at + extent gap ss ≤ room + gap)

Fits-tail_slots :
    {F : Type 0} (room at gap : ℕ) (ss : List (Slot F))
    → Fits room at gap ss
    → Fits room (at + head_size ss + gap) gap (tail_slots ss)
Fits-tail_slots room at gap [] h = inl refl
Fits-tail_slots room at gap (s ∷ ss) h = ground arith

write_node-AreInside :
    (skip childless : Bool) (key : ℕ) (r inner : Rect) (below : List (ℕ × Rect))
    → (childless ≡ false → IsInside inner r × AreInside inner below)
    → AreInside r (write_node skip childless key r below)
unfolding write_node
write_node-AreInside true childless key r inner below h = tt
write_node-AreInside false true key r inner below h = (IsInside-refl r, tt)
write_node-AreInside false false key r inner below h =
    let (inside, all) = h refl in (IsInside-refl r, AreInside-trans inner r below inside all)

-- There is one gap less than children.
gaps : (n gap : ℕ) → gap * n ≤ gap * (n - 1) + gap
gaps zero gap = omega arith
gaps (suc n) gap = let e : suc n - 1 ≡ n = omega arith in rw e (omega arith)

room_lem :
    (room taken : ℕ)
    → room < 2 ^ 63
    → taken < 2 ^ 63
    → at_least_zero (sub_int64 room (taken % 2 ^ 64)) ≡ room - taken
room_lem room taken r t = ground arith

module _ (f : Floats) where
  open f use {Float}

  -- The gaps between the visible children, and their preferred sizes, add up to ints.
  abbrev pub IsSized : ℕ → Style Float → Nodes Float → Type 0
  IsSized root_width s ns =
      let visible = visible_children root_width ns in
      (s.gap * (length visible - 1) < 2 ^ 63) × (total (initial_slots f visible) < 2 ^ 63)

  -- Under a root of the given width, no padding takes room from outside, and the sums of paddings,
  -- gaps and preferred sizes of each node do not wrap.
  abbrev mutual
    pub IsPadded : ℕ → Node Float → Type 0
    IsPadded root_width (node s ns) =
        IsPadding s.padding.left s.padding.right
        × IsPadding s.padding.top s.padding.bottom
        × IsSized root_width s ns
        × ArePadded root_width ns

    pub ArePadded : ℕ → Nodes Float → Type 0
    ArePadded root_width no_nodes = Unit {0}
    ArePadded root_width (nil_node ns) = ArePadded root_width ns
    ArePadded root_width (cons_node n ns) = IsPadded root_width n × ArePadded root_width ns

  distribute-Fits :
      (room gap : ℕ) (visible : List (Style Float))
      → room < 2 ^ 63
      → total (initial_slots f visible) < 2 ^ 63
      → Fits room 0 gap (distribute f visible (room - gap * (length visible - 1)))
  distribute-Fits room gap visible r small =
      let available = room - gap * (length visible - 1) in
      let bound = total-distribute-le f visible available (omega arith) small in
      let slots = distribute f visible available in
      let sizes : extent gap slots ≡ total slots + gap * length visible =
        extent_lem gap slots
        ∙ ap (λ n. total slots + gap * n) (length-distribute f visible available) in
      elim (dec_lt room (gap * (length visible - 1))) [
        | yes tight ↦ inl (omega arith)
        | no wide ↦ inr (omega (arith, gaps (length visible) gap))
      ]

  child_slots-Fits :
      (root_width : ℕ) (s : Style Float) (ns : Nodes Float) (inner : Rect)
      → main_size s.dir inner < 2 ^ 63
      → IsSized root_width s ns
      → Fits
          (main_size s.dir inner)
          0
          s.gap
          (child_slots f s (visible_children root_width ns) inner)
  unfolding child_slots
  child_slots-Fits root_width s ns inner r (gaps, small) =
      let visible = visible_children root_width ns in
      let room = main_size s.dir inner in
      rw (room_lem room (s.gap * (length visible - 1)) r gaps)
        (distribute-Fits room s.gap visible r small)

  solve_empty :
      (root_width : ℕ) (n : Node Float) (r : Rect) → is_empty r ≡ true → solve f root_width n r ≡ []
  unfolding solve write_node
  solve_empty root_width (node s ns) r e = rw e (ground arith)

  -- A child that fits lies inside, and so does what it writes; a child with no room writes nothing.
  child_inside :
      (root_width : ℕ) (n : Node Float) (d : Direction) (inner : Rect) (at gap : ℕ)
      (slots : List (Slot Float))
      → IsSmall inner
      → Fits (main_size d inner) at gap slots
      → ((r : Rect) → IsSmall r → AreInside r (solve f root_width n r))
      → AreInside inner (solve f root_width n (child_rect d inner at (head_size slots)))
  child_inside root_width n d inner at gap [] small h all =
      rw (solve_empty root_width n (child_rect d inner at 0) (no_room d inner at)) tt
  child_inside root_width n d inner at gap (s ∷ ss) small (inl e) all =
      let size : s.size ≡ 0 = omega arith in
      rw (size, solve_empty root_width n (child_rect d inner at 0) (no_room d inner at)) tt
  child_inside root_width n d inner at gap (s ∷ ss) small (inr le) all =
      let r = child_rect d inner at s.size in
      let inside = child_rect-IsInside d inner at s.size (omega arith) in
      AreInside-trans r inner (solve f root_width n r) inside
        (all r (IsInside-IsSmall inside small))

  mutual
    unfolding solve solve_children

    solve-AreInside :
        (root_width : ℕ) (n : Node Float) (r : Rect)
        → IsSmall r
        → IsPadded root_width n
        → AreInside r (solve f root_width n r)
    solve-AreInside root_width (node s ns) r small (side, up, sized, below) =
        let inner = inset r s.padding in
        write_node-AreInside (not (is_visible root_width s) || is_empty r)
          (length (visible_children root_width ns) == 0 || is_empty inner) s.key r inner _
          (λ e.
            let inside = inset-IsInside r s.padding small side up (ground arith) in
            let small' = IsInside-IsSmall inside small in
            (
              inside,
              solve_children-AreInside root_width ns s inner 0
                  (child_slots f s (visible_children root_width ns) inner) small' below
                  (child_slots-Fits root_width s ns inner (main_size-small s.dir inner small')
                    sized),
            ))

    solve_children-AreInside :
        (root_width : ℕ) (ns : Nodes Float) (s : Style Float) (inner : Rect) (at : ℕ)
        (slots : List (Slot Float))
        → IsSmall inner
        → ArePadded root_width ns
        → Fits (main_size s.dir inner) at s.gap slots
        → AreInside inner (solve_children f root_width ns s inner at slots)
    solve_children-AreInside root_width no_nodes s inner at slots small p h = tt
    solve_children-AreInside root_width (nil_node ns) s inner at slots small p h =
        solve_children-AreInside root_width ns s inner at slots small p h
    solve_children-AreInside root_width (cons_node n ns) s inner at slots small p h =
        let here =
          child_inside root_width n s.dir inner at s.gap slots small h
            (λ r q. solve-AreInside root_width n r q p.0) in
        elim (Bool-cases (is_visible root_width (style_of n))) [
          | inl shown ↦ rw shown (
              AreInside-append inner _ _ here (
                solve_children-AreInside root_width ns s inner (at + head_size slots + s.gap)
                  (tail_slots slots) small p.1
                  (Fits-tail_slots (main_size s.dir inner) at s.gap slots h)))
          | inr gone ↦ rw gone (solve_children-AreInside root_width ns s inner at slots small p.1 h)
        ]

  -- With paddings that are not negative, every rectangle that `Solve` returns lies inside the
  -- container, when the container's sides and, for each node, the sums of opposite paddings, of the
  -- gaps between its visible children and of their preferred sizes are ints: below 2 ^ 63.
  pub solve_root-AreInside :
      (root : Node Float) (w h : ℕ)
      → w < 2 ^ 63
      → h < 2 ^ 63
      → IsPadded w root
      → AreInside (record { x = pos 0; y = pos 0; w = w; h = h }) (solve_root f (some root) w h)
  unfolding solve_root
  solve_root-AreInside root w h wide high p =
      let r : Rect = record { x = pos 0; y = pos 0; w = w; h = h } in
      ground (arith, solve-AreInside w root r (wide, high) p)
