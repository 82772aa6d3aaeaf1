-- ===== src/Layout/Solve.antt =====
-- internal/tui/layout/solve.go: `Solve` and `solve`. The map from nodes to rectangles is the list
-- of the entries that are written, in order, each under the key of its node. Sizes and gaps wrap as
-- the source's ints do. Positions (`X`, `Y` and `pos`) are taken without the
-- wrap, which they reach only where the sizes and gaps of a node add up to 2 ^ 63 or more, or where
-- paddings are negative.
pub mod Rects
pub mod Inside
use tuicord_v.Base.Int.{ℤ, pos, pos_part, neg_part, ◌+ℤ◌}
use tuicord_v.Base.Word.{sub_int64, mul_int64, at_least_zero}
use tuicord_v.Base.{
  ℕ, zero, suc, ◌+◌, ◌-◌, ◌*◌, ◌%◌, ◌^◌, Bool, true, false, ◌&&◌, ◌||◌, not, List, [], ◌∷◌, ◌++◌,
  Option, none, some, ltb, ◌==◌, length, if◌then◌else◌,
}
use tuicord_v.Layout.Distribute.{Slot, distribute}
use tuicord_v.Layout.Types.{
  Floats, Style, Direction, row, column, Insets, Rect, Node, Nodes, node, no_nodes, nil_node,
  cons_node,
}

-- Whether a node is laid out under a root of the given width: neither `Hidden` nor `hidden`.
unfoldable pub is_visible : {F : Type 0} → ℕ → Style F → Bool
is_visible root_width s = not s.hidden && not (ltb 0 s.hide_below && ltb root_width s.hide_below)

abbrev pub style_of : {F : Type 0} → Node F → Style F
style_of (node s _) = s

unfoldable pub visible_children : {F : Type 0} → ℕ → Nodes F → List (Style F)
visible_children root_width no_nodes = []
visible_children root_width (nil_node ns) = visible_children root_width ns
visible_children root_width (cons_node n ns) =
    let rest = visible_children root_width ns in
    if is_visible root_width (style_of n) then style_of n ∷ rest else rest

-- The 64 bits of an int.
abbrev pub int_bits : ℤ → ℕ
int_bits a = (pos_part a + (2 ^ 64 - neg_part a % 2 ^ 64)) % 2 ^ 64

unfoldable pub inset : Rect → Insets → Rect
inset r p = record {
  x = r.x +ℤ p.left;
  y = r.y +ℤ p.top;
  w = at_least_zero (sub_int64 (sub_int64 r.w (int_bits p.left)) (int_bits p.right));
  h = at_least_zero (sub_int64 (sub_int64 r.h (int_bits p.top)) (int_bits p.bottom));
}

abbrev pub main_size : Direction → Rect → ℕ
main_size row r = r.w
main_size column r = r.h

-- The rectangle of a child at an offset along the main axis.
abbrev pub child_rect : Direction → Rect → ℕ → ℕ → Rect
child_rect row inner at size = record { x = inner.x +ℤ pos at; y = inner.y; w = size; h = inner.h }
child_rect column inner at size = record {
  x = inner.x;
  y = inner.y +ℤ pos at;
  w = inner.w;
  h = size;
}

-- The slots that `distribute` makes of the visible children inside the padded rectangle.
unfoldable pub child_slots :
    (f : Floats) → Style f.Float → List (Style f.Float) → Rect → List (Slot f.Float)
child_slots f s visible inner =
    let total_gap = mul_int64 s.gap (length visible - 1) in
    distribute f visible (at_least_zero (sub_int64 (main_size s.dir inner) total_gap))

abbrev pub is_empty : Rect → Bool
is_empty r = r.w == 0 || r.h == 0

module _ {F : Type 0} where
  -- The size of the next visible child, and the sizes behind it.
  abbrev pub head_size : List (Slot F) → ℕ
  head_size [] = 0
  head_size (s ∷ _) = s.size

  abbrev pub tail_slots : List (Slot F) → List (Slot F)
  tail_slots [] = []
  tail_slots (_ ∷ ss) = ss

-- What a node writes: nothing, or its own rectangle and what its children write.
unfoldable pub write_node : Bool → Bool → ℕ → Rect → List (ℕ × Rect) → List (ℕ × Rect)
write_node skip childless key r below =
    if skip then [] else (key, r) ∷ (if childless then [] else below)

module _ (f : Floats) where
  open f use {Float}

  unfoldable mutual
    -- `solve`.
    pub solve : ℕ → Node Float → Rect → List (ℕ × Rect)
    solve root_width (node s ns) r =
        let visible = visible_children root_width ns in
        let inner = inset r s.padding in
        let below = solve_children root_width ns s inner 0 (child_slots f s visible inner) in
        write_node (not (is_visible root_width s) || is_empty r)
          (length visible == 0 || is_empty inner) s.key r below

    -- The loop of `solve` over the children; `at` is its `pos`, and the slots are those of the
    -- visible children that are left.
    pub solve_children :
        ℕ → Nodes Float → Style Float → Rect → ℕ → List (Slot Float) → List (ℕ × Rect)
    solve_children root_width no_nodes s inner at slots = []
    solve_children root_width (nil_node ns) s inner at slots =
        solve_children root_width ns s inner at slots
    solve_children root_width (cons_node n ns) s inner at slots =
        let size = head_size slots in
        let shown = is_visible root_width (style_of n) in
        let here = solve root_width n (child_rect s.dir inner at size) in
        let at' = if shown then at + size + s.gap else at in
        let rest =
          solve_children root_width ns s inner at' (if shown then tail_slots slots else slots) in
        if shown then here ++ rest else rest

-- `Solve`, on a root that may be nil.
unfoldable pub solve_root : (f : Floats) → Option (Node f.Float) → ℕ → ℕ → List (ℕ × Rect)
solve_root f none w h = []
solve_root f (some root) w h =
    if w == 0 || h == 0 then [] else solve f w root (record { x = pos 0; y = pos 0; w = w; h = h })
