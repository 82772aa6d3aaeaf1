-- ===== src/Scrollbar.antt =====
-- internal/tui/widget/scrollbar.go: where the thumb of a scrollbar is, and the offset for a thumb
-- that is dragged. The extents come from the model that the bar drives.
use native.Mathlib.Nat.{
  div-eq_of_lt-le, div-mul-le_self, lt-div-mul-add, mul-le-mul_right, mul-le-mul_left, mul_comm,
  mul-add, suc-mul, zero-div, div-eq_of_lt,
}
use mathlib.Core.Path.{subst₂}
use tuicord_v.Base.{
  ℕ, zero, suc, ◌+◌, ◌-◌, ◌*◌, ◌/◌, ◌<◌, ◌≤◌, ◌≡◌, refl, sym, ap, ◌∙◌, min, max, Bool, true, false,
  ◌||◌, Option, none, some, ◌==◌, leb, if◌then◌else◌, arith, Bool-cases, inl, inr,
}
use native.Mathlib.Decide.{dec_lt}
mod Tests

-- The height that was drawn last, and the answer of ScrollExtent.
pub record Scrollbar : Type 0 where
  pub height : ℕ
  pub offset : ℕ
  pub viewport : ℕ
  pub content : ℕ

abbrev pub thumb_length : Scrollbar → ℕ
thumb_length s = min (max (s.height * s.viewport / s.content) 1) s.height

abbrev pub max_offset : Scrollbar → ℕ
max_offset s = s.content - s.viewport

-- The top of the thumb, its length and the last offset, unless everything fits.
unfoldable pub geometry : Scrollbar → Option (ℕ × ℕ × ℕ)
geometry s =
    let length = thumb_length s in
    let max_top = s.height - length in
    let offset = min s.offset (max_offset s) in
    let top = (offset * max_top + max_offset s / 2) / max_offset s in
    if s.height == 0 || s.viewport == 0 || leb s.content s.viewport
    then none
    else some (top, length, max_offset s)

-- The inverse, at the row that the thumb is dragged to.
unfoldable pub offset_at : Scrollbar → ℕ → Option (ℕ × ℕ × ℕ) → ℕ
offset_at s top none = 0
offset_at s top (some (_, length, max_offset)) =
    let max_top = s.height - length in
    if max_top == 0 then 0 else (min top max_top * max_offset + max_top / 2) / max_top

unfoldable pub offset_for_thumb_top : Scrollbar → ℕ → ℕ
offset_for_thumb_top s top = offset_at s top (geometry s)

-- `ScrollTo` of a model that clamps the offset to a limit of its own: an ItemList to its last offset, a
-- Viewport of lines to its last line.
unfoldable pub scroll_to : Scrollbar → ℕ → ℕ → Scrollbar
scroll_to s limit offset = record s { offset = min offset limit }

product_le : (h d a : ℕ) → d ≤ h → d * (h + a) ≤ h * (d + a)
product_le h d a le =
    omega (arith, mul-add d h a, mul-add h d a, mul_comm d h, mul-le-mul_right {m = d} {n = h} a le)

-- No more rows for the top of the thumb than offsets.
max_top-le :
    (s : Scrollbar)
    → s.viewport < s.content
    → s.height ≤ s.content
    → s.height - thumb_length s ≤ max_offset s
max_top-le s over low =
    let h = s.height in
    let v = s.viewport in
    let c = s.content in
    let a = c - h in
    let d = h + v - c in
    let quotient = h * v / c in
    let below : h * v < quotient * c + c = lt-div-mul-add {a = h * v} {b = c} (omega arith) in
    elim (dec_lt quotient d) [
      | no enough ↦ omega arith
      | yes short ↦
          let c_is : h + a ≡ c = omega arith in
          let v_is : d + a ≡ v = omega arith in
          let product : d * c ≤ h * v =
            subst₂ (λ i j. d * i ≤ h * j) c_is v_is (product_le h d a (omega arith)) in
          let step = mul-le-mul_right {m = suc quotient} {n = d} c (omega arith) in
          absurd (omega (arith, below, product, step, suc-mul quotient c))
    ]

-- Rounding to a coarser scale and back.
module _ (top max_top last : ℕ) (some_top : 0 < max_top) (finer : max_top ≤ last)
    (in_bar : top ≤ max_top) where
  abbrev there : ℕ
  there = (top * last + max_top / 2) / max_top

  there_le : there ≤ last
  there_le = elim (dec_lt last there) [
    | no fine ↦ omega arith
    | yes over ↦ absurd (
        omega (
          arith,
          div-mul-le_self (top * last + max_top / 2) max_top,
          mul-le-mul_right {m = suc last} {n = there} max_top over,
          suc-mul last max_top,
          mul-le-mul_right {m = top} {n = max_top} last in_bar,
          mul_comm max_top last,
        ))
  ]

  rounded : (a n : ℕ) → top * n ≤ a → a < top * n + n → a / n ≡ top
  rounded a n low high =
      div-eq_of_lt-le {k = top} n {m = a} low (omega (arith, high, suc-mul top n))

  there_and_back : (there * max_top + last / 2) / last ≡ top
  there_and_back = elim (dec_lt max_top last) [
    | yes coarser ↦
        let a = top * last + max_top / 2 in
        rounded (there * max_top + last / 2) last
          (omega (arith, lt-div-mul-add {a = a} {b = max_top} some_top))
          (omega (arith, div-mul-le_self a max_top))
    | no same ↦
        let equal : max_top ≡ last = omega arith in
        let there_is : there ≡ top =
          rounded (top * last + max_top / 2) max_top (omega (arith, ap (λ k. top * k) equal))
            (omega (arith, ap (λ k. top * k) equal)) in
        rounded (there * max_top + last / 2) last
          (omega (arith, ap (λ k. k * max_top) there_is, ap (λ k. top * k) equal))
          (omega (arith, ap (λ k. k * max_top) there_is, ap (λ k. top * k) equal))
  ]

-- A thumb that is dragged to a row of the bar is drawn in this row, of the same length: the offset
-- that is scrolled to is read back as the row. The bar and the viewport have a height, the content
-- is larger than the viewport, the bar is not higher than the content, the thumb fits in the bar at
-- the row, and the model allows every offset up to the last one.
pub geometry-offset_for_thumb_top :
    (s : Scrollbar) (limit top : ℕ)
    → 0 < s.height
    → 0 < s.viewport
    → s.viewport < s.content
    → s.height ≤ s.content
    → top + thumb_length s ≤ s.height
    → max_offset s ≤ limit
    → geometry (scroll_to s limit (offset_for_thumb_top s top))
      ≡ some (top, thumb_length s, max_offset s)
unfolding geometry offset_for_thumb_top offset_at scroll_to
geometry-offset_for_thumb_top s limit top some_height some_viewport over low in_bar room =
    let active : (s.height == 0 || s.viewport == 0 || leb s.content s.viewport) ≡ false =
      ground arith in
    let max_top = s.height - thumb_length s in
    let last = max_offset s in
    elim (Bool-cases (max_top == 0)) [
      | inl still ↦
          let none_left : max_top ≡ 0 = ground (arith, still) in
          let start : min (min 0 limit) last ≡ min 0 last = omega arith in
          let small : min 0 last * max_top + last / 2 < last =
            omega (arith, ap (λ k. min 0 last * k) none_left) in
          let at_top : (min 0 last * max_top + last / 2) / last ≡ top =
            div-eq_of_lt small ∙ omega arith in
          rw (active, still, start) (ap (λ k. some (k, thumb_length s, last)) at_top)
      | inr moves ↦
          let some_top : 0 < max_top = ground (arith, moves) in
          let finer = max_top-le s over low in
          let in_range : top ≤ max_top = omega arith in
          let clamped : min top max_top ≡ top = omega arith in
          let le = there_le top max_top last some_top finer in_range in
          let kept : min (there top max_top last some_top finer in_range) last
              ≡ there top max_top last some_top finer in_range =
            omega arith in
          let allowed : min (there top max_top last some_top finer in_range) limit
              ≡ there top max_top last some_top finer in_range =
            omega (arith, le, room) in
          rw (active, moves, clamped, allowed, kept)
            (ap (λ k. some (k, thumb_length s, last))
              (there_and_back top max_top last some_top finer in_range))
    ]
