-- ===== src/Layout/Solve/Rects.antt =====
-- internal/tui/layout/solve.go: the rectangles of a node's padding and of its children lie inside the
-- node's own.
use tuicord_v.Base.Int.{ℤ, pos, pos_part, ◌+ℤ◌, ◌≤ℤ◌, int_laws, parts_exclusive}
use tuicord_v.Base.Word.{sub_int64, at_least_zero}
use tuicord_v.Base.{ℕ, ◌+◌, ◌-◌, ◌^◌, ◌≤◌, ◌<◌, ◌≡◌, refl, true, false, List, [], ◌∷◌, ◌++◌, arith}
use tuicord_v.Layout.Solve.{int_bits, inset, main_size, child_rect, is_empty}
use tuicord_v.Layout.Types.{Direction, row, column, Insets, Rect}

pub record IsInside (a b : Rect) : Type 0 where
  pub left : b.x ≤ℤ a.x
  pub top : b.y ≤ℤ a.y
  pub right : a.x +ℤ pos a.w ≤ℤ b.x +ℤ pos b.w
  pub bottom : a.y +ℤ pos a.h ≤ℤ b.y +ℤ pos b.h

pub IsInside-refl : (r : Rect) → IsInside r r
IsInside-refl r = omega int_laws

pub IsInside-trans : {a b c : Rect} → IsInside a b → IsInside b c → IsInside a c
IsInside-trans p q = omega int_laws

-- Two paddings of opposite sides that are not negative, and whose sum is an int.
abbrev pub IsPadding : ℤ → ℤ → Type 0
IsPadding a b = (pos 0 ≤ℤ a) × (pos 0 ≤ℤ b) × (pos_part a + pos_part b < 2 ^ 63)

-- A rectangle whose sides are ints.
abbrev pub IsSmall : Rect → Type 0
IsSmall r = (r.w < 2 ^ 63) × (r.h < 2 ^ 63)

pub IsInside-IsSmall : {a b : Rect} → IsInside a b → IsSmall b → IsSmall a
IsInside-IsSmall p s = omega int_laws

-- The room between two paddings.
padded_lem :
    (w : ℕ) (a b : ℤ)
    → w < 2 ^ 63
    → IsPadding a b
    → at_least_zero (sub_int64 (sub_int64 w (int_bits a)) (int_bits b))
      ≡ w - pos_part a - pos_part b
padded_lem w a b s p = ground (arith, parts_exclusive a, parts_exclusive b)

pub inset-IsInside :
    (r : Rect) (p : Insets)
    → IsSmall r
    → IsPadding p.left p.right
    → IsPadding p.top p.bottom
    → is_empty (inset r p) ≡ false
    → IsInside (inset r p) r
unfolding inset
inset-IsInside r p small side up e =
    let width = padded_lem r.w p.left p.right small.0 side in
    let height = padded_lem r.h p.top p.bottom small.1 up in
    let wide : 0 < (inset r p).w = ground arith in
    let high : 0 < (inset r p).h = ground arith in
    omega (int_laws, parts_exclusive p.left, parts_exclusive p.top)

pub child_rect-IsInside :
    (d : Direction) (inner : Rect) (at size : ℕ)
    → at + size ≤ main_size d inner
    → IsInside (child_rect d inner at size) inner
child_rect-IsInside row inner at size h = omega int_laws
child_rect-IsInside column inner at size h = omega int_laws

abbrev pub AreInside : Rect → List (ℕ × Rect) → Type 0
AreInside r [] = Unit {0}
AreInside r ((k, q) ∷ es) = IsInside q r × AreInside r es

pub AreInside-append :
    (r : Rect) (es fs : List (ℕ × Rect)) → AreInside r es → AreInside r fs → AreInside r (es ++ fs)
AreInside-append r [] fs a b = b
AreInside-append r ((k, q) ∷ es) fs a b = (a.0, AreInside-append r es fs a.1 b)

pub AreInside-trans :
    (q r : Rect) (es : List (ℕ × Rect)) → IsInside q r → AreInside q es → AreInside r es
AreInside-trans q r [] h a = tt
AreInside-trans q r ((k, p) ∷ es) h a = (IsInside-trans a.0 h, AreInside-trans q r es h a.1)

pub main_size-small : (d : Direction) (r : Rect) → IsSmall r → main_size d r < 2 ^ 63
main_size-small row r s = s.0
main_size-small column r s = s.1

pub no_room : (d : Direction) (inner : Rect) (at : ℕ) → is_empty (child_rect d inner at 0) ≡ true
no_room row inner at = refl
no_room column inner at = ground arith
