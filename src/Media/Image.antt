-- ===== src/Media/Image.antt =====
-- internal/media/cache.go and decode.go: the memory that a decoded image keeps.
use native.Mathlib.Nat.{mul-div-le, mul-le-mul_left}
use tuicord_v.Base.Int.{ℤ, pos_part, neg_part}
use tuicord_v.Base.{
  ℕ, ◌+◌, ◌-◌, ◌*◌, ◌/◌, ◌^◌, ◌≤◌, ◌≡◌, ◌&&◌, ◌||◌, not, Option, none, some, ltb, ◌==◌,
  if◌then◌else◌, arith,
}

-- The image types of the standard library that keep one slice of pixels.
pub data PixFormat : Type 0 where
  rgba nrgba rgba64 nrgba64 alpha alpha16 gray gray16 cmyk : PixFormat

-- An image by what its type keeps: the lengths of its slices, or the sides of its bounds.
pub data Image : Type 0 where
  packed : PixFormat → ℕ → Image
  paletted : ℕ → ℕ → Image
  ycbcr : ℕ → ℕ → ℕ → Image
  other : ℤ → ℤ → Image

abbrev pub max_int64 : ℕ
max_int64 = 2 ^ 63 - 1

-- The product of two `int64`, or none when one is negative or the product overflows.
unfoldable pub checked_mul : ℤ → ℤ → Option ℕ
checked_mul a b =
    let overflows = not (pos_part a == 0) && ltb (max_int64 / pos_part a) (pos_part b) in
    if ltb 0 (neg_part a) || (ltb 0 (neg_part b) || overflows)
    then none
    else some (pos_part a * pos_part b)

unfoldable pub decoded_image_bytes : Option Image → ℕ
decoded_image_bytes none = 0
decoded_image_bytes (some (packed _ pix)) = pix
decoded_image_bytes (some (paletted pix palette)) = pix + palette * 8
decoded_image_bytes (some (ycbcr y cb cr)) = y + cb + cr
decoded_image_bytes (some (other dx dy)) = elim (checked_mul dx dy) [
  | none ↦ max_int64
  | some pixels ↦ elim (checked_mul (ℤ.pos pixels) (ℤ.pos 4)) [
    | none ↦ max_int64
    | some bytes ↦ bytes
  ]
]

-- A product that is returned fits an `int64` and is the product of two numbers that are not negative.
pub checked_mul_bounds :
    (a b : ℤ) {n : ℕ}
    → checked_mul a b ≡ some n
    → (n ≤ max_int64) × (n ≡ pos_part a * pos_part b) × (neg_part a ≡ 0) × (neg_part b ≡ 0)
unfolding checked_mul
checked_mul_bounds a b e =
    let top = mul-div-le max_int64 (pos_part a) in
    let scaled = mul-le-mul_left {m = pos_part b} {n = max_int64 / pos_part a} (pos_part a) in
    grind (arith, top, scaled)
