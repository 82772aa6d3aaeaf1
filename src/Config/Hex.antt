-- ===== src/Config/Hex.antt =====
-- internal/config/color.go: which texts are colours.
use tuicord_v.Base.{
  ℕ, ◌+◌, ◌*◌, ◌/◌, ◌%◌, ◌<◌, ◌≡◌, refl, ap, ◌∙◌, Bool, true, false, ◌&&◌, [], ◌∷◌, ◌++◌, Option,
  none, some, ◌==◌, if◌then◌else◌, arith, Bool-cases, inl, inr, drop, not,
}
use tuicord_v.Config.{
  Text, is_space, trim_end, trim, trim_sign, is_empty, rune_bytes, byte_length, hex_value,
  parse_hex, ColorResult, parsed, not_six_digits, not_hex, of_value, parse_trimmed, parse_color,
  hex_digit, color_hex, is_some,
}
use tuicord_v.Screen.Cells.{Color, rgb, default_color}

hex_digit-not_space : (d : ℕ) → d < 16 → is_space (hex_digit d) ≡ false
hex_digit-not_space d h = ground arith

hex_value-hex_digit : (d : ℕ) → d < 16 → hex_value (hex_digit d) ≡ some d
hex_value-hex_digit d h = ground arith

rune_bytes-hex_digit : (d : ℕ) → d < 16 → rune_bytes (hex_digit d) ≡ 1
rune_bytes-hex_digit d h = ground arith

parse_hex-cons :
    (v d : ℕ) (rs : Text) → d < 16 → parse_hex v (hex_digit d ∷ rs) ≡ parse_hex (v * 16 + d) rs
parse_hex-cons v d rs h = rw (hex_value-hex_digit d h, parse_hex) refl

is_empty-last : (s : Text) (r : ℕ) → is_empty (s ++ r ∷ []) ≡ false
is_empty-last [] r = refl
is_empty-last (x ∷ s) r = refl

-- A text whose last rune is no space has nothing to trim at its end.
trim_end-last : (s : Text) (r : ℕ) → is_space r ≡ false → trim_end (s ++ r ∷ []) ≡ s ++ r ∷ []
trim_end-last [] r h = rw h refl
trim_end-last (x ∷ s) r h = elim (Bool-cases (is_space x)) [
  | inl blank ↦ rw (trim_end-last s r h) (rw (blank, is_empty-last s r) refl)
  | inr plain ↦ rw (trim_end-last s r h) (rw plain refl)
]

module _ (a b c d e f : ℕ) (ha : a < 16) (hb : b < 16) (hc : c < 16) (hd : d < 16) (he : e < 16)
    (hf : f < 16) where
  abbrev digits : Text
  digits = hex_digit a ∷ hex_digit b ∷ hex_digit c ∷ hex_digit d ∷ hex_digit e ∷ hex_digit f ∷ []

  trim-digits : trim (35 ∷ digits) ≡ 35 ∷ digits
  trim-digits =
      trim_end-last (35 ∷ hex_digit a ∷ hex_digit b ∷ hex_digit c ∷ hex_digit d ∷ hex_digit e ∷ [])
        (hex_digit f) (hex_digit-not_space f hf)

  byte_length-digits : byte_length digits ≡ 6
  byte_length-digits = omega (
    arith,
    rune_bytes-hex_digit a ha,
    rune_bytes-hex_digit b hb,
    rune_bytes-hex_digit c hc,
    rune_bytes-hex_digit d hd,
    rune_bytes-hex_digit e he,
    rune_bytes-hex_digit f hf,
  )

  abbrev value : ℕ
  value = (((((0 * 16 + a) * 16 + b) * 16 + c) * 16 + d) * 16 + e) * 16 + f

  parse_hex-digits : parse_hex 0 digits ≡ some value
  parse_hex-digits =
      parse_hex-cons 0 a (drop 1 digits) ha
      ∙ parse_hex-cons (0 * 16 + a) b (drop 2 digits) hb
      ∙ parse_hex-cons ((0 * 16 + a) * 16 + b) c (drop 3 digits) hc
      ∙ parse_hex-cons (((0 * 16 + a) * 16 + b) * 16 + c) d (drop 4 digits) hd
      ∙ parse_hex-cons ((((0 * 16 + a) * 16 + b) * 16 + c) * 16 + d) e (drop 5 digits) he
      ∙ parse_hex-cons (((((0 * 16 + a) * 16 + b) * 16 + c) * 16 + d) * 16 + e) f [] hf

  parse_color-digits : parse_color (35 ∷ digits) ≡ of_value (some value)
  unfolding parse_color parse_trimmed
  parse_color-digits =
      let six : (byte_length digits == 6) ≡ true = ground (arith, byte_length-digits) in
      ap parse_trimmed trim-digits
      ∙ ap {B = ColorResult}
          (λ (x : Bool). if x then of_value (parse_hex 0 digits) else not_six_digits) six
      ∙ ap of_value parse_hex-digits

of_value-channels :
    (r g b : ℕ)
    → r < 256
    → g < 256
    → b < 256
    → of_value (
        some (
          (((((0 * 16 + r / 16) * 16 + r % 16) * 16 + g / 16) * 16 + g % 16) * 16 + b / 16) * 16
          + b % 16))
      ≡ parsed (rgb r g b)
of_value-channels r g b hr hg hb =
    let v =
      (((((0 * 16 + r / 16) * 16 + r % 16) * 16 + g / 16) * 16 + g % 16) * 16 + b / 16) * 16
      + b % 16 in
    let v_is : v ≡ r * 65536 + g * 256 + b = omega arith in
    let red : v / 65536 % 256 ≡ r = omega (arith, v_is) in
    let green : v / 256 % 256 ≡ g = omega (arith, v_is) in
    let blue : v % 256 ≡ b = omega (arith, v_is) in
    ap (λ x. parsed (rgb x (v / 256 % 256) (v % 256))) red
    ∙ ap (λ x. parsed (rgb r x (v % 256))) green
    ∙ ap (λ x. parsed (rgb r g x)) blue

parse_color-nil : parse_color [] ≡ parsed default_color
unfolding parse_color parse_trimmed
parse_color-nil = refl

-- A colour that is written is read back: the default colour, and every other one with channels of 8
-- bits.
pub parse_color-color_hex :
    (c : Color)
    → c.r < 256
    → c.g < 256
    → c.b < 256
    → parse_color (color_hex c) ≡ parsed (if c.is_set then c else default_color)
unfolding color_hex
parse_color-color_hex c hr hg hb = elim (Bool-cases c.is_set) [
  | inr unset ↦ rw unset parse_color-nil
  | inl explicit ↦
      let r = c.r in
      let g = c.g in
      let b = c.b in
      let read =
        parse_color-digits (r / 16) (r % 16) (g / 16) (g % 16) (b / 16) (b % 16) (omega arith)
          (omega arith) (omega arith) (omega arith) (omega arith) (omega arith) in
      let of_rgb = of_value-channels r g b hr hg hb in rw explicit (read ∙ of_rgb)
]

abbrev pub is_error : ColorResult → Bool
is_error (parsed c) = false
is_error not_six_digits = true
is_error not_hex = true

abbrev pub all_hex : Text → Bool
all_hex [] = true
all_hex (r ∷ rs) = is_some (hex_value r) && all_hex rs

is_error-of_value : (ds : Text) (v : ℕ) → is_error (of_value (parse_hex v ds)) ≡ not (all_hex ds)
is_error-of_value [] v = refl
is_error-of_value (r ∷ rs) v = next (hex_value r) (λ d. is_error-of_value rs (v * 16 + d))
  where
    next :
        (digit : Option ℕ)
        → ((d : ℕ) → is_error (of_value (parse_hex (v * 16 + d) rs)) ≡ not (all_hex rs))
        → is_error (of_value (elim digit [ none ↦ none | some d ↦ parse_hex (v * 16 + d) rs ]))
          ≡ not (is_some digit && all_hex rs)
    next none rest = refl
    next (some d) rest = rest d

is_error-digits :
    (ds : Text)
    → is_error (if byte_length ds == 6 then of_value (parse_hex 0 ds) else not_six_digits)
      ≡ not (byte_length ds == 6 && all_hex ds)
is_error-digits ds = elim (Bool-cases (byte_length ds == 6)) [
  | inl six ↦ rw six (is_error-of_value ds 0)
  | inr other ↦ rw other refl
]

is_error-parse_trimmed :
    (t : Text)
    → is_error (parse_trimmed t)
      ≡ (not (is_empty t) && not (byte_length (trim_sign t) == 6 && all_hex (trim_sign t)))
unfolding parse_trimmed
is_error-parse_trimmed [] = refl
is_error-parse_trimmed (r ∷ rs) = is_error-digits (trim_sign (r ∷ rs))

-- ParseColor fails on exactly the texts that, without the white space around them, are not empty and,
-- without a number sign in front, not six bytes of hexadecimal digits.
pub is_error-parse_color :
    (s : Text)
    → is_error (parse_color s) ≡ (
        not (is_empty (trim s))
        && not (byte_length (trim_sign (trim s)) == 6 && all_hex (trim_sign (trim s))))
unfolding parse_color
is_error-parse_color s = is_error-parse_trimmed (trim s)
