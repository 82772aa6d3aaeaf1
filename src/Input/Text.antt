-- ===== src/Input/Text.antt =====
-- What the parser uses of the packages strings, strconv and unicode/utf8, on lists of bytes.
use tuicord_v.Base.{
  ℕ, zero, suc, ◌+◌, ◌-◌, ◌*◌, ◌^◌, Bool, true, false, ◌&&◌, ◌||◌, not, List, [], ◌∷◌, ◌++◌, Option,
  none, some, length, get_or, ltb, leb, ◌==◌, if◌then◌else◌,
}
use mathlib.Core.Option
use tuicord_v.Base.Int.{ℤ, pos, negsuc}

-- `strings.HasPrefix`.
unfoldable pub has_prefix : List ℕ → List ℕ → Bool
has_prefix s [] = true
has_prefix [] (c ∷ prefix) = false
has_prefix (b ∷ s) (c ∷ prefix) = b == c && has_prefix s prefix

-- `strings.Index`, for a text that is not empty.
unfoldable pub index_text : List ℕ → List ℕ → Option ℕ
index_text [] text = none
index_text (b ∷ s) text =
    let rest = Option.map suc (index_text s text) in
    if has_prefix (b ∷ s) text then some 0 else rest

-- `strings.Split` at one byte, `part` being what stands before s in the same part.
unfoldable pub split_from : ℕ → List ℕ → List ℕ → List (List ℕ)
split_from sep part [] = part ∷ []
split_from sep part (b ∷ s) =
    let cut = part ∷ split_from sep [] s in
    let more = split_from sep (part ++ b ∷ []) s in if b == sep then cut else more

abbrev pub split : List ℕ → ℕ → List (List ℕ)
split s sep = split_from sep [] s

-- The part before the first byte `sep`: the first result of `strings.Cut`.
unfoldable pub cut_before : ℕ → List ℕ → List ℕ
cut_before sep [] = []
cut_before sep (b ∷ s) = if b == sep then [] else b ∷ cut_before sep s

abbrev is_digit : ℕ → Bool
is_digit b = leb b'0' b && leb b b'9'

-- The value of digits after a value.
unfoldable pub digits_from : ℕ → List ℕ → Option ℕ
digits_from n [] = some n
digits_from n (b ∷ s) = if is_digit b then digits_from (n * 10 + (b - b'0')) s else none

-- A number of at least one digit.
abbrev digits : List ℕ → Option ℕ
digits [] = none
digits (b ∷ s) = digits_from 0 (b ∷ s)

abbrev non_negative : Option ℕ → Option ℤ
non_negative none = none
non_negative (some n) = if ltb n (2 ^ 63) then some (pos n) else none

abbrev negative : Option ℕ → Option ℤ
negative none = none
negative (some zero) = some (pos 0)
negative (some (suc n)) = if ltb n (2 ^ 63) then some (negsuc n) else none

-- `strconv.Atoi`, or none for an error.
unfoldable pub atoi : List ℕ → Option ℤ
atoi [] = none
atoi (b ∷ s) =
    if b == b'-'
    then negative (digits s)
    else if b == b'+'
    then non_negative (digits s)
    else non_negative (digits (b ∷ s))

abbrev pub rune_error : ℕ
rune_error = 0xFFFD

abbrev is_between : ℕ → ℕ → ℕ → Bool
is_between lo hi b = leb lo b && leb b hi

-- The length of an encoding by its first byte, 0 for a byte that begins none.
unfoldable pub rune_size : ℕ → ℕ
rune_size b =
    if ltb b 0x80
    then 1
    else if is_between 0xC2 0xDF b
    then 2
    else if is_between 0xE0 0xEF b
    then 3
    else if is_between 0xF0 0xF4 b
    then 4
    else 0

-- Whether the second byte of an encoding may follow the first.
unfoldable pub is_second : ℕ → ℕ → Bool
is_second b c =
    if b == 0xE0
    then is_between 0xA0 0xBF c
    else if b == 0xED
    then is_between 0x80 0x9F c
    else if b == 0xF0
    then is_between 0x90 0xBF c
    else if b == 0xF4
    then is_between 0x80 0x8F c
    else is_between 0x80 0xBF c

abbrev is_continuation : ℕ → Bool
is_continuation b = is_between 0x80 0xBF b

-- `utf8.DecodeRune` of a first byte and the rest: the rune and the number of its bytes.
unfoldable pub decode_rune : ℕ → List ℕ → ℕ × ℕ
decode_rune b s =
    let c = get_or s 0 0 in
    let d = get_or s 1 0 in
    let e = get_or s 2 0 in
    let size = rune_size b in
    if size == 1
    then (b, 1)
    else if size == 0 || ltb (length s + 1) size || not (is_second b c)
    then (rune_error, 1)
    else if size == 2
    then ((b - 0xC0) * 64 + (c - 0x80), 2)
    else if not (is_continuation d)
    then (rune_error, 1)
    else if size == 3
    then ((b - 0xE0) * 4096 + (c - 0x80) * 64 + (d - 0x80), 3)
    else if not (is_continuation e)
    then (rune_error, 1)
    else ((b - 0xF0) * 262144 + (c - 0x80) * 4096 + (d - 0x80) * 64 + (e - 0x80), 4)

-- `utf8.FullRune` of a first byte and the rest: an encoding that is wrong is full.
unfoldable pub full_rune : ℕ → List ℕ → Bool
full_rune b s =
    let size = rune_size b in
    if leb size (length s + 1)
    then true
    else if ltb 0 (length s) && not (is_second b (get_or s 0 0))
    then true
    else ltb 1 (length s) && not (is_continuation (get_or s 1 0))
