-- ===== src/Base/Word.antt =====
-- Go's int and int64, given by their 64 bits: a negative one is at least 2 ^ 63.
use tuicord_v.Base.{ℕ, ◌+◌, ◌-◌, ◌*◌, ◌%◌, ◌^◌, Bool, ltb, leb, if◌then◌else◌}

abbrev pub add_int64 : ℕ → ℕ → ℕ
add_int64 a b = (a + b) % 2 ^ 64

abbrev pub sub_int64 : ℕ → ℕ → ℕ
sub_int64 a b = (a + (2 ^ 64 - b % 2 ^ 64)) % 2 ^ 64

abbrev pub mul_int64 : ℕ → ℕ → ℕ
mul_int64 a b = a * b % 2 ^ 64

abbrev pub is_negative : ℕ → Bool
is_negative a = leb (2 ^ 63) a

abbrev pub ltb_int64 : ℕ → ℕ → Bool
ltb_int64 a b = ltb ((a + 2 ^ 63) % 2 ^ 64) ((b + 2 ^ 63) % 2 ^ 64)

-- `max(a, 0)`.
abbrev pub at_least_zero : ℕ → ℕ
at_least_zero a = if is_negative a then 0 else a
