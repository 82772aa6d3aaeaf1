-- ===== src/Base/Wrap.antt =====
-- Positions of a circular buffer: `(s + i) % n` for a start and an offset below `n`.
use Prim.Native.Nat.{ℕ, ◌+◌, ◌-◌, ◌%◌, ◌<◌, ◌≤◌}
use mathlib.Core.Path.{◌≡◌, ◌∙◌, ap}
use mathlib.Core.Logic.{◌⊎◌, inl, inr}
use native.Mathlib.Decide.{dec_lt}
use native.Mathlib.Nat.{add-mod_right, mod-add-mod, mod-eq_of_lt, mod-eq-sub-mod, add_assoc}
use native.Mathlib.Omega.{arith}

-- The remainder of a sum of two numbers below n.
pub wrap-cases :
    (n s i : ℕ)
    → s < n
    → i < n
    → ((s + i < n) × ((s + i) % n ≡ s + i)) ⊎ ((n ≤ s + i) × ((s + i) % n + n ≡ s + i))
wrap-cases n s i hs hi = elim (dec_lt (s + i) n) [
  | yes p ↦ inl (p, mod-eq_of_lt p)
  | no p ↦ inr (
    omega arith,
    omega (
      arith,
      mod-eq-sub-mod {n = s + i} {m = n} (omega arith),
      mod-eq_of_lt {n = s + i - n} {m = n} (omega arith),
    ),
  )
]

pub wrap-lt : (n s i : ℕ) → 0 < n → (s + i) % n < n
wrap-lt n s i h = omega arith

pub wrap_injective : (n s i j : ℕ) → s < n → i < n → j < n → (s + i) % n ≡ (s + j) % n → i ≡ j
wrap_injective n s i j hs hi hj e = omega (arith, wrap-cases n s i hs hi, wrap-cases n s j hs hj)

-- A position counted from a later start.
pub wrap_assoc : (n s i j : ℕ) → ((s + i) % n + j) % n ≡ (s + (i + j)) % n
wrap_assoc n s i j = mod-add-mod (s + i) n j ∙ ap (λ (k : ℕ). k % n) (add_assoc s i j)

-- A full turn comes back.
pub wrap_self : (n s i : ℕ) → s < n → i ≡ n → (s + i) % n ≡ s
wrap_self n s i h e = omega (
  arith,
  mod-eq-sub-mod {n = s + i} {m = n} (omega arith),
  mod-eq_of_lt {n = s + i - n} {m = n} (omega arith),
)

-- A full turn more changes nothing.
pub wrap_turn : (n s i : ℕ) → (s + (i + n)) % n ≡ (s + i) % n
wrap_turn n s i = rw (← add_assoc s i n) (add-mod_right (s + i) n)
