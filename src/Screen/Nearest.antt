-- ===== src/Screen/Nearest.antt =====
-- internal/tui/screen/diff.go: the colour that stands for another on a terminal with sixteen of them.
use tuicord_v.Base.{
  ℕ, zero, suc, ◌+◌, ◌-◌, ◌<◌, ◌≤◌, ◌≡◌, refl, sym, ap, ◌∙◌, true, List, [], ◌∷◌, ltb, get_or,
  length, arith, Bool-cases, inl, inr, ◌⊎◌, ==_self,
}
use tuicord_v.Screen.Cells.{Color, default_color}
use tuicord_v.Screen.Colors.{
  Palette, equal_color, color_distance, nearest, ansi16_color, find_color, ansi16_index,
}
use tuicord_v.Screen.Row.{pred-cases}

pub equal_color→≡ : (a b : Color) → equal_color a b ≡ true → a ≡ b
equal_color→≡ a b h = ground arith

equal_color_self : (c : Color) → equal_color c c ≡ true
equal_color_self c = elim (Bool-cases c.is_set) [
  | inl e ↦ rw e (ground (arith, ==_self c.r, ==_self c.g, ==_self c.b))
  | inr e ↦ rw e (ground (arith, ==_self c.r, ==_self c.g, ==_self c.b))
]

-- The colour c is one of the palette, at the index i.
abbrev IsAt : Palette → ℕ → Color → Type 0
IsAt palette i c = (i < length palette) × (get_or palette i default_color ≡ c)

module _ (c : Color) where
  nearest_le :
      (best : Color) (d : ℕ) (qs : List Color)
      → d ≡ color_distance c best
      → color_distance c (nearest c best d qs) ≤ d
  unfolding nearest
  nearest_le best d [] e = omega arith
  nearest_le best d (q ∷ qs) e = elim (Bool-cases (ltb (color_distance c q) d)) [
    | inl closer ↦
        let less : color_distance c q < d = ground (arith, closer) in
        rw closer (omega (arith, nearest_le q (color_distance c q) qs refl))
    | inr farther ↦ rw farther (nearest_le best d qs e)
  ]

  nearest_le_each :
      (best : Color) (d : ℕ) (qs : List Color)
      → d ≡ color_distance c best
      → (i : ℕ) → i < length qs
      → color_distance c (nearest c best d qs) ≤ color_distance c (get_or qs i default_color)
  unfolding nearest
  nearest_le_each best d [] e i h = absurd (omega (arith, h))
  nearest_le_each best d (q ∷ qs) e zero h = elim (Bool-cases (ltb (color_distance c q) d)) [
    | inl closer ↦ rw closer (nearest_le q (color_distance c q) qs refl)
    | inr farther ↦
        let more : d ≤ color_distance c q = ground (arith, farther) in
        rw farther (omega (arith, nearest_le best d qs e))
  ]
  nearest_le_each best d (q ∷ qs) e (suc i) h = elim (Bool-cases (ltb (color_distance c q) d)) [
    | inl closer ↦ rw closer (nearest_le_each q (color_distance c q) qs refl i (omega arith))
    | inr farther ↦ rw farther (nearest_le_each best d qs e i (omega arith))
  ]

  nearest-IsAt :
      (best : Color) (d : ℕ) (qs : List Color)
      → (nearest c best d qs ≡ best) ⊎ ((i : ℕ) × IsAt qs i (nearest c best d qs))
  unfolding nearest
  nearest-IsAt best d [] = inl refl
  nearest-IsAt best d (q ∷ qs) = elim (Bool-cases (ltb (color_distance c q) d)) [
    | inl closer ↦ rw closer (elim (nearest-IsAt q (color_distance c q) qs) [
      | inl e ↦ inr (0, (omega arith, sym e))
      | inr (i, (h, e)) ↦ inr (suc i, (omega arith, e))
    ])
    | inr farther ↦ rw farther (elim (nearest-IsAt best d qs) [
      | inl e ↦ inl e
      | inr (i, (h, e)) ↦ inr (suc i, (omega arith, e))
    ])
  ]

find_color-finds :
    (c : Color) (i n : ℕ) (palette : Palette)
    → IsAt palette n c
    → (i ≤ find_color c i palette) × (get_or palette (find_color c i palette - i) default_color ≡ c)
unfolding find_color
find_color-finds c i n [] at = absurd (omega (arith, at.0))
find_color-finds c i n (p ∷ ps) at = elim (Bool-cases (equal_color c p)) [
  | inl found ↦
      let here : i - i ≡ 0 = omega arith in
      rw (found, here) (omega arith, sym (equal_color→≡ c p found))
  | inr missed ↦ elim (pred-cases n) [
    | inl zero_is ↦
        cc (ap (λ k. get_or (p ∷ ps) k default_color) zero_is, at.1, equal_color_self c, missed)
    | inr (k, suc_is) ↦
        let later : IsAt ps k c =
          (omega (arith, at.0), sym (ap (λ k. get_or (p ∷ ps) k default_color) suc_is) ∙ at.1) in
        let (low, same) = find_color-finds c (i + 1) k ps later in
        let next : find_color c (i + 1) ps - i ≡ suc (find_color c (i + 1) ps - (i + 1)) =
          omega arith in
        rw missed (omega arith, rw next same)
  ]
]

-- The colour that is written for c, found by its index in the palette, is one of the nearest to c.
pub ansi16_index-nearest :
    (c p : Color) (ps : List Color)
    → let palette = p ∷ ps in
      (i : ℕ)
      → i < length palette
      → color_distance c
          (get_or palette (ansi16_index (ansi16_color c palette) palette) default_color)
        ≤ color_distance c (get_or palette i default_color)
unfolding ansi16_index ansi16_color
ansi16_index-nearest c p ps i h =
    let palette = p ∷ ps in
    let d = color_distance c p in
    let best = nearest c p d ps in
    let at : (n : ℕ) × IsAt palette n best = elim (nearest-IsAt c p d ps) [
      | inl e ↦ (0, (omega arith, sym e))
      | inr (n, (k, e)) ↦ (suc n, (omega arith, e))
    ] in
    let found = find_color-finds best 0 at.0 palette at.1 in
    let index_is : find_color best 0 palette - 0 ≡ find_color best 0 palette = omega arith in
    let same = sym (ap (λ k. get_or palette k default_color) index_is) ∙ found.1 in
    rw same (elim (pred-cases i) [
      | inl zero_is ↦ rw zero_is (nearest_le c p d ps refl)
      | inr (k, suc_is) ↦ rw suc_is (nearest_le_each c p d ps refl k (omega arith))
    ])
