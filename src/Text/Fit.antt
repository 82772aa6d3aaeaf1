-- ===== src/Text/Fit.antt =====
-- internal/tui/text/ops.go: what Truncate keeps.
use tuicord_v.Base.{
  ℕ, suc, ◌+◌, ◌-◌, ◌<◌, ◌≤◌, ◌≡◌, refl, ap, false, [], ◌∷◌, ◌++◌, ltb, leb, ◌==◌, take, length,
  arith, Bool-cases, inl, inr,
}
use tuicord_v.Text.{Rune, String, Text, cluster_width, width, cut, string_width, truncate}

abbrev pub joined_runes : Text → String
joined_runes [] = []
joined_runes (c ∷ cs) = c ++ joined_runes cs

module _ (rune_width : Rune → ℕ) where
  -- The clusters that are kept are a prefix that fits, and the next one would be too much.
  record IsLongest (budget used : ℕ) (cs : Text) (k : ℕ) : Type 0 where
    kept : cut rune_width budget used cs ≡ joined_runes (take k cs)
    fits : used + width rune_width (take k cs) ≤ budget
    longest : k < length cs → budget < used + width rune_width (take (suc k) cs)

  cut-IsLongest :
      (budget used : ℕ) (cs : Text) → used ≤ budget → (k : ℕ) × IsLongest budget used cs k
  unfolding cut width
  cut-IsLongest budget used [] h =
      (0, record { kept = refl; fits = omega (arith, h); longest = λ l. absurd (omega (arith, l)) })
  cut-IsLongest budget used (c ∷ cs) h =
      elim (Bool-cases (ltb budget (used + cluster_width rune_width c))) [
        | inl over ↦ (
          0,
          record {
            kept = rw over refl;
            fits = omega (arith, h);
            longest = λ l. ground (arith, over);
          },
        )
        | inr room ↦
            let le : used + cluster_width rune_width c ≤ budget = ground (arith, room) in
            let (k, rest) = cut-IsLongest budget (used + cluster_width rune_width c) cs le in
            (
              suc k,
              record {
                kept = rw room (ap (λ t. c ++ t) rest.kept);
                fits = omega (arith, rest.fits);
                longest = λ l. omega (arith, rest.longest (omega arith));
              },
            )
      ]

  -- What Truncate returns for a string that is wider than a positive limit: the first k clusters of the
  -- string, and the tail. These clusters are no wider than what the tail leaves of the limit, and with
  -- one more, if there is one, they would be.
  pub truncate-longest :
      (clusters : String → Text) (s : String) (max_width : ℕ) (tail : String)
      → 0 < max_width
      → max_width < string_width rune_width clusters s
      → let cs = clusters s in
        let budget = max_width - string_width rune_width clusters tail in
        (k : ℕ) × (truncate rune_width clusters s max_width tail ≡ joined_runes (take k cs) ++ tail)
        × (width rune_width (take k cs) ≤ budget)
        × (k < length cs → budget < width rune_width (take (suc k) cs))
  unfolding truncate
  truncate-longest clusters s max_width tail some_width wide =
      let budget = max_width - string_width rune_width clusters tail in
      let (k, p) = cut-IsLongest budget 0 (clusters s) (omega arith) in
      let limited : (max_width == 0) ≡ false = ground arith in
      let over : leb (string_width rune_width clusters s) max_width ≡ false = ground arith in
      rw (limited, over)
        (k, ap (λ t. t ++ tail) p.kept, omega (arith, p.fits), (λ l. omega (arith, p.longest l)))
