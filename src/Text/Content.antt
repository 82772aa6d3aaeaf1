-- ===== src/Text/Content.antt =====
-- internal/tui/text/ops.go: what the lines of Wrap hold.
use mathlib.Core.Path.{ap₂}
use tuicord_v.Base.{
  ℕ, ◌≡◌, refl, sym, ap, ◌∙◌, false, not, ◌&&◌, List, [], ◌∷◌, ◌++◌, Option, none, some, ltb, ◌+◌,
  take, drop, filter, Bool-cases, inl, inr, take-append-drop,
}
use tuicord_v.Text.{
  Rune, Cluster, Text, is_space, trim_space, Line, empty_line, add_cluster, cluster_width, break_at,
  wrap_step, wrap_from, wrap_line,
}

abbrev pub visible : Text → Text
visible t = filter (λ c. not (is_space c)) t

abbrev pub joined : List Text → Text
joined [] = []
joined (l ∷ ls) = l ++ joined ls

visible-append : (s t : Text) → visible (s ++ t) ≡ visible s ++ visible t
visible-append [] t = refl
visible-append (c ∷ s) t = elim (Bool-cases (is_space c)) [
  | inl blank ↦ rw blank (visible-append s t)
  | inr shown ↦ rw shown (ap (λ u. c ∷ u) (visible-append s t))
]

visible-trim_space : (t : Text) → visible (trim_space t) ≡ visible t
visible-trim_space [] = refl
visible-trim_space (c ∷ cs) = elim (Bool-cases (is_space c)) [
  | inl blank ↦ rw blank refl
  | inr shown ↦ rw shown (rw shown refl)
]

visible-shown : (c : Cluster) → is_space c ≡ false → visible (c ∷ []) ≡ c ∷ []
visible-shown c shown = rw shown refl

append_nil : (s : Text) → s ++ [] ≡ s
append_nil [] = refl
append_nil (c ∷ s) = ap (λ u. c ∷ u) (append_nil s)

append_assoc : (s t u : Text) → (s ++ t) ++ u ≡ s ++ (t ++ u)
append_assoc [] t u = refl
append_assoc (c ∷ s) t u = ap (λ v. c ∷ v) (append_assoc s t u)

module _ (rune_width : Rune → ℕ) where
  visible-break_at :
      (l : Line) (at : Option ℕ)
      → let (out, rest) = break_at rune_width l at in
        visible out ++ visible rest.line ≡ visible l.line
  unfolding break_at
  visible-break_at l none = append_nil (visible l.line)
  visible-break_at l (some n) =
      ap (λ u. visible (take n l.line) ++ u) (visible-trim_space (drop n l.line))
      ∙ sym (visible-append (take n l.line) (drop n l.line))
      ∙ ap visible (take-append-drop n l.line)

  visible-wrap_step :
      (n : ℕ) (c : Cluster) (l : Line)
      → let (out, next) = wrap_step rune_width n c l in
        visible (joined out) ++ visible next.line ≡ visible l.line ++ visible (c ∷ [])
  unfolding wrap_step add_cluster
  visible-wrap_step n c l =
      let (out, rest) = break_at rune_width l l.space_at in
      elim (Bool-cases (ltb n (l.line_width + cluster_width rune_width c) && ltb 0 l.line_width)) [
        | inr roomy ↦ rw roomy (visible-append l.line (c ∷ []))
        | inl full ↦ elim (Bool-cases (is_space c)) [
          | inl blank ↦ rw (full, blank) (ap (λ u. visible u ++ []) (append_nil l.line))
          | inr shown ↦
              rw (full, shown)
                (ap₂ (λ u v. visible u ++ v) (append_nil out) (visible-append rest.line (c ∷ []))
                  ∙ sym (append_assoc (visible out) (visible rest.line) (visible (c ∷ [])))
                  ∙ ap (λ u. u ++ visible (c ∷ [])) (visible-break_at l l.space_at)
                  ∙ ap (λ u. visible l.line ++ u) (visible-shown c shown))
        ]
      ]

  joined-append : (xs ys : List Text) → joined (xs ++ ys) ≡ joined xs ++ joined ys
  joined-append [] ys = refl
  joined-append (x ∷ xs) ys =
      ap (λ u. x ++ u) (joined-append xs ys) ∙ sym (append_assoc x (joined xs) (joined ys))

  visible-wrap_from :
      (n : ℕ) (s : Text) (l : Line)
      → visible (joined (wrap_from rune_width n s l)) ≡ visible l.line ++ visible s
  unfolding wrap_from
  visible-wrap_from n [] l = ap visible (append_nil l.line) ∙ sym (append_nil (visible l.line))
  visible-wrap_from n (c ∷ cs) l =
      let (out, next) = wrap_step rune_width n c l in
      ap visible (joined-append out (wrap_from rune_width n cs next))
      ∙ visible-append (joined out) (joined (wrap_from rune_width n cs next))
      ∙ ap (λ u. visible (joined out) ++ u) (visible-wrap_from n cs next)
      ∙ sym (append_assoc (visible (joined out)) (visible next.line) (visible cs))
      ∙ ap (λ u. u ++ visible cs) (visible-wrap_step n c l)
      ∙ append_assoc (visible l.line) (visible (c ∷ [])) (visible cs)
      ∙ ap (λ u. visible l.line ++ u) (sym (visible-append (c ∷ []) cs))

  -- The lines of a text hold its clusters in their order, each once; only spaces may be missing.
  pub visible-wrap_line :
      (s : Text) (n : ℕ) → visible (joined (wrap_line rune_width s n)) ≡ visible s
  unfolding wrap_line
  visible-wrap_line s n = visible-wrap_from n s empty_line
