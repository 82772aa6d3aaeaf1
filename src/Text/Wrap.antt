-- ===== src/Text/Wrap.antt =====
-- internal/tui/text/ops.go: how wide the lines of Wrap are.
use mathlib.Core.Path.{subst}
use tuicord_v.Base.{
  ℕ, zero, suc, ◌+◌, ◌<◌, ◌≤◌, ◌≡◌, refl, sym, ap, ◌∙◌, true, false, ◌&&◌, List, [], ◌∷◌, ◌++◌,
  Option, none, some, ltb, ◌==◌, take, drop, length, arith, Bool-cases, inl, inr, ◌⊎◌,
}
use tuicord_v.Text.{
  Rune, Cluster, Text, space, is_space, Line, empty_line, cluster_width, width, add_cluster,
  break_at, wrap_step, wrap_from, wrap_line, wrap_paragraphs, wrap,
}
use tuicord_v.Text.Width.{is_space→≡, width_of_space, width-append, width-take-drop}

abbrev pub All : (Text → Type 0) → List Text → Type 0
All P [] = Unit {0}
All P (l ∷ ls) = P l × All P ls

module _ {ℓ} {A : Type ℓ} where
  take-length-append : (xs ys : List A) → take (length xs) (xs ++ ys) ≡ xs
  take-length-append [] ys = refl
  take-length-append (x ∷ xs) ys = ap (λ t. x ∷ t) (take-length-append xs ys)

  drop-length-append : (xs ys : List A) → drop (length xs) (xs ++ ys) ≡ ys
  drop-length-append [] ys = refl
  drop-length-append (x ∷ xs) ys = drop-length-append xs ys

  drop-append :
      (i : ℕ) (xs ys : List A) {z : A} {zs : List A}
      → drop i xs ≡ z ∷ zs
      → drop i (xs ++ ys) ≡ z ∷ (zs ++ ys)
  drop-append zero xs ys e = ap (λ t. t ++ ys) e
  drop-append (suc i) [] ys e = cc
  drop-append (suc i) (x ∷ xs) ys e = drop-append i xs ys e

  take-append :
      (i : ℕ) (xs ys : List A) {z : A} {zs : List A}
      → drop i xs ≡ z ∷ zs
      → take i (xs ++ ys) ≡ take i xs
  take-append zero xs ys e = refl
  take-append (suc i) [] ys e = cc
  take-append (suc i) (x ∷ xs) ys e = ap (λ t. x ∷ t) (take-append i xs ys e)

module _ (rune_width : Rune → ℕ) (one : rune_width 32 ≡ 1) (n k : ℕ) (some_width : 0 < n)
    (at_least_one : 1 ≤ k) where
  -- No cluster of a text is wider than k.
  abbrev pub AreWithin : Text → Type 0
  AreWithin [] = Unit {0}
  AreWithin (c ∷ cs) = (cluster_width rune_width c ≤ k) × AreWithin cs

  abbrev Fits : Text → Type 0
  Fits t = width rune_width t < n + k

  -- The place of the last space: the text before it, and the space with what follows.
  record IsBreak (l : Line) (at : ℕ) : Type 0 where
    before : width rune_width (take at l.line) ≡ l.width_at
    after : (rest : Text) × (drop at l.line ≡ space ∷ rest)
    inside : l.line_width ≤ n

  record IsLine (l : Line) : Type 0 where
    measured : l.line_width ≡ width rune_width l.line
    fits : l.line_width < n + k
    last : (at : ℕ) → l.space_at ≡ some at → IsBreak l at

  space_first : (rest : Text) → width rune_width (space ∷ rest) ≡ suc (width rune_width rest)
  unfolding width
  space_first rest = omega (arith, width_of_space rune_width one)

  empty_width : 0 ≡ width rune_width []
  unfolding width
  empty_width = refl

  single : (c : Cluster) → width rune_width (c ∷ []) ≡ cluster_width rune_width c
  unfolding width
  single c = omega arith

  -- What a break leaves for the next line.
  record IsRest (l : Line) : Type 0 where
    measured : l.line_width ≡ width rune_width l.line
    room : l.line_width < n
    none_left : l.space_at ≡ none

  break_at_lem :
      (l : Line) (at : Option ℕ)
      → l.space_at ≡ at
      → IsLine l
      → let (out, rest) = break_at rune_width l at in Fits out × IsRest rest
  unfolding break_at
  break_at_lem l none e i = (
    omega (arith, i.fits, i.measured),
    record { measured = empty_width; room = some_width; none_left = refl },
  )
  break_at_lem l (some at) e i =
      let b = i.last at e in
      let (rest, after) = b.after in
      let whole = width-take-drop rune_width at l.line in
      let rest_width = ap (width rune_width) after ∙ space_first rest in
      (
        omega (arith, i.fits, i.measured, whole),
        record {
          measured = rw after (omega (arith, i.measured, whole, rest_width, b.before));
          room = omega (arith, b.inside, some_width);
          none_left = refl;
        },
      )

  -- A cluster is added to a line that it does not make too wide.
  add_cluster-IsLine :
      (c : Cluster) (l : Line)
      → l.line_width ≡ width rune_width l.line
      → l.line_width + cluster_width rune_width c < n + k
      → (is_space c ≡ true → l.line_width < n)
      → ((at : ℕ)
          → l.space_at ≡ some at
          → IsBreak l at × (l.line_width + cluster_width rune_width c ≤ n))
      → IsLine (add_cluster rune_width c l)
  unfolding add_cluster
  add_cluster-IsLine c l m f s last = record {
    measured = omega (arith, m, width-append rune_width l.line (c ∷ []), single c);
    fits = f;
    last = λ at e. elim (Bool-cases (is_space c)) [
      | inl blank ↦
          let c_is = is_space→≡ c blank in
          let at_is : length l.line ≡ at = ground (arith, e, blank) in
          subst (IsBreak (add_cluster rune_width c l)) at_is (record {
            before = rw (blank, take-length-append l.line (c ∷ [])) (sym m);
            after = ([], drop-length-append l.line (c ∷ []) ∙ ap (λ d. d ∷ []) c_is);
            inside =
                omega (
                  arith,
                  s blank,
                  ap (cluster_width rune_width) c_is,
                  width_of_space rune_width one,
                );
          })
      | inr visible ↦
          let old : l.space_at ≡ some at = ground (arith, e, visible) in
          let (b, inside) = last at old in
          let (rest, after) = b.after in
          record {
            before = rw (visible, take-append at l.line (c ∷ []) after) b.before;
            after = (rest ++ (c ∷ []), drop-append at l.line (c ∷ []) after);
            inside = inside;
          }
    ];
  }

  some_wide : (l : Line) → IsLine l → (at : ℕ) → l.space_at ≡ some at → 0 < l.line_width
  some_wide l i at e =
      let b = i.last at e in
      let (rest, after) = b.after in
      omega (
        arith,
        i.measured,
        width-take-drop rune_width at l.line,
        ap (width rune_width) after ∙ space_first rest,
      )

  wrap_step_lem :
      (c : Cluster) (l : Line)
      → cluster_width rune_width c ≤ k
      → IsLine l
      → let (out, next) = wrap_step rune_width n c l in All Fits out × IsLine next
  unfolding wrap_step
  wrap_step_lem c l within i =
      let w = cluster_width rune_width c in
      let (out_fits, rest) = break_at_lem l l.space_at refl i in
      let next = (break_at rune_width l l.space_at).1 in
      elim (Bool-cases (ltb n (l.line_width + w) && ltb 0 l.line_width)) [
        | inl full ↦ elim (Bool-cases (is_space c)) [
          | inl blank ↦
              rw (full, blank)
                (
                  (omega (arith, i.fits, i.measured), tt),
                  (record {
                    measured = empty_width;
                    fits = omega (arith, some_width);
                    last = λ at e. cc;
                  }),
                )
          | inr visible ↦
              rw (full, visible)
                (
                  (out_fits, tt),
                  add_cluster-IsLine c next rest.measured (omega (arith, rest.room, within))
                      (λ blank. cc) (λ at e. cc (e, rest.none_left)),
                )
        ]
        | inr roomy ↦
            let roomy_cases : (l.line_width + w ≤ n) ⊎ (l.line_width ≡ 0) = ground (arith, roomy) in
            let below_limit : c ≡ space
                → (l.line_width + w ≤ n) ⊎ (l.line_width ≡ 0)
                → l.line_width < n =
              λ e d. omega (
                arith,
                d,
                some_width,
                ap (cluster_width rune_width) e,
                width_of_space rune_width one,
              ) in
            rw roomy (
              tt,
              add_cluster-IsLine c l i.measured (omega (arith, roomy_cases, within, at_least_one))
                  (λ blank. below_limit (is_space→≡ c blank) roomy_cases)
                  (λ at e. (i.last at e, omega (arith, roomy_cases, some_wide l i at e))),
            )
      ]

  All-append : (P : Text → Type 0) (xs ys : List Text) → All P xs → All P ys → All P (xs ++ ys)
  All-append P [] ys p q = q
  All-append P (x ∷ xs) ys p q = (p.0, All-append P xs ys p.1 q)

  wrap_from-All :
      (s : Text) (l : Line) → AreWithin s → IsLine l → All Fits (wrap_from rune_width n s l)
  unfolding wrap_from
  wrap_from-All [] l a i = (omega (arith, i.fits, i.measured), tt)
  wrap_from-All (c ∷ cs) l a i =
      let (out, next) = wrap_step rune_width n c l in
      let (fits, valid) = wrap_step_lem c l a.0 i in
      All-append Fits out (wrap_from rune_width n cs next) fits (wrap_from-All cs next a.1 valid)

  wrap_line-All : (s : Text) → AreWithin s → All Fits (wrap_line rune_width s n)
  unfolding wrap_line
  wrap_line-All s a =
      wrap_from-All s empty_line a
        (record { measured = empty_width; fits = omega (arith, some_width); last = λ at e. cc })

  wrap_paragraphs-All :
      (ss : List Text) → All AreWithin ss → All Fits (wrap_paragraphs rune_width ss n)
  unfolding wrap_paragraphs
  wrap_paragraphs-All [] a = tt
  wrap_paragraphs-All (s ∷ ss) a =
      All-append Fits (wrap_line rune_width s n) (wrap_paragraphs rune_width ss n)
        (wrap_line-All s a.0) (wrap_paragraphs-All ss a.1)

  -- When no cluster of the paragraphs is wider than k, every line of Wrap at the width n has fewer
  -- than n + k cells: none has more than n where every cluster has one cell at most, and none more
  -- than n + 1 where some have two. The width n is positive, k is at least 1, and a space is one
  -- cell wide.
  pub wrap-All :
      (s : Text) (paragraphs : List Text)
      → All AreWithin paragraphs
      → All Fits (wrap rune_width s paragraphs n)
  unfolding wrap
  wrap-All s paragraphs a =
      let some_limit : (n == 0) ≡ false = ground arith in
      rw some_limit (wrap_paragraphs-All paragraphs a)
