-- ===== src/Text/Width.antt =====
-- internal/tui/text/width.go: how wide a cluster is, and a text.
use tuicord_v.Base.{
  ℕ, zero, suc, ◌+◌, ◌≤◌, ◌≡◌, refl, sym, ap, ◌∙◌, true, List, [], ◌∷◌, ◌++◌, take, drop, replicate,
  arith, take-append-drop,
}
use tuicord_v.Text.{
  Rune, Cluster, Text, space, same_cluster, is_space, select_width, select_widths, base_rune_width,
  is_emoji_presentation, cluster_width, width,
}

same_cluster→≡ : (c d : Cluster) → same_cluster c d ≡ true → c ≡ d
same_cluster→≡ [] [] h = refl
same_cluster→≡ [] (y ∷ ys) h = cc
same_cluster→≡ (x ∷ xs) [] h = cc
same_cluster→≡ (x ∷ xs) (y ∷ ys) h = ground (arith, same_cluster→≡ xs ys)

pub is_space→≡ : (c : Cluster) → is_space c ≡ true → c ≡ space
is_space→≡ c h = same_cluster→≡ c space h

module _ (rune_width : Rune → ℕ) (narrow : (r : Rune) → rune_width r ≤ 2) where
  base_rune_width-le : (r : Rune) → base_rune_width rune_width r ≤ 2
  unfolding base_rune_width
  base_rune_width-le r = ground (arith, narrow r)

  select_widths-le : (w : ℕ) (rs : List Rune) → w ≤ 2 → select_widths w rs ≤ 2
  unfolding select_widths select_width
  select_widths-le w [] h = h
  select_widths-le w (r ∷ rs) h = select_widths-le (select_width w r) rs (ground arith)

  pub cluster_width-le : (c : Cluster) → cluster_width rune_width c ≤ 2
  unfolding cluster_width
  cluster_width-le [] = omega arith
  cluster_width-le (r ∷ rs) =
      select_widths-le (base_rune_width rune_width r) rs (base_rune_width-le r)

module _ (rune_width : Rune → ℕ) (one : rune_width 32 ≡ 1) where
  pub width_of_space : cluster_width rune_width space ≡ 1
  unfolding cluster_width base_rune_width select_widths is_emoji_presentation
  width_of_space = one

  pub width-spaces : (n : ℕ) → width rune_width (replicate n space) ≡ n
  unfolding width
  width-spaces zero = refl
  width-spaces (suc n) = omega (arith, width_of_space, width-spaces n)

module _ (rune_width : Rune → ℕ) where
  pub width-append :
      (s t : Text) → width rune_width (s ++ t) ≡ width rune_width s + width rune_width t
  unfolding width
  width-append [] t = omega arith
  width-append (c ∷ s) t = omega (arith, width-append s t)

  pub width-take-drop :
      (n : ℕ) (s : Text)
      → width rune_width (take n s) + width rune_width (drop n s) ≡ width rune_width s
  width-take-drop n s =
      sym (width-append (take n s) (drop n s)) ∙ ap (width rune_width) (take-append-drop n s)
