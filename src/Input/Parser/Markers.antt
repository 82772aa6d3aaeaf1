-- ===== src/Input/Parser/Markers.antt =====
-- Where a text occurs first in a list of bytes, and which end of a list may begin it.
use mathlib.Core.Path.{subst}
use native.Mathlib.Decide.{dec_le}
use tuicord_v.Base.{
  ℕ, zero, suc, ◌+◌, ◌-◌, ◌≤◌, ◌<◌, ◌≡◌, refl, sym, ap, ◌∙◌, true, false, List, [], ◌∷◌, ◌++◌, none,
  some, length, drop, length-drop, drop-append, min, arith, Bool-cases, Option-cases, inl, inr,
}
use tuicord_v.Input.Text.{has_prefix, index_text}
use tuicord_v.Input.Protocol.{suffix_from, longest_suffix_prefix}

-- A prefix is one of every longer list.
pub has_prefix-append :
    (s t text : List ℕ) → has_prefix s text ≡ true → has_prefix (s ++ t) text ≡ true
unfolding has_prefix
has_prefix-append s t [] h = refl
has_prefix-append [] t (c ∷ text) h = cc
has_prefix-append (b ∷ s) t (c ∷ text) h = ground (arith, has_prefix-append s t text)

pub has_prefix-append_left :
    (s t text : List ℕ) → length text ≤ length s → has_prefix (s ++ t) text ≡ has_prefix s text
unfolding has_prefix
has_prefix-append_left s t [] h = refl
has_prefix-append_left [] t (c ∷ text) h = absurd (omega arith)
has_prefix-append_left (b ∷ s) t (c ∷ text) h =
    ground (arith, has_prefix-append_left s t text (omega arith))

-- A list that a longer one with the prefix begins with, and that is not longer, begins the prefix.
pub has_prefix_short :
    (s t text : List ℕ)
    → length s ≤ length text
    → has_prefix (s ++ t) text ≡ true
    → has_prefix text s ≡ true
unfolding has_prefix
has_prefix_short [] t text h e = refl
has_prefix_short (b ∷ s) t [] h e = absurd (omega arith)
has_prefix_short (b ∷ s) t (c ∷ text) h e = ground (arith, has_prefix_short s t text (omega arith))

pub has_prefix-le : (s text : List ℕ) → has_prefix s text ≡ true → length text ≤ length s
unfolding has_prefix
has_prefix-le s [] h = omega arith
has_prefix-le [] (c ∷ text) h = cc
has_prefix-le (b ∷ s) (c ∷ text) h = ground (arith, has_prefix-le s text)

pub index_text-le :
    (s text : List ℕ) (i : ℕ) → index_text s text ≡ some i → i + length text ≤ length s
unfolding index_text
index_text-le [] text i h = ground arith
index_text-le (b ∷ s) text zero h = ground (arith, has_prefix-le (b ∷ s) text)
index_text-le (b ∷ s) text (suc i) h = ground (arith, index_text-le s text i)

-- What is found stays found where more bytes follow.
pub index_text-append :
    (s t text : List ℕ) (i : ℕ) → index_text s text ≡ some i → index_text (s ++ t) text ≡ some i
unfolding index_text
index_text-append [] t text i h = ground arith
index_text-append (b ∷ s) t text i h = elim (Bool-cases (has_prefix (b ∷ s) text)) [
  | inl here ↦ rw (has_prefix-append (b ∷ s) t text here) (ground (arith, here))
  | inr later ↦ elim (Option-cases (index_text s text)) [
    | inl absent ↦ absurd (ground (arith, later, absent))
    | inr (j, found) ↦
        let short = index_text-le s text j found in
        let e = has_prefix-append_left (b ∷ s) t text (omega arith) ∙ later in
        rw (e, index_text-append s t text j found) (ground (arith, later, found))
  ]
]

pub index_text-drop :
    (m : ℕ) (s text : List ℕ) (i : ℕ)
    → index_text s text ≡ some i
    → m ≤ i
    → index_text (drop m s) text ≡ some (i - m)
unfolding index_text
index_text-drop zero s text i h l = h ∙ ap some (omega arith)
index_text-drop (suc m) [] text i h l = ground arith
index_text-drop (suc m) (b ∷ s) text zero h l = absurd (omega arith)
index_text-drop (suc m) (b ∷ s) text (suc i) h l = ground (arith, index_text-drop m s text i)

pub index_text-drop-none :
    (m : ℕ) (s text : List ℕ) → index_text s text ≡ none → index_text (drop m s) text ≡ none
unfolding index_text
index_text-drop-none zero s text h = h
index_text-drop-none (suc m) [] text h = refl
index_text-drop-none (suc m) (b ∷ s) text h = ground (arith, index_text-drop-none m s text)

-- What is found stands there.
pub has_prefix-drop :
    (s text : List ℕ) (i : ℕ) → index_text s text ≡ some i → has_prefix (drop i s) text ≡ true
unfolding index_text
has_prefix-drop [] text i h = ground arith
has_prefix-drop (b ∷ s) text zero h = ground arith
has_prefix-drop (b ∷ s) text (suc i) h = ground (arith, has_prefix-drop s text i)

pub suffix_from-max :
    (s text : List ℕ) (n m : ℕ)
    → 0 < m
    → m ≤ n
    → has_prefix text (drop (length s - m) s) ≡ true
    → m ≤ suffix_from s text n
unfolding suffix_from
suffix_from-max s text zero m pos h e = absurd (omega arith)
suffix_from-max s text (suc n) m pos h e = elim (dec_le m n) [
  | yes le ↦ ground (arith, suffix_from-max s text n m)
  | no last ↦
      let same : m ≡ suc n = omega arith in
      let e' = subst (λ (k : ℕ). has_prefix text (drop (length s - k) s) ≡ true) same e in
      rw e' (omega arith)
]

pub suffix_from-le : (s text : List ℕ) (n : ℕ) → suffix_from s text n ≤ n
unfolding suffix_from
suffix_from-le s text zero = omega arith
suffix_from-le s text (suc n) = ground (arith, suffix_from-le s text n)

index_text-none :
    (k : ℕ) (s text : List ℕ)
    → 0 < length text
    → index_text s text ≡ none
    → has_prefix (drop k s) text ≡ false
unfolding index_text has_prefix
index_text-none k s [] pos h = absurd (omega arith)
index_text-none zero [] (c ∷ text) pos h = refl
index_text-none (suc k) [] (c ∷ text) pos h = refl
index_text-none zero (b ∷ s) (c ∷ text) pos h = ground arith
index_text-none (suc k) (b ∷ s) (c ∷ text) pos h =
    ground (arith, index_text-none k s (c ∷ text) pos)

-- Of bytes without the text, the end that may begin it is kept: where the text is found once more
-- bytes have come, it begins in what was kept or after it.
pub longest_suffix_prefix-le :
    (s t text : List ℕ) (k : ℕ)
    → 0 < length text
    → index_text s text ≡ none
    → index_text (s ++ t) text ≡ some k
    → length s - longest_suffix_prefix s text ≤ k
unfolding longest_suffix_prefix
longest_suffix_prefix-le s t text k pos absent found =
    let n = min (length s) (length text - 1) in
    elim (dec_le (length s - suffix_from s text n) k) [
      | yes le ↦ le
      | no above ↦
          let inside : k ≤ length s = omega arith in
          let here : has_prefix (drop k s ++ t) text ≡ true =
            ap (λ (u : List ℕ). has_prefix u text) (sym (drop-append k s t inside))
            ∙ has_prefix-drop (s ++ t) text k found in
          let size : length (drop k s) ≡ length s - k = length-drop k s in
          elim (dec_le (length text) (length (drop k s))) [
            | yes whole ↦ absurd (
                ground (
                  arith,
                  index_text-none k s text pos absent,
                  has_prefix-append_left (drop k s) t text whole,
                  here,
                ))
            | no part ↦
                let begins : has_prefix text (drop k s) ≡ true =
                  has_prefix_short (drop k s) t text (omega arith) here in
                let same : k ≡ length s - (length s - k) = omega arith in
                let begins' = subst (λ (j : ℕ). has_prefix text (drop j s) ≡ true) same begins in
                absurd (
                  omega (
                    arith,
                    suffix_from-max s text n (length s - k) (omega arith) (omega arith) begins',
                  ))
          ]
    ]
