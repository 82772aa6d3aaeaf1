-- ===== src/Media/Cache/Entries.antt =====
-- Lists of entries with distinct keys: the entry of a key, unlinking, and the prefix that fits.
use mathlib.Core.Logic.{ite, if_pos, if_neg}
use native.Mathlib.Decide.{dec_le}
use tuicord_v.Base.{
  ℕ, zero, suc, ◌+◌, ◌-◌, ◌≤◌, ◌<◌, ◌≡◌, ◌≢◌, refl, ap, Bool, true, false, List, [], ◌∷◌, ◌++◌,
  none, some, length, leb, if◌then◌else◌, arith, inl, inr, ◌⊎◌,
}
use tuicord_v.Media.Cache.{LruEntry, back, find_entry, unlink}

module _ {K : Type 0} where
  abbrev pub total_bytes : List (LruEntry K) → ℕ
  total_bytes [] = 0
  total_bytes (e ∷ es) = e.bytes + total_bytes es

  -- The longest prefix of at most n entries and at most b bytes.
  unfoldable pub fitting : ℕ → ℕ → List (LruEntry K) → List (LruEntry K)
  fitting zero b es = []
  fitting (suc n) b [] = []
  fitting (suc n) b (e ∷ es) =
      let rest = fitting n (b - e.bytes) es in if leb e.bytes b then e ∷ rest else []

  pub fitting_all :
      (n b : ℕ) (es : List (LruEntry K)) → length es ≤ n → total_bytes es ≤ b → fitting n b es ≡ es
  unfolding fitting
  fitting_all zero b [] h l = refl
  fitting_all zero b (e ∷ es) h l = absurd (omega arith)
  fitting_all (suc n) b [] h l = refl
  fitting_all (suc n) b (e ∷ es) h l =
      ground (arith, fitting_all n (b - e.bytes) es (omega arith) (omega arith))

  -- Where all the entries do not fit, the last one is not among those that do.
  pub fitting_over :
      (n b : ℕ) (es : List (LruEntry K)) (e : LruEntry K)
      → (n < length (es ++ e ∷ [])) ⊎ (b < total_bytes (es ++ e ∷ []))
      → fitting n b (es ++ e ∷ []) ≡ fitting n b es
  unfolding fitting
  fitting_over zero b es e h = refl
  fitting_over (suc n) b [] e h = ground arith
  fitting_over (suc n) b (x ∷ es) e h =
      let rest : x.bytes ≤ b
          → (n < length (es ++ e ∷ [])) ⊎ (b - x.bytes < total_bytes (es ++ e ∷ [])) =
        λ l. elim h [ inl long ↦ inl (omega arith) | inr large ↦ inr (omega arith) ] in
      elim (dec_le x.bytes b) [
        | yes l ↦ ground (arith, fitting_over n (b - x.bytes) es e (rest l))
        | no l ↦ ground arith
      ]

  -- A list is empty, or has a last entry.
  pub back-cases :
      (es : List (LruEntry K))
      → ((es ≡ []) × (back es ≡ none))
        ⊎ ((xs : List (LruEntry K)) × (x : LruEntry K) × (es ≡ xs ++ x ∷ []) × (back es ≡ some x))
  unfolding back
  back-cases [] = inl (refl, refl)
  back-cases (e ∷ []) = inr ([], e, refl, refl)
  back-cases (e ∷ e' ∷ es) = elim (back-cases (e' ∷ es)) [
    | inl h ↦ absurd (cc h.0)
    | inr (xs, x, split, last) ↦ inr (e ∷ xs, x, ap (◌∷◌ e) split, last)
  ]

module _ {K : Type 0} (dec : Discrete K) where
  unfoldable pub has_key : K → List (LruEntry K) → Bool
  has_key k [] = false
  has_key k (e ∷ es) = ite (dec e.key k) true (has_key k es)

  abbrev pub AreDistinct : List (LruEntry K) → Type 0
  AreDistinct [] = Unit {0}
  AreDistinct (e ∷ es) = (has_key e.key es ≡ false) × AreDistinct es

  pub has_key-unlink_self :
      (j : K) (es : List (LruEntry K)) → AreDistinct es → has_key j (unlink dec j es) ≡ false
  unfolding has_key unlink
  has_key-unlink_self j [] d = refl
  has_key-unlink_self j (e ∷ es) d = ground (arith, has_key-unlink_self j es d.1)

  pub has_key-unlink_ne :
      (j k : K) (es : List (LruEntry K)) → j ≢ k → has_key k (unlink dec j es) ≡ has_key k es
  unfolding has_key unlink
  has_key-unlink_ne j k [] h = refl
  has_key-unlink_ne j k (e ∷ es) h = ground (arith, has_key-unlink_ne j k es h)

  pub has_key-unlink-false :
      (j k : K) (es : List (LruEntry K))
      → has_key k es ≡ false
      → has_key k (unlink dec j es) ≡ false
  unfolding has_key unlink
  has_key-unlink-false j k [] h = refl
  has_key-unlink-false j k (e ∷ es) h = ground (arith, has_key-unlink-false j k es)

  pub AreDistinct-unlink :
      (j : K) (es : List (LruEntry K)) → AreDistinct es → AreDistinct (unlink dec j es)
  unfolding unlink
  AreDistinct-unlink j [] d = tt
  AreDistinct-unlink j (e ∷ es) d =
      ground (arith, AreDistinct-unlink j es d.1, has_key-unlink-false j e.key es)

  pub total_bytes-unlink :
      (j : K) (es : List (LruEntry K)) {e : LruEntry K}
      → find_entry dec j es ≡ some e
      → total_bytes (unlink dec j es) + e.bytes ≡ total_bytes es
  unfolding find_entry unlink
  total_bytes-unlink j [] h = ground arith
  total_bytes-unlink j (x ∷ es) {e} h = ground (arith, total_bytes-unlink j es {e = e})

  pub find_entry-key :
      (j : K) (es : List (LruEntry K)) {e : LruEntry K} → find_entry dec j es ≡ some e → e.key ≡ j
  unfolding find_entry
  find_entry-key j [] h = ground arith
  find_entry-key j (x ∷ es) {e} h = ground (arith, find_entry-key j es {e = e})

  pub find_entry-has_key :
      (j : K) (es : List (LruEntry K))
      → has_key j es ≡ true
      → (e : LruEntry K) × (find_entry dec j es ≡ some e)
  unfolding find_entry has_key
  find_entry-has_key j [] h = absurd (ground arith)
  find_entry-has_key j (x ∷ es) h = elim (dec x.key j) [
    | yes p ↦ (x, rw (if_pos _ p) refl)
    | no p ↦ let (e, found) = find_entry-has_key j es (ground arith) in (e, rw (if_neg _ p) found)
  ]

  has_key-append_last :
      (k : K) (xs : List (LruEntry K)) (x : LruEntry K)
      → has_key k (xs ++ x ∷ []) ≡ false
      → x.key ≢ k
  unfolding has_key
  has_key-append_last k [] x h = ground arith
  has_key-append_last k (y ∷ xs) x h = ground (arith, has_key-append_last k xs x)

  pub unlink_back :
      (xs : List (LruEntry K)) (x : LruEntry K)
      → AreDistinct (xs ++ x ∷ [])
      → (unlink dec x.key (xs ++ x ∷ []) ≡ xs) × (find_entry dec x.key (xs ++ x ∷ []) ≡ some x)
  unfolding unlink find_entry
  unlink_back [] x d = ground arith
  unlink_back (y ∷ xs) x d =
      ground (arith, unlink_back xs x d.1, has_key-append_last y.key xs x d.0)

module _ {K : Type 0} where
  pub fitting_bounds :
      (n b : ℕ) (es : List (LruEntry K))
      → (length (fitting n b es) ≤ n) × (total_bytes (fitting n b es) ≤ b)
  unfolding fitting
  fitting_bounds zero b es = omega arith
  fitting_bounds (suc n) b [] = omega arith
  fitting_bounds (suc n) b (e ∷ es) = ground (arith, fitting_bounds n (b - e.bytes) es)

  pub length-append_last :
      (xs : List (LruEntry K)) (x : LruEntry K) → length (xs ++ x ∷ []) ≡ suc (length xs)
  length-append_last [] x = refl
  length-append_last (y ∷ xs) x = ap suc (length-append_last xs x)

module _ {K : Type 0} (dec : Discrete K) where
  pub unlink_absent :
      (j : K) (es : List (LruEntry K)) → has_key dec j es ≡ false → unlink dec j es ≡ es
  unfolding has_key unlink
  unlink_absent j [] h = refl
  unlink_absent j (e ∷ es) h = ground (arith, unlink_absent j es)

  pub find_entry_absent :
      (j : K) (es : List (LruEntry K)) → has_key dec j es ≡ false → find_entry dec j es ≡ none
  unfolding has_key find_entry
  find_entry_absent j [] h = refl
  find_entry_absent j (e ∷ es) h = ground (arith, find_entry_absent j es)

  pub find_entry-unlink_ne :
      (j k : K) (es : List (LruEntry K))
      → j ≢ k
      → find_entry dec k (unlink dec j es) ≡ find_entry dec k es
  unfolding find_entry unlink
  find_entry-unlink_ne j k [] h = refl
  find_entry-unlink_ne j k (e ∷ es) h = ground (arith, find_entry-unlink_ne j k es h)

  pub length-unlink :
      (j : K) (es : List (LruEntry K))
      → has_key dec j es ≡ true
      → suc (length (unlink dec j es)) ≡ length es
  unfolding has_key unlink
  length-unlink j [] h = absurd (ground arith)
  length-unlink j (e ∷ es) h = ground (arith, length-unlink j es)

  -- An entry that fits on its own stays at the front.
  pub find_entry-fitting :
      (n b : ℕ) (e : LruEntry K) (es : List (LruEntry K))
      → 0 < n
      → e.bytes ≤ b
      → find_entry dec e.key (fitting n b (e ∷ es)) ≡ some e
  unfolding find_entry fitting
  find_entry-fitting zero b e es h l = absurd (omega arith)
  find_entry-fitting (suc n) b e es h l = ground arith

  pub has_key-find_entry :
      (j : K) (es : List (LruEntry K)) {e : LruEntry K}
      → find_entry dec j es ≡ some e
      → has_key dec j es ≡ true
  unfolding find_entry has_key
  has_key-find_entry j [] h = ground arith
  has_key-find_entry j (x ∷ es) {e} h = ground (arith, has_key-find_entry j es {e = e})

  pub unlink-le :
      (j : K) (es : List (LruEntry K))
      → (length (unlink dec j es) ≤ length es) × (total_bytes (unlink dec j es) ≤ total_bytes es)
  unfolding unlink
  unlink-le j [] = omega arith
  unlink-le j (e ∷ es) = ground (arith, unlink-le j es)
