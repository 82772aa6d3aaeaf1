-- ===== src/Focus/Visited.antt =====
-- What a visit leaves at the end of the history.
use tuicord_v.Base.{
  ℕ, zero, suc, ◌+◌, ◌-◌, ◌≤◌, ◌<◌, ◌≡◌, ◌≢◌, refl, sym, ap, ◌∙◌, false, List, [], ◌∷◌, ◌++◌, some,
  length, get_elem?, take, drop, length-append, length-take, length-drop, ltb, if◌then◌else◌, arith,
  Bool-cases, inl, inr,
}
use tuicord_v.Focus.State.{FocusManager, is_at, index, record_visit, focus_history_limit}

module _ {W : Type 0} where
  pub lt-length : (ws : List W) (i : ℕ) {w : W} → get_elem? ws i ≡ some w → i < length ws
  lt-length [] i h = ground arith
  lt-length (w ∷ ws) zero h = omega arith
  lt-length (w ∷ ws) (suc i) h = omega (arith, lt-length ws i h)

  get_elem?-drop : (k i : ℕ) (xs : List W) → get_elem? (drop k xs) i ≡ get_elem? xs (k + i)
  get_elem?-drop zero i xs = ground arith
  get_elem?-drop (suc k) i [] = ground arith
  get_elem?-drop (suc k) i (x ∷ xs) = ground (arith, get_elem?-drop k i xs)

  get_elem?-take : (k i : ℕ) (xs : List W) → i < k → get_elem? (take k xs) i ≡ get_elem? xs i
  get_elem?-take zero i xs h = absurd (omega arith)
  get_elem?-take (suc k) i [] h = refl
  get_elem?-take (suc k) zero (x ∷ xs) h = refl
  get_elem?-take (suc k) (suc i) (x ∷ xs) h = get_elem?-take k i xs (omega arith)

  get_elem?-append_left :
      (xs ys : List W) (i : ℕ) → i < length xs → get_elem? (xs ++ ys) i ≡ get_elem? xs i
  get_elem?-append_left [] ys i h = absurd (omega arith)
  get_elem?-append_left (x ∷ xs) ys zero h = refl
  get_elem?-append_left (x ∷ xs) ys (suc i) h = get_elem?-append_left xs ys i (omega arith)

  get_elem?-append_last : (xs : List W) (y : W) → get_elem? (xs ++ y ∷ []) (length xs) ≡ some y
  get_elem?-append_last [] y = refl
  get_elem?-append_last (x ∷ xs) y = get_elem?-append_last xs y

module _ {W : Type 0} (dec : Discrete W) where
  -- Where an index is found, its widget stands.
  pub get_elem?-index :
      (ring : List W) (w : W) (i : ℕ) → index dec ring w ≡ some i → get_elem? ring i ≡ some w
  get_elem?-index [] w i h = ground arith
  get_elem?-index (x ∷ ring) w zero h = ground arith
  get_elem?-index (x ∷ ring) w (suc i) h = ground (arith, get_elem?-index ring w i)

  -- A list that ends with v and w, at most as long as the limit after the oldest are dropped.
  bounded_last :
      (kept : List W) (v w : W) (k : ℕ)
      → length kept ≡ suc k
      → get_elem? kept k ≡ some v
      → suc k ≤ focus_history_limit
      → let grown = kept ++ w ∷ [] in
        let bounded =
          if ltb focus_history_limit (length grown)
          then drop (length grown - focus_history_limit) grown
          else grown in
        (n : ℕ) × (length bounded ≡ suc (suc n))
        × (get_elem? bounded n ≡ some v)
        × (get_elem? bounded (suc n) ≡ some w)
  bounded_last kept v w k len found short =
      let grown = kept ++ w ∷ [] in
      let len' : length grown ≡ suc (suc k) = omega (arith, len, length-append kept (w ∷ [])) in
      let drops = length grown - focus_history_limit in
      let at_v : get_elem? grown k ≡ some v =
        get_elem?-append_left kept (w ∷ []) k (omega (arith, len)) ∙ found in
      let at_w : get_elem? grown (suc k) ≡ some w =
        ap (get_elem? grown) (sym len) ∙ get_elem?-append_last kept w in
      elim (Bool-cases (ltb focus_history_limit (length grown))) [
        | inr fits ↦ rw fits (k, len', at_v, at_w)
        | inl long ↦
            let one : drops ≡ 1 = ground (arith, len') in
            rw long (
              k - 1,
              ground (arith, length-drop drops grown, one, len'),
              get_elem?-drop drops (k - 1) grown
                  ∙ ap (get_elem? grown) (ground (arith, one, len'))
                  ∙ at_v,
              get_elem?-drop drops (suc (k - 1)) grown
                  ∙ ap (get_elem? grown) (ground (arith, one, len'))
                  ∙ at_w,
            )
      ]

  kept_last :
      (visits : List W) (v : W) (k : ℕ)
      → get_elem? visits k ≡ some v
      → k < length visits
      → let kept = if ltb (k + 1) (length visits) then take (k + 1) visits else visits in
        (length kept ≡ suc k) × (get_elem? kept k ≡ some v)
  kept_last visits v k found inside = elim (Bool-cases (ltb (k + 1) (length visits))) [
    | inl cut ↦ rw cut (
      ground (arith, length-take (k + 1) visits),
      get_elem?-take (k + 1) k visits (omega arith) ∙ found,
    )
    | inr whole ↦ rw whole (ground arith, found)
  ]

  -- After a visit to w from a cursor at v, the two last visits are v and w.
  pub record_visit-last :
      (f : FocusManager W) (v w : W) (k : ℕ)
      → v ≢ w
      → f.history_index ≡ some k
      → get_elem? f.history k ≡ some v
      → k < length f.history
      → length f.history ≤ focus_history_limit
      → (n : ℕ) × ((record_visit dec f w).history_index ≡ some (suc n))
        × (length (record_visit dec f w).history ≡ suc (suc n))
        × (get_elem? (record_visit dec f w).history n ≡ some v)
        × (get_elem? (record_visit dec f w).history (suc n) ≡ some w)
  unfolding record_visit
  record_visit-last f v w k ne at found inside short =
      let kept = kept_last f.history v k found inside in
      let cut : List W =
        if ltb (k + 1) (length f.history) then take (k + 1) f.history else f.history in
      let away : is_at dec (get_elem? f.history k) w ≡ false = ground (arith, found) in
      let (n, len, at_v, at_w) = bounded_last cut v w k kept.0 kept.1 (omega arith) in
      simp (at, away) (n, ap some (omega (arith, len)), len, at_v, at_w)
