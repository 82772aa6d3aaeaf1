-- ===== src/Focus/Invariant/Operations.antt =====
-- Every operation keeps the invariant.
use tuicord_v.Base.{
  ℕ, zero, suc, ◌+◌, ◌≤◌, ◌<◌, ◌≡◌, refl, sym, ap, ◌∙◌, Bool, true, false, ◌&&◌, List, [], ◌∷◌,
  ◌++◌, Option, none, some, length, get_elem?, drop, index_of, index_of-lt, length-append,
  length-drop, ◌==◌, arith, inl, inr, Bool-cases, Option-cases,
}
use tuicord_v.Focus.State.{
  FocusChangeReason, direct, history, replaced, cleared, FocusManager, new_focus_manager, after,
  same, focused, index, has, prune_history, visit_at,
}
use tuicord_v.Focus.Operations.{
  register, collect, place, replace, set, can_at, step_from, arrive, step_start, step, target,
  back_from, forward_from, travel, below, back, forward, clear,
}
use tuicord_v.Focus.Invariant.{
  IsBelow, IsSound, IsValid, has_lem, AllIn-grow, AreDistinct-append_last,
}
use tuicord_v.Focus.Invariant.Parts.{
  notify-IsValid, prune_history-IsSound, same_prune_history, visit_at-IsValid, collect-AreDistinct,
}

module _ {W : Type 0} (dec : Discrete W) (can : W → Bool) where
  pub new_focus_manager-IsValid : IsValid dec new_focus_manager
  new_focus_manager-IsValid = record {
    sound = record { distinct = tt; visits_in = tt; short = omega arith; cursor_in = omega arith };
    current_in = λ h. absurd (omega arith);
  }

  IsBelow-le : (o : Option ℕ) {m n : ℕ} → IsBelow o m → m ≤ n → IsBelow o n
  IsBelow-le none h l = h
  IsBelow-le (some i) h l = omega arith

  pub register-IsValid :
      (f : FocusManager W) (w : W) → IsValid dec f → IsValid dec (register dec can f w)
  unfolding register
  register-IsValid f w v =
      let ring = f.ring ++ w ∷ [] in
      let f' : FocusManager W = record f { ring = ring } in
      let sound : has dec f.ring w ≡ false → IsSound dec ring f.history f.history_index = λ absent.
        record {
          distinct =
              AreDistinct-append_last dec f.ring w v.sound.distinct
                (sym (has_lem dec f.ring w) ∙ absent);
          visits_in = AllIn-grow dec f.ring f.history w v.sound.visits_in;
          short = v.sound.short;
          cursor_in = v.sound.cursor_in;
        } in
      elim (Bool-cases (can w)) [
        | inr out ↦ rw out v
        | inl focusable ↦ elim (Bool-cases (has dec f.ring w)) [
          | inl present ↦ rw (focusable, present) v
          | inr absent ↦ elim (Bool-cases (length ring == 1)) [
            | inl first ↦
                rw (focusable, absent, first)
                  (visit_at-IsValid dec f' (focused f) 0 direct (sound absent) (ground arith))
            | inr later ↦
                rw (focusable, absent, later)
                  (record {
                    sound = sound absent;
                    current_in = λ h.
                        IsBelow-le f.current
                          (v.current_in (ground (arith, length-append f.ring (w ∷ []))))
                          (omega (arith, length-append f.ring (w ∷ [])));
                  })
          ]
        ]
      ]

  first-lt :
      (preferred : W → Bool) (ring : List W)
      → 0 < length ring
      → elim (index_of preferred ring) as (λ _. ℕ) [ none ↦ 0 | some i ↦ i ] < length ring
  first-lt preferred ring h = elim (Option-cases (index_of preferred ring)) [
    | inl lost ↦ rw lost h
    | inr (i, found) ↦ rw found (index_of-lt preferred ring found)
  ]

  place-lt :
      (ring : List W) (o : Option W) {i : ℕ} → place dec can ring o ≡ some i → i < length ring
  place-lt ring none h = ground arith
  place-lt ring (some w) h = index_of-lt (λ got. same dec got w) ring h

  pub replace-IsValid :
      (preferred : W → Bool) (f : FocusManager W) (ws : List W)
      → IsValid dec f
      → IsValid dec (replace dec can preferred f ws)
  unfolding replace
  replace-IsValid preferred f ws v =
      let ring = collect dec can [] ws in
      let f' = prune_history dec (record f { ring = ring; current = none }) in
      let sound =
        prune_history-IsSound dec (record f { ring = ring; current = none })
          (collect-AreDistinct dec can [] ws tt) v.sound.short in
      let same = same_prune_history dec (record f { ring = ring; current = none }) in
      let first : ℕ = elim (index_of preferred ring) [ none ↦ 0 | some i ↦ i ] in
      let focus : (i : ℕ) → i < length ring → IsValid dec (visit_at dec f' (focused f) i replaced) =
        λ i h. visit_at-IsValid dec f' (focused f) i replaced sound (rw same.0 h) in
      elim (Bool-cases (length ring == 0)) [
        | inl empty ↦ rw empty (
            notify-IsValid dec f' (focused f) none replaced
              (record { sound = sound; current_in = λ h. ground (arith, ap length same.0) }))
        | inr full ↦ elim (Option-cases (place dec can ring (focused f))) [
          | inl lost ↦ rw (full, lost) (focus first (first-lt preferred ring (ground arith)))
          | inr (i, kept) ↦ rw (full, kept) (focus i (place-lt ring (focused f) kept))
        ]
      ]

  pub set-IsValid :
      (f : FocusManager W) (w : W) (reason : FocusChangeReason)
      → IsValid dec f
      → IsValid dec (set dec can f w reason).0
  unfolding set
  set-IsValid f w reason v = elim (Bool-cases (can w)) [
    | inr out ↦ rw out v
    | inl focusable ↦ elim (Option-cases (index dec f.ring w)) [
      | inl absent ↦ rw (focusable, absent) v
      | inr (i, found) ↦
          rw (focusable, found)
            (visit_at-IsValid dec f (focused f) i reason v.sound
              (index_of-lt (λ got. same dec got w) f.ring found))
    ]
  ]

  pub can_at-lt : (ring : List W) (i : ℕ) → can_at dec can ring i ≡ true → i < length ring
  can_at-lt [] i h = cc
  can_at-lt (w ∷ ws) zero h = omega arith
  can_at-lt (w ∷ ws) (suc i) h = omega (arith, can_at-lt ws i h)

  arrive-IsValid :
      (f : FocusManager W) (o : Option ℕ) (reason : FocusChangeReason)
      → IsValid dec f
      → ((i : ℕ) → o ≡ some i → can_at dec can f.ring i ≡ true)
      → IsValid dec (arrive dec can f o reason).0
  arrive-IsValid f none reason v h = v
  arrive-IsValid f (some i) reason v h =
      visit_at-IsValid dec f (focused f) i reason v.sound (can_at-lt f.ring i (h i refl))

  -- The place that the loop of `step` finds can have the focus.
  pub step_from-can_at :
      (ring : List W) (ahead : Bool) (start n rounds : ℕ) (i : ℕ)
      → step_from dec can ring ahead start n rounds ≡ some i
      → can_at dec can ring i ≡ true
  unfolding step_from
  step_from-can_at ring ahead start n zero i h = ground arith
  step_from-can_at ring ahead start n (suc rounds) i h =
      ground (arith, step_from-can_at ring ahead start (n + 1) rounds i)

  pub step-IsValid :
      (f : FocusManager W) (ahead : Bool) (reason : FocusChangeReason)
      → IsValid dec f
      → IsValid dec (step dec can f ahead reason).0
  unfolding step
  step-IsValid f ahead reason v =
      let (start, first) = step_start dec can f ahead in
      let found = step_from dec can f.ring ahead start 1 (length f.ring) in
      elim (Bool-cases (length f.ring == 0)) [
        | inl empty ↦ rw empty v
        | inr full ↦ elim (Bool-cases (first && can_at dec can f.ring start)) [
          | inl tried ↦
              rw (full, tried) (arrive-IsValid f (some start) reason v (λ i e. ground arith))
          | inr missed ↦
              rw (full, missed)
                (arrive-IsValid f found reason v
                  (step_from-can_at f.ring ahead start 1 (length f.ring)))
        ]
      ]

  travel-IsValid :
      (f : FocusManager W) (o : Option (ℕ × ℕ))
      → IsValid dec f
      → ((i j : ℕ) → o ≡ some (i, j) → (i < length f.history) × (j < length f.ring))
      → IsValid dec (travel dec can f o).0
  travel-IsValid f none v h = v
  travel-IsValid f (some (i, j)) v h =
      let g : FocusManager W = record f { current = some j; history_index = some i } in
      let range = h i j refl in
      notify-IsValid dec g (focused f) (get_elem? f.ring j) history (record {
        sound = record {
          distinct = v.sound.distinct;
          visits_in = v.sound.visits_in;
          short = v.sound.short;
          cursor_in = omega arith;
        };
        current_in = λ some_widget. range.1;
      })

  lt-length : (ws : List W) (i : ℕ) {w : W} → get_elem? ws i ≡ some w → i < length ws
  lt-length [] i h = ground arith
  lt-length (w ∷ ws) zero h = omega arith
  lt-length (w ∷ ws) (suc i) h = omega (arith, lt-length ws i h)

  target-lt :
      (ring visits : List W) (i : ℕ) {j : ℕ}
      → target dec can ring (get_elem? visits i) ≡ some j
      → (i < length visits) × (j < length ring)
  target-lt ring visits i {j} h = elim (Option-cases (get_elem? visits i)) [
    | inl out ↦ absurd (ground (arith, out))
    | inr (w, found) ↦ elim (Option-cases (index dec ring w)) [
      | inl out ↦ absurd (ground (arith, found, out))
      | inr (k, at) ↦
          (lt-length visits i found, ground (arith, index_of-lt (λ got. same dec got w) ring at))
    ]
  ]

  back_from-lt :
      (ring visits : List W) (n i j : ℕ)
      → back_from dec can ring visits n ≡ some (i, j)
      → (i < length visits) × (j < length ring)
  unfolding back_from
  back_from-lt ring visits zero i j h = ground arith
  back_from-lt ring visits (suc n) i j h =
      ground (arith, target-lt ring visits n {j = j}, back_from-lt ring visits n i j)

  forward_from-lt :
      (ring : List W) (k : ℕ) (ws : List W) (i j : ℕ)
      → forward_from dec can ring k ws ≡ some (i, j)
      → (i < k + length ws) × (0 < length ws) × (j < length ring)
  unfolding forward_from
  forward_from-lt ring k [] i j h = ground arith
  forward_from-lt ring k (w ∷ ws) i j h =
      ground (arith, target-lt ring (w ∷ []) 0 {j = j}, forward_from-lt ring (k + 1) ws i j)

  pub back-IsValid : (f : FocusManager W) → IsValid dec f → IsValid dec (back dec can f).0
  unfolding back
  back-IsValid f v = elim (Bool-cases (length f.ring == 0)) [
    | inl empty ↦ rw empty v
    | inr full ↦
        rw full (travel-IsValid f _ v (back_from-lt f.ring f.history (below f.history_index)))
  ]

  pub forward-IsValid : (f : FocusManager W) → IsValid dec f → IsValid dec (forward dec can f).0
  unfolding forward
  forward-IsValid f v =
      let i = after f.history_index in
      let rest = drop i f.history in
      elim (Bool-cases (length f.ring == 0)) [
        | inl empty ↦ rw empty v
        | inr full ↦ rw full (
            travel-IsValid f (forward_from dec can f.ring i rest) v (λ k j e.
              let range = forward_from-lt f.ring i rest k j e in
              (omega (arith, range, length-drop i f.history), range.2)))
      ]

  pub clear-IsValid : (f : FocusManager W) → IsValid dec f → IsValid dec (clear dec f)
  unfolding clear
  clear-IsValid f v = notify-IsValid dec _ (focused f) none cleared (record {
    sound = record { distinct = tt; visits_in = tt; short = omega arith; cursor_in = tt };
    current_in = λ h. absurd (omega arith);
  })
