-- ===== src/Focus/Operations.antt =====
-- The operations of FocusManager. `can w` is what `canFocus(w)` returns at the time of the call.
use tuicord_v.Base.{
  ℕ, zero, suc, ◌+◌, ◌-◌, ◌%◌, Bool, true, false, ◌&&◌, not, List, [], ◌∷◌, ◌++◌, Option, none,
  some, length, get_elem?, drop, index_of, remove_at, ltb, leb, ◌==◌, if◌then◌else◌,
}
use tuicord_v.Focus.State.{
  FocusChangeReason, direct, traversal, history, replaced, removed, cleared, FocusManager, after,
  focused, index, has, notify, prune_history, visit_at,
}

-- `(start + n) % len`, or `(start - n) % len` with `len` added below 0; Go's % has the sign of its
-- left side.
unfoldable pub step_index : Bool → ℕ → ℕ → ℕ → ℕ
step_index true start n len = (start + n) % len
step_index false start n len =
    let under = (n - start) % len in
    if leb n start then (start - n) % len else if under == 0 then 0 else len - under

-- The number of visits before an index that may be -1.
abbrev pub below : Option ℕ → ℕ
below none = 0
below (some i) = i

module _ {W : Type 0} (dec : Discrete W) (can : W → Bool) where
  unfoldable pub register : FocusManager W → W → FocusManager W
  register f w =
      let f' = record f { ring = f.ring ++ w ∷ [] } in
      if not (can w)
      then f
      else if has dec f.ring w
      then f
      else if length f'.ring == 1
      then visit_at dec f' (focused f) 0 direct
      else f'

  -- The loop of `Replace` that fills the ring.
  unfoldable pub collect : List W → List W → List W
  collect ring [] = ring
  collect ring (w ∷ ws) =
      collect (if can w && not (has dec ring w) then ring ++ w ∷ [] else ring) ws

  -- The place of the previous owner in a ring, if there is one.
  abbrev pub place : List W → Option W → Option ℕ
  place ring none = none
  place ring (some w) = index dec ring w

  -- `Replace`; `preferred w` tells whether w is a PreferredFocus that returns true.
  unfoldable pub replace : (W → Bool) → FocusManager W → List W → FocusManager W
  replace preferred f widgets =
      let prev = focused f in
      let ring = collect [] widgets in
      let f' = prune_history dec (record f { ring = ring; current = none }) in
      let first : ℕ = elim (index_of preferred ring) [ none ↦ 0 | some i ↦ i ] in
      if length ring == 0 then notify dec f' prev none replaced else elim (place ring prev) [
        | some i ↦ visit_at dec f' prev i replaced
        | none ↦ visit_at dec f' prev first replaced
      ]

  unfoldable pub set : FocusManager W → W → FocusChangeReason → FocusManager W × Bool
  set f w reason = if not (can w) then (f, false) else elim (index dec f.ring w) [
    | none ↦ (f, false)
    | some i ↦ (visit_at dec f (focused f) i reason, true)
  ]

  abbrev pub can_at : List W → ℕ → Bool
  can_at ring i = elim (get_elem? ring i) [ none ↦ false | some w ↦ can w ]

  -- The loop of `step`, from the round n on.
  unfoldable pub step_from : List W → Bool → ℕ → ℕ → ℕ → Option ℕ
  step_from ring forward start n zero = none
  step_from ring forward start n (suc rounds) =
      let i = step_index forward start n (length ring) in
      let rest = step_from ring forward start (n + 1) rounds in
      if can_at ring i then some i else rest

  -- The focus goes to a place that was found, whose widget is returned.
  abbrev pub arrive : FocusManager W → Option ℕ → FocusChangeReason → FocusManager W × Option W
  arrive f none reason = (f, none)
  arrive f (some i) reason = (visit_at dec f (focused f) i reason, get_elem? f.ring i)

  -- Where `step` starts, and whether that place is tried first.
  abbrev pub step_start : FocusManager W → Bool → ℕ × Bool
  step_start f forward =
      let outside : ℕ × Bool = ((if forward then 0 else length f.ring - 1), true) in
      elim f.current [
        | none ↦ outside
        | some i ↦ if leb (length f.ring) i then outside else (i, false)
      ]

  unfoldable pub step : FocusManager W → Bool → FocusChangeReason → FocusManager W × Option W
  step f forward reason =
      let (start, first) = step_start f forward in
      if length f.ring == 0
      then (f, none)
      else if first && can_at f.ring start
      then arrive f (some start) reason
      else arrive f (step_from f.ring forward start 1 (length f.ring)) reason

  unfoldable pub next : FocusManager W → FocusManager W × Option W
  next f = step f true traversal

  unfoldable pub prev : FocusManager W → FocusManager W × Option W
  prev f = step f false traversal

  -- The place of a visit, if its widget is in the ring and can have the focus.
  abbrev pub target : List W → Option W → Option ℕ
  target ring none = none
  target ring (some w) = elim (index dec ring w) [
    | none ↦ none
    | some i ↦ if can_at ring i then some i else none
  ]

  -- The loop of `Back`, over the visits below i.
  unfoldable pub back_from : List W → List W → ℕ → Option (ℕ × ℕ)
  back_from ring visits zero = none
  back_from ring visits (suc i) =
      let rest = back_from ring visits i in
      elim (target ring (get_elem? visits i)) [ some j ↦ some (i, j) | none ↦ rest ]

  -- The loop of `Forward`, from the visit i on.
  unfoldable pub forward_from : List W → ℕ → List W → Option (ℕ × ℕ)
  forward_from ring i [] = none
  forward_from ring i (w ∷ ws) =
      let rest = forward_from ring (i + 1) ws in
      elim (target ring (some w)) [ some j ↦ some (i, j) | none ↦ rest ]

  -- The focus goes to the place j and the history to the visit i.
  abbrev pub travel : FocusManager W → Option (ℕ × ℕ) → FocusManager W × Option W
  travel f none = (f, none)
  travel f (some (i, j)) =
      let f' = record f { current = some j; history_index = some i } in
      (notify dec f' (focused f) (get_elem? f.ring j) history, get_elem? f.ring j)

  unfoldable pub back : FocusManager W → FocusManager W × Option W
  back f =
      if length f.ring == 0
      then (f, none)
      else travel f (back_from f.ring f.history (below f.history_index))

  unfoldable pub forward : FocusManager W → FocusManager W × Option W
  forward f =
      let i = after f.history_index in
      if length f.ring == 0 then (f, none) else travel f (forward_from f.ring i (drop i f.history))

module _ {W : Type 0} (dec : Discrete W) where
  unfoldable pub clear : FocusManager W → FocusManager W
  clear f =
      notify dec (record f { ring = []; history = []; current = none; history_index = none })
        (focused f) none cleared

  -- `f.current` after the removal of the place i from a ring that has `len` widgets left.
  abbrev pub current_after : Option ℕ → ℕ → ℕ → Option ℕ
  current_after none i len = none
  current_after (some c) i len =
      if leb len c then some 0 else if ltb i c then some (c - 1) else some c

  abbrev pub is_current : Option ℕ → ℕ → Bool
  is_current none i = false
  is_current (some c) i = i == c

  -- `recordVisit` and `notify` of the current owner.
  abbrev pub revisit : FocusManager W → Option W → FocusManager W
  revisit f prev = elim f.current [ none ↦ f | some c ↦ visit_at dec f prev c removed ]

  unfoldable pub remove : FocusManager W → W → FocusManager W × Bool
  remove f w = elim (index dec f.ring w) [
    | none ↦ (f, false)
    | some i ↦
        let ring = remove_at i f.ring in
        let f' =
          prune_history dec
            (record f { ring = ring; current = current_after f.current i (length ring) }) in
        let emptied = prune_history dec (record f { ring = []; current = none }) in
        if length ring == 0
        then (notify dec emptied (focused f) none removed, true)
        else if is_current f.current i
        then (revisit f' (focused f), true)
        else (f', true)
  ]
