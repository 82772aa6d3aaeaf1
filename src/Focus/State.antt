-- ===== src/Focus/State.antt =====
-- internal/tui/tui/focus.go: FocusManager, the ring of widgets that can have the keyboard focus.
-- An index of -1 is `none`. `sameWidget` is equality (the widgets are of comparable types), and
-- `can w` is what `canFocus(w)` returns at the time of the call. A nil widget, which no operation
-- lets into the ring, and a nil manager have no part here. `changes` has the calls of `onChange`,
-- the last call first.
use mathlib.Core.Logic.{ite}
use tuicord_v.Base.{
  ℕ, ◌+◌, ◌-◌, Bool, true, false, ◌&&◌, not, List, [], ◌∷◌, ◌++◌, Option, none, some, length,
  get_elem?, take, drop, index_of, ltb, if◌then◌else◌,
}

pub data FocusChangeReason : Type 0 where
  direct traversal history pointer replaced removed cleared : FocusChangeReason

pub record FocusChange (W : Type 0) : Type 0 where
  pub previous : Option W
  pub next : Option W
  pub reason : FocusChangeReason

pub record FocusManager (W : Type 0) : Type 0 where
  pub ring : List W
  pub current : Option ℕ
  pub history : List W
  pub history_index : Option ℕ
  pub on_change : Bool
  pub changes : List (FocusChange W)

abbrev pub focus_history_limit : ℕ
focus_history_limit = 128

-- The zero value.
abbrev pub new_focus_manager : {W : Type 0} → FocusManager W
new_focus_manager = record {
  ring = [];
  current = some 0;
  history = [];
  history_index = some 0;
  on_change = false;
  changes = [];
}

unfoldable pub set_on_change : {W : Type 0} → FocusManager W → Bool → FocusManager W
set_on_change f fn = record f { on_change = fn }

-- The reasons for which an unchanged owner is reported too.
unfoldable pub is_explicit : FocusChangeReason → Bool
is_explicit direct = true
is_explicit traversal = true
is_explicit history = true
is_explicit pointer = true
is_explicit _ = false

abbrev pub get_at : {W : Type 0} → List W → Option ℕ → Option W
get_at xs none = none
get_at xs (some i) = get_elem? xs i

unfoldable pub focused : {W : Type 0} → FocusManager W → Option W
focused f = get_at f.ring f.current

-- `i + 1`, where i may be -1.
abbrev pub after : Option ℕ → ℕ
after none = 0
after (some i) = i + 1

module _ {W : Type 0} (dec : Discrete W) where
  abbrev pub same : W → W → Bool
  same a b = ite (dec a b) true false

  abbrev pub is_at : Option W → W → Bool
  is_at none w = false
  is_at (some v) w = same v w

  abbrev pub same_widget : Option W → Option W → Bool
  same_widget a none = elim a [ none ↦ true | some _ ↦ false ]
  same_widget a (some w) = is_at a w

  abbrev pub index : List W → W → Option ℕ
  index ring w = index_of (λ got. same got w) ring

  abbrev pub has : List W → W → Bool
  has ring w = elim (index ring w) [ none ↦ false | some _ ↦ true ]

  unfoldable pub notify : FocusManager W → Option W → Option W → FocusChangeReason → FocusManager W
  notify f previous next reason =
      if not f.on_change
      then f
      else if same_widget previous next && not (is_explicit reason)
      then f
      else record f {
        changes = record { previous = previous; next = next; reason = reason } ∷ f.changes;
      }

  unfoldable pub record_visit : FocusManager W → W → FocusManager W
  record_visit f w =
      let n = after f.history_index in
      let kept = if ltb n (length f.history) then take n f.history else f.history in
      let grown = kept ++ w ∷ [] in
      let history =
        if ltb focus_history_limit (length grown)
        then drop (length grown - focus_history_limit) grown
        else grown in
      if is_at (get_at f.history f.history_index) w
      then f
      else record f { history = history; history_index = some (length history - 1) }

  -- The loop of `pruneHistory` from the index `old`, with `next` visits kept so far.
  unfoldable pub prune_from : List W → Option ℕ → ℕ → ℕ → Option ℕ → List W → List W × Option ℕ
  prune_from ring cursor old next new_index [] = ([], new_index)
  prune_from ring cursor old next new_index (w ∷ ws) =
      let present = has ring w in
      let (kept, i) =
        prune_from ring cursor (old + 1) (if present then next + 1 else next)
          (if present && ltb old (after cursor) then some next else new_index) ws in
      ((if present then w ∷ kept else kept), i)

  unfoldable pub prune_history : FocusManager W → FocusManager W
  prune_history f =
      let (kept, i) = prune_from f.ring f.history_index 0 0 none f.history in
      record f { history = kept; history_index = i }

  -- `f.current = i`, `recordVisit` and `notify`, for an index of the ring.
  unfoldable pub visit_at : FocusManager W → Option W → ℕ → FocusChangeReason → FocusManager W
  visit_at f prev i reason = elim (get_elem? f.ring i) [
    | none ↦ f
    | some w ↦ notify (record_visit (record f { current = some i }) w) prev (some w) reason
  ]
