-- ===== src/Focus/Invariant.antt =====
-- The invariant of the focus manager, and the parts of the operations that keep it.
pub mod Parts
pub mod Operations
pub mod Remove
use mathlib.Core.Logic.{ite}
use mathlib.Core.Path.{subst}
use tuicord_v.Base.{
  ℕ, zero, suc, ◌+◌, ◌-◌, ◌≤◌, ◌<◌, ◌≡◌, refl, sym, ap, ◌∙◌, Bool, true, false, ◌&&◌, ◌||◌, not,
  List, [], ◌∷◌, ◌++◌, Option, none, some, length, get_elem?, take, drop, index_of, any,
  any-index_of, length-append, length-take, length-drop, remove_at, ltb, leb, ◌==◌, if◌then◌else◌,
  arith, inl, inr, ◌⊎◌, Bool-cases, Option-cases, min,
}
use tuicord_v.Focus.State.{
  FocusChangeReason, FocusManager, get_at, after, same, focused, index, has, is_at, notify,
  record_visit, prune_from, prune_history, visit_at, focus_history_limit,
}

-- An index below n.
abbrev pub IsBelow : Option ℕ → ℕ → Type 0
IsBelow none n = ⊥
IsBelow (some i) n = i < n

-- -1, or an index below n; at n = 0 also 0.
abbrev pub IsCursor : Option ℕ → ℕ → Type 0
IsCursor none n = Unit {0}
IsCursor (some i) n = i ≤ n - 1

module _ {W : Type 0} (dec : Discrete W) where
  abbrev pub member : W → List W → Bool
  member w = any (λ got. same dec got w)

  abbrev pub AreDistinct : List W → Type 0
  AreDistinct [] = Unit {0}
  AreDistinct (w ∷ ws) = (member w ws ≡ false) × AreDistinct ws

  -- Every visit is to a widget of the ring.
  abbrev pub AllIn : List W → List W → Type 0
  AllIn ring [] = Unit {0}
  AllIn ring (w ∷ ws) = (member w ring ≡ true) × AllIn ring ws

  -- A ring without duplicates and a bounded history of visits to it.
  pub record IsSound (ring history : List W) (cursor : Option ℕ) : Type 0 where
    pub distinct : AreDistinct ring
    pub visits_in : AllIn ring history
    pub short : length history ≤ focus_history_limit
    pub cursor_in : IsCursor cursor (length history)

  -- In a ring that is not empty, a widget is current.
  pub record IsValid (f : FocusManager W) : Type 0 where
    pub sound : IsSound f.ring f.history f.history_index
    pub current_in : 0 < length f.ring → IsBelow f.current (length f.ring)

  pub has_lem : (ring : List W) (w : W) → has dec ring w ≡ member w ring
  has_lem ring w = sym (any-index_of (λ got. same dec got w) ring)

  pub AllIn-take : (ring : List W) (n : ℕ) (ws : List W) → AllIn ring ws → AllIn ring (take n ws)
  AllIn-take ring zero ws h = tt
  AllIn-take ring (suc n) [] h = tt
  AllIn-take ring (suc n) (w ∷ ws) h = (h.0, AllIn-take ring n ws h.1)

  pub AllIn-drop : (ring : List W) (n : ℕ) (ws : List W) → AllIn ring ws → AllIn ring (drop n ws)
  AllIn-drop ring zero ws h = h
  AllIn-drop ring (suc n) [] h = tt
  AllIn-drop ring (suc n) (w ∷ ws) h = AllIn-drop ring n ws h.1

  pub AllIn-append_last :
      (ring ws : List W) (w : W) → AllIn ring ws → member w ring ≡ true → AllIn ring (ws ++ w ∷ [])
  AllIn-append_last ring [] w h m = (m, tt)
  AllIn-append_last ring (v ∷ ws) w h m = (h.0, AllIn-append_last ring ws w h.1 m)

  pub member-append_last :
      (v : W) (ws : List W) (w : W) → member v (ws ++ w ∷ []) ≡ (member v ws || same dec w v)
  member-append_last v [] w = ground arith
  member-append_last v (u ∷ ws) w = ground (arith, member-append_last v ws w)

  pub member_self : (w : W) (ws : List W) → member w (w ∷ ws) ≡ true
  member_self w ws = ground arith

  pub AllIn-grow : (ring ws : List W) (w : W) → AllIn ring ws → AllIn (ring ++ w ∷ []) ws
  AllIn-grow ring [] w h = tt
  AllIn-grow ring (v ∷ ws) w h =
      (rw (member-append_last v ring w) (ground (arith, h.0)), AllIn-grow ring ws w h.1)

  pub AreDistinct-append_last :
      (ws : List W) (w : W) → AreDistinct ws → member w ws ≡ false → AreDistinct (ws ++ w ∷ [])
  AreDistinct-append_last [] w d m = (refl, tt)
  AreDistinct-append_last (v ∷ ws) w d m = (
    rw (member-append_last v ws w) (ground (arith, d.0, m)),
    AreDistinct-append_last ws w d.1 (ground arith),
  )

  pub member-get_elem? :
      (ws : List W) (i : ℕ) {w : W} → get_elem? ws i ≡ some w → member w ws ≡ true
  member-get_elem? [] i h = cc
  member-get_elem? (v ∷ ws) zero {w} h = ground arith
  member-get_elem? (v ∷ ws) (suc i) {w} h = ground (arith, member-get_elem? ws i {w = w} h)

  member-remove_at-false :
      (v : W) (i : ℕ) (ws : List W) → member v ws ≡ false → member v (remove_at i ws) ≡ false
  member-remove_at-false v i [] h = refl
  member-remove_at-false v zero (w ∷ ws) h = ground arith
  member-remove_at-false v (suc i) (w ∷ ws) h = ground (arith, member-remove_at-false v i ws)

  pub AreDistinct-remove_at : (i : ℕ) (ws : List W) → AreDistinct ws → AreDistinct (remove_at i ws)
  AreDistinct-remove_at i [] d = tt
  AreDistinct-remove_at zero (w ∷ ws) d = d.1
  AreDistinct-remove_at (suc i) (w ∷ ws) d =
      (member-remove_at-false w i ws d.0, AreDistinct-remove_at i ws d.1)

  pub length-remove_at :
      (i : ℕ) (ws : List W) → i < length ws → suc (length (remove_at i ws)) ≡ length ws
  length-remove_at i [] h = absurd (omega arith)
  length-remove_at zero (w ∷ ws) h = refl
  length-remove_at (suc i) (w ∷ ws) h = ap suc (length-remove_at i ws (omega arith))

  pub get_elem?-lt : (ws : List W) (i : ℕ) → i < length ws → (w : W) × (get_elem? ws i ≡ some w)
  get_elem?-lt [] i h = absurd (omega arith)
  get_elem?-lt (w ∷ ws) zero h = (w, refl)
  get_elem?-lt (w ∷ ws) (suc i) h = get_elem?-lt ws i (omega arith)
