-- ===== src/Focus/Rebuild.antt =====
-- Replace rebuilds the ring and keeps the owner of the focus.
use tuicord_v.Base.{
  ◌≡◌, ◌<◌, ap, ◌∙◌, Bool, true, false, ◌&&◌, ◌||◌, List, [], ◌∷◌, ◌++◌, none, some, length,
  index_of-lt, ◌==◌, arith, Option-cases, inl, inr,
}
use tuicord_v.Focus.State.{
  FocusManager, get_at, focused, index, has, same, prune_history, visit_at, replaced,
}
use tuicord_v.Focus.Operations.{collect, place, replace}
use tuicord_v.Focus.Invariant.{member, has_lem, member-append_last}
use tuicord_v.Focus.Invariant.Parts.{same_prune_history}
use tuicord_v.Focus.Walk.{visit_at-focus}
use tuicord_v.Focus.Visited.{get_elem?-index}

module _ {W : Type 0} (dec : Discrete W) (can : W → Bool) where
  -- The new ring has the widgets of the old one and those of the list that can have the focus.
  pub member-collect :
      (v : W) (ring ws : List W)
      → member dec v (collect dec can ring ws) ≡ (member dec v ring || (can v && member dec v ws))
  unfolding collect
  member-collect v ring [] = ground arith
  member-collect v ring (w ∷ ws) = ground (
    arith,
    member-collect v ring ws,
    member-collect v (ring ++ w ∷ []) ws,
    member-append_last dec v ring w,
    has_lem dec ring w,
  )

  -- When the owner of the focus is among the new widgets and can have the focus, Replace keeps it.
  pub focused-replace :
      (preferred : W → Bool) (f : FocusManager W) (v : W) (ws : List W)
      → focused f ≡ some v
      → can v ≡ true
      → member dec v ws ≡ true
      → focused (replace dec can preferred f ws) ≡ some v
  unfolding replace
  focused-replace preferred f v ws owner can_v listed =
      let ring = collect dec can [] ws in
      let present : has dec ring v ≡ true =
        has_lem dec ring v ∙ member-collect v [] ws ∙ ground arith in
      elim (Option-cases (index dec ring v)) [
        | inl absent ↦ absurd (ground (arith, absent, present))
        | inr (i, at) ↦
            let h : length ring == 0 ≡ false =
              ground (arith, index_of-lt (λ got. same dec got v) ring at) in
            let f' = prune_history dec (record f { ring = ring; current = none }) in
            let same_ring = (same_prune_history dec (record f { ring = ring; current = none })).0 in
            let placed : place dec can ring (focused f) ≡ some i =
              ap (place dec can ring) owner ∙ at in
            let range : i < length f'.ring =
              rw same_ring (index_of-lt (λ got. same dec got v) ring at) in
            let moved = visit_at-focus dec f' (focused f) i replaced range in
            let shown : focused (visit_at dec f' (focused f) i replaced) ≡ some v =
              unfold focused in
              ap (λ (r : List W). get_at r (visit_at dec f' (focused f) i replaced).current)
                (moved.0 ∙ same_ring)
              ∙ ap (get_at ring) moved.1
              ∙ get_elem?-index dec ring v i at in
            rw (h, placed) shown
      ]
