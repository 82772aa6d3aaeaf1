-- ===== src/Focus/Removal.antt =====
-- What the removal of another widget does to the focus.
use tuicord_v.Base.{
  ℕ, zero, suc, ◌+◌, ◌-◌, ◌<◌, ◌≡◌, ◌≢◌, sym, ap, ◌∙◌, List, [], ◌∷◌, some, length, get_elem?,
  remove_at, index_of-lt, ltb, if◌then◌else◌, arith,
}
use tuicord_v.Focus.State.{FocusManager, get_at, focused, index, same, prune_history}
use tuicord_v.Focus.Operations.{remove, current_after}
use tuicord_v.Focus.Invariant.{length-remove_at}

get_elem?-remove_at {ℓ} :
    {A : Type ℓ} (i j : ℕ) (xs : List A)
    → get_elem? (remove_at i xs) j ≡ (if ltb j i then get_elem? xs j else get_elem? xs (suc j))
get_elem?-remove_at i j [] = ground arith
get_elem?-remove_at zero j (x ∷ xs) = ground arith
get_elem?-remove_at (suc i) zero (x ∷ xs) = ground arith
get_elem?-remove_at (suc i) (suc j) (x ∷ xs) = ground (arith, get_elem?-remove_at i j xs)

module _ {W : Type 0} (dec : Discrete W) (f : FocusManager W) (w : W) (i c : ℕ)
    (at : index dec f.ring w ≡ some i) (current : f.current ≡ some c) (inside : c < length f.ring)
    (other : i ≢ c) where
  removed_lem :
      ((remove dec f w).0.ring ≡ remove_at i f.ring)
      × ((remove dec f w).0.current ≡ current_after dec (some c) i (length (remove_at i f.ring)))
      × ((remove dec f w).0.changes ≡ f.changes)
  unfolding remove prune_history
  removed_lem =
      let in_ring : i < length f.ring = index_of-lt (λ got. same dec got w) f.ring at in
      let len = length-remove_at dec i f.ring in_ring in
      ground (arith, at, current, inside, other, len)

  -- When a widget w other than the current one is removed, and the current one is not the last of
  -- the ring, the focus stays.
  pub focused-remove : c + 1 < length f.ring → focused (remove dec f w).0 ≡ focused f
  unfolding focused
  focused-remove not_last =
      let len = length-remove_at dec i f.ring (index_of-lt (λ got. same dec got w) f.ring at) in
      let place : ℕ = if ltb i c then c - 1 else c in
      let kept : current_after dec (some c) i (length (remove_at i f.ring)) ≡ some place =
        ground (arith, len) in
      let found : get_elem? (remove_at i f.ring) place ≡ get_elem? f.ring c =
        ground (arith, get_elem?-remove_at i place f.ring, other) in
      ap (λ (r : List W). get_at r (remove dec f w).0.current) removed_lem.0
      ∙ ap (get_at (remove_at i f.ring)) (removed_lem.1 ∙ kept)
      ∙ found
      ∙ sym (ap (get_at f.ring) current)

  -- When the current widget is the last of the ring and an earlier widget is removed, the focus jumps
  -- to the first widget that is left, and no change is reported.
  pub focused-remove_last :
      c + 1 ≡ length f.ring
      → (focused (remove dec f w).0 ≡ get_elem? (remove_at i f.ring) 0)
        × ((remove dec f w).0.changes ≡ f.changes)
  unfolding focused
  focused-remove_last last =
      let len = length-remove_at dec i f.ring (index_of-lt (λ got. same dec got w) f.ring at) in
      let jumped : current_after dec (some c) i (length (remove_at i f.ring)) ≡ some 0 =
        ground (arith, len) in
      (
        ap (λ (r : List W). get_at r (remove dec f w).0.current) removed_lem.0
            ∙ ap (get_at (remove_at i f.ring)) (removed_lem.1 ∙ jumped),
        removed_lem.2,
      )
