-- ===== src/Focus/Invariant/Remove.antt =====
-- The removal of a widget keeps the invariant.
use mathlib.Core.Path.{subst}
use tuicord_v.Base.{
  ℕ, suc, ◌<◌, ◌≡◌, ap, [], Option, none, some, length, index_of-lt, remove_at, ◌==◌, arith, inl,
  inr, Bool-cases, Option-cases,
}
use tuicord_v.Focus.State.{removed, FocusManager, same, focused, index, prune_history}
use tuicord_v.Focus.Operations.{current_after, is_current, revisit, remove}
use tuicord_v.Focus.Invariant.{IsBelow, IsValid, AreDistinct-remove_at, length-remove_at}
use tuicord_v.Focus.Invariant.Parts.{
  notify-IsValid, prune_history-IsSound, same_prune_history, visit_at-IsValid,
}

module _ {W : Type 0} (dec : Discrete W) where
  current_after-IsBelow :
      (o : Option ℕ) (i len : ℕ)
      → IsBelow o (suc len)
      → 0 < len
      → IsBelow (current_after dec o i len) len
  current_after-IsBelow none i len h pos = h
  current_after-IsBelow (some c) i len h pos = ground arith

  revisit-IsValid :
      (f : FocusManager W) (prev : Option W)
      → IsValid dec f
      → 0 < length f.ring
      → IsValid dec (revisit dec f prev)
  revisit-IsValid f prev v h = elim (Option-cases f.current) [
    | inl lost ↦ rw (lost, revisit) v
    | inr (c, at) ↦
        rw (at, revisit)
          (visit_at-IsValid dec f prev c removed v.sound
            (subst (λ o. IsBelow o (length f.ring)) at (v.current_in h)))
  ]

  pub remove-IsValid : (f : FocusManager W) (w : W) → IsValid dec f → IsValid dec (remove dec f w).0
  unfolding remove prune_history
  remove-IsValid f w v = elim (Option-cases (index dec f.ring w)) [
    | inl absent ↦ rw (absent, remove) v
    | inr (i, found) ↦
        let ring = remove_at i f.ring in
        let inside : i < length f.ring = index_of-lt (λ got. same dec got w) f.ring found in
        let len : suc (length ring) ≡ length f.ring = length-remove_at dec i f.ring inside in
        let distinct = AreDistinct-remove_at dec i f.ring v.sound.distinct in
        let current = current_after dec f.current i (length ring) in
        let g : FocusManager W = record f { ring = ring; current = current } in
        let emptied : FocusManager W = record f { ring = []; current = none } in
        let valid : 0 < length ring → IsValid dec (prune_history dec g) = λ pos. record {
          sound = prune_history-IsSound dec g distinct v.sound.short;
          current_in = λ h. rw (same_prune_history dec g).0 (
              current_after-IsBelow f.current i (length ring) (rw len (v.current_in (omega arith)))
                pos);
        } in
        elim (Bool-cases (length ring == 0)) [
          | inl empty ↦
              rw (found, remove, empty)
                (notify-IsValid dec (prune_history dec emptied) (focused f) none removed (record {
                  sound = prune_history-IsSound dec emptied tt v.sound.short;
                  current_in =
                      λ h. absurd (ground (arith, ap length (same_prune_history dec emptied).0));
                }))
          | inr full ↦ elim (Bool-cases (is_current dec f.current i)) [
            | inr other ↦ rw (found, remove, full, other) (valid (ground arith))
            | inl owner ↦
                rw (found, remove, full, owner)
                  (revisit-IsValid (prune_history dec g) (focused f) (valid (ground arith))
                    (ground arith))
          ]
        ]
  ]
