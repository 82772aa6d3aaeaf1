-- ===== src/Focus/Visits.antt =====
-- Back and Forward after the focus has been set.
use tuicord_v.Base.{
  ℕ, zero, suc, ◌+◌, ◌<◌, ◌≡◌, ◌≢◌, refl, sym, ap, ◌∙◌, Bool, true, false, List, [], ◌∷◌, some,
  length, get_elem?, drop, ◌==◌, arith, Option-cases, inl, inr,
}
use tuicord_v.Focus.Visited.{lt-length, get_elem?-index, record_visit-last}
use tuicord_v.Focus.State.{
  FocusManager, FocusChangeReason, history, get_at, after, focused, index, record_visit, visit_at,
}
use tuicord_v.Focus.Operations.{set, target, back_from, forward_from, back, forward, below}
use tuicord_v.Focus.Invariant.{IsValid, AllIn, has_lem}
use tuicord_v.Focus.Invariant.Parts.{same_notify, same_record_visit}

module _ {W : Type 0} (dec : Discrete W) where
  AllIn-get_elem? :
      (ring ws : List W) (i : ℕ) {w : W}
      → AllIn dec ring ws
      → get_elem? ws i ≡ some w
      → (j : ℕ) × (index dec ring w ≡ some j)
  AllIn-get_elem? ring [] i h e = absurd (ground arith)
  AllIn-get_elem? ring (x ∷ ws) zero {w} h e = elim (Option-cases (index dec ring w)) [
    | inr found ↦ found
    | inl absent ↦ absurd (ground (arith, has_lem dec ring w, absent, h.0))
  ]
  AllIn-get_elem? ring (x ∷ ws) (suc i) h e = AllIn-get_elem? ring ws i h.1 e

  drop-get_elem? :
      (ws : List W) (i : ℕ) {w : W} → get_elem? ws i ≡ some w → drop i ws ≡ w ∷ drop (suc i) ws
  drop-get_elem? [] i h = ground arith
  drop-get_elem? (x ∷ ws) zero h = ground arith
  drop-get_elem? (x ∷ ws) (suc i) h = drop-get_elem? ws i h

  module _ (can : W → Bool) where
    target_lem :
        (ring : List W) (w : W) (j : ℕ)
        → index dec ring w ≡ some j
        → can w ≡ true
        → target dec can ring (some w) ≡ some j
    target_lem ring w j at focusable =
        ground (arith, at, focusable, get_elem?-index dec ring w j at)

    not_empty :
        (ring : List W) (w : W) (j : ℕ) → index dec ring w ≡ some j → length ring == 0 ≡ false
    not_empty [] w j h = ground arith
    not_empty (x ∷ ring) w j h = ground arith

    back_from_lem :
        (ring visits : List W) (n j : ℕ)
        → target dec can ring (get_elem? visits n) ≡ some j
        → back_from dec can ring visits (suc n) ≡ some (n, j)
    unfolding back_from
    back_from_lem ring visits n j h = rw (h, back_from) refl

    forward_from_lem :
        (ring ws : List W) (w : W) (n j : ℕ)
        → target dec can ring (some w) ≡ some j
        → forward_from dec can ring n (w ∷ ws) ≡ some (n, j)
    unfolding forward_from
    forward_from_lem ring ws w n j h = rw (h, forward_from) refl

    -- Back from the last of two visits, and Forward from the first.
    back_lem :
        (f : FocusManager W) (v : W) (n j : ℕ)
        → f.history_index ≡ some (suc n)
        → get_elem? f.history n ≡ some v
        → index dec f.ring v ≡ some j
        → can v ≡ true
        → ((back dec can f).0.ring ≡ f.ring)
          × ((back dec can f).0.current ≡ some j)
          × ((back dec can f).0.history ≡ f.history)
          × ((back dec can f).0.history_index ≡ some n)
    unfolding back
    back_lem f v n j cursor visit at focusable =
        let h : length f.ring == 0 ≡ false = not_empty f.ring v j at in
        let found : back_from dec can f.ring f.history (below f.history_index) ≡ some (n, j) =
          ap (λ o. back_from dec can f.ring f.history (below o)) cursor
          ∙ back_from_lem f.ring f.history n j
              (ap (target dec can f.ring) visit ∙ target_lem f.ring v j at focusable) in
        let g : FocusManager W = record f { current = some j; history_index = some n } in
        rw (h, found) (same_notify dec g (focused f) (get_elem? f.ring j) history)

    forward_lem :
        (f : FocusManager W) (w : W) (n j : ℕ)
        → f.history_index ≡ some n
        → get_elem? f.history (suc n) ≡ some w
        → index dec f.ring w ≡ some j
        → can w ≡ true
        → ((forward dec can f).0.ring ≡ f.ring) × ((forward dec can f).0.current ≡ some j)
    unfolding forward
    forward_lem f w n j cursor visit at focusable =
        let h : length f.ring == 0 ≡ false = not_empty f.ring w j at in
        let visit' : get_elem? f.history (n + 1) ≡ some w =
          ap (get_elem? f.history) (omega arith) ∙ visit in
        let found : forward_from dec can f.ring (after f.history_index)
              (drop (after f.history_index) f.history)
            ≡ some (n + 1, j) =
          ap (λ o. forward_from dec can f.ring (after o) (drop (after o) f.history)) cursor
          ∙ ap (forward_from dec can f.ring (n + 1)) (drop-get_elem? f.history (n + 1) visit')
          ∙ forward_from_lem f.ring _ w (n + 1) j (target_lem f.ring w j at focusable) in
        let g : FocusManager W = record f { current = some j; history_index = some (n + 1) } in
        let same = same_notify dec g (focused f) (get_elem? f.ring j) history in
        rw (h, found) (same.0, same.1)

    owner :
        (f : FocusManager W) (i : ℕ) (w : W)
        → f.current ≡ some i
        → index dec f.ring w ≡ some i
        → focused f ≡ some w
    unfolding focused
    owner f i w at found = ap (get_at f.ring) at ∙ get_elem?-index dec f.ring w i found

    set_lem :
        (f : FocusManager W) (w : W) (b : ℕ) (reason : FocusChangeReason)
        → index dec f.ring w ≡ some b
        → can w ≡ true
        → let g = (set dec can f w reason).0 in
          let visited = record_visit dec (record f { current = some b }) w in
          (g.ring ≡ f.ring)
          × (g.current ≡ some b)
          × (g.history ≡ visited.history)
          × (g.history_index ≡ visited.history_index)
    unfolding set visit_at
    set_lem f w b reason at can_w =
        let found = get_elem?-index dec f.ring w b at in
        let visited = record_visit dec (record f { current = some b }) w in
        let same = same_notify dec visited (focused f) (some w) reason in
        let kept = same_record_visit dec (record f { current = some b }) w in
        ground (arith, at, can_w, found, same, kept)

    -- On a well-formed manager whose history stands at a visit to v, when v and another widget w of
    -- the ring can have the focus: after w has been given the focus, Back gives it to v, and Forward
    -- after that to w.
    pub back-set :
        (f : FocusManager W) (v w : W) (b : ℕ) (reason : FocusChangeReason)
        → IsValid dec f
        → get_at f.history f.history_index ≡ some v
        → v ≢ w
        → index dec f.ring w ≡ some b
        → can v ≡ true
        → can w ≡ true
        → let g = (set dec can f w reason).0 in
          (focused g ≡ some w)
          × (focused (back dec can g).0 ≡ some v)
          × (focused (forward dec can (back dec can g).0).0 ≡ some w)
    unfolding focused
    back-set f v w b reason valid cursor ne at can_v can_w = elim (Option-cases f.history_index) [
      | inl lost ↦ absurd (ground arith)
      | inr (k, stands) ↦
          let here : get_elem? f.history k ≡ some v = sym (ap (get_at f.history) stands) ∙ cursor in
          let inside : k < length f.history = lt-length f.history k here in
          let f' : FocusManager W = record f { current = some b } in
          let (n, cursor', len, at_v, at_w) =
            record_visit-last dec f' v w k ne stands here inside valid.sound.short in
          let (a, at_a) = AllIn-get_elem? f.ring f.history k valid.sound.visits_in here in
          let g = (set dec can f w reason).0 in
          let s = set_lem f w b reason at can_w in
          let ring_v : index dec g.ring v ≡ some a =
            ap (λ (r : List W). index dec r v) s.0 ∙ at_a in
          let back_at =
            back_lem g v n a (s.3 ∙ cursor') (ap (λ (h : List W). get_elem? h n) s.2 ∙ at_v) ring_v
              can_v in
          let h = (back dec can g).0 in
          let ring_w : index dec h.ring w ≡ some b =
            ap (λ (r : List W). index dec r w) (back_at.0 ∙ s.0) ∙ at in
          let forward_at =
            forward_lem h w n b back_at.3
              (ap (λ (h : List W). get_elem? h (suc n)) (back_at.2 ∙ s.2) ∙ at_w) ring_w can_w in
          (
            owner g b w s.1 (ap (λ (r : List W). index dec r w) s.0 ∙ at),
            owner h a v back_at.1 (ap (λ (r : List W). index dec r v) (back_at.0 ∙ s.0) ∙ at_a),
            owner (forward dec can h).0 b w forward_at.1
                (ap (λ (r : List W). index dec r w) (forward_at.0 ∙ back_at.0 ∙ s.0) ∙ at),
          )
    ]
