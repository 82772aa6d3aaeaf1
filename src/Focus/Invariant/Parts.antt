-- ===== src/Focus/Invariant/Parts.antt =====
-- The parts of the operations keep the invariant.
use mathlib.Core.Path.{subst}
use tuicord_v.Base.{
  ℕ, suc, ◌+◌, ◌-◌, ◌≤◌, ◌<◌, ◌≡◌, refl, sym, ◌∙◌, Bool, true, ◌&&◌, not, List, [], ◌∷◌, ◌++◌,
  Option, none, some, length, take, drop, length-drop, ltb, if◌then◌else◌, arith, inl, inr,
  Bool-cases,
}
use tuicord_v.Focus.State.{
  FocusChangeReason, FocusManager, get_at, after, has, is_at, notify, record_visit, prune_from,
  prune_history, visit_at, focus_history_limit,
}
use tuicord_v.Focus.Operations.{collect}
use tuicord_v.Focus.Invariant.{
  IsCursor, member, AreDistinct, AllIn, IsSound, IsValid, has_lem, AllIn-take, AllIn-drop,
  AllIn-append_last, AreDistinct-append_last, member-get_elem?, get_elem?-lt,
}

module _ {W : Type 0} (dec : Discrete W) where
  pub notify-IsValid :
      (f : FocusManager W) (p n : Option W) (reason : FocusChangeReason)
      → IsValid dec f
      → IsValid dec (notify dec f p n reason)
  unfolding notify
  notify-IsValid f p n reason v = ground arith

  -- The history after a visit to w that follows n visits.
  abbrev visited : ℕ → List W → W → List W
  visited n history w =
      let kept = if ltb n (length history) then take n history else history in
      let grown = kept ++ w ∷ [] in
      if ltb focus_history_limit (length grown)
      then drop (length grown - focus_history_limit) grown
      else grown

  kept-AllIn :
      (ring history : List W) (n : ℕ)
      → AllIn dec ring history
      → AllIn dec ring (if ltb n (length history) then take n history else history)
  kept-AllIn ring history n h = elim (Bool-cases (ltb n (length history))) [
    | inl cut ↦ rw cut (AllIn-take dec ring n history h)
    | inr whole ↦ rw whole h
  ]

  visited-AllIn :
      (ring history : List W) (n : ℕ) (w : W)
      → AllIn dec ring history
      → member dec w ring ≡ true
      → AllIn dec ring (visited n history w)
  visited-AllIn ring history n w h m =
      let kept = if ltb n (length history) then take n history else history in
      let grown = kept ++ w ∷ [] in
      let all = AllIn-append_last dec ring kept w (kept-AllIn ring history n h) m in
      elim (Bool-cases (ltb focus_history_limit (length grown))) [
        | inl long ↦ rw long (AllIn-drop dec ring (length grown - focus_history_limit) grown all)
        | inr short ↦ rw short all
      ]

  visited-le :
      (history : List W) (n : ℕ) (w : W) → length (visited n history w) ≤ focus_history_limit
  visited-le history n w =
      let kept = if ltb n (length history) then take n history else history in
      let grown = kept ++ w ∷ [] in
      ground (arith, length-drop (length grown - focus_history_limit) grown)

  grown-IsSound :
      {cursor : Option ℕ} (ring history : List W) (n : ℕ) (w : W)
      → IsSound dec ring history cursor
      → member dec w ring ≡ true
      → IsSound dec ring (visited n history w) (some (length (visited n history w) - 1))
  grown-IsSound ring history n w s m = record {
    distinct = s.distinct;
    visits_in = visited-AllIn ring history n w s.visits_in m;
    short = visited-le history n w;
    cursor_in = omega arith;
  }

  -- The history after a visit to w.
  pub record_visit-IsSound :
      (f : FocusManager W) (w : W)
      → IsSound dec f.ring f.history f.history_index
      → member dec w f.ring ≡ true
      → IsSound dec
          (record_visit dec f w).ring
          (record_visit dec f w).history
          (record_visit dec f w).history_index
  unfolding record_visit
  record_visit-IsSound f w s m =
      elim (Bool-cases (is_at dec (get_at f.history f.history_index) w)) [
        | inl here ↦ rw here s
        | inr away ↦ rw away (grown-IsSound f.ring f.history (after f.history_index) w s m)
      ]

  pub same_record_visit :
      (f : FocusManager W) (w : W)
      → ((record_visit dec f w).ring ≡ f.ring) × ((record_visit dec f w).current ≡ f.current)
  unfolding record_visit
  same_record_visit f w = ground arith

  pub same_notify :
      (f : FocusManager W) (p n : Option W) (reason : FocusChangeReason)
      → ((notify dec f p n reason).ring ≡ f.ring)
        × ((notify dec f p n reason).current ≡ f.current)
        × ((notify dec f p n reason).history ≡ f.history)
        × ((notify dec f p n reason).history_index ≡ f.history_index)
  unfolding notify
  same_notify f p n reason = ground arith

  prune_from-AllIn :
      (ring : List W) (cursor : Option ℕ) (old next : ℕ) (i : Option ℕ) (ws : List W)
      → AllIn dec ring (prune_from dec ring cursor old next i ws).0
  unfolding prune_from
  prune_from-AllIn ring cursor old next i [] = tt
  prune_from-AllIn ring cursor old next i (w ∷ ws) = elim (Bool-cases (has dec ring w)) [
    | inl present ↦
        rw present
          (sym (has_lem dec ring w) ∙ present, prune_from-AllIn ring cursor (old + 1) _ _ ws)
    | inr absent ↦ rw absent (prune_from-AllIn ring cursor (old + 1) next i ws)
  ]

  IsCursor-up : (i : Option ℕ) (n : ℕ) → IsCursor i n → IsCursor i (n + 1)
  IsCursor-up none n h = tt
  IsCursor-up (some j) n h = omega arith

  prune_from-IsCursor :
      (ring : List W) (cursor : Option ℕ) (old next : ℕ) (i : Option ℕ) (ws : List W)
      → IsCursor i next
      → IsCursor
          (prune_from dec ring cursor old next i ws).1
          (next + length (prune_from dec ring cursor old next i ws).0)
  unfolding prune_from
  prune_from-IsCursor ring cursor old next i [] h = ground arith
  prune_from-IsCursor ring cursor old next i (w ∷ ws) h = elim (Bool-cases (has dec ring w)) [
    | inr absent ↦ rw absent (prune_from-IsCursor ring cursor (old + 1) next i ws h)
    | inl present ↦
        let i' : Option ℕ = if ltb old (after cursor) then some next else i in
        let rest = prune_from dec ring cursor (old + 1) (next + 1) i' ws in
        let rec : IsCursor rest.1 (next + 1 + length rest.0) =
          prune_from-IsCursor ring cursor (old + 1) (next + 1) i' ws
            (ground (arith, IsCursor-up i next h)) in
        let e : next + 1 + length rest.0 ≡ next + suc (length rest.0) = omega arith in
        rw present (subst (IsCursor rest.1) e rec)
  ]

  prune_from-le :
      (ring : List W) (cursor : Option ℕ) (old next : ℕ) (i : Option ℕ) (ws : List W)
      → length (prune_from dec ring cursor old next i ws).0 ≤ length ws
  unfolding prune_from
  prune_from-le ring cursor old next i [] = omega arith
  prune_from-le ring cursor old next i (w ∷ ws) = elim (Bool-cases (has dec ring w)) [
    | inl present ↦
        let i' : Option ℕ = if ltb old (after cursor) then some next else i in
        let rec = prune_from-le ring cursor (old + 1) (next + 1) i' ws in
        rw present (omega (arith, rec))
    | inr absent ↦ rw absent (omega (arith, prune_from-le ring cursor (old + 1) next i ws))
  ]

  pub collect-AreDistinct :
      (can : W → Bool) (ring ws : List W)
      → AreDistinct dec ring
      → AreDistinct dec (collect dec can ring ws)
  unfolding collect
  collect-AreDistinct can ring [] d = d
  collect-AreDistinct can ring (w ∷ ws) d = elim (Bool-cases (can w && not (has dec ring w))) [
    | inr skipped ↦ rw skipped (collect-AreDistinct can ring ws d)
    | inl added ↦ rw added (
        collect-AreDistinct can (ring ++ w ∷ []) ws
          (AreDistinct-append_last dec ring w d (ground (arith, has_lem dec ring w))))
  ]

  -- After a change of the ring, pruning makes the history sound again.
  pub prune_history-IsSound :
      (f : FocusManager W)
      → AreDistinct dec f.ring
      → length f.history ≤ focus_history_limit
      → IsSound dec
          (prune_history dec f).ring
          (prune_history dec f).history
          (prune_history dec f).history_index
  unfolding prune_history
  prune_history-IsSound f d h = record {
    distinct = d;
    visits_in = prune_from-AllIn f.ring f.history_index 0 0 none f.history;
    short = omega (arith, prune_from-le f.ring f.history_index 0 0 none f.history);
    cursor_in =
        let pruned = prune_from dec f.ring f.history_index 0 0 none f.history in
        let e : 0 + length pruned.0 ≡ length pruned.0 = omega arith in
        subst (IsCursor pruned.1) e
          (prune_from-IsCursor f.ring f.history_index 0 0 none f.history tt);
  }

  pub visit_at-IsValid :
      (f : FocusManager W) (prev : Option W) (i : ℕ) (reason : FocusChangeReason)
      → IsSound dec f.ring f.history f.history_index
      → i < length f.ring
      → IsValid dec (visit_at dec f prev i reason)
  unfolding visit_at
  visit_at-IsValid f prev i reason s h =
      let (w, found) = get_elem?-lt dec f.ring i h in
      let g : FocusManager W = record f { current = some i } in
      let same = same_record_visit g w in
      rw (found, visit_at)
        (notify-IsValid (record_visit dec g w) prev (some w) reason (record {
          sound = record_visit-IsSound g w s (member-get_elem? dec f.ring i found);
          current_in = λ some_widget. rw (same.0, same.1) h;
        }))

  pub same_prune_history :
      (f : FocusManager W)
      → ((prune_history dec f).ring ≡ f.ring) × ((prune_history dec f).current ≡ f.current)
  unfolding prune_history
  same_prune_history f = (refl, refl)
