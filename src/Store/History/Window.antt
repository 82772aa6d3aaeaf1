-- ===== src/Store/History/Window.antt =====
-- The window that `PrependMessagesSince` keeps: its size, what it protects, and its oldest edge.
use mathlib.Core.List.{Sublist}
use mathlib.Core.List.Sublist
use mathlib.Core.Path.{subst}
use native.Mathlib.Decide.{dec_lt}
use tuicord_v.Base.{
  ℕ, zero, suc, ◌+◌, ◌-◌, ◌≤◌, ◌<◌, ◌≡◌, refl, sym, ap, ◌∙◌, Bool, true, false, List, [], ◌∷◌,
  length, ltb, leb, if◌then◌else◌, map, filter, arith, Bool-cases, inl, inr, keep_last, drop,
  drop-nil, length-drop, keep_last_all,
}
use tuicord_v.Store.History.Page.{
  count, newest_protected, Marked, mark_protected, mark_recent, mark_oldest, marked_messages,
  recent_budget, window,
}
use tuicord_v.Store.Message.{Message}

-- The number of messages that are marked.
abbrev marks : List Marked → ℕ
marks [] = 0
marks ((keep, m) ∷ ms) = (if keep then 1 else 0) + marks ms

abbrev unmarked : List Marked → List Message
unmarked ms = map (λ e. e.1) ms

length-marked_messages : (ms : List Marked) → length (marked_messages ms) ≡ marks ms
unfolding marked_messages
length-marked_messages [] = refl
length-marked_messages ((true, m) ∷ ms) = omega (arith, length-marked_messages ms)
length-marked_messages ((false, m) ∷ ms) = omega (arith, length-marked_messages ms)

marked_messages-sublist : (ms : List Marked) → Sublist (marked_messages ms) (unmarked ms)
unfolding marked_messages
marked_messages-sublist [] = Sublist.refl []
marked_messages-sublist ((true, m) ∷ ms) = Sublist.cons-cons m (marked_messages-sublist ms)
marked_messages-sublist ((false, m) ∷ ms) = Sublist.cons m (marked_messages-sublist ms)

marks-mark_protected :
    (p : Message → Bool) (ms : List Message) → marks (mark_protected p ms) ≡ count p ms
unfolding mark_protected count
marks-mark_protected p [] = refl
marks-mark_protected p (m ∷ ms) =
    ap (λ (n : ℕ). (if p m then 1 else 0) + n) (marks-mark_protected p ms)

unmarked-mark_protected :
    (p : Message → Bool) (ms : List Message) → unmarked (mark_protected p ms) ≡ ms
unfolding mark_protected
unmarked-mark_protected p [] = refl
unmarked-mark_protected p (m ∷ ms) = ap (◌∷◌ m) (unmarked-mark_protected p ms)

-- What is marked is paid from the budget.
marks-mark_recent :
    (b : ℕ) (ms : List Marked) → marks (mark_recent b ms).1 + (mark_recent b ms).0 ≡ marks ms + b
unfolding mark_recent
marks-mark_recent b [] = omega arith
marks-mark_recent b ((true, m) ∷ ms) = omega (arith, marks-mark_recent b ms)
marks-mark_recent b ((false, m) ∷ ms) = ground (arith, marks-mark_recent b ms)

unmarked-mark_recent : (b : ℕ) (ms : List Marked) → unmarked (mark_recent b ms).1 ≡ unmarked ms
unfolding mark_recent
unmarked-mark_recent b [] = refl
unmarked-mark_recent b ((true, m) ∷ ms) = ap (◌∷◌ m) (unmarked-mark_recent b ms)
unmarked-mark_recent b ((false, m) ∷ ms) = elim (Bool-cases (ltb 0 (mark_recent b ms).0)) [
  | inl room ↦ rw room (ap (◌∷◌ m) (unmarked-mark_recent b ms))
  | inr full ↦ rw full (ap (◌∷◌ m) (unmarked-mark_recent b ms))
]

marks-mark_oldest : (room : ℕ) (ms : List Marked) → marks (mark_oldest room ms) ≤ marks ms + room
unfolding mark_oldest
marks-mark_oldest room [] = omega arith
marks-mark_oldest room ((true, m) ∷ ms) = omega (arith, marks-mark_oldest room ms)
marks-mark_oldest room ((false, m) ∷ ms) =
    ground (arith, marks-mark_oldest room ms, marks-mark_oldest (room - 1) ms)

unmarked-mark_oldest : (ms : List Marked) (room : ℕ) → unmarked (mark_oldest room ms) ≡ unmarked ms
unfolding mark_oldest
unmarked-mark_oldest [] room = refl
unmarked-mark_oldest ((keep, m) ∷ ms) room = ap (◌∷◌ m) (unmarked-mark_oldest ms _)

-- Every message that passes a test is marked.
abbrev Covers : (Message → Bool) → List Marked → Type 0
Covers p [] = Unit {0}
Covers p ((keep, m) ∷ ms) = (p m ≡ true → keep ≡ true) × Covers p ms

mark_protected-Covers : (p : Message → Bool) (ms : List Message) → Covers p (mark_protected p ms)
unfolding mark_protected
mark_protected-Covers p [] = tt
mark_protected-Covers p (m ∷ ms) = (λ h. h, mark_protected-Covers p ms)

mark_recent-Covers :
    (p : Message → Bool) (b : ℕ) (ms : List Marked) → Covers p ms → Covers p (mark_recent b ms).1
unfolding mark_recent
mark_recent-Covers p b [] c = tt
mark_recent-Covers p b ((true, m) ∷ ms) c = (λ h. refl, mark_recent-Covers p b ms c.1)
mark_recent-Covers p b ((false, m) ∷ ms) c = elim (Bool-cases (ltb 0 (mark_recent b ms).0)) [
  | inl room ↦ rw room (λ h. refl, mark_recent-Covers p b ms c.1)
  | inr full ↦ rw full (c.0, mark_recent-Covers p b ms c.1)
]

mark_oldest-Covers :
    (p : Message → Bool) (ms : List Marked) (room : ℕ)
    → Covers p ms
    → Covers p (mark_oldest room ms)
unfolding mark_oldest
mark_oldest-Covers p [] room c = tt
mark_oldest-Covers p ((keep, m) ∷ ms) room c =
    (λ h. ground (arith, c.0 h), mark_oldest-Covers p ms _ c.1)

filter-marked_messages :
    (p : Message → Bool) (ms : List Marked)
    → Covers p ms
    → filter p (marked_messages ms) ≡ filter p (unmarked ms)
unfolding marked_messages
filter-marked_messages p [] c = refl
filter-marked_messages p ((true, m) ∷ ms) c =
    ap (λ (r : List Message). if p m then m ∷ r else r) (filter-marked_messages p ms c.1)
filter-marked_messages p ((false, m) ∷ ms) c = elim (Bool-cases (p m)) [
  | inl hit ↦ absurd (ground (arith, c.0 hit))
  | inr miss ↦ rw miss (filter-marked_messages p ms c.1)
]

-- The exceptional case.
length-filter : (p : Message → Bool) (ms : List Message) → length (filter p ms) ≡ count p ms
unfolding count
length-filter p [] = refl
length-filter p (m ∷ ms) = ground (arith, length-filter p ms)

newest_protected_lem :
    (p : Message → Bool) (skip : ℕ) (ms : List Message)
    → newest_protected p skip ms ≡ drop skip (filter p ms)
unfolding newest_protected
newest_protected_lem p zero [] = refl
newest_protected_lem p (suc skip) [] = refl
newest_protected_lem p zero (m ∷ ms) = ground (arith, newest_protected_lem p 0 ms)
newest_protected_lem p (suc skip) (m ∷ ms) =
    ground (arith, newest_protected_lem p skip ms, newest_protected_lem p (suc skip) ms)

filter-drop-filter :
    (p : Message → Bool) (k : ℕ) (ms : List Message)
    → filter p (drop k (filter p ms)) ≡ drop k (filter p ms)
filter-drop-filter p k [] = ap (filter p) (drop-nil k) ∙ sym (drop-nil k)
filter-drop-filter p zero (m ∷ ms) = elim (Bool-cases (p m)) [
  | inl hit ↦ rw hit (rw hit (ap (◌∷◌ m) (filter-drop-filter p zero ms)))
  | inr miss ↦ rw miss (filter-drop-filter p zero ms)
]
filter-drop-filter p (suc k) (m ∷ ms) = elim (Bool-cases (p m)) [
  | inl hit ↦ rw hit (filter-drop-filter p k ms)
  | inr miss ↦ rw miss (filter-drop-filter p (suc k) ms)
]

-- A message at the head that there is room for is kept.
mark_oldest_head :
    (room : ℕ) (keep : Bool) (m : Message) (ms : List Marked)
    → 0 < room
    → (rest : List Message) × (marked_messages (mark_oldest room ((keep, m) ∷ ms)) ≡ m ∷ rest)
unfolding mark_oldest marked_messages
mark_oldest_head room true m ms h = (marked_messages (mark_oldest room ms), refl)
mark_oldest_head room false m ms h =
    let ok : ltb 0 room ≡ true = ground arith in
    rw ok (marked_messages (mark_oldest (room - 1) ms), refl)

mark_recent_head :
    (b : ℕ) (keep : Bool) (m : Message) (ms : List Marked)
    → (k : Bool) × (rest : List Marked) × ((mark_recent b ((keep, m) ∷ ms)).1 ≡ (k, m) ∷ rest)
unfolding mark_recent
mark_recent_head b true m ms = (true, (mark_recent b ms).1, refl)
mark_recent_head b false m ms = elim (Bool-cases (ltb 0 (mark_recent b ms).0)) [
  | inl room ↦ (true, (mark_recent b ms).1, rw room refl)
  | inr full ↦ (false, (mark_recent b ms).1, rw full refl)
]

mark_protected_cons :
    (p : Message → Bool) (m : Message) (ms : List Message)
    → mark_protected p (m ∷ ms) ≡ (p m, m) ∷ mark_protected p ms
unfolding mark_protected
mark_protected_cons p m ms = refl

count-marked_messages :
    (q : Message → Bool) (ms : List Marked) → count q (marked_messages ms) ≤ count q (unmarked ms)
unfolding count marked_messages
count-marked_messages q [] = omega arith
count-marked_messages q ((true, m) ∷ ms) = omega (arith, count-marked_messages q ms)
count-marked_messages q ((false, m) ∷ ms) = omega (arith, count-marked_messages q ms)

count-drop : (q : Message → Bool) (k : ℕ) (ms : List Message) → count q (drop k ms) ≤ count q ms
unfolding count
count-drop q zero ms = omega arith
count-drop q (suc k) [] = omega arith
count-drop q (suc k) (m ∷ ms) = omega (arith, count-drop q k ms)

count-filter : (q p : Message → Bool) (ms : List Message) → count q (filter p ms) ≤ count q ms
unfolding count
count-filter q p [] = omega arith
count-filter q p (m ∷ ms) = ground (arith, count-filter q p ms)

drop-sublist : (k : ℕ) (ms : List Message) → Sublist (drop k ms) ms
drop-sublist zero ms = Sublist.refl ms
drop-sublist (suc k) [] = Sublist.refl []
drop-sublist (suc k) (m ∷ ms) = Sublist.cons m (drop-sublist k ms)

filter-sublist : (p : Message → Bool) (ms : List Message) → Sublist (filter p ms) ms
filter-sublist p [] = Sublist.refl []
filter-sublist p (m ∷ ms) = elim (Bool-cases (p m)) [
  | inl hit ↦ rw hit (Sublist.cons-cons m (filter-sublist p ms))
  | inr miss ↦ rw miss (Sublist.cons m (filter-sublist p ms))
]

module _ (limit : ℕ) (p : Message → Bool) where
  abbrev budget_of : List Message → ℕ
  budget_of ms = recent_budget limit (count p ms)

  abbrev recent : List Message → ℕ × List Marked
  recent ms = mark_recent (budget_of ms) (mark_protected p ms)

  abbrev room_of : List Message → ℕ
  room_of ms = limit - (count p ms + (budget_of ms - (recent ms).0))

  abbrev filled : List Message → List Marked
  filled ms = mark_oldest (room_of ms) (recent ms).1

  window-full :
      (ms : List Message) → limit ≤ count p ms → window limit p ms ≡ keep_last limit (filter p ms)
  unfolding window
  window-full ms h =
      let full : leb limit (count p ms) ≡ true = ground arith in
      rw full (
        newest_protected_lem p (count p ms - limit) ms
        ∙ ap (λ (n : ℕ). drop (n - limit) (filter p ms)) (sym (length-filter p ms)))

  window-filled :
      (ms : List Message) → count p ms < limit → window limit p ms ≡ marked_messages (filled ms)
  unfolding window
  window-filled ms h = let room : leb limit (count p ms) ≡ false = ground arith in rw room refl

  budget-le : (ms : List Message) → count p ms < limit → count p ms + budget_of ms < limit
  unfolding recent_budget
  budget-le ms h = omega arith

  unmarked-filled : (ms : List Message) → unmarked (filled ms) ≡ ms
  unmarked-filled ms =
      unmarked-mark_oldest (recent ms).1 (room_of ms)
      ∙ unmarked-mark_recent (budget_of ms) (mark_protected p ms)
      ∙ unmarked-mark_protected p ms

  filled-Covers : (ms : List Message) → Covers p (filled ms)
  filled-Covers ms =
      mark_oldest-Covers p (recent ms).1 (room_of ms)
        (mark_recent-Covers p (budget_of ms) (mark_protected p ms) (mark_protected-Covers p ms))

  -- The window is within the limit.
  pub length-window-le : (ms : List Message) → length (window limit p ms) ≤ limit
  length-window-le ms = elim (dec_lt (count p ms) limit) [
    | yes few ↦ rw (window-filled ms few) (
        omega (
          arith,
          length-marked_messages (filled ms),
          marks-mark_oldest (room_of ms) (recent ms).1,
          marks-mark_recent (budget_of ms) (mark_protected p ms),
          marks-mark_protected p ms,
          budget-le ms few,
        ))
    | no many ↦
        rw (window-full ms (omega arith))
          (omega (arith, length-drop (length (filter p ms) - limit) (filter p ms)))
  ]

  -- The protected messages of the window are the newest of all protected ones, as many as fit.
  pub filter-window :
      (ms : List Message) → filter p (window limit p ms) ≡ keep_last limit (filter p ms)
  filter-window ms = elim (dec_lt (count p ms) limit) [
    | yes few ↦ rw (window-filled ms few) (
        filter-marked_messages p (filled ms) (filled-Covers ms)
        ∙ ap (filter p) (unmarked-filled ms)
        ∙ sym (keep_last_all limit (filter p ms) (omega (arith, length-filter p ms))))
    | no many ↦
        rw (window-full ms (omega arith)) (filter-drop-filter p (length (filter p ms) - limit) ms)
  ]

  -- With fewer protected messages than the limit, the oldest message of all is in the window.
  pub window_head :
      (m : Message) (ms : List Message)
      → count p (m ∷ ms) < limit
      → (rest : List Message) × (window limit p (m ∷ ms) ≡ m ∷ rest)
  window_head m ms few =
      let (k, marked, e) = mark_recent_head (budget_of (m ∷ ms)) (p m) m (mark_protected p ms) in
      let (rest, f) =
        mark_oldest_head (room_of (m ∷ ms)) k m marked (omega (arith, budget-le (m ∷ ms) few)) in
      (
        rest,
        window-filled (m ∷ ms) few
            ∙ ap (λ (r : List Marked). marked_messages (mark_oldest (room_of (m ∷ ms)) r))
                (ap (λ (r : List Marked). (mark_recent (budget_of (m ∷ ms)) r).1)
                    (mark_protected_cons p m ms)
                  ∙ e)
            ∙ f,
      )

  -- What passes any test is no more than before.
  pub count-window-le :
      (q : Message → Bool) (ms : List Message) → count q (window limit p ms) ≤ count q ms
  count-window-le q ms = elim (dec_lt (count p ms) limit) [
    | yes few ↦ rw (window-filled ms few) (
        subst (λ (all : List Message). count q (marked_messages (filled ms)) ≤ count q all)
          (unmarked-filled ms) (count-marked_messages q (filled ms)))
    | no many ↦ rw (window-full ms (omega arith)) (
        omega
          (arith, count-drop q (length (filter p ms) - limit) (filter p ms), count-filter q p ms))
  ]

  -- The window is made of messages of the list in their order.
  pub window-sublist : (ms : List Message) → Sublist (window limit p ms) ms
  window-sublist ms = elim (dec_lt (count p ms) limit) [
    | yes few ↦ rw (window-filled ms few) (
        subst (λ (all : List Message). Sublist (marked_messages (filled ms)) all)
          (unmarked-filled ms) (marked_messages-sublist (filled ms)))
    | no many ↦ rw (window-full ms (omega arith)) (
        Sublist.trans (drop-sublist (length (filter p ms) - limit) (filter p ms))
          (filter-sublist p ms))
  ]
