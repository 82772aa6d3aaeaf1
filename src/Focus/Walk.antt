-- ===== src/Focus/Walk.antt =====
-- Where Next and Prev move the focus.
use mathlib.Core.Path.{subst}
use native.Mathlib.Decide.{dec_lt}
use native.Mathlib.Nat.{mod-eq_of_lt, mod-eq-sub-mod}
use tuicord_v.Base.{
  ℕ, zero, suc, ◌+◌, ◌-◌, ◌≤◌, ◌<◌, ◌≡◌, refl, sym, ap, ◌∙◌, Bool, true, false, List, Option, none,
  some, length, get_elem?, ◌==◌, if◌then◌else◌, arith, inl, inr, ◌⊎◌, Bool-cases,
}
use tuicord_v.Focus.State.{
  FocusChangeReason, traversal, FocusManager, get_at, focused, record_visit, visit_at,
}
use tuicord_v.Focus.Operations.{step_index, can_at, step_from, arrive, step, next, prev}
use tuicord_v.Focus.Invariant.{get_elem?-lt}
use tuicord_v.Focus.Invariant.Parts.{same_record_visit, same_notify}
use tuicord_v.Focus.Invariant.Operations.{can_at-lt}

step_index_ahead :
    (c len : ℕ) → c < len → step_index true c 1 len ≡ (if c + 1 == len then 0 else c + 1)
unfolding step_index
step_index_ahead c len h = elim (dec_lt (c + 1) len) [
  | yes inside ↦ ground (arith, mod-eq_of_lt inside)
  | no last ↦ ground (
    arith,
    mod-eq-sub-mod {n = c + 1} {m = len} (omega arith),
    mod-eq_of_lt {n = c + 1 - len} {m = len} (omega arith),
  )
]

step_index_behind :
    (c len : ℕ) → c < len → step_index false c 1 len ≡ (if c == 0 then len - 1 else c - 1)
unfolding step_index
step_index_behind zero len h = elim (dec_lt 1 len) [
  | yes many ↦ ground (arith, mod-eq_of_lt many)
  | no one ↦ let e : len ≡ 1 = omega arith in rw e refl
]
step_index_behind (suc c) len h =
    ground (arith, mod-eq_of_lt {n = suc c - 1} {m = len} (omega arith))

-- A step forward and one back, and the other way round.
pub step_index-step_index :
    (c len : ℕ)
    → c < len
    → (step_index false (step_index true c 1 len) 1 len ≡ c)
      × (step_index true (step_index false c 1 len) 1 len ≡ c)
step_index-step_index c len h = ground (
  arith,
  step_index_ahead c len h,
  step_index_behind c len h,
  step_index_behind (if c + 1 == len then 0 else c + 1) len (ground arith),
  step_index_ahead (if c == 0 then len - 1 else c - 1) len (ground arith),
)

module _ {W : Type 0} (dec : Discrete W) where
  pub visit_at-focus :
      (f : FocusManager W) (p : Option W) (i : ℕ) (reason : FocusChangeReason)
      → i < length f.ring
      → ((visit_at dec f p i reason).ring ≡ f.ring) × ((visit_at dec f p i reason).current ≡ some i)
  unfolding visit_at
  visit_at-focus f p i reason h =
      let (w, found) = get_elem?-lt dec f.ring i h in
      ground (
        arith,
        found,
        same_notify dec (record_visit dec (record f { current = some i }) w) p (some w) reason,
        same_record_visit dec (record f { current = some i }) w,
      )

  module _ (can : W → Bool) where
    skip :
        (ring : List W) (ahead : Bool) (c n k : ℕ)
        → can_at dec can ring (step_index ahead c n (length ring)) ≡ false
        → ((m : ℕ)
            → n + 1 ≤ m
            → m < k
            → can_at dec can ring (step_index ahead c m (length ring)) ≡ false)
        → (m : ℕ) → n ≤ m
        → m < k
        → can_at dec can ring (step_index ahead c m (length ring)) ≡ false
    skip ring ahead c n k miss later m l h = elim (dec_lt n m) [
      | yes after ↦ later m (omega arith) h
      | no not_after ↦
          let e : n ≡ m = omega arith in
          subst (λ j. can_at dec can ring (step_index ahead c j (length ring)) ≡ false) e miss
    ]

    step_from-cases :
        (ring : List W) (ahead : Bool) (c n rounds : ℕ)
        → ((k : ℕ) × (n ≤ k)
            × (k < n + rounds)
            × (step_from dec can ring ahead c n rounds ≡ some (step_index ahead c k (length ring)))
            × (can_at dec can ring (step_index ahead c k (length ring)) ≡ true)
            × ((m : ℕ)
                → n ≤ m
                → m < k
                → can_at dec can ring (step_index ahead c m (length ring)) ≡ false))
          ⊎ ((step_from dec can ring ahead c n rounds ≡ none)
              × ((m : ℕ)
                  → n ≤ m
                  → m < n + rounds
                  → can_at dec can ring (step_index ahead c m (length ring)) ≡ false))
    unfolding step_from
    step_from-cases ring ahead c n zero = inr (refl, λ m l h. absurd (omega arith))
    step_from-cases ring ahead c n (suc rounds) =
        elim (Bool-cases (can_at dec can ring (step_index ahead c n (length ring)))) [
          | inl hit ↦
              inl (n, omega arith, omega arith, rw hit refl, hit, λ m l h. absurd (omega arith))
          | inr miss ↦ elim (step_from-cases ring ahead c (n + 1) rounds) [
            | inl (k, l, h, e, at, before) ↦
                inl (k, omega arith, omega arith, rw miss e, at, skip ring ahead c n k miss before)
            | inr (e, all) ↦ inr (
              rw miss e,
              skip ring ahead c n (n + suc rounds) miss (λ m l h. all m l (omega arith)),
            )
          ]
        ]

    step_lem :
        (f : FocusManager W) (ahead : Bool) (reason : FocusChangeReason) {c : ℕ}
        → f.current ≡ some c
        → c < length f.ring
        → step dec can f ahead reason
          ≡ arrive dec can f (step_from dec can f.ring ahead c 1 (length f.ring)) reason
    unfolding step
    step_lem f ahead reason at h = ground arith

    -- The place of the n-th widget after the current one, in a direction.
    abbrev pub ahead_of : FocusManager W → Bool → ℕ → ℕ → ℕ
    ahead_of f ahead c n = step_index ahead c n (length f.ring)

    -- With the focus at the place c of the ring, a step in either direction goes to the first of the
    -- widgets from the next one round to the current one that can have the focus, and returns it;
    -- when there is none, it returns nil and changes nothing.
    pub step-nearest :
        (f : FocusManager W) (ahead : Bool) (reason : FocusChangeReason) (c : ℕ)
        → f.current ≡ some c
        → c < length f.ring
        → ((n : ℕ) × (1 ≤ n)
            × (n ≤ length f.ring)
            × (can_at dec can f.ring (ahead_of f ahead c n) ≡ true)
            × ((m : ℕ) → 1 ≤ m → m < n → can_at dec can f.ring (ahead_of f ahead c m) ≡ false)
            × (focused (step dec can f ahead reason).0 ≡ get_elem? f.ring (ahead_of f ahead c n))
            × ((step dec can f ahead reason).1 ≡ get_elem? f.ring (ahead_of f ahead c n)))
          ⊎ (((m : ℕ)
                → 1 ≤ m
                → m ≤ length f.ring
                → can_at dec can f.ring (ahead_of f ahead c m) ≡ false)
              × (step dec can f ahead reason ≡ (f, none)))
    unfolding focused
    step-nearest f ahead reason c at h = elim (step_from-cases f.ring ahead c 1 (length f.ring)) [
      | inr (e, all) ↦
          inr (λ m l k. all m l (omega arith), rw (step_lem f ahead reason at h, e) refl)
      | inl (n, l, k, e, hit, before) ↦
          let i = ahead_of f ahead c n in
          let moved = visit_at-focus f (focused f) i reason (can_at-lt dec can f.ring i hit) in
          let arrived : step dec can f ahead reason
              ≡ (visit_at dec f (focused f) i reason, get_elem? f.ring i) =
            step_lem f ahead reason at h ∙ ap (λ o. arrive dec can f o reason) e in
          inl (n, l, omega arith, hit, before, rw (arrived, moved.0, moved.1) refl, rw arrived refl)
    ]

    step_from_first :
        (ring : List W) (ahead : Bool) (c rounds : ℕ)
        → 0 < rounds
        → can_at dec can ring (step_index ahead c 1 (length ring)) ≡ true
        → step_from dec can ring ahead c 1 rounds ≡ some (step_index ahead c 1 (length ring))
    unfolding step_from
    step_from_first ring ahead c zero h hit = absurd (omega arith)
    step_from_first ring ahead c (suc rounds) h hit = rw hit refl

    -- Every widget of a ring can have the focus.
    abbrev pub AllCan : List W → Type 0
    AllCan ring = (i : ℕ) → i < length ring → can_at dec can ring i ≡ true

    step_index-lt : (ahead : Bool) (c len : ℕ) → c < len → step_index ahead c 1 len < len
    step_index-lt true c len h = ground (arith, step_index_ahead c len h)
    step_index-lt false c len h = ground (arith, step_index_behind c len h)

    step_all :
        (f : FocusManager W) (ahead : Bool) (reason : FocusChangeReason) (c : ℕ)
        → AllCan f.ring
        → f.current ≡ some c
        → c < length f.ring
        → ((step dec can f ahead reason).0.ring ≡ f.ring)
          × ((step dec can f ahead reason).0.current ≡ some (ahead_of f ahead c 1))
    step_all f ahead reason c all at h =
        let i = ahead_of f ahead c 1 in
        let range : i < length f.ring = step_index-lt ahead c (length f.ring) h in
        let moved = visit_at-focus f (focused f) i reason range in
        let arrived : step dec can f ahead reason
            ≡ (visit_at dec f (focused f) i reason, get_elem? f.ring i) =
          step_lem f ahead reason at h
          ∙ ap (λ o. arrive dec can f o reason)
              (step_from_first f.ring ahead c (length f.ring) (omega arith) (all i range)) in
        rw arrived moved

    walk_home :
        (f : FocusManager W) (ahead : Bool) (c : ℕ)
        → AllCan f.ring
        → f.current ≡ some c
        → c < length f.ring
        → (back_way : Bool) → step_index back_way (ahead_of f ahead c 1) 1 (length f.ring) ≡ c
        → focused (step dec can (step dec can f ahead traversal).0 back_way traversal).0 ≡ focused f
    unfolding focused
    walk_home f ahead c all at h back_way home =
        let g = (step dec can f ahead traversal).0 in
        let i = ahead_of f ahead c 1 in
        let first = step_all f ahead traversal c all at h in
        let range : i < length g.ring = rw first.0 (step_index-lt ahead c (length f.ring) h) in
        let second =
          step_all g back_way traversal i (subst AllCan (sym first.0) all) first.1 range in
        let returned : ahead_of g back_way i 1 ≡ c =
          ap (λ (r : List W). step_index back_way i 1 (length r)) first.0 ∙ home in
        let same_ring = second.0 ∙ first.0 in
        let same_current = second.1 ∙ ap some returned ∙ sym at in
        ap (λ (r : List W). get_at r (step dec can g back_way traversal).0.current) same_ring
        ∙ ap (get_at f.ring) same_current

    -- When every widget of the ring can have the focus and one of them has it, Prev after Next and
    -- Next after Prev return to it.
    pub prev-next :
        (f : FocusManager W) (c : ℕ)
        → AllCan f.ring
        → f.current ≡ some c
        → c < length f.ring
        → (focused (prev dec can (next dec can f).0).0 ≡ focused f)
          × (focused (next dec can (prev dec can f).0).0 ≡ focused f)
    unfolding next prev
    prev-next f c all at h =
        let home = step_index-step_index c (length f.ring) h in
        (walk_home f true c all at h false home.0, walk_home f false c all at h true home.1)
