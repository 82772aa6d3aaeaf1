-- ===== src/Store/Members/Display.antt =====
-- The role that gives a member's name its colour.
use tuicord_v.Base.Int.{ltb_ℤ, eq_ℤ}
use mathlib.Core.Path.{subst}
use tuicord_v.Base.{
  ℕ, ◌≡◌, ◌≢◌, refl, Bool, true, ◌&&◌, ◌||◌, not, List, [], ◌∷◌, Option, none, some, leb, ltb, ◌==◌,
  arith, Bool-cases, inl, inr, any, ==_iff, ◌⊎◌,
}
use tuicord_v.Store.Data.{Member, Role}
use tuicord_v.Store.Members.{
  Best, is_none, challenge, best_role, no_best, gradient_at_start, find_member, find_role,
  member_display_role,
}
use tuicord_v.Store.State.{Store}

-- A role that is unknown, or has no colour, or stands below the best, or beside it with an id that is
-- not smaller.
abbrev pub is_under : Best → ℕ → Option Role → Bool
is_under best rid none = true
is_under best rid (some r) =
    gradient_at_start r == 0
    || ltb_ℤ r.position best.pos
    || eq_ℤ r.position best.pos && not (is_none best.role) && leb best.id rid

is_under-challenge :
    (best : Best) (rid : ℕ) (o : Option Role) → is_under (challenge best rid o) rid o ≡ true
unfolding challenge
is_under-challenge best rid none = refl
is_under-challenge best rid (some r) = ground arith

is_under_trans :
    (best : Best) (rid : ℕ) (o : Option Role) (k : ℕ) (p : Option Role)
    → is_under best k p ≡ true
    → is_under (challenge best rid o) k p ≡ true
unfolding challenge
is_under_trans best rid none k p h = h
is_under_trans best rid (some r) k none h = refl
is_under_trans best rid (some r) k (some q) h = ground (arith, h)

module _ (roles : ℕ → Option Role) where
  still_under :
      (rids : List ℕ) (best : Best) (k : ℕ)
      → is_under best k (roles k) ≡ true
      → is_under (best_role roles best rids) k (roles k) ≡ true
  unfolding best_role
  still_under [] best k h = h
  still_under (rid ∷ rids) best k h =
      still_under rids (challenge best rid (roles rid)) k
        (is_under_trans best rid (roles rid) k (roles k) h)

  all_under :
      (rids : List ℕ) (best : Best) (k : ℕ)
      → any (λ i. i == k) rids ≡ true
      → is_under (best_role roles best rids) k (roles k) ≡ true
  unfolding best_role
  all_under [] best k h = cc
  all_under (rid ∷ rids) best k h = elim (Bool-cases (rid == k)) [
    | inl here ↦
        let k_is : rid ≡ k = (==_iff rid k).0 here in
        still_under rids (challenge best rid (roles rid)) k (
          subst (λ i. is_under (challenge best rid (roles rid)) i (roles i) ≡ true) k_is
            (is_under-challenge best rid (roles rid)))
    | inr there ↦ all_under rids (challenge best rid (roles rid)) k (ground (arith, h))
  ]

  -- The best role is one of the member's, or there is none.
  abbrev pub IsOf : (ℕ → Bool) → Best → Type 0
  IsOf held best =
      (best ≡ no_best)
      ⊎ ((r : Role) × (best.role ≡ some r)
          × (best.pos ≡ r.position)
          × (roles best.id ≡ some r)
          × (gradient_at_start r ≢ 0)
          × (held best.id ≡ true))

  challenge-IsOf :
      (held : ℕ → Bool) (best : Best) (rid : ℕ) (o : Option Role)
      → roles rid ≡ o
      → held rid ≡ true
      → IsOf held best
      → IsOf held (challenge best rid o)
  unfolding challenge
  challenge-IsOf held best rid none e h v = v
  challenge-IsOf held best rid (some r) e h v =
      elim (Bool-cases (
        gradient_at_start r == 0
        || not (
            ltb_ℤ best.pos r.position
            || eq_ℤ r.position best.pos && (is_none best.role || ltb rid best.id)))) [
              | inl loses ↦ rw loses v
              | inr wins ↦ rw wins (inr (r, refl, refl, e, ground (arith, wins), h))
            ]

  best_role-IsOf :
      (held : ℕ → Bool) (rids : List ℕ) (best : Best)
      → ((k : ℕ) → any (λ i. i == k) rids ≡ true → held k ≡ true)
      → IsOf held best
      → IsOf held (best_role roles best rids)
  unfolding best_role
  best_role-IsOf held [] best h v = v
  best_role-IsOf held (rid ∷ rids) best h v =
      best_role-IsOf held rids (challenge best rid (roles rid)) (λ k e. h k (ground (arith, e)))
        (challenge-IsOf held best rid (roles rid) refl (h rid (ground arith)) v)

-- For a known member, MemberDisplayRole gives a role of the member that has a colour, or none; and
-- no role of the member that has a colour stands above it, or beside it under a smaller id. Where
-- it gives none, every role of the member that has a colour stands below the position -1.
pub member_display_role-best :
    (s : Store) (guild user : ℕ) (m : Member) (rid : ℕ)
    → find_member s guild user ≡ some m
    → any (λ i. i == rid) m.role_ids ≡ true
    → (best : Best) × (member_display_role s guild user ≡ best.role)
      × IsOf (find_role s guild) (λ k. any (λ i. i == k) m.role_ids) best
      × (is_under best rid (find_role s guild rid) ≡ true)
unfolding member_display_role
member_display_role-best s guild user m rid known held =
    let roles = find_role s guild in
    let best = best_role roles no_best m.role_ids in
    (
      best,
      rw (known, member_display_role) refl,
      best_role-IsOf roles (λ k. any (λ i. i == k) m.role_ids) m.role_ids no_best (λ k e. e)
          (inl refl),
      all_under roles m.role_ids no_best rid held,
    )
