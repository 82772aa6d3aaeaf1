-- ===== src/Store/Sorting.antt =====
-- The insertion sorts of internal/store: `sortChannels`, `sortRoles` and `sortThreads` have the same
-- loops and differ in what is less.
use mathlib.Core.Path.{subst}
use mathlib.Core.List.{Perm, perm_middle, append-nil}
use mathlib.Core.List.Perm
use tuicord_v.Base.{
  ◌≡◌, Bool, true, false, List, [], ◌∷◌, ◌++◌, if◌then◌else◌, Bool-cases, inl, inr,
}

module _ {A : Type 0} where
  -- A list from its end before another.
  unfoldable pub back_onto : List A → List A → List A
  back_onto [] zs = zs
  back_onto (y ∷ ys) zs = back_onto ys (y ∷ zs)

  abbrev pub All : (A → Type 0) → List A → Type 0
  All P [] = Unit {0}
  All P (x ∷ xs) = P x × All P xs

  back_onto-perm : (ys zs : List A) → Perm (back_onto ys zs) (ys ++ zs)
  unfolding back_onto
  back_onto-perm [] zs = Perm.refl zs
  back_onto-perm (y ∷ ys) zs = Perm.trans (back_onto-perm ys (y ∷ zs)) (perm_middle ys zs)

module _ {A : Type 0} (less : A → A → Bool) where
  -- The inner loop: x moves down the part that is sorted, which is given from its end.
  unfoldable pub sink : A → List A → List A
  sink x [] = x ∷ []
  sink x (y ∷ ys) = let rest = sink x ys in if less x y then y ∷ rest else x ∷ y ∷ ys

  -- The outer loop.
  unfoldable pub sort_from : List A → List A → List A
  sort_from done [] = back_onto done []
  sort_from done (x ∷ ts) = sort_from (sink x done) ts

  unfoldable pub insertion_sort : List A → List A
  insertion_sort ts = sort_from [] ts

  -- No element comes before one that is less.
  abbrev pub IsSorted : List A → Type 0
  IsSorted [] = Unit {0}
  IsSorted (x ∷ xs) = All (λ y. less y x ≡ false) xs × IsSorted xs

  -- The same from the end.
  abbrev IsSortedBack : List A → Type 0
  IsSortedBack [] = Unit {0}
  IsSortedBack (y ∷ ys) = All (λ x. less y x ≡ false) ys × IsSortedBack ys

  All-sink : (P : A → Type 0) (x : A) (ys : List A) → P x → All P ys → All P (sink x ys)
  unfolding sink
  All-sink P x [] h a = (h, tt)
  All-sink P x (y ∷ ys) h a = elim (Bool-cases (less x y)) [
    | inl before ↦ rw before (a.0, All-sink P x ys h a.1)
    | inr not_before ↦ rw not_before (h, a)
  ]

  -- Every element of the first list may stand before every one of the second.
  abbrev Before : List A → List A → Type 0
  Before [] zs = Unit {0}
  Before (y ∷ ys) zs = All (λ z. less z y ≡ false) zs × Before ys zs

  Before-cons :
      (y : A) (ys zs : List A) → All (λ x. less y x ≡ false) ys → Before ys zs → Before ys (y ∷ zs)
  Before-cons y [] zs a b = tt
  Before-cons y (x ∷ ys) zs a b = ((a.0, b.0), Before-cons y ys zs a.1 b.1)

  IsSorted-back_onto :
      (ys zs : List A) → IsSortedBack ys → IsSorted zs → Before ys zs → IsSorted (back_onto ys zs)
  unfolding back_onto
  IsSorted-back_onto [] zs s t b = t
  IsSorted-back_onto (y ∷ ys) zs s t b =
      IsSorted-back_onto ys (y ∷ zs) s.1 (b.0, t) (Before-cons y ys zs s.0 b.1)

  Before-nil : (ys : List A) → Before ys []
  Before-nil [] = tt
  Before-nil (y ∷ ys) = (tt, Before-nil ys)

  sink-perm : (x : A) (ys : List A) → Perm (sink x ys) (x ∷ ys)
  unfolding sink
  sink-perm x [] = Perm.refl (x ∷ [])
  sink-perm x (y ∷ ys) = elim (Bool-cases (less x y)) [
    | inl before ↦ rw before (Perm.trans (Perm.cons y (sink-perm x ys)) (Perm.swap x y ys))
    | inr not_before ↦ rw not_before (Perm.refl (x ∷ y ∷ ys))
  ]

  sort_from-perm : (done ts : List A) → Perm (sort_from done ts) (ts ++ done)
  unfolding sort_from
  sort_from-perm done [] =
      subst (Perm (back_onto done [])) (append-nil done) (back_onto-perm done [])
  sort_from-perm done (x ∷ ts) =
      Perm.trans (sort_from-perm (sink x done) ts)
        (Perm.trans (Perm.append_left ts (sink-perm x done)) (perm_middle ts done))

  pub insertion_sort-perm : (ts : List A) → Perm (insertion_sort ts) ts
  unfolding insertion_sort
  insertion_sort-perm ts = subst (Perm (sort_from [] ts)) (append-nil ts) (sort_from-perm [] ts)

  module _ (asymm : (x y : A) → less x y ≡ true → less y x ≡ false)
      (trans : (x y z : A) → less x y ≡ false → less y z ≡ false → less x z ≡ false) where
    All-trans :
        (x y : A) (zs : List A)
        → less x y ≡ false
        → All (λ z. less y z ≡ false) zs
        → All (λ z. less x z ≡ false) zs
    All-trans x y [] h a = tt
    All-trans x y (z ∷ zs) h a = (trans x y z h a.0, All-trans x y zs h a.1)

    IsSortedBack-sink : (x : A) (ys : List A) → IsSortedBack ys → IsSortedBack (sink x ys)
    unfolding sink
    IsSortedBack-sink x [] s = (tt, tt)
    IsSortedBack-sink x (y ∷ ys) s = elim (Bool-cases (less x y)) [
      | inl before ↦
          rw before (
            All-sink (λ z. less y z ≡ false) x ys (asymm x y before) s.0,
            IsSortedBack-sink x ys s.1,
          )
      | inr not_before ↦ rw not_before ((not_before, All-trans x y ys not_before s.0), s)
    ]

    sort_from-IsSorted : (done ts : List A) → IsSortedBack done → IsSorted (sort_from done ts)
    unfolding sort_from
    sort_from-IsSorted done [] s = IsSorted-back_onto done [] s tt (Before-nil done)
    sort_from-IsSorted done (x ∷ ts) s =
        sort_from-IsSorted (sink x done) ts (IsSortedBack-sink x done s)

    pub insertion_sort-IsSorted : (ts : List A) → IsSorted (insertion_sort ts)
    unfolding insertion_sort
    insertion_sort-IsSorted ts = sort_from-IsSorted [] ts tt
