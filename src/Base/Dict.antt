-- ===== src/Base/Dict.antt =====
-- Maps from numbers, as lists of entries. A map of Go is iterated in any order: what the code makes of
-- an iteration is written so that the order of the entries does not matter.
use tuicord_v.Base.{
  ℕ, ◌+◌, ◌-◌, ◌≤◌, ◌<◌, ◌≡◌, ◌≢◌, refl, Bool, true, false, List, [], ◌∷◌, Option, none, some,
  length, ◌==◌, if◌then◌else◌, arith, Bool-cases, inl, inr, map, ==_self,
}

abbrev pub Dict : Type 0 → Type 0
Dict V = List (ℕ × V)

module _ {V : Type 0} where
  -- `v, ok := m[k]`
  unfoldable pub lookup : ℕ → Dict V → Option V
  lookup k [] = none
  lookup k ((j, v) ∷ l) = if j == k then some v else lookup k l

  -- `delete(m, k)`
  unfoldable pub erase : ℕ → Dict V → Dict V
  erase k [] = []
  erase k ((j, v) ∷ l) = let rest = erase k l in if j == k then rest else (j, v) ∷ rest

  -- `m[k] = v`
  unfoldable pub insert : ℕ → V → Dict V → Dict V
  insert k v l = (k, v) ∷ erase k l

  abbrev pub or_else : Option V → V → V
  or_else none d = d
  or_else (some v) d = v

  -- `m[k]`, with the zero value of the type.
  abbrev pub get : Dict V → ℕ → V → V
  get m k d = or_else (lookup k m) d

  -- The entries have different keys, as those of a map do.
  abbrev pub IsDistinct : Dict V → Type 0
  IsDistinct [] = Unit {0}
  IsDistinct ((k, v) ∷ l) = (lookup k l ≡ none) × IsDistinct l

  pub lookup-erase :
      (k j : ℕ) (l : Dict V) → lookup j (erase k l) ≡ (if k == j then none else lookup j l)
  unfolding lookup erase
  lookup-erase k j [] = ground arith
  lookup-erase k j ((i, v) ∷ l) = ground (arith, lookup-erase k j l)

  pub lookup-insert :
      (k j : ℕ) (v : V) (l : Dict V)
      → lookup j (insert k v l) ≡ (if k == j then some v else lookup j l)
  unfolding insert lookup
  lookup-insert k j v l = ground (arith, lookup-erase k j l)

  pub get-insert_self : (k : ℕ) (v d : V) (l : Dict V) → get (insert k v l) k d ≡ v
  get-insert_self k v d l = rw (lookup-insert k k v l, ==_self k) refl

  pub get-insert_ne :
      (k j : ℕ) (v d : V) (l : Dict V) → (k == j) ≡ false → get (insert k v l) j d ≡ get l j d
  get-insert_ne k j v d l ne = rw (lookup-insert k j v l, ne) refl

  pub erase-IsDistinct : (k : ℕ) (l : Dict V) → IsDistinct l → IsDistinct (erase k l)
  unfolding erase
  erase-IsDistinct k [] d = tt
  erase-IsDistinct k ((j, v) ∷ l) d = elim (Bool-cases (j == k)) [
    | inl hit ↦ rw hit (erase-IsDistinct k l d.1)
    | inr miss ↦ rw miss (ground (arith, lookup-erase k j l, d.0), erase-IsDistinct k l d.1)
  ]

  pub insert-IsDistinct : (k : ℕ) (v : V) (l : Dict V) → IsDistinct l → IsDistinct (insert k v l)
  unfolding insert
  insert-IsDistinct k v l d = (ground (arith, lookup-erase k k l), erase-IsDistinct k l d)

  pub erase_absent : (k : ℕ) (l : Dict V) → lookup k l ≡ none → erase k l ≡ l
  unfolding lookup erase
  erase_absent k [] e = refl
  erase_absent k ((j, v) ∷ l) e = ground (arith, erase_absent k l)

  pub length-erase-le : (k : ℕ) (l : Dict V) → length (erase k l) ≤ length l
  unfolding erase
  length-erase-le k [] = omega arith
  length-erase-le k ((j, v) ∷ l) = ground (arith, length-erase-le k l)

  pub length-erase :
      (k : ℕ) (v : V) (l : Dict V) → lookup k l ≡ some v → length (erase k l) < length l
  unfolding lookup erase
  length-erase k v [] e = absurd (ground arith)
  length-erase k v ((j, w) ∷ l) e = ground (arith, length-erase-le k l, length-erase k v l)

pub ruleset dict_laws = (arith, lookup-erase, lookup-insert)
