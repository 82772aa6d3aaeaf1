-- ===== src/Store/Tombstones/Oldest.antt =====
-- The loop of `RemoveMessage` that looks for the oldest tombstone of a channel.
use tuicord_v.Base.Dict.{Dict, lookup, erase, IsDistinct}
use mathlib.Core.Path.{subst}
use tuicord_v.Base.{
  ℕ, ◌≤◌, ◌<◌, ◌≡◌, ◌≢◌, refl, ◌⊎◌, inl, inr, ◌&&◌, ◌||◌, [], ◌∷◌, none, some, ltb, ◌==◌, arith,
  Bool-cases, ==_self,
}
use tuicord_v.Store.Tombstones.{oldest_from}

-- Ids are not 0, and revisions are positive and not above one.
abbrev pub AreStamped : ℕ → Dict ℕ → Type 0
AreStamped rev [] = Unit {0}
AreStamped rev ((k, v) ∷ d) = (k ≢ 0) × (0 < v) × (v ≤ rev) × AreStamped rev d

abbrev pub AreLater : ℕ → Dict ℕ → Type 0
AreLater rev [] = Unit {0}
AreLater rev ((k, v) ∷ d) = (rev ≤ v) × AreLater rev d

AreLater-le : (a b : ℕ) (d : Dict ℕ) → a ≤ b → AreLater b d → AreLater a d
AreLater-le a b [] l h = tt
AreLater-le a b ((k, v) ∷ d) l h = (omega arith, AreLater-le a b d l h.1)

pub lookup-AreLater :
    (rev k : ℕ) (d : Dict ℕ) {v : ℕ} → AreLater rev d → lookup k d ≡ some v → rev ≤ v
unfolding lookup
lookup-AreLater rev k [] h e = absurd (ground arith)
lookup-AreLater rev k ((j, w) ∷ d) h e = elim (Bool-cases (j == k)) [
  | inl hit ↦ ground arith
  | inr miss ↦ lookup-AreLater rev k d h.1 (ground arith)
]

pub lookup-AreStamped :
    (rev k : ℕ) (d : Dict ℕ) {v : ℕ}
    → AreStamped rev d
    → lookup k d ≡ some v
    → (k ≢ 0) × (0 < v) × (v ≤ rev)
unfolding lookup
lookup-AreStamped rev k [] h e = absurd (ground arith)
lookup-AreStamped rev k ((j, w) ∷ d) h e = elim (Bool-cases (j == k)) [
  | inl hit ↦ (ground arith, ground arith, ground arith)
  | inr miss ↦ lookup-AreStamped rev k d h.3 (ground arith)
]

pub AreStamped-le : (a b : ℕ) (d : Dict ℕ) → a ≤ b → AreStamped a d → AreStamped b d
AreStamped-le a b [] l h = tt
AreStamped-le a b ((k, v) ∷ d) l h = (h.0, h.1, omega arith, AreStamped-le a b d l h.3)

pub erase-AreStamped : (rev k : ℕ) (d : Dict ℕ) → AreStamped rev d → AreStamped rev (erase k d)
unfolding erase
erase-AreStamped rev k [] h = tt
erase-AreStamped rev k ((j, v) ∷ d) h = elim (Bool-cases (j == k)) [
  | inl hit ↦ rw hit (erase-AreStamped rev k d h.3)
  | inr miss ↦ rw miss (h.0, h.1, h.2, erase-AreStamped rev k d h.3)
]

-- What the loop returns, from an id that is not 0.
pub record IsOldest (d : Dict ℕ) (id rev : ℕ) (out : ℕ × ℕ) : Type 0 where
  pub named : out.0 ≢ 0
  pub not_later : out.1 ≤ rev
  pub least : AreLater out.1 d
  pub found : ((out.0 ≡ id) × (out.1 ≡ rev)) ⊎ (lookup out.0 d ≡ some out.1)

lookup-cons_ne :
    (k v i : ℕ) (d : Dict ℕ) {w : ℕ}
    → lookup k d ≡ none
    → lookup i d ≡ some w
    → lookup i ((k, v) ∷ d) ≡ some w
unfolding lookup
lookup-cons_ne k v i d {w} absent e = elim (Bool-cases (k == i)) [
  | inl same ↦
      let i_is : i ≡ k = ground arith in
      absurd (ground (arith, subst (λ j. lookup j d ≡ some w) i_is e))
  | inr other ↦ rw other e
]

lookup-cons_eq : (k v : ℕ) (d : Dict ℕ) (i w : ℕ) → i ≡ k → w ≡ v → lookup i ((k, v) ∷ d) ≡ some w
unfolding lookup
lookup-cons_eq k v d i w same e = ground (arith, ==_self k)

pub oldest_from-IsOldest :
    (d : Dict ℕ) (id rev top : ℕ)
    → id ≢ 0
    → AreStamped top d
    → IsDistinct d
    → IsOldest d id rev (oldest_from d id rev)
unfolding oldest_from lookup
oldest_from-IsOldest [] id rev top ne h d = record {
  named = ne;
  not_later = omega arith;
  least = tt;
  found = inl (refl, refl);
}
oldest_from-IsOldest ((k, v) ∷ rest) id rev top ne h d =
    elim (Bool-cases (id == 0 || ltb v rev || v == rev && ltb k id)) [
      | inl older ↦
          let o = oldest_from-IsOldest rest k v top h.0 h.3 d.1 in
          let le : v ≤ rev = ground arith in
          rw older (record {
            named = o.named;
            not_later = omega (arith, o.not_later);
            least = (o.not_later, o.least);
            found = elim o.found [
              | inl (i_is, v_is) ↦ inr (lookup-cons_eq k v rest _ _ i_is v_is)
              | inr e ↦ inr (lookup-cons_ne k v _ rest d.0 e)
            ];
          })
      | inr younger ↦
          let o = oldest_from-IsOldest rest id rev top ne h.3 d.1 in
          let le : rev ≤ v = ground arith in
          rw younger (record {
            named = o.named;
            not_later = o.not_later;
            least = (omega (arith, o.not_later), o.least);
            found = elim o.found [
              | inl same ↦ inl same
              | inr e ↦ inr (lookup-cons_ne k v _ rest d.0 e)
            ];
          })
    ]
