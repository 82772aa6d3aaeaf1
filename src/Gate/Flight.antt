-- ===== src/Gate/Flight.antt =====
-- The gate at one key among the loads that are in flight, in any order of events: loads begin,
-- complete late or in time, and the resource is invalidated or marked as loaded in between.
use native.Mathlib.Nat.{mod-eq_of_lt}
use tuicord_v.Base.{
  ℕ, suc, ◌+◌, ◌^◌, ◌≤◌, ◌<◌, ◌≡◌, ◌≢◌, refl, Bool, true, false, ◌==◌, if◌then◌else◌, arith, List,
  [], ◌∷◌, remove_first,
}
use tuicord_v.Gate.{
  LoadGate, next_version, begin_version, begin_older_version, finish_version, finish_older_version,
  mark_loaded, mark_exhausted, invalidate, empty_gate,
}

abbrev pub count : ℕ → List ℕ → ℕ
count v [] = 0
count v (w ∷ ws) = (if w == v then 1 else 0) + count v ws

abbrev pub remove : ℕ → List ℕ → List ℕ
remove v = remove_first (λ w. w == v)

abbrev pub AreAtMost : ℕ → List ℕ → Type 0
AreAtMost n [] = Unit {0}
AreAtMost n (w ∷ ws) = (w ≤ n) × AreAtMost n ws

AreAtMost-mono : (n m : ℕ) (ws : List ℕ) → n ≤ m → AreAtMost n ws → AreAtMost m ws
AreAtMost-mono n m [] h a = tt
AreAtMost-mono n m (w ∷ ws) h a = (omega arith, AreAtMost-mono n m ws h a.1)

AreAtMost-remove : (n v : ℕ) (ws : List ℕ) → AreAtMost n ws → AreAtMost n (remove v ws)
AreAtMost-remove n v [] a = tt
AreAtMost-remove n v (w ∷ ws) a = ground (arith, AreAtMost-remove n v ws a.1)

count-eq-zero : (n v : ℕ) (ws : List ℕ) → AreAtMost n ws → n < v → count v ws ≡ 0
count-eq-zero n v [] a h = refl
count-eq-zero n v (w ∷ ws) a h = ground (arith, count-eq-zero n v ws a.1)

count-remove_self :
    (v : ℕ) (ws : List ℕ) → 0 < count v ws → suc (count v (remove v ws)) ≡ count v ws
count-remove_self v [] h = elim h [ ]
count-remove_self v (w ∷ ws) h = ground (arith, count-remove_self v ws)

count-remove_ne : (u v : ℕ) (ws : List ℕ) → u ≢ v → count u (remove v ws) ≡ count u ws
count-remove_ne u v [] h = refl
count-remove_ne u v (w ∷ ws) h = ground (arith, count-remove_ne u v ws)

next_version_lem : (v : ℕ) → v + 1 < 2 ^ 64 → next_version v ≡ v + 1
next_version_lem v h = mod-eq_of_lt h

next_version_ne : (v : ℕ) → v < 2 ^ 64 → next_version v ≢ v
next_version_ne v h = omega arith

module _ {K : Type 0} (dec : Discrete K) (key : K) where
  -- The gate, and the version with which each load in flight began.
  pub record Airspace : Type 0 where
    pub gate : LoadGate K
    pub flights : List ℕ

  -- A version is counted up fewer than 2 ^ 64 times.
  pub data Step : Airspace → Airspace → Type 0 where
    take_off :
        (s : Airspace)
        → (begin_version dec s.gate key).1.1 ≡ true
        → Step s (record {
          gate = (begin_version dec s.gate key).0;
          flights = (begin_version dec s.gate key).1.0 ∷ s.flights;
        })
    take_off_older :
        (s : Airspace)
        → (begin_older_version dec s.gate key).1.1 ≡ true
        → Step s (record {
          gate = (begin_older_version dec s.gate key).0;
          flights = (begin_older_version dec s.gate key).1.0 ∷ s.flights;
        })
    land :
        (s : Airspace) (v : ℕ) (ok : Bool)
        → 0 < count v s.flights
        → Step s
            (record { gate = (finish_version dec s.gate key v ok).0; flights = remove v s.flights })
    land_older :
        (s : Airspace) (v : ℕ) (exhausted : Bool)
        → 0 < count v s.flights
        → Step s (record {
          gate = (finish_older_version dec s.gate key v exhausted).0;
          flights = remove v s.flights;
        })
    mark :
        (s : Airspace)
        → s.gate.version key + 1 < 2 ^ 64
        → Step s (record s { gate = mark_loaded dec s.gate key })
    exhaust : (s : Airspace) → Step s (record s { gate = mark_exhausted dec s.gate key })
    reset :
        (s : Airspace)
        → s.gate.version key + 1 < 2 ^ 64
        → Step s (record s { gate = invalidate dec s.gate key })

  pub data Reach : Airspace → Type 0 where
    idle : Reach (record { gate = empty_gate; flights = [] })
    next : {s t : Airspace} → Reach s → Step s t → Reach t

  -- One load with the current version is in flight if the gate is pending, and none otherwise.
  pub record IsControlled (s : Airspace) : Type 0 where
    pub old : AreAtMost (s.gate.version key) s.flights
    pub current : count (s.gate.version key) s.flights ≡ (if s.gate.pending key then 1 else 0)

  Step-IsControlled : {s t : Airspace} → Step s t → IsControlled s → IsControlled t
  unfolding begin_version begin_older_version finish_version finish_older_version mark_loaded
      mark_exhausted invalidate
  Step-IsControlled (take_off s h) i = ground arith
  Step-IsControlled (take_off_older s h) i = ground arith
  Step-IsControlled (land s v ok h) i = ground (
    arith,
    AreAtMost-remove (s.gate.version key) v s.flights i.old,
    count-remove_self v s.flights,
    count-remove_ne (s.gate.version key) v s.flights,
  )
  Step-IsControlled (land_older s v exhausted h) i = ground (
    arith,
    AreAtMost-remove (s.gate.version key) v s.flights i.old,
    count-remove_self v s.flights,
    count-remove_ne (s.gate.version key) v s.flights,
  )
  Step-IsControlled (mark s h) i = ground (
    arith,
    next_version_lem (s.gate.version key) h,
    AreAtMost-mono (s.gate.version key) (s.gate.version key + 1) s.flights (omega arith) i.old,
    count-eq-zero (s.gate.version key) (s.gate.version key + 1) s.flights i.old (omega arith),
  )
  Step-IsControlled (exhaust s) i = ground arith
  Step-IsControlled (reset s h) i = ground (
    arith,
    next_version_lem (s.gate.version key) h,
    AreAtMost-mono (s.gate.version key) (s.gate.version key + 1) s.flights (omega arith) i.old,
    count-eq-zero (s.gate.version key) (s.gate.version key + 1) s.flights i.old (omega arith),
  )

  controlled : {s : Airspace} → Reach s → IsControlled s
  unfolding empty_gate
  controlled idle = ground arith
  controlled (next r st) = Step-IsControlled st (controlled r)

  -- However loads, completions, marks and invalidations of a resource are interleaved, with fewer
  -- than 2^64 version changes, at most one load in flight carries the current version, and one does
  -- exactly when the gate is pending.
  pub Reach-IsControlled :
      {s : Airspace}
      → Reach s
      → (count (s.gate.version key) s.flights ≤ 1)
        × (s.gate.pending key ≡ true → count (s.gate.version key) s.flights ≡ 1)
        × (s.gate.pending key ≡ false → count (s.gate.version key) s.flights ≡ 0)
  Reach-IsControlled r = let i = controlled r in ground (arith, i)

-- After an invalidation or a mark as loaded, a completion that carries the version from before changes
-- nothing and reports that it was stale.
pub finish_version_stale :
    {K : Type 0} (dec : Discrete K) (g : LoadGate K) (key : K) (ok : Bool)
    → g.version key < 2 ^ 64
    → (finish_version dec (invalidate dec g key) key (g.version key) ok
        ≡ (invalidate dec g key, false))
      × (finish_version dec (mark_loaded dec g key) key (g.version key) ok
          ≡ (mark_loaded dec g key, false))
      × (finish_older_version dec (invalidate dec g key) key (g.version key) ok
          ≡ (invalidate dec g key, false))
unfolding finish_version finish_older_version invalidate mark_loaded
finish_version_stale dec g key ok h = ground (arith, next_version_ne (g.version key) h)
