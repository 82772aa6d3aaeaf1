-- ===== src/Store/Tombstones/Bounds.antt =====
-- A channel's tombstones: how many there are, and what a deletion does to them.
use tuicord_v.Base.Dict.{
  Dict, lookup, insert, erase, get, IsDistinct, erase-IsDistinct, lookup-erase, length-erase,
  length-erase-le, get-insert_self,
}
use mathlib.Core.Path.{subst}
use tuicord_v.Base.{
  ℕ, suc, ◌≤◌, ◌<◌, ◌≡◌, ◌≢◌, refl, sym, ap, ◌∙◌, ◌⊎◌, inl, inr, Bool, true, false, [], ◌∷◌, none,
  some, length, ltb, ◌==◌, if◌then◌else◌, arith, Bool-cases, ==_self,
}
use tuicord_v.Store.State.{Store}
use tuicord_v.Store.Tombstones.Oldest.{
  AreStamped, AreLater, AreStamped-le, erase-AreStamped, IsOldest, oldest_from-IsOldest,
}
use tuicord_v.Store.Tombstones.{tombstones, oldest_from, record_tombstone}

-- The tombstones of one channel: at most so many, under different ids, of revisions up to one.
pub record AreKept (limit rev : ℕ) (d : Dict ℕ) : Type 0 where
  pub distinct : IsDistinct d
  pub bounded : length d ≤ limit
  pub stamped : AreStamped rev d

-- What the loop finds in a map of a first entry and kept ones.
module _ (limit rev id : ℕ) (d : Dict ℕ) (k : AreKept limit rev d) (known : id ≢ 0)
    (positive : 0 < limit) where
  abbrev pub with_new : Dict ℕ
  with_new = (id, suc rev) ∷ erase id d

  pub new-IsDistinct : IsDistinct with_new
  new-IsDistinct = (ground (arith, lookup-erase id id d), erase-IsDistinct id d k.distinct)

  pub new-AreStamped : AreStamped (suc rev) with_new
  new-AreStamped = (
    known,
    omega arith,
    omega arith,
    erase-AreStamped (suc rev) id d (AreStamped-le rev (suc rev) d (omega arith) k.stamped),
  )

  oldest : IsOldest (erase id d) id (suc rev) (oldest_from (erase id d) id (suc rev))
  oldest =
      oldest_from-IsOldest (erase id d) id (suc rev) (suc rev) known new-AreStamped.3
        new-IsDistinct.1

  abbrev pub out : ℕ × ℕ
  out = oldest_from (erase id d) id (suc rev)

  out_lem : oldest_from with_new 0 0 ≡ out
  unfolding oldest_from
  out_lem = refl

  not-all-later : (e : Dict ℕ) → 0 < length e → AreStamped rev e → ¬ AreLater (suc rev) e
  not-all-later [] h st = λ l. absurd (omega arith)
  not-all-later ((j, v) ∷ e) h st = λ l. omega (arith, l.0, st.2)

  module _ (over : limit < length with_new) where
    out_found : lookup out.0 (erase id d) ≡ some out.1
    out_found = elim oldest.found [
      | inr e ↦ e
      | inl (same, newest) ↦ absurd (
          not-all-later (erase id d) (omega arith) (erase-AreStamped rev id d k.stamped)
            (subst (λ v. AreLater v (erase id d)) newest oldest.least))
    ]

    out-ne : out.0 ≢ id
    out-ne same = cc (
        sym out_found
        ∙ ap (λ i. lookup i (erase id d)) same
        ∙ lookup-erase id id d
        ∙ ap (λ (b : Bool). if b then none else lookup id d) (==_self id))

    out_in : lookup out.0 with_new ≡ some out.1
    unfolding lookup
    out_in = ground (arith, out_found, out-ne)

    pub evicted-AreKept : AreKept limit (suc rev) (erase out.0 with_new)
    evicted-AreKept = record {
      distinct = erase-IsDistinct out.0 with_new new-IsDistinct;
      bounded =
          omega (arith, length-erase out.0 out.1 with_new out_in, length-erase-le id d, k.bounded);
      stamped = erase-AreStamped (suc rev) out.0 with_new new-AreStamped;
    }

    -- The new tombstone is not the one that goes.
    pub evicted_new : lookup id (erase out.0 with_new) ≡ some (suc rev)
    unfolding lookup
    evicted_new = ground (arith, lookup-erase out.0 id with_new, out-ne)

    -- Another tombstone stays, or is the one that goes.
    pub evicted_other :
        (j v : ℕ)
        → lookup j d ≡ some v
        → (lookup j (erase out.0 with_new) ≡ some v) ⊎ ((j ≡ id) ⊎ (v ≤ out.1))
    unfolding lookup
    evicted_other j v e = elim (Bool-cases (id == j)) [
      | inl new ↦ inr (inl (ground arith))
      | inr old ↦
          let kept : lookup j (erase id d) ≡ some v = ground (arith, lookup-erase id j d) in
          elim (Bool-cases (out.0 == j)) [
            | inl goes ↦
                let j_is : out.0 ≡ j = ground arith in
                let gone : lookup j (erase id d) ≡ some out.1 =
                  subst (λ i. lookup i (erase id d) ≡ some out.1) j_is out_found in
                inr (inr (ground arith))
            | inr stays ↦ inl (ground (arith, lookup-erase out.0 j with_new))
          ]
    ]

-- What is kept of the tombstones of every channel.
pub record IsSound (s : Store) : Type 0 where
  pub positive : 0 < s.history_limit
  pub kept : (channel : ℕ) → AreKept s.history_limit s.rev (tombstones s channel)

module _ (s : Store) (channel id : ℕ) (v : IsSound s) (known : id ≢ 0) where
  abbrev pub before : Dict ℕ
  before = tombstones s channel

  abbrev pub grown : Dict ℕ
  grown = with_new s.history_limit s.rev id before (v.kept channel) known v.positive

  abbrev pub gone : ℕ × ℕ
  gone = out s.history_limit s.rev id before (v.kept channel) known v.positive

  -- The tombstones of the channel after the deletion, and the watermark.
  pub recorded_room :
      ltb s.history_limit (length grown) ≡ false
      → (record_tombstone s channel id (suc s.rev)).deleted_messages
        ≡ insert channel grown s.deleted_messages
  unfolding record_tombstone insert
  recorded_room e = rw e refl

  pub recorded_full :
      ltb s.history_limit (length grown) ≡ true
      → (record_tombstone s channel id (suc s.rev)).deleted_messages
        ≡ insert channel (erase gone.0 grown) s.deleted_messages
  unfolding record_tombstone insert oldest_from
  recorded_full e = rw e refl

  pub pruned_full :
      ltb s.history_limit (length grown) ≡ true
      → gone.1 ≤ get (record_tombstone s channel id (suc s.rev)).pruned_delete_revision channel 0
  unfolding record_tombstone insert oldest_from
  pruned_full e = rw e (elim (Bool-cases (ltb (get s.pruned_delete_revision channel 0) gone.1)) [
    | inl later ↦
        rw later (omega (arith, get-insert_self channel gone.1 0 s.pruned_delete_revision))
    | inr earlier ↦ rw earlier (ground arith)
  ])
