-- ===== src/Store/Tombstones/Deletion.antt =====
-- What `RemoveMessage` and an explicit create do to the tombstones of a store.
use mathlib.Core.Path.{subst}
use tuicord_v.Base.Dict.{
  Dict, lookup, insert, erase, get, lookup-erase, get-insert_self, get-insert_ne,
}
use tuicord_v.Base.{
  ℕ, suc, ◌+◌, ◌^◌, ◌≤◌, ◌<◌, ◌≡◌, ◌≢◌, refl, sym, ap, ◌∙◌, ◌⊎◌, inl, inr, Bool, true, false, [],
  none, some, length, ltb, ◌==◌, if◌then◌else◌, arith, Bool-cases, ==_self, Option-cases, ltb→lt,
  lt→ltb,
}
use tuicord_v.Store.State.{Store, new, increment, increment_lem, next_revision}
use tuicord_v.Store.Tombstones.Bounds.{
  AreKept, IsSound, grown, gone, recorded_room, recorded_full, pruned_full, new-IsDistinct,
  new-AreStamped, evicted-AreKept, evicted_new, evicted_other,
}
use tuicord_v.Store.Tombstones.Oldest.{AreStamped-le, lookup-AreStamped}
use tuicord_v.Store.Tombstones.{
  tombstones, message_tombstoned, tombstones_pruned_since, record_tombstone, remove_message,
  remove_from_ring,
}

-- Two stores with the same tombstones.
abbrev pub SameTombstones : Store → Store → Type 0
SameTombstones q s =
    (q.deleted_messages ≡ s.deleted_messages)
    × (q.pruned_delete_revision ≡ s.pruned_delete_revision)
    × (q.rev ≡ s.rev)
    × (q.history_limit ≡ s.history_limit)

tombstoned_of :
    (s : Store) (channel id rev : ℕ)
    → lookup id (tombstones s channel) ≡ some rev
    → 0 < rev
    → message_tombstoned s channel id ≡ true
unfolding message_tombstoned
tombstoned_of s channel id rev e h = rw e (ground arith)

lookup_old :
    (s : Store) (channel id : ℕ) (v : IsSound s) (known : id ≢ 0) (k : ℕ)
    → (id == k) ≡ false
    → lookup k (grown s channel id v known) ≡ lookup k (tombstones s channel)
unfolding lookup
lookup_old s channel id v known k ne = rw ne (
    lookup-erase id k (tombstones s channel)
    ∙ ap (λ (b : Bool). if b then none else lookup k (tombstones s channel)) ne)

AreKept-eq :
    {limit limit' rev rev' : ℕ} {d d' : Dict ℕ}
    → limit ≡ limit'
    → rev ≡ rev'
    → d ≡ d'
    → AreKept limit' rev' d'
    → AreKept limit rev d
AreKept-eq e f g k = rw (e, f, g) k

pruned_of :
    (s : Store) (channel request : ℕ)
    → request < get s.pruned_delete_revision channel 0
    → tombstones_pruned_since s channel request ≡ true
unfolding tombstones_pruned_since
pruned_of s channel request h = lt→ltb _ _ h

lookup_new :
    (s : Store) (channel id : ℕ) (v : IsSound s) (known : id ≢ 0)
    → lookup id (grown s channel id v known) ≡ some (suc s.rev)
unfolding lookup
lookup_new s channel id v known = rw (==_self id) refl

remove_from_ring-SameTombstones :
    (s : Store) (channel id rev : ℕ) → SameTombstones (remove_from_ring s channel id rev).0 s
unfolding remove_from_ring
remove_from_ring-SameTombstones s channel id rev = elim (Option-cases (lookup channel s.messages)) [
  | inl none_there ↦ rw (none_there, remove_from_ring) (refl, refl, refl, refl)
  | inr (r, there) ↦ rw (there, remove_from_ring) (refl, refl, refl, refl)
]

record_tombstone_counted :
    (s : Store) (channel id rev : ℕ)
    → SameTombstones
        (record_tombstone (record s { rev = rev }) channel id rev)
        (record (record_tombstone s channel id rev) { rev = rev })
unfolding record_tombstone
record_tombstone_counted s channel id rev =
    elim (Bool-cases (ltb s.history_limit (length (insert id rev (tombstones s channel))))) [
      | inl full ↦ rw full (refl, refl, refl, refl)
      | inr room ↦ rw room (refl, refl, refl, refl)
    ]

record_tombstone-history_limit :
    (s : Store) (channel id rev : ℕ)
    → (record_tombstone s channel id rev).history_limit ≡ s.history_limit
unfolding record_tombstone
record_tombstone-history_limit s channel id rev =
    elim (Bool-cases (ltb s.history_limit (length (insert id rev (tombstones s channel))))) [
      | inl full ↦ rw full refl
      | inr room ↦ rw room refl
    ]

module _ (s : Store) (channel id : ℕ) (known : id ≢ 0) (room : s.rev + 1 < 2 ^ 64) where
  -- A deletion records its tombstone, whether the channel has a history or not.
  abbrev recorded : Store
  recorded = record_tombstone s channel id (suc s.rev)

  abbrev after : Store
  after = (remove_message s channel id).0

  remove_message_lem :
      remove_message s channel id
      ≡ remove_from_ring
          (record_tombstone (record s { rev = suc s.rev }) channel id (suc s.rev))
          channel
          id
          (suc s.rev)
  unfolding remove_message next_revision
  remove_message_lem =
      let next : increment s.rev ≡ suc s.rev = omega (arith, increment_lem s.rev room) in
      let named : (id == 0) ≡ false = ground arith in rw (named, next) refl

  remove_message-SameTombstones : SameTombstones after (record recorded { rev = suc s.rev })
  remove_message-SameTombstones =
      let (a, b, c, d) =
        remove_from_ring-SameTombstones
          (record_tombstone (record s { rev = suc s.rev }) channel id (suc s.rev)) channel id
          (suc s.rev) in
      let (e, f, g, h) = record_tombstone_counted s channel id (suc s.rev) in
      subst (λ (r : Store × Bool). SameTombstones r.0 (record recorded { rev = suc s.rev }))
        (sym remove_message_lem) (a ∙ e, b ∙ f, c ∙ g, d ∙ h)

  module _ (v : IsSound s) where
    abbrev is_over : Bool
    is_over = ltb s.history_limit (length (grown s channel id v known))

    abbrev before_it : Dict ℕ
    before_it = tombstones s channel

    over : is_over ≡ true → s.history_limit < length (grown s channel id v known)
    over e = ltb→lt _ _ e

    tombstones_room : is_over ≡ false → tombstones after channel ≡ grown s channel id v known
    tombstones_room e =
        ap (λ m. get m channel [])
          (remove_message-SameTombstones.0 ∙ recorded_room s channel id v known e)
        ∙ get-insert_self channel (grown s channel id v known) [] s.deleted_messages

    tombstones_full :
        is_over ≡ true
        → tombstones after channel
          ≡ erase (gone s channel id v known).0 (grown s channel id v known)
    tombstones_full e =
        ap (λ m. get m channel [])
          (remove_message-SameTombstones.0 ∙ recorded_full s channel id v known e)
        ∙ get-insert_self channel (erase (gone s channel id v known).0 (grown s channel id v known))
            [] s.deleted_messages

    tombstones_other : (k : ℕ) → (channel == k) ≡ false → tombstones after k ≡ tombstones s k
    tombstones_other k ne = elim (Bool-cases is_over) [
      | inl full ↦
          ap (λ m. get m k [])
            (remove_message-SameTombstones.0 ∙ recorded_full s channel id v known full)
          ∙ get-insert_ne channel k _ [] s.deleted_messages ne
      | inr fits ↦
          ap (λ m. get m k [])
            (remove_message-SameTombstones.0 ∙ recorded_room s channel id v known fits)
          ∙ get-insert_ne channel k _ [] s.deleted_messages ne
    ]

    -- On a store with sound tombstones and a revision to spare, a deletion of an id that is not 0
    -- leaves a tombstone, also when an old one is evicted.
    pub message_tombstoned-remove_message : message_tombstoned after channel id ≡ true
    message_tombstoned-remove_message = elim (Bool-cases is_over) [
      | inl full ↦
          tombstoned_of after channel id (suc s.rev)
            (rw (tombstones_full full) (
              evicted_new s.history_limit s.rev id before_it (v.kept channel) known v.positive
                (over full)))
            (omega arith)
      | inr fits ↦
          tombstoned_of after channel id (suc s.rev)
            (rw (tombstones_room fits) (lookup_new s channel id v known)) (omega arith)
    ]

    -- On a store with sound tombstones and a revision to spare, a deletion forgets no other
    -- tombstone silently: a tombstone of the channel that it evicts is older than the watermark, so
    -- a request from before that deletion is reported as pruned.
    pub tombstoned-or-pruned :
        (k rev request : ℕ)
        → lookup k (tombstones s channel) ≡ some rev
        → request < rev
        → (message_tombstoned after channel k ≡ true)
          ⊎ (tombstones_pruned_since after channel request ≡ true)
    tombstoned-or-pruned k rev request e earlier =
        let live : 0 < rev = (lookup-AreStamped s.rev k before_it (v.kept channel).stamped e).1 in
        elim (Bool-cases is_over) [
          | inl full ↦
              elim (evicted_other s.history_limit s.rev id before_it (v.kept channel) known
                v.positive (over full) k rev e) [
                  | inl stays ↦
                      inl (tombstoned_of after channel k rev (rw (tombstones_full full) stays) live)
                  | inr (inl new) ↦ inl (
                      subst (λ i. message_tombstoned after channel i ≡ true) (sym new)
                        message_tombstoned-remove_message)
                  | inr (inr old) ↦ inr (
                      pruned_of after channel request (
                        omega (
                          arith,
                          pruned_full s channel id v known full,
                          ap (λ m. get m channel 0) remove_message-SameTombstones.1,
                        )))
                ]
          | inr fits ↦ elim (Bool-cases (id == k)) [
            | inl new ↦
                let k_is : id ≡ k = ground arith in
                inl (
                  subst (λ i. message_tombstoned after channel i ≡ true) k_is
                    message_tombstoned-remove_message)
            | inr old ↦ inl (
                tombstoned_of after channel k rev
                  (rw (tombstones_room fits) (lookup_old s channel id v known k old ∙ e)) live)
          ]
        ]

    abbrev KeptOf : Dict ℕ → Type 0
    KeptOf d = AreKept s.history_limit (suc s.rev) d

    kept-after : KeptOf (tombstones after channel)
    kept-after = elim (Bool-cases is_over) [
      | inl full ↦ rw (tombstones_full full) (
          evicted-AreKept s.history_limit s.rev id before_it (v.kept channel) known v.positive
            (over full))
      | inr fits ↦
          let n : length (grown s channel id v known) ≤ s.history_limit = ground arith in
          rw (tombstones_room fits) (record {
            distinct =
                new-IsDistinct s.history_limit s.rev id before_it (v.kept channel) known v.positive;
            bounded = n;
            stamped =
                new-AreStamped s.history_limit s.rev id before_it (v.kept channel) known v.positive;
          })
    ]

    kept_elsewhere : (k : ℕ) → KeptOf (tombstones s k)
    kept_elsewhere k =
        let old = v.kept k in
        record {
          distinct = old.distinct;
          bounded = old.bounded;
          stamped = AreStamped-le s.rev (suc s.rev) (tombstones s k) (omega arith) old.stamped;
        }

    -- A deletion of an id that is not 0 keeps the tombstones sound, those of each channel within the
    -- history limit.
    pub remove_message-IsSound : IsSound after
    remove_message-IsSound =
        let same = remove_message-SameTombstones in
        let limit : after.history_limit ≡ s.history_limit =
          same.3 ∙ record_tombstone-history_limit s channel id (suc s.rev) in
        record {
          positive = omega (arith, limit, v.positive);
          kept = λ k. elim (Bool-cases (channel == k)) [
            | inl here ↦
                let k_is : channel ≡ k = ground arith in
                AreKept-eq limit same.2 (ap (tombstones after) (sym k_is)) kept-after
            | inr there ↦ AreKept-eq limit same.2 (tombstones_other k there) (kept_elsewhere k)
          ];
        }

-- A new store has no tombstones.
pub new-IsSound : (limit : ℕ) → IsSound (new limit)
unfolding new lookup
new-IsSound limit = record {
  positive = ground arith;
  kept = λ k. record { distinct = tt; bounded = ground arith; stamped = tt };
}
