-- ===== src/Store/Channels/PingSteps.antt =====
-- The pings of the guilds over a run of operations.
use tuicord_v.Base.Dict.{lookup, insert, erase, get, lookup-erase, lookup-insert}
use tuicord_v.Base.{
  ℕ, ◌≡◌, refl, ◌||◌, none, some, leb, ◌==◌, arith, Bool-cases, inl, inr, Option-cases,
}
use tuicord_v.Store.Channels.Pings.{
  SamePings, AreSummed-same, IsSettled, upsert_channel-AreSummed, remove_channel-AreSummed,
  pings_in-set,
}
use tuicord_v.Store.Channels.{upsert_channel, remove_channel}
use tuicord_v.Store.Data.{Channel}
use tuicord_v.Store.History.{update_last_message, push_message, append_message}
use tuicord_v.Store.Message.{Message}
use tuicord_v.Store.State.{Store, new, next_revision}
use tuicord_v.Store.Tombstones.{clear_message_tombstone}
use tuicord_v.Store.Unread.Sums.{
  pings_in, pings_in-erase, AreSummed, clear_ping-AreSummed, increment_ping-AreSummed,
}
use tuicord_v.Store.Unread.{increment_ping, increment_unread, clear_unread, guild_pings}

-- A known channel is replaced in its guild.
set-AreSummed :
    (s : Store) (id : ℕ) (c d : Channel)
    → lookup id s.channels ≡ some c
    → d.guild_id ≡ c.guild_id
    → AreSummed s
    → AreSummed (record s { channels = insert id d s.channels })
unfolding guild_pings
set-AreSummed s id c d known same v =
    let now = insert id d s.channels in
    let rest = erase id s.pings in
    let gone : lookup id rest ≡ none = ground (arith, lookup-erase id id s.pings) in
    let set : lookup id now ≡ some d = ground (arith, lookup-insert id id d s.channels) in
    record {
      distinct = v.distinct;
      summed = λ guild. ground (
        arith,
        known,
        same,
        set,
        v.summed guild,
        pings_in-erase s.channels guild id s.pings v.distinct,
        pings_in-erase now guild id s.pings v.distinct,
        pings_in-set s.channels d id guild rest gone,
      );
    }

update_last_message-AreSummed :
    (s : Store) (channel message : ℕ)
    → AreSummed s
    → AreSummed (update_last_message s channel message)
unfolding update_last_message
update_last_message-AreSummed s channel message v =
    let latest = get s.latest_message channel 0 in
    let known = record s { latest_message = insert channel message s.latest_message } in
    let w : AreSummed known = AreSummed-same known s (refl, refl, refl) v in
    elim (Bool-cases (message == 0 || leb message latest)) [
      | inl old ↦ rw old v
      | inr newer ↦ elim (Option-cases (lookup channel s.channels)) [
        | inl unknown ↦ rw (newer, unknown, update_last_message) w
        | inr (c, there) ↦ elim (Bool-cases (leb message c.last_message_id)) [
          | inl stale ↦ rw (newer, there, update_last_message) (rw stale w)
          | inr active ↦
              rw (newer, there, update_last_message)
                (rw active (
                  set-AreSummed known channel c (record c { last_message_id = message }) there refl
                    w))
        ]
      ]
    ]

clear_message_tombstone-SamePings :
    (s : Store) (channel message : ℕ) → SamePings (clear_message_tombstone s channel message) s
unfolding clear_message_tombstone
clear_message_tombstone-SamePings s channel message = elim (Bool-cases (message == 0)) [
  | inl unnamed ↦ rw unnamed (refl, refl, refl)
  | inr named ↦ rw named (refl, refl, refl)
]

push_message-SamePings : (s : Store) (m : Message) → SamePings (push_message s m) s
unfolding push_message next_revision
push_message-SamePings s m = (refl, refl, refl)

append_message-AreSummed : (s : Store) (m : Message) → AreSummed s → AreSummed (append_message s m)
unfolding append_message
append_message-AreSummed s m v =
    let pushed = push_message s m in
    let cleared = clear_message_tombstone pushed m.channel_id m.id in
    update_last_message-AreSummed cleared m.channel_id m.id (
      AreSummed-same cleared pushed (clear_message_tombstone-SamePings pushed m.channel_id m.id)
        (AreSummed-same pushed s (push_message-SamePings s m) v))

clear_unread-AreSummed :
    (s : Store) (channel : ℕ) → AreSummed s → AreSummed (clear_unread s channel)
unfolding clear_unread
clear_unread-AreSummed s channel v =
    let read = record s { unread = erase channel s.unread } in
    clear_ping-AreSummed read channel (AreSummed-same read s (refl, refl, refl) v)

increment_unread-SamePings : (s : Store) (channel : ℕ) → SamePings (increment_unread s channel) s
unfolding increment_unread
increment_unread-SamePings s channel = (refl, refl, refl)

-- The operations of a session on the pings; a channel that is put into a guild is settled.
pub data Step (s : Store) : Store → Type 0 where
  ping : (channel : ℕ) → Step s (increment_ping s channel)
  unread : (channel : ℕ) → Step s (increment_unread s channel)
  read : (channel : ℕ) → Step s (clear_unread s channel)
  append : (m : Message) → Step s (append_message s m)
  upsert : (c : Channel) → IsSettled s c → Step s (upsert_channel s c)
  remove : (id : ℕ) → Step s (remove_channel s id)

pub data Reach (s : Store) : Store → Type 0 where
  here : Reach s s
  next : {t u : Store} → Reach s t → Step t u → Reach s u

Step-AreSummed : {s t : Store} → Step s t → AreSummed s → AreSummed t
Step-AreSummed {s} (ping channel) v = increment_ping-AreSummed s channel v
Step-AreSummed {s} (unread channel) v =
    AreSummed-same (increment_unread s channel) s (increment_unread-SamePings s channel) v
Step-AreSummed {s} (read channel) v = clear_unread-AreSummed s channel v
Step-AreSummed {s} (append m) v = append_message-AreSummed s m v
Step-AreSummed {s} (upsert c settled) v = upsert_channel-AreSummed s c settled v
Step-AreSummed {s} (remove id) v = remove_channel-AreSummed s id v

new-AreSummed : (limit : ℕ) → AreSummed (new limit)
unfolding new guild_pings pings_in lookup
new-AreSummed limit = record { distinct = tt; summed = λ guild. refl }

from-AreSummed : {s t : Store} → AreSummed s → Reach s t → AreSummed t
from-AreSummed v here = v
from-AreSummed v (next r st) = Step-AreSummed st (from-AreSummed v r)

-- However pings, messages, reads, upserts and removals of channels follow one another from a new store,
-- the pings of every guild are the sum of those of its known channels, provided that no channel is
-- upserted with pings of its own into a guild where it is not known.
pub Reach-AreSummed : (limit : ℕ) {t : Store} → Reach (new limit) t → AreSummed t
Reach-AreSummed limit r = from-AreSummed (new-AreSummed limit) r
