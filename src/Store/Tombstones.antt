-- ===== src/Store/Tombstones.antt =====
-- internal/store: the tombstones of deleted messages, a bounded map for each channel.
pub mod Oldest
pub mod Bounds
pub mod Deletion
mod Tests
use tuicord_v.Base.Dict.{Dict, lookup, insert, erase, get}
use tuicord_v.Base.{
  ℕ, Bool, true, false, ◌&&◌, ◌||◌, not, List, [], ◌∷◌, none, some, length, ltb, ◌==◌,
  if◌then◌else◌,
}
use tuicord_v.Store.Ring.{Ring, remove_by_id}
use tuicord_v.Store.State.{Store, next_revision}

abbrev pub tombstones : Store → ℕ → Dict ℕ
tombstones s channel = get s.deleted_messages channel []

unfoldable pub message_tombstoned : Store → ℕ → ℕ → Bool
message_tombstoned s channel message = not (get (tombstones s channel) message 0 == 0)

unfoldable pub tombstones_pruned_since : Store → ℕ → ℕ → Bool
tombstones_pruned_since s channel request_revision =
    ltb request_revision (get s.pruned_delete_revision channel 0)

unfoldable pub message_tombstone_count : Store → ℕ → ℕ
message_tombstone_count s channel = length (tombstones s channel)

unfoldable pub clear_message_tombstone : Store → ℕ → ℕ → Store
clear_message_tombstone s channel message =
    let deleted = erase message (tombstones s channel) in
    if message == 0 then s else record s {
      deleted_messages =
          if length deleted == 0
          then erase channel s.deleted_messages
          else insert channel deleted s.deleted_messages;
    }

-- The loop for the oldest tombstone: an id and a revision, the id 0 before the first entry.
unfoldable pub oldest_from : Dict ℕ → ℕ → ℕ → ℕ × ℕ
oldest_from [] id rev = (id, rev)
oldest_from ((message, revision) ∷ entries) id rev =
    let older = id == 0 || ltb revision rev || (revision == rev && ltb message id) in
    oldest_from entries (if older then message else id) (if older then revision else rev)

-- A tombstone is recorded, and past the limit the oldest goes and its revision is remembered.
unfoldable pub record_tombstone : Store → ℕ → ℕ → ℕ → Store
record_tombstone s channel id rev =
    let deleted = insert id rev (tombstones s channel) in
    let (oldest, revision) = oldest_from deleted 0 0 in
    let pruned = record s {
      deleted_messages = insert channel (erase oldest deleted) s.deleted_messages;
      pruned_delete_revision =
          if ltb (get s.pruned_delete_revision channel 0) revision
          then insert channel revision s.pruned_delete_revision
          else s.pruned_delete_revision;
    } in
    if ltb s.history_limit (length deleted)
    then pruned
    else record s { deleted_messages = insert channel deleted s.deleted_messages }

-- The message goes from its ring.
unfoldable pub remove_from_ring : Store → ℕ → ℕ → ℕ → Store × Bool
remove_from_ring s channel id rev = elim (lookup channel s.messages) [
  | none ↦ (s, false)
  | some r ↦
      let (without_it, found) = remove_by_id r id rev in
      (record s { messages = insert channel without_it s.messages }, found)
]

unfoldable pub remove_message : Store → ℕ → ℕ → Store × Bool
remove_message s channel id =
    let (counted, rev) = next_revision s in
    if id == 0
    then (s, false)
    else remove_from_ring (record_tombstone counted channel id rev) channel id rev
