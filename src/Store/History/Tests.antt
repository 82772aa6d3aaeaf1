-- ===== src/Store/History/Tests.antt =====
-- An older page before a history of three messages, in a store that holds four.
use tuicord_v.Base.Dict.{lookup, insert, erase}
use tuicord_v.Base.{
  ℕ, ◌≤◌, ◌≡◌, refl, List, [], ◌∷◌, filter, keep_last, arith, max, if◌then◌else◌, ◌==◌, map,
}
use tuicord_v.Store.History.Page.{
  count, newest_protected, is_protected, admitted, mark_protected, mark_recent, mark_oldest,
  marked_messages, recent_budget, window, push_all, replace_messages, combine,
  prepend_messages_since,
}
use tuicord_v.Store.History.Paging.{
  stamped, copies, messages-prepend_messages_since, copies-prepend_messages_since,
}
use tuicord_v.Store.History.Window.{filter-window, window_head}
use tuicord_v.Store.History.{messages, push_message, append_message, update_last_message}
use tuicord_v.Store.Message.{Message, zero_message}
use tuicord_v.Store.Ring.{
  new_ring, push, slice, copy_from, remove_by_id, index_by_id, find_from, shift_from,
}
use tuicord_v.Store.State.{Store, new, increment, next_revision}
use tuicord_v.Store.Tombstones.{
  clear_message_tombstone, message_tombstoned, oldest_from, record_tombstone, remove_from_ring,
  remove_message,
}

program : Unit {0}
unfolding count newest_protected admitted mark_protected mark_recent mark_oldest marked_messages
    recent_budget window push_all replace_messages combine prepend_messages_since messages
    push_message append_message update_last_message new_ring push slice copy_from new increment
    next_revision clear_message_tombstone message_tombstoned oldest_from record_tombstone
    remove_from_ring remove_message lookup insert erase remove_by_id index_by_id find_from
    shift_from
program = tt

abbrev message : ℕ → Message
message n = record zero_message { id = n; channel_id = 7 }

-- Messages 5 and 6 come, 4 is deleted, and 8 comes after the request at the revision 3.
abbrev session : Store
session =
    append_message
      (remove_message (append_message (append_message (new 4) (message 5)) (message 6)) 7 4).0
      (message 8)

abbrev older : List Message
older = message 2 ∷ message 3 ∷ message 4 ∷ message 5 ∷ []

ids : List Message → List ℕ
ids ms = map (λ (m : Message). m.id) ms

-- The deleted 4 and the known 5 are left out; of 2, 3, 5, 6 and 8 the oldest and the newest stay.
page_installed : ids (messages (prepend_messages_since session 7 older 3) 7) ≡ 2 ∷ 5 ∷ 6 ∷ 8 ∷ []
unfolding program ids
page_installed = refl

messages-prepend_messages_since_example : messages (prepend_messages_since session 7 older 3) 7 ≡ (
    if 7 == 7
    then stamped 7 session.rev (window 4 (is_protected 3) (combine session 7 older))
    else messages session 7)
unfolding program
messages-prepend_messages_since_example =
    messages-prepend_messages_since session 7 (omega arith) 7 older 3 (cc)

copies-prepend_messages_since_example :
    copies 4 (messages (prepend_messages_since session 7 older 3) 7) ≤ (
      if message_tombstoned session 7 4
      then copies 4 (messages session 7)
      else max 1 (copies 4 (messages session 7)))
unfolding program
copies-prepend_messages_since_example =
    copies-prepend_messages_since session 7 older 3 4 (omega arith) (omega arith)

abbrev five : List Message
five = message 2 ∷ message 3 ∷ message 5 ∷ message 6 ∷ record (message 8) { rev = 4 } ∷ []

filter-window_example :
    filter (is_protected 3) (window 4 (is_protected 3) five)
    ≡ keep_last 4 (filter (is_protected 3) five)
filter-window_example = filter-window 4 (is_protected 3) five

window_head_example :
    (rest : List Message) × (window 4
        (is_protected 3)
        (message 2 ∷ message 3 ∷ message 5 ∷ message 6 ∷ record (message 8) { rev = 4 } ∷ [])
      ≡ message 2 ∷ rest)
unfolding program
window_head_example =
    window_head 4 (is_protected 3) (message 2)
      (message 3 ∷ message 5 ∷ message 6 ∷ record (message 8) { rev = 4 } ∷ []) (omega arith)
