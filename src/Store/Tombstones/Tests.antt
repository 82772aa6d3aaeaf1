-- ===== src/Store/Tombstones/Tests.antt =====
-- A third deletion in a store that keeps two tombstones for each channel.
use tuicord_v.Base.Dict.{lookup, insert, erase}
use tuicord_v.Base.{◌≡◌, refl, true, [], ◌∷◌, ◌⊎◌, arith}
use tuicord_v.Store.State.{Store, new, increment, next_revision}
use tuicord_v.Store.Tombstones.Bounds.{IsSound}
use tuicord_v.Store.Tombstones.Deletion.{
  message_tombstoned-remove_message, tombstoned-or-pruned, remove_message-IsSound, new-IsSound,
}
use tuicord_v.Store.Tombstones.{
  tombstones, message_tombstoned, tombstones_pruned_since, oldest_from, record_tombstone,
  remove_from_ring, remove_message,
}

program : Unit {0}
unfolding new increment next_revision message_tombstoned tombstones_pruned_since oldest_from
    record_tombstone remove_from_ring remove_message lookup insert erase
program = tt

abbrev one : Store
one = (remove_message (new 2) 7 5).0

abbrev two : Store
two = (remove_message one 7 6).0

one-IsSound : IsSound one
unfolding program
one-IsSound = remove_message-IsSound (new 2) 7 5 (omega arith) (omega arith) (new-IsSound 2)

two-IsSound : IsSound two
unfolding program
two-IsSound = remove_message-IsSound one 7 6 (omega arith) (omega arith) one-IsSound

-- The tombstone of 5 goes, and the watermark is its revision.
third : tombstones (remove_message two 7 4).0 7 ≡ (4, 3) ∷ (6, 2) ∷ []
unfolding program
third = refl

third_pruned : tombstones_pruned_since (remove_message two 7 4).0 7 0 ≡ true
unfolding program
third_pruned = refl

message_tombstoned-remove_message_example : message_tombstoned (remove_message two 7 4).0 7 4 ≡ true
unfolding program
message_tombstoned-remove_message_example =
    message_tombstoned-remove_message two 7 4 (omega arith) (omega arith) two-IsSound

tombstoned-or-pruned_example :
    (message_tombstoned (remove_message two 7 4).0 7 5 ≡ true)
    ⊎ (tombstones_pruned_since (remove_message two 7 4).0 7 0 ≡ true)
unfolding program
tombstoned-or-pruned_example =
    tombstoned-or-pruned two 7 4 (omega arith) (omega arith) two-IsSound 5 1 0 refl (omega arith)
