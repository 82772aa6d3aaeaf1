-- ===== src/Store/Ring/Tests.antt =====
-- Runs of the ring, and the theorems at concrete rings.
use mathlib.Core.List.{foldl}
use tuicord_v.Base.{
  get_elem?, ℕ, ◌≡◌, refl, true, false, List, [], ◌∷◌, keep_last, max, remove_first, arith,
}
use tuicord_v.Store.Message.{Message, zero_message}
use tuicord_v.Store.Rich.{Reaction}
use tuicord_v.Store.Ring.Patch.{Patches}
use tuicord_v.Store.Ring.Push.{push-IsValid, slice-pushes-new_ring}
use tuicord_v.Store.Ring.Reactions.Laws.{AreDistinct, add_reaction-Patches}
use tuicord_v.Store.Ring.Reactions.{merge_reaction, add_reaction}
use tuicord_v.Store.Ring.Remove.{oldest-remove_by_id, slice-remove_by_id}
use tuicord_v.Store.Ring.Window.{IsValid}
use tuicord_v.Store.Ring.{
  Ring, slice, copy_from, push, new_ring, find_from, index_by_id, shift_from, remove_by_id, has_id,
}

program : Unit {0}
unfolding slice copy_from push new_ring find_from index_by_id shift_from remove_by_id
program = tt

abbrev message : ℕ → Message
message n = record zero_message { id = n; nonce = "n"; rev = n }

-- Three messages in a ring of three, which it has turned once.
abbrev full : Ring
full = record { buf = message 4 ∷ message 2 ∷ message 3 ∷ []; rev = 4; start = 1; size = 3 }

full-IsValid : IsValid full
full-IsValid = omega arith

full_pushed : foldl push (new_ring 3) (message 1 ∷ message 2 ∷ message 3 ∷ message 4 ∷ []) ≡ full
unfolding program
full_pushed = refl

slice_of_full : slice full ≡ message 2 ∷ message 3 ∷ message 4 ∷ []
unfolding program
slice_of_full = refl

-- The newest message of a full ring is removed: the oldest goes too, and the middle one is doubled.
remove_newest : slice (remove_by_id full 4 9).0 ≡ message 3 ∷ message 3 ∷ []
unfolding program
remove_newest = refl

remove_middle : slice (remove_by_id full 3 9).0 ≡ message 2 ∷ message 4 ∷ []
unfolding program
remove_middle = refl

slice-pushes-new_ring_example :
    slice (foldl push (new_ring 2) (message 1 ∷ message 2 ∷ message 3 ∷ []))
    ≡ keep_last (max 2 1) (message 1 ∷ message 2 ∷ message 3 ∷ [])
slice-pushes-new_ring_example = slice-pushes-new_ring 2 (message 1 ∷ message 2 ∷ message 3 ∷ [])

push-IsValid_example : IsValid (push full (message 5))
push-IsValid_example = push-IsValid full (message 5) full-IsValid

slice-remove_by_id_example : slice (remove_by_id full 3 9).0 ≡ remove_first (has_id 3) (slice full)
unfolding program
slice-remove_by_id_example = slice-remove_by_id full 3 9 1 full-IsValid refl (omega arith)

abbrev pin : Message → Message
pin m = record m { pinned = true }

abbrev thumb : Reaction
thumb = record { emoji_name = "thumb"; emoji_id = 0; animated = false; count = 1; me = true }

abbrev others : List Reaction
others = record thumb { count = 2; me = false } ∷ record thumb { emoji_name = "eyes" } ∷ []

others-AreDistinct : AreDistinct others
others-AreDistinct = (omega arith, refl, (omega arith, refl, tt))

add_reaction-Patches_example :
    Patches
      (has_id 3)
      (λ m. record m { reactions = merge_reaction thumb m.reactions; rev = 9 })
      full
      (add_reaction full 3 thumb 9)
add_reaction-Patches_example = add_reaction-Patches full 3 thumb 9 full-IsValid

oldest-remove_by_id_example :
    get_elem? (slice (remove_by_id full 4 9).0) 0 ≡ get_elem? (slice full) 1
unfolding program
oldest-remove_by_id_example = oldest-remove_by_id full 4 9 2 full-IsValid refl (omega arith)
