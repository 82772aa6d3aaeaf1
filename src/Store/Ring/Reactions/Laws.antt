-- ===== src/Store/Ring/Reactions/Laws.antt =====
-- The reactions of a message: one entry for an emoji, each with a positive count.
use text.Mathlib.TextEquality.{eq_iff}
use text.Mathlib.TextPositions.{eq_refl}
use tuicord_v.Base.{
  ℕ, ◌≤◌, ◌≡◌, Bool, true, false, List, [], ◌∷◌, Option, none, some, String, arith, any,
}
use tuicord_v.Store.Rich.{Reaction}
use tuicord_v.Store.Ring.Patch.{Patches, patch_first}
use tuicord_v.Store.Ring.Reactions.{same_emoji, merge_reaction, drop_reaction, add_reaction}
use tuicord_v.Store.Ring.Window.{IsValid}
use tuicord_v.Store.Ring.{Ring, has_id, index_by_id}

-- One entry for an emoji, and each entry counts at least one.
abbrev pub AreDistinct : List Reaction → Type 0
AreDistinct [] = Unit {0}
AreDistinct (rx ∷ rest) =
    (1 ≤ rx.count) × (any (same_emoji rx.emoji_name rx.emoji_id) rest ≡ false) × AreDistinct rest

-- The entry of the emoji, if there is one, is not yet the account's own when `me` is.
abbrev pub NotYetMine : Reaction → List Reaction → Type 0
NotYetMine react [] = Unit {0}
NotYetMine react (rx ∷ rest) =
    (same_emoji react.emoji_name react.emoji_id rx ≡ true → react.me ≡ true → rx.me ≡ false)
    × NotYetMine react rest

same_emoji_refl : (rx : Reaction) → same_emoji rx.emoji_name rx.emoji_id rx ≡ true
same_emoji_refl rx = ground (arith, eq_refl rx.emoji_name)

-- A reaction of count one that is merged into a list with one entry for an emoji, none of them yet
-- the account's own where the reaction is, and is then taken back leaves the list as it was.
pub drop_reaction-merge_reaction :
    (react : Reaction) (l : List Reaction)
    → react.count ≡ 1
    → AreDistinct l
    → NotYetMine react l
    → drop_reaction react.emoji_name react.emoji_id react.me (merge_reaction react l) ≡ some l
unfolding drop_reaction merge_reaction
drop_reaction-merge_reaction react [] one d n = ground (arith, same_emoji_refl react)
drop_reaction-merge_reaction react (rx ∷ rest) one d n =
    ground (arith, drop_reaction-merge_reaction react rest)

any-merge_reaction :
    (rx react : Reaction) (l : List Reaction)
    → same_emoji rx.emoji_name rx.emoji_id react ≡ false
    → any (same_emoji rx.emoji_name rx.emoji_id) l ≡ false
    → any (same_emoji rx.emoji_name rx.emoji_id) (merge_reaction react l) ≡ false
unfolding merge_reaction
any-merge_reaction rx react [] h a = ground arith
any-merge_reaction rx react (x ∷ rest) h a = ground (arith, any-merge_reaction rx react rest)

same_emoji_comm :
    (a b : Reaction) → same_emoji a.emoji_name a.emoji_id b ≡ same_emoji b.emoji_name b.emoji_id a
same_emoji_comm a b =
    ground (arith, eq_iff a.emoji_name b.emoji_name, eq_iff b.emoji_name a.emoji_name)

-- Merging a reaction of a positive count keeps one entry for an emoji, each of a positive count.
pub merge_reaction-AreDistinct :
    (react : Reaction) (l : List Reaction)
    → 1 ≤ react.count
    → AreDistinct l
    → AreDistinct (merge_reaction react l)
unfolding merge_reaction
merge_reaction-AreDistinct react [] c d = ground arith
merge_reaction-AreDistinct react (rx ∷ rest) c d = ground (
  arith,
  merge_reaction-AreDistinct react rest c d.2,
  any-merge_reaction rx react rest,
  same_emoji_comm react rx,
)

abbrev Kept : (List Reaction → Type 0) → Option (List Reaction) → Type 0
Kept P none = Unit {0}
Kept P (some l) = P l

any-drop_reaction :
    (rx : Reaction) (name : String) (id : ℕ) (me : Bool) (l : List Reaction)
    → any (same_emoji rx.emoji_name rx.emoji_id) l ≡ false
    → Kept (λ k. any (same_emoji rx.emoji_name rx.emoji_id) k ≡ false) (drop_reaction name id me l)
unfolding drop_reaction
any-drop_reaction rx name id me [] h = tt
any-drop_reaction rx name id me (x ∷ rest) h = ground (arith, any-drop_reaction rx name id me rest)

drop_reaction-Kept :
    (name : String) (id : ℕ) (me : Bool) (l : List Reaction)
    → AreDistinct l
    → Kept AreDistinct (drop_reaction name id me l)
unfolding drop_reaction
drop_reaction-Kept name id me [] d = tt
drop_reaction-Kept name id me (rx ∷ rest) d =
    ground (arith, drop_reaction-Kept name id me rest d.2, any-drop_reaction rx name id me rest d.1)

-- So does taking one back.
pub drop_reaction-AreDistinct :
    (name : String) (id : ℕ) (me : Bool) (l : List Reaction) {kept : List Reaction}
    → AreDistinct l
    → drop_reaction name id me l ≡ some kept
    → AreDistinct kept
drop_reaction-AreDistinct name id me l d e = rw e at (drop_reaction-Kept name id me l d)

-- `addReaction` merges the reaction into the first message with the id, and stamps it.
pub add_reaction-Patches :
    (r : Ring) (id : ℕ) (react : Reaction) (rev : ℕ)
    → IsValid r
    → Patches
        (has_id id)
        (λ m. record m { reactions = merge_reaction react m.reactions; rev = rev })
        r
        (add_reaction r id react rev)
unfolding add_reaction index_by_id
add_reaction-Patches r id react rev v =
    patch_first (has_id id)
      (λ m. record m { reactions = merge_reaction react m.reactions; rev = rev }) rev r v
