-- ===== src/Store/Ring/Reactions.antt =====
-- internal/store/ring.go: the reactions of one message.
pub mod Laws
use text.Mathlib.Text.{◌==◌ as str_eq}
use mathlib.Core.Option
use text.Mathlib.TextPositions.{eq_refl}
use tuicord_v.Base.{
  ℕ, zero, suc, ◌+◌, ◌-◌, ◌≤◌, ◌<◌, ◌≡◌, refl, ap, Bool, true, false, ◌&&◌, ◌||◌, not, List, [],
  ◌∷◌, ◌++◌, Option, none, some, String, get_or, set, leb, ◌==◌, if◌then◌else◌, arith, any,
  Bool-cases, inl, inr,
}
use tuicord_v.Store.Message.{Message, zero_message}
use tuicord_v.Store.Rich.{Reaction}
use tuicord_v.Store.Ring.{Ring, index_by_id}

-- `rx.EmojiName == name && rx.EmojiID == id`.
abbrev pub same_emoji : String → ℕ → Reaction → Bool
same_emoji name id rx = str_eq rx.emoji_name name && rx.emoji_id == id

-- The loop of `addReaction`: the matching entry counts one more, or the reaction is appended.
unfoldable pub merge_reaction : Reaction → List Reaction → List Reaction
merge_reaction react [] = react ∷ []
merge_reaction react (rx ∷ rest) =
    let later = merge_reaction react rest in
    if same_emoji react.emoji_name react.emoji_id rx
    then record rx { count = rx.count + 1; me = (if react.me then true else rx.me) } ∷ rest
    else rx ∷ later

unfoldable pub add_reaction : Ring → ℕ → Reaction → ℕ → Ring × Bool
add_reaction r id react rev = elim (index_by_id r id) [
  | none ↦ (r, false)
  | some i ↦
      let msg = get_or r.buf i zero_message in
      let patched = record msg { reactions = merge_reaction react msg.reactions; rev = rev } in
      (record r { buf = set r.buf i patched; rev = rev }, true)
]

-- The loop of `removeReaction`: nothing when no entry matches. A count is never negative, so
-- `rx.Count--; if rx.Count <= 0` is a count of at most 1.
unfoldable pub drop_reaction : String → ℕ → Bool → List Reaction → Option (List Reaction)
drop_reaction name id me [] = none
drop_reaction name id me (rx ∷ rest) =
    let later = Option.map (◌∷◌ rx) (drop_reaction name id me rest) in
    let lowered = record rx { count = rx.count - 1; me = (if me then false else rx.me) } in
    if not (same_emoji name id rx)
    then later
    else some (if leb rx.count 1 then rest else lowered ∷ rest)

unfoldable pub remove_reaction : Ring → ℕ → String → ℕ → Bool → ℕ → Ring × Bool
remove_reaction r id name emoji_id me rev = elim (index_by_id r id) [
  | none ↦ (r, false)
  | some i ↦
      let msg = get_or r.buf i zero_message in
      elim (drop_reaction name emoji_id me msg.reactions) [
        | none ↦ (r, false)
        | some kept ↦ (
          record r { buf = set r.buf i (record msg { reactions = kept; rev = rev }); rev = rev },
          true,
        )
      ]
]

-- The loop of `removeReactionEmoji`.
unfoldable pub drop_emoji : String → ℕ → List Reaction → Option (List Reaction)
drop_emoji name id [] = none
drop_emoji name id (rx ∷ rest) =
    let later = Option.map (◌∷◌ rx) (drop_emoji name id rest) in
    if not (same_emoji name id rx) then later else some rest

unfoldable pub remove_reaction_emoji : Ring → ℕ → String → ℕ → ℕ → Ring × Bool
remove_reaction_emoji r id name emoji_id rev = elim (index_by_id r id) [
  | none ↦ (r, false)
  | some i ↦
      let msg = get_or r.buf i zero_message in
      elim (drop_emoji name emoji_id msg.reactions) [
        | none ↦ (r, false)
        | some kept ↦ (
          record r { buf = set r.buf i (record msg { reactions = kept; rev = rev }); rev = rev },
          true,
        )
      ]
]
