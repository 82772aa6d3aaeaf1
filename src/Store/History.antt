-- ===== src/Store/History.antt =====
-- internal/store/store.go and mutation.go: the message histories of the channels.
pub mod Page
pub mod Window
pub mod Paging
mod Tests
use package.text.Mathlib.Text.{◌==◌ as str_eq}
use mathlib.Core.List.{foldl}
use tuicord_v.Base.Dict.{Dict, lookup, insert, erase, get, or_else}
use tuicord_v.Base.{
  ℕ, ◌+◌, ◌-◌, ◌%◌, Bool, true, false, ◌&&◌, ◌||◌, not, List, [], ◌∷◌, ◌++◌, Option, none, some,
  String, length, get_or, ltb, leb, ◌==◌, if◌then◌else◌, filter, any,
}
use tuicord_v.Store.Data.{Channel}
use tuicord_v.Store.Message.{Message, zero_message}
use tuicord_v.Store.Rich.{
  Reaction, ComponentFields, ComponentNode, ComponentNodes, Accessory, ComponentState, node,
  no_nodes, cons_node, no_accessory, accessory,
}
use tuicord_v.Store.Ring.Reactions.{
  add_reaction as ring_add_reaction, remove_reaction as ring_remove_reaction,
  remove_reaction_emoji as ring_remove_reaction_emoji,
}
use tuicord_v.Store.Ring.{
  Ring, cap, new_ring, push, slice, index_by_id, replace_by_nonce, mark_failed as ring_mark_failed,
  update_by_id,
}
use tuicord_v.Store.State.{Store, next_revision}
use tuicord_v.Store.Tombstones.{clear_message_tombstone}

-- `Messages`.
unfoldable pub messages : Store → ℕ → List Message
messages s channel = elim (lookup channel s.messages) [ none ↦ [] | some r ↦ slice r ]

unfoldable pub msg_rev : Store → ℕ → ℕ
msg_rev s channel = elim (lookup channel s.messages) [ none ↦ 0 | some r ↦ r.rev ]

-- `Message{}, false` is `none`.
unfoldable pub last_msg : Store → ℕ → Option Message
last_msg s channel = elim (lookup channel s.messages) [
  | none ↦ none
  | some r ↦
      if r.size == 0
      then none
      else some (get_or r.buf ((r.start + r.size - 1) % cap r) zero_message)
]

unfoldable pub msg_edges : Store → ℕ → ℕ × ℕ
msg_edges s channel = elim (lookup channel s.messages) [
  | none ↦ (0, 0)
  | some r ↦
      let first = get_or r.buf r.start zero_message in
      let last = get_or r.buf ((r.start + r.size - 1) % cap r) zero_message in
      if r.size == 0 then (0, 0) else (first.id, last.id)
]

unfoldable pub has_message : Store → ℕ → ℕ → Bool
has_message s channel id = elim (lookup channel s.messages) [
  | none ↦ false
  | some r ↦ elim (index_by_id r id) [ none ↦ false | some _ ↦ true ]
]

unfoldable pub update_last_message : Store → ℕ → ℕ → Store
update_last_message s channel message =
    let known = record s { latest_message = insert channel message s.latest_message } in
    if message == 0 || leb message (get s.latest_message channel 0)
    then s
    else elim (lookup channel s.channels) [
      | none ↦ known
      | some c ↦
          let active = record c { last_message_id = message } in
          if leb message c.last_message_id
          then known
          else record known { channels = insert channel active s.channels }
    ]

-- The message goes into its channel's ring, which is made if there is none.
unfoldable pub push_message : Store → Message → Store
push_message s m =
    let r = or_else (lookup m.channel_id s.messages) (new_ring s.history_limit) in
    let (counted, rev) = next_revision s in
    record counted { messages = insert m.channel_id (push r (record m { rev = rev })) s.messages }

unfoldable pub append_message : Store → Message → Store
append_message s m =
    let cleared = clear_message_tombstone (push_message s m) m.channel_id m.id in
    update_last_message cleared m.channel_id m.id

abbrev pub confirms : List Message → String → Bool
confirms incoming nonce =
    not (str_eq nonce "") && any (λ (m : Message). str_eq m.nonce nonce) incoming

-- The loop of `unconfirmedEchoes`.
unfoldable pub unconfirmed_echoes : Store → ℕ → List Message → List Message
unfolding messages
unconfirmed_echoes s channel incoming =
    filter (λ (m : Message). (m.pending || m.failed) && not (confirms incoming m.nonce))
      (messages s channel)

-- The loop of `SetMessages` over the page.
unfoldable pub push_page : Store → ℕ → Ring → List Message → Store × Ring
push_page s channel r [] = (s, r)
push_page s channel r (m ∷ page) =
    let (counted, rev) = next_revision s in
    push_page (clear_message_tombstone counted channel m.id) channel
      (push r (record m { channel_id = channel; rev = rev })) page

unfoldable pub set_messages : Store → ℕ → List Message → Store
set_messages s channel page =
    let echoes = unconfirmed_echoes s channel page in
    let (pushed, r) = push_page s channel (new_ring s.history_limit) page in
    if length page == 0 && length echoes == 0
    then record s { messages = erase channel s.messages }
    else record pushed { messages = insert channel (foldl push r echoes) pushed.messages }

-- A method of a ring that takes a fresh revision, on the ring of a channel.
unfoldable pub on_ring : Store → ℕ → (Ring → ℕ → Ring × Bool) → Store × Bool
on_ring s channel method = elim (lookup channel s.messages) [
  | none ↦ (s, false)
  | some r ↦
      let (counted, rev) = next_revision s in
      let (changed, found) = method r rev in
      (record counted { messages = insert channel changed s.messages }, found)
]

unfoldable pub replace_message : Store → String → Message → Store × Bool
replace_message s nonce confirmed =
    let (replaced, found) =
      on_ring s confirmed.channel_id
        (λ r rev. replace_by_nonce r nonce (record confirmed { rev = rev })) in
    let cleared = clear_message_tombstone replaced confirmed.channel_id confirmed.id in
    if str_eq nonce ""
    then (s, false)
    else if found
    then (update_last_message cleared confirmed.channel_id confirmed.id, true)
    else (replaced, false)

unfoldable pub mark_failed : Store → ℕ → String → Store × Bool
mark_failed s channel nonce = on_ring s channel (λ r rev. ring_mark_failed r nonce rev)

unfoldable pub update_message : Store → ℕ → ℕ → (Message → Message) → Store × Bool
update_message s channel id patch = on_ring s channel (λ r rev. update_by_id r id patch rev)

unfoldable pub set_message_pinned : Store → ℕ → ℕ → Bool → Store × Bool
set_message_pinned s channel id pinned =
    update_message s channel id (λ m. record m { pinned = pinned })

-- `acc.CustomID == customID`, on the accessory itself.
abbrev pub set_state : String → ComponentState → ComponentFields → ComponentFields
set_state custom_id state f = if str_eq f.custom_id custom_id then record f { state = state } else f

abbrev pub set_accessory_state : String → ComponentState → Accessory → Accessory
set_accessory_state custom_id state no_accessory = no_accessory
set_accessory_state custom_id state (accessory (node f children acc)) =
    accessory (node (set_state custom_id state f) children acc)

unfoldable mutual
  pub set_component_node_state : String → ComponentState → ComponentNodes → ComponentNodes
  set_component_node_state custom_id state no_nodes = no_nodes
  set_component_node_state custom_id state (cons_node n nodes) =
      cons_node (set_node_state custom_id state n) (set_component_node_state custom_id state nodes)

  pub set_node_state : String → ComponentState → ComponentNode → ComponentNode
  set_node_state custom_id state (node f children acc) =
      node (set_state custom_id state f) (set_component_node_state custom_id state children)
        (set_accessory_state custom_id state acc)

unfoldable pub set_component_state : Store → ℕ → ℕ → String → ComponentState → Store × Bool
set_component_state s channel id custom_id state =
    if str_eq custom_id ""
    then (s, false)
    else update_message s channel id (λ m. record m {
      component_tree = set_component_node_state custom_id state m.component_tree;
    })

unfoldable pub add_reaction : Store → ℕ → ℕ → Reaction → Store × Bool
add_reaction s channel id react = on_ring s channel (λ r rev. ring_add_reaction r id react rev)

unfoldable pub remove_reaction : Store → ℕ → ℕ → String → ℕ → Bool → Store × Bool
remove_reaction s channel id emoji_name emoji_id me =
    on_ring s channel (λ r rev. ring_remove_reaction r id emoji_name emoji_id me rev)

unfoldable pub remove_reaction_emoji : Store → ℕ → ℕ → String → ℕ → Store × Bool
remove_reaction_emoji s channel id emoji_name emoji_id =
    on_ring s channel (λ r rev. ring_remove_reaction_emoji r id emoji_name emoji_id rev)
