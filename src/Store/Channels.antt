-- ===== src/Store/Channels.antt =====
-- internal/store/store.go and channels.go: channels, their order in a guild and their lifetimes.
pub mod Threads
pub mod Pings
pub mod Index
pub mod Lifetimes
pub mod PingSteps
mod Tests
use tuicord_v.Base.Dict.{Dict, lookup, insert, erase, get}
use tuicord_v.Base.Int.{ltb_ℤ, eq_ℤ}
use tuicord_v.Base.{
  ℕ, ◌+◌, Bool, true, false, ◌&&◌, ◌||◌, not, List, [], ◌∷◌, ◌++◌, Option, none, some, length, ltb,
  ◌==◌, if◌then◌else◌, map, filter, any, remove_first,
}
use tuicord_v.Store.Data.{Channel, ThreadMeta, zero_channel, deep_equal}
use tuicord_v.Store.Permissions.{ChannelKind, thread, is_thread}
use tuicord_v.Store.Sorting.{insertion_sort}
use tuicord_v.Store.State.{Store, increment, touch_meta}
use tuicord_v.Store.Unread.{clear_ping}

abbrev pub max_id : ℕ → ℕ → ℕ
max_id candidate latest = if ltb latest candidate then candidate else latest

-- `removeChannelOrder`.
unfoldable pub remove_channel_order : Store → ℕ → ℕ → Store
remove_channel_order s guild id =
    let order = get s.channel_order guild [] in
    let rest = remove_first (λ c. c == id) order in
    if any (λ c. c == id) order
    then record s { channel_order = insert guild rest s.channel_order }
    else s

-- `s.channelOrder[guild] = append(s.channelOrder[guild], id)`
unfoldable pub append_channel_order : Store → ℕ → ℕ → Store
append_channel_order s guild id = record s {
  channel_order = insert guild (get s.channel_order guild [] ++ id ∷ []) s.channel_order;
}

unfoldable pub advance_channel : Store → ℕ → Store
advance_channel s id = record s {
  channel_generation = insert id (increment (get s.channel_generation id 0)) s.channel_generation;
}

unfoldable pub same_channel_presentation : Channel → Channel → Bool
same_channel_presentation a b =
    deep_equal (record a { last_message_id = 0 }) (record b { last_message_id = 0 })

-- The newest activity that is known of a channel.
unfoldable pub latest_for : Store → Channel → ℕ
latest_for s c =
    let existing = get s.channels c.id zero_channel in
    max_id c.last_message_id (max_id existing.last_message_id (get s.latest_message c.id 0))

-- The order of the guilds' channels, by what is known of the channel.
unfoldable pub place_channel : Store → Option Channel → Channel → Store
place_channel s none c = advance_channel (append_channel_order s c.guild_id c.id) c.id
place_channel s (some existing) c =
    if existing.guild_id == c.guild_id
    then s
    else append_channel_order (remove_channel_order s existing.guild_id c.id) c.guild_id c.id

unfoldable pub is_presented : Option Channel → Channel → Bool
is_presented none c = false
is_presented (some existing) c = same_channel_presentation existing c

unfoldable pub upsert_channel : Store → Channel → Store
upsert_channel s channel =
    let latest = latest_for s channel in
    let c = record channel { last_message_id = latest } in
    let known = record s {
      latest_message =
          if latest == 0 then s.latest_message else insert c.id latest s.latest_message;
    } in
    let existing = lookup c.id s.channels in
    let placed = place_channel known existing c in
    let stored = record placed { channels = insert c.id c placed.channels } in
    if is_presented existing c then stored else touch_meta stored

unfoldable pub channel_generation_of : Store → ℕ → ℕ
channel_generation_of s id = get s.channel_generation id 0

unfoldable pub less_channel : Channel → Channel → Bool
less_channel a b = if eq_ℤ a.position b.position then ltb a.id b.id else ltb_ℤ a.position b.position

unfoldable pub sort_channels : List Channel → List Channel
sort_channels cs = insertion_sort less_channel cs

-- `Channels`.
unfoldable pub channels : Store → ℕ → List Channel
channels s guild =
    sort_channels (map (λ id. get s.channels id zero_channel) (get s.channel_order guild []))

-- What a deletion drops, known channel or not.
unfoldable pub forget_channel : Store → ℕ → Store
forget_channel s id = record s {
  messages = erase id s.messages;
  deleted_messages = erase id s.deleted_messages;
  pruned_delete_revision = erase id s.pruned_delete_revision;
  latest_message = erase id s.latest_message;
  unread = erase id s.unread;
}

-- `removeChannel`.
unfoldable pub drop_channel : Store → ℕ → Store × Bool
drop_channel s id = elim (lookup id s.channels) [
  | none ↦ (s, false)
  | some c ↦
      let cleared = clear_ping (remove_channel_order s c.guild_id id) id in
      let gone = record cleared { channels = erase id cleared.channels } in
      (touch_meta (advance_channel (forget_channel gone id) id), true)
]

unfoldable pub drop_channels : Store → List ℕ → Store
drop_channels s [] = s
drop_channels s (id ∷ ids) = drop_channels (drop_channel s id).0 ids

abbrev pub is_child : ℕ → ℕ × Channel → Bool
is_child id e = is_thread e.1.kind && e.1.parent_id == id

-- The threads under a channel; to drop one does not change which the others are.
unfoldable pub children : Store → ℕ → List ℕ
children s id = map (λ e. e.0) (filter (is_child id) s.channels)

unfoldable pub remove_channel : Store → ℕ → Store
remove_channel s id =
    let (dropped, known) = drop_channel (drop_channels s (children s id)) id in
    let unknown = touch_meta (advance_channel (clear_ping (forget_channel dropped id) id) id) in
    if known then dropped else unknown

unfoldable pub remove_thread : Store → ℕ → Store
remove_thread s id = remove_channel s id
