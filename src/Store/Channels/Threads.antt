-- ===== src/Store/Channels/Threads.antt =====
-- internal/store/channels.go: the operations on threads.
use tuicord_v.Base.Dict.{Dict, lookup, insert, get}
use tuicord_v.Base.{
  ℕ, Bool, true, false, ◌&&◌, not, List, [], ◌∷◌, ◌++◌, Option, none, some, ◌==◌, if◌then◌else◌,
  map, filter, any,
}
use tuicord_v.Store.Channels.{remove_thread, upsert_channel, is_child}
use tuicord_v.Store.Data.{Channel, ThreadMeta, zero_channel}
use tuicord_v.Store.Permissions.{thread, is_thread}
use tuicord_v.Store.State.{Store, touch_meta}
use tuicord_v.Store.Threads.{sort_threads}

abbrev pub zero_thread : ThreadMeta
zero_thread = record {
  archived = false;
  locked = false;
  message_count = 0;
  member_count = 0;
  owner_id = 0;
  last_active = 0;
  joined = false;
  applied_tags = [];
}

abbrev pub thread_or_zero : Option ThreadMeta → ThreadMeta
thread_or_zero none = zero_thread
thread_or_zero (some meta) = meta

unfoldable pub upsert_thread : Store → Channel → Store
upsert_thread s c =
    upsert_channel s (record c { thread_meta = some (thread_or_zero c.thread_meta); kind = thread })

-- What `SetArchived` and `SetThreadJoined` share: the data of a known thread are replaced.
unfoldable pub patch_thread : Store → ℕ → (ThreadMeta → ThreadMeta) → Store × Bool
patch_thread s id patch = elim (lookup id s.channels) [
  | none ↦ (s, false)
  | some c ↦ elim c.thread_meta [
    | none ↦ (s, false)
    | some meta ↦
        let changed = record c { thread_meta = some (patch meta) } in
        (touch_meta (record s { channels = insert id changed s.channels }), true)
  ]
]

unfoldable pub set_archived : Store → ℕ → Bool → Store × Bool
set_archived s id archived = patch_thread s id (λ meta. record meta { archived = archived })

unfoldable pub set_thread_joined : Store → ℕ → Bool → Store × Bool
set_thread_joined s id joined = patch_thread s id (λ meta. record meta { joined = joined })

abbrev pub is_active : Option ThreadMeta → Bool
is_active none = false
is_active (some meta) = not meta.archived

abbrev pub in_scope : Option (List ℕ) → ℕ → Bool
in_scope none parent = true
in_scope (some parents) parent = any (λ p. p == parent) parents

-- Whether `SyncActiveThreads` drops a channel of the guild.
unfoldable pub is_stale : Option (List ℕ) → List Channel → ℕ → Channel → Bool
is_stale parents incoming id c =
    is_thread c.kind
    && is_active c.thread_meta
    && in_scope parents c.parent_id
    && not (any (λ (t : Channel). t.id == id) incoming)

-- The loop over the order of the guild, whose channels are looked up as they are then.
unfoldable pub drop_stale :
    Option (List ℕ) → List Channel → Store → List ℕ → List ℕ → Store × List ℕ
drop_stale parents incoming s removed [] = (s, removed)
drop_stale parents incoming s removed (id ∷ ids) =
    let stale = is_stale parents incoming id (get s.channels id zero_channel) in
    drop_stale parents incoming (if stale then remove_thread s id else s)
      (if stale then removed ++ id ∷ [] else removed) ids

unfoldable pub upsert_threads : Store → List Channel → Store
upsert_threads s [] = s
upsert_threads s (t ∷ ts) = upsert_threads (upsert_thread s t) ts

-- A nil slice of parents is `none`.
unfoldable pub sync_active_threads : Store → ℕ → Option (List ℕ) → List Channel → Store × List ℕ
sync_active_threads s guild parents incoming =
    let (kept, removed) = drop_stale parents incoming s [] (get s.channel_order guild []) in
    (upsert_threads kept incoming, removed)

-- Any thread's guild where the parent is unknown; 0 without one.
unfoldable pub guild_of_child : ℕ → Dict Channel → ℕ
guild_of_child parent [] = 0
guild_of_child parent ((id, c) ∷ rest) =
    if is_child parent (id, c) then c.guild_id else guild_of_child parent rest

unfoldable pub parent_guild : Store → ℕ → ℕ
parent_guild s parent = elim (lookup parent s.channels) [
  | some c ↦ c.guild_id
  | none ↦ guild_of_child parent s.channels
]

abbrev pub has_archived : Bool → Option ThreadMeta → Bool
has_archived archived none = false
has_archived archived (some meta) = if meta.archived then archived else not archived

unfoldable pub threads_by : Store → ℕ → Bool → List Channel
threads_by s parent archived =
    let ids = get s.channel_order (parent_guild s parent) [] in
    sort_threads (
      filter
        (λ (c : Channel).
          is_thread c.kind && c.parent_id == parent && has_archived archived c.thread_meta)
        (map (λ id. get s.channels id zero_channel) ids))

unfoldable pub threads : Store → ℕ → List Channel
threads s parent = threads_by s parent false

unfoldable pub archived_threads : Store → ℕ → List Channel
archived_threads s parent = threads_by s parent true
