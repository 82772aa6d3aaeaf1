-- ===== src/Store/History/Page.antt =====
-- `PrependMessagesSince` of internal/store/store.go: an older page before the history of a channel.
use tuicord_v.Base.Dict.{insert, erase}
use tuicord_v.Base.{
  ℕ, ◌+◌, ◌-◌, ◌/◌, Bool, true, false, ◌||◌, List, [], ◌∷◌, ◌++◌, length, ltb, leb, ◌==◌,
  if◌then◌else◌, map, filter, any, min,
}
use tuicord_v.Store.History.{messages}
use tuicord_v.Store.Message.{Message}
use tuicord_v.Store.Ring.{Ring, new_ring, push}
use tuicord_v.Store.State.{Store, next_revision}
use tuicord_v.Store.Tombstones.{message_tombstoned}

-- The ids of the current messages that are not 0.
abbrev pub known_ids : List Message → List ℕ
known_ids current = map (λ (m : Message). m.id) (filter (λ (m : Message). ltb 0 m.id) current)

-- The loop over the page: a message without an id, or with one that is neither tombstoned nor known.
unfoldable pub admitted : (ℕ → Bool) → List ℕ → List Message → List Message
admitted tombstoned known [] = []
admitted tombstoned known (m ∷ page) =
    let unnamed = m ∷ admitted tombstoned known page in
    let skipped = admitted tombstoned known page in
    let taken = m ∷ admitted tombstoned (m.id ∷ known) page in
    if m.id == 0
    then unnamed
    else if tombstoned m.id || any (λ k. k == m.id) known
    then skipped
    else taken

-- `message.Pending || message.Failed || message.rev > requestRevision`
abbrev pub is_protected : ℕ → Message → Bool
is_protected request_revision m = m.pending || m.failed || ltb request_revision m.rev

unfoldable pub count : (Message → Bool) → List Message → ℕ
count p [] = 0
count p (m ∷ ms) = (if p m then 1 else 0) + count p ms

-- The loop of the exceptional case: the first `skip` protected messages go, and all others.
unfoldable pub newest_protected : (Message → Bool) → ℕ → List Message → List Message
newest_protected protected skip [] = []
newest_protected protected skip (m ∷ ms) =
    let taken = m ∷ newest_protected protected skip ms in
    let skipped = newest_protected protected (skip - 1) ms in
    let passed = newest_protected protected skip ms in
    if protected m then (if ltb 0 skip then skipped else taken) else passed

-- A message with its entry of `keep`.
abbrev pub Marked : Type 0
Marked = Bool × Message

-- The first loop over `keep`.
unfoldable pub mark_protected : (Message → Bool) → List Message → List Marked
mark_protected protected ms = map (λ m. (protected m, m)) ms

-- The second, from the newest: what is left of the budget, and the marks.
unfoldable pub mark_recent : ℕ → List Marked → ℕ × List Marked
mark_recent budget [] = (budget, [])
mark_recent budget ((keep, m) ∷ ms) =
    let (left, marked) = mark_recent budget ms in
    if keep
    then (left, (true, m) ∷ marked)
    else if ltb 0 left
    then (left - 1, (true, m) ∷ marked)
    else (left, (false, m) ∷ marked)

-- The third, from the oldest, with the room that is left.
unfoldable pub mark_oldest : ℕ → List Marked → List Marked
mark_oldest room [] = []
mark_oldest room ((keep, m) ∷ ms) =
    let fill = if keep then false else ltb 0 room in
    (keep || fill, m) ∷ mark_oldest (if fill then room - 1 else room) ms

unfoldable pub marked_messages : List Marked → List Message
marked_messages [] = []
marked_messages ((keep, m) ∷ ms) = let rest = marked_messages ms in if keep then m ∷ rest else rest

unfoldable pub recent_budget : ℕ → ℕ → ℕ
recent_budget limit kept = min ((limit + 1) / 2) (limit - kept - 1)

-- The window that is kept of the page and the history together.
unfoldable pub window : ℕ → (Message → Bool) → List Message → List Message
window limit protected combined =
    let kept = count protected combined in
    let budget = recent_budget limit kept in
    let (left, recent) = mark_recent budget (mark_protected protected combined) in
    if leb limit kept
    then newest_protected protected (kept - limit) combined
    else marked_messages (mark_oldest (limit - (kept + (budget - left))) recent)

-- The loop of `replaceMessages`.
unfoldable pub push_all : Store → ℕ → Ring → List Message → Store × Ring
push_all s channel r [] = (s, r)
push_all s channel r (m ∷ ms) =
    let (counted, rev) = next_revision s in
    push_all counted channel (push r (record m { channel_id = channel; rev = rev })) ms

unfoldable pub replace_messages : Store → ℕ → List Message → Store
replace_messages s channel ms =
    let (counted, r) = push_all s channel (new_ring s.history_limit) ms in
    if length ms == 0
    then record s { messages = erase channel s.messages }
    else record counted { messages = insert channel r counted.messages }

-- `combined`.
unfoldable pub combine : Store → ℕ → List Message → List Message
combine s channel page =
    let current = messages s channel in
    admitted (message_tombstoned s channel) (known_ids current) page ++ current

unfoldable pub prepend_messages_since : Store → ℕ → List Message → ℕ → Store
prepend_messages_since s channel page request_revision =
    if length page == 0
    then s
    else replace_messages s channel
        (window s.history_limit (is_protected request_revision) (combine s channel page))

unfoldable pub prepend_messages : Store → ℕ → List Message → Store
prepend_messages s channel page = prepend_messages_since s channel page s.rev
