-- ===== src/Store/History/Paging.antt =====
-- What a channel's history is after an older page.
use mathlib.Core.List.{foldl}
use tuicord_v.Base.Dict.{insert, lookup-insert, lookup-erase}
use tuicord_v.Base.{
  ℕ, suc, ◌+◌, ◌≤◌, ◌<◌, ◌≡◌, ◌≢◌, refl, ap, ◌∙◌, Bool, false, ◌||◌, List, [], ◌∷◌, ◌++◌, length,
  ltb, ◌==◌, if◌then◌else◌, any, max, arith, Bool-cases, inl, inr, ==_self, keep_last_all,
}
use tuicord_v.Store.History.Page.{
  count, admitted, known_ids, is_protected, window, push_all, replace_messages, combine,
  prepend_messages_since,
}
use tuicord_v.Store.History.Window.{length-window-le, count-window-le}
use tuicord_v.Store.History.{messages}
use tuicord_v.Store.Message.{Message}
use tuicord_v.Store.Ring.Push.{slice-pushes-new_ring}
use tuicord_v.Store.Ring.{Ring, new_ring, push, slice, has_id}
use tuicord_v.Store.State.{Store, increment, next_revision}
use tuicord_v.Store.Tombstones.{message_tombstoned}

-- Messages of a channel under the revisions that follow one.
abbrev pub stamped : ℕ → ℕ → List Message → List Message
stamped channel rev [] = []
stamped channel rev (m ∷ ms) =
    record m { channel_id = channel; rev = increment rev } ∷ stamped channel (increment rev) ms

abbrev pub revisions : ℕ → List Message → ℕ
revisions rev [] = rev
revisions rev (m ∷ ms) = revisions (increment rev) ms

push_all_lem :
    (ms : List Message) (s : Store) (channel : ℕ) (r : Ring)
    → push_all s channel r ms
      ≡ (record s { rev = revisions s.rev ms }, foldl push r (stamped channel s.rev ms))
unfolding push_all next_revision
push_all_lem [] s channel r = refl
push_all_lem (m ∷ ms) s channel r = push_all_lem ms (record s { rev = increment s.rev }) channel _

length-stamped : (channel rev : ℕ) (ms : List Message) → length (stamped channel rev ms) ≡ length ms
length-stamped channel rev [] = refl
length-stamped channel rev (m ∷ ms) = ap suc (length-stamped channel (increment rev) ms)

-- A store whose rings are another's but for one.
pub messages_at :
    (q s : Store) (channel k : ℕ) (r : Ring)
    → q.messages ≡ insert channel r s.messages
    → messages q k ≡ (if channel == k then slice r else messages s k)
unfolding messages
messages_at q s channel k r e = elim (Bool-cases (channel == k)) [
  | inl here ↦ rw (e, lookup-insert channel k r s.messages, here, messages) refl
  | inr there ↦ rw (e, lookup-insert channel k r s.messages, there, messages) refl
]

module _ (s : Store) (channel : ℕ) (positive : 0 < s.history_limit) where
  -- What `replaceMessages` installs, when it is within the limit.
  messages-replace_messages :
      (k : ℕ) (ms : List Message)
      → length ms ≤ s.history_limit
      → messages (replace_messages s channel ms) k
        ≡ (if channel == k then stamped channel s.rev ms else messages s k)
  unfolding messages replace_messages
  messages-replace_messages k [] h = elim (Bool-cases (channel == k)) [
    | inl here ↦ rw (lookup-erase channel k s.messages, here, messages) refl
    | inr there ↦ rw (lookup-erase channel k s.messages, there, messages) refl
  ]
  messages-replace_messages k (m ∷ ms) h =
      let r = foldl push (new_ring s.history_limit) (stamped channel s.rev (m ∷ ms)) in
      let whole : slice r ≡ stamped channel s.rev (m ∷ ms) =
        slice-pushes-new_ring s.history_limit (stamped channel s.rev (m ∷ ms))
        ∙ keep_last_all (max s.history_limit 1) (stamped channel s.rev (m ∷ ms))
            (omega (arith, length-stamped channel s.rev (m ∷ ms))) in
      let some_left : (suc (length ms) == 0) ≡ false = ground arith in
      rw (push_all_lem (m ∷ ms) s channel (new_ring s.history_limit), some_left)
        (messages_at
            (record s { messages = insert channel r s.messages; rev = revisions s.rev (m ∷ ms) }) s
            channel k r refl
          ∙ ap (λ (here : List Message). if channel == k then here else messages s k) whole)

  -- With a limit, PrependMessagesSince of a page that is not empty installs the window of the page and
  -- the history together, in order and under fresh revisions, and changes no other channel.
  pub messages-prepend_messages_since :
      (k : ℕ) (page : List Message) (request_revision : ℕ)
      → page ≢ []
      → messages (prepend_messages_since s channel page request_revision) k ≡ (
          if channel == k
          then stamped channel s.rev
              (window s.history_limit (is_protected request_revision) (combine s channel page))
          else messages s k)
  unfolding prepend_messages_since
  messages-prepend_messages_since k [] request_revision some_page = absurd (some_page refl)
  messages-prepend_messages_since k (m ∷ page) request_revision some_page =
      let some_left : (suc (length page) == 0) ≡ false = ground arith in
      rw some_left (
        messages-replace_messages k
          (window s.history_limit (is_protected request_revision) (combine s channel (m ∷ page)))
          (length-window-le s.history_limit (is_protected request_revision)
            (combine s channel (m ∷ page))))

-- The messages with an id.
abbrev pub copies : ℕ → List Message → ℕ
copies id ms = count (has_id id) ms

count-stamped :
    (id channel rev : ℕ) (ms : List Message) → copies id (stamped channel rev ms) ≡ copies id ms
unfolding count
count-stamped id channel rev [] = refl
count-stamped id channel rev (m ∷ ms) =
    ap (λ (n : ℕ). (if m.id == id then 1 else 0) + n) (count-stamped id channel (increment rev) ms)

count-append :
    (p : Message → Bool) (xs ys : List Message) → count p (xs ++ ys) ≡ count p xs + count p ys
unfolding count
count-append p [] ys = omega arith
count-append p (x ∷ xs) ys = omega (arith, count-append p xs ys)

known_ids-copies :
    (id : ℕ) (ms : List Message) → id ≢ 0 → any (λ k. k == id) (known_ids ms) ≡ ltb 0 (copies id ms)
unfolding count
known_ids-copies id [] ne = refl
known_ids-copies id (m ∷ ms) ne = ground (arith, known_ids-copies id ms ne)

-- The page adds at most one copy of a message, and none of one that is deleted or known.
copies-admitted :
    (tombstoned : ℕ → Bool) (known : List ℕ) (page : List Message) (id : ℕ)
    → id ≢ 0
    → copies id (admitted tombstoned known page)
      ≤ (if tombstoned id || any (λ k. k == id) known then 0 else 1)
unfolding count admitted
copies-admitted tombstoned known [] id ne = omega arith
copies-admitted tombstoned known (m ∷ page) id ne = ground (
  arith,
  copies-admitted tombstoned known page id ne,
  copies-admitted tombstoned (m.id ∷ known) page id ne,
)

copies-combine :
    (s : Store) (channel : ℕ) (page : List Message) (id : ℕ)
    → id ≢ 0
    → copies id (combine s channel page) ≤ (
        if message_tombstoned s channel id
        then copies id (messages s channel)
        else max 1 (copies id (messages s channel)))
unfolding combine
copies-combine s channel page id ne =
    let current = messages s channel in
    let tombstoned = message_tombstoned s channel in
    ground (
      arith,
      count-append (has_id id) (admitted tombstoned (known_ids current) page) current,
      copies-admitted tombstoned (known_ids current) page id ne,
      known_ids-copies id current ne,
    )

prepend_nothing :
    (s : Store) (channel request_revision : ℕ)
    → prepend_messages_since s channel [] request_revision ≡ s
unfolding prepend_messages_since
prepend_nothing s channel request_revision = refl

-- With a limit, an older page that is prepended adds no copy of a message that is tombstoned, and no
-- second copy of one: of a message with an id, the channel then holds at most as many copies as before,
-- or one when it is not tombstoned and there was none.
pub copies-prepend_messages_since :
    (s : Store) (channel : ℕ) (page : List Message) (request_revision id : ℕ)
    → 0 < s.history_limit
    → id ≢ 0
    → copies id (messages (prepend_messages_since s channel page request_revision) channel) ≤ (
        if message_tombstoned s channel id
        then copies id (messages s channel)
        else max 1 (copies id (messages s channel)))
copies-prepend_messages_since s channel [] request_revision id positive ne =
    rw (prepend_nothing s channel request_revision) (ground arith)
copies-prepend_messages_since s channel (m ∷ page) request_revision id positive ne =
    let protected = is_protected request_revision in
    let combined = combine s channel (m ∷ page) in
    let installed =
      messages-prepend_messages_since s channel positive channel (m ∷ page) request_revision (cc)
      ∙ ap
          (λ (b : Bool).
            if b
            then stamped channel s.rev (window s.history_limit protected combined)
            else messages s channel)
          (==_self channel) in
    omega (
      arith,
      ap (copies id) installed,
      count-stamped id channel s.rev (window s.history_limit protected combined),
      count-window-le s.history_limit protected (has_id id) combined,
      copies-combine s channel (m ∷ page) id ne,
    )
