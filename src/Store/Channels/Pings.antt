-- ===== src/Store/Channels/Pings.antt =====
-- What the upsert and the removal of a channel do to the pings of the guilds.
use tuicord_v.Base.Dict.{Dict, lookup, insert, erase, get, IsDistinct, lookup-erase, lookup-insert}
use mathlib.Core.Path.{subst}
use tuicord_v.Base.{
  ℕ, ◌+◌, ◌≡◌, refl, sym, ap, ◌∙◌, ◌⊎◌, Bool, true, false, [], ◌∷◌, Option, none, some, any, ◌==◌,
  if◌then◌else◌, arith, Bool-cases, inl, inr, Option-cases, List,
}
use tuicord_v.Store.Channels.{
  remove_channel_order, append_channel_order, advance_channel, latest_for, place_channel,
  is_presented, upsert_channel, forget_channel, drop_channel, drop_channels, remove_channel,
  children,
}
use tuicord_v.Store.Data.{Channel}
use tuicord_v.Store.State.{Store, touch_meta}
use tuicord_v.Store.Unread.Sums.{
  in_guild, pings_in, pings_in-erase, AreSummed, clear_ping-AreSummed,
}
use tuicord_v.Store.Unread.{clear_ping, guild_pings, pings}

-- Stores that differ in the order of the channels and in generations only.
abbrev pub SamePings : Store → Store → Type 0
SamePings q s = (q.pings ≡ s.pings) × (q.guild_pings ≡ s.guild_pings) × (q.channels ≡ s.channels)

pub remove_channel_order-SamePings :
    (s : Store) (guild id : ℕ) → SamePings (remove_channel_order s guild id) s
unfolding remove_channel_order
remove_channel_order-SamePings s guild id =
    elim (Bool-cases (any (λ c. c == id) (get s.channel_order guild []))) [
      | inl there ↦ rw there (refl, refl, refl)
      | inr absent ↦ rw absent (refl, refl, refl)
    ]

place_channel-SamePings :
    (s : Store) (existing : Option Channel) (c : Channel) → SamePings (place_channel s existing c) s
unfolding place_channel append_channel_order advance_channel
place_channel-SamePings s none c = (refl, refl, refl)
place_channel-SamePings s (some existing) c = elim (Bool-cases (existing.guild_id == c.guild_id)) [
  | inl stays ↦ rw stays (refl, refl, refl)
  | inr moves ↦ rw moves (remove_channel_order-SamePings s existing.guild_id c.id)
]

-- The channel as `UpsertChannel` stores it.
abbrev pub stored_channel : Store → Channel → Channel
stored_channel s c = record c { last_message_id = latest_for s c }

pub upsert_channel-pings :
    (s : Store) (c : Channel)
    → ((upsert_channel s c).pings ≡ s.pings)
      × ((upsert_channel s c).guild_pings ≡ s.guild_pings)
      × ((upsert_channel s c).channels ≡ insert c.id (stored_channel s c) s.channels)
unfolding upsert_channel touch_meta
upsert_channel-pings s c =
    let known = record s {
      latest_message =
          if latest_for s c == 0
          then s.latest_message
          else insert c.id (latest_for s c) s.latest_message;
    } in
    let existing = lookup c.id s.channels in
    let (a, b, e) = place_channel-SamePings known existing (stored_channel s c) in
    elim (Bool-cases (is_presented existing (stored_channel s c))) [
      | inl shown ↦ rw shown (a, b, ap (insert c.id (stored_channel s c)) e)
      | inr fresh ↦ rw fresh (a, b, ap (insert c.id (stored_channel s c)) e)
    ]

-- The sum when one channel is set, and when one without pings is gone.
pub pings_in-set :
    (channels : Dict Channel) (c : Channel) (id guild : ℕ) (counts : Dict ℕ)
    → lookup id counts ≡ none
    → pings_in (insert id c channels) guild counts ≡ pings_in channels guild counts
unfolding pings_in lookup
pings_in-set channels c id guild [] absent = refl
pings_in-set channels c id guild ((k, n) ∷ counts) absent = elim (Bool-cases (k == id)) [
  | inl here ↦ absurd (ground (arith, here))
  | inr there ↦
      let other : (id == k) ≡ false = ground arith in
      let same : lookup k (insert id c channels) ≡ lookup k channels =
        lookup-insert id k c channels
        ∙ ap (λ (b : Bool). if b then some c else lookup k channels) other in
      rw same (
        ap (λ (m : ℕ). (if in_guild (lookup k channels) guild then n else 0) + m)
          (pings_in-set channels c id guild counts (ground arith)))
]

pings_in-gone :
    (channels : Dict Channel) (id guild : ℕ) (counts : Dict ℕ)
    → lookup id counts ≡ none
    → pings_in (erase id channels) guild counts ≡ pings_in channels guild counts
unfolding pings_in lookup
pings_in-gone channels id guild [] absent = refl
pings_in-gone channels id guild ((k, n) ∷ counts) absent = elim (Bool-cases (k == id)) [
  | inl here ↦ absurd (ground (arith, here))
  | inr there ↦
      let other : (id == k) ≡ false = ground arith in
      let same : lookup k (erase id channels) ≡ lookup k channels =
        lookup-erase id k channels
        ∙ ap (λ (b : Bool). if b then none else lookup k channels) other in
      rw same (
        ap (λ (m : ℕ). (if in_guild (lookup k channels) guild then n else 0) + m)
          (pings_in-gone channels id guild counts (ground arith)))
]

-- Where the pings of each guild are the sum of those of its channels, UpsertChannel leaves them as
-- they are, so afterwards they fall short of the sum by the pings of a channel that was unknown or
-- in another guild, and exceed it by those of one that leaves.
pub guild_pings-upsert_channel :
    (s : Store) (c : Channel) (guild : ℕ)
    → AreSummed s
    → guild_pings (upsert_channel s c) guild + (if c.guild_id == guild then pings s c.id else 0)
      ≡ pings_in (upsert_channel s c).channels guild (upsert_channel s c).pings
        + (if in_guild (lookup c.id s.channels) guild then pings s c.id else 0)
unfolding guild_pings pings
guild_pings-upsert_channel s c guild v =
    let (a, b, e) = upsert_channel-pings s c in
    let now = insert c.id (stored_channel s c) s.channels in
    let rest = erase c.id s.pings in
    let gone : lookup c.id rest ≡ none = ground (arith, lookup-erase c.id c.id s.pings) in
    let set : lookup c.id now ≡ some (stored_channel s c) =
      ground (arith, lookup-insert c.id c.id (stored_channel s c) s.channels) in
    rw (a, b, e)
      (ground (
        arith,
        set,
        v.summed guild,
        pings_in-erase s.channels guild c.id s.pings v.distinct,
        pings_in-erase now guild c.id s.pings v.distinct,
        pings_in-set s.channels (stored_channel s c) c.id guild rest gone,
      ))

pub AreSummed-same : (q s : Store) → SamePings q s → AreSummed s → AreSummed q
unfolding guild_pings
AreSummed-same q s (a, b, e) v = record {
  distinct = subst IsDistinct (sym a) v.distinct;
  summed = λ guild. rw (a, b, e) (v.summed guild);
}

pub clear_ping-channels :
    (s : Store) (id : ℕ)
    → ((clear_ping s id).channels ≡ s.channels) × (get (clear_ping s id).pings id 0 ≡ 0)
unfolding clear_ping
clear_ping-channels s id = elim (Bool-cases (get s.pings id 0 == 0)) [
  | inl no_pings ↦ rw no_pings (refl, ground (arith, no_pings))
  | inr some_pings ↦ rw some_pings (refl, ground (arith, lookup-erase id id s.pings))
]

-- A channel without pings may go.
module _ (s : Store) (id : ℕ) (silent : get s.pings id 0 ≡ 0) (v : AreSummed s) where
  pings_in-erase_silent :
      (guild : ℕ) → pings_in (erase id s.channels) guild s.pings ≡ pings_in s.channels guild s.pings
  pings_in-erase_silent guild =
      let rest = erase id s.pings in
      let gone : lookup id rest ≡ none = ground (arith, lookup-erase id id s.pings) in
      ground (
        arith,
        silent,
        pings_in-erase s.channels guild id s.pings v.distinct,
        pings_in-erase (erase id s.channels) guild id s.pings v.distinct,
        pings_in-gone s.channels id guild rest gone,
      )

  pub gone-AreSummed : AreSummed (record s { channels = erase id s.channels })
  unfolding guild_pings
  gone-AreSummed = record {
    distinct = v.distinct;
    summed = λ guild. v.summed guild ∙ sym (pings_in-erase_silent guild);
  }

pub drop_channel-AreSummed : (s : Store) (id : ℕ) → AreSummed s → AreSummed (drop_channel s id).0
unfolding drop_channel touch_meta advance_channel forget_channel
drop_channel-AreSummed s id v = elim (Option-cases (lookup id s.channels)) [
  | inl unknown ↦ rw (unknown, drop_channel) v
  | inr (c, known) ↦
      let ordered = remove_channel_order s c.guild_id id in
      let cleared = clear_ping ordered id in
      let w : AreSummed cleared =
        clear_ping-AreSummed ordered id
          (AreSummed-same ordered s (remove_channel_order-SamePings s c.guild_id id) v) in
      rw (known, drop_channel)
        (AreSummed-same _ (record cleared { channels = erase id cleared.channels })
          (refl, refl, refl) (gone-AreSummed cleared id (clear_ping-channels ordered id).1 w))
]

drop_channels-AreSummed : (ids : List ℕ) (s : Store) → AreSummed s → AreSummed (drop_channels s ids)
unfolding drop_channels
drop_channels-AreSummed [] s v = v
drop_channels-AreSummed (id ∷ ids) s v =
    drop_channels-AreSummed ids (drop_channel s id).0 (drop_channel-AreSummed s id v)

forget-AreSummed :
    (s : Store) (id : ℕ)
    → AreSummed s
    → AreSummed (touch_meta (advance_channel (clear_ping (forget_channel s id) id) id))
unfolding touch_meta advance_channel forget_channel
forget-AreSummed s id v =
    AreSummed-same _ (clear_ping (forget_channel s id) id) (refl, refl, refl)
      (clear_ping-AreSummed (forget_channel s id) id
        (AreSummed-same (forget_channel s id) s (refl, refl, refl) v))

pub remove_channel-AreSummed : (s : Store) (id : ℕ) → AreSummed s → AreSummed (remove_channel s id)
unfolding remove_channel
remove_channel-AreSummed s id v =
    let emptied = drop_channels s (children s id) in
    let dropped = drop_channel emptied id in
    let w : AreSummed dropped.0 =
      drop_channel-AreSummed emptied id (drop_channels-AreSummed (children s id) s v) in
    elim (Bool-cases dropped.1) [
      | inl known ↦ rw known w
      | inr unknown ↦ rw unknown (forget-AreSummed dropped.0 id w)
    ]

-- A channel that has no pings, or is already known in the guild that it is put into.
abbrev pub IsSettled : Store → Channel → Type 0
IsSettled s c = (pings s c.id ≡ 0) ⊎ (in_guild (lookup c.id s.channels) c.guild_id ≡ true)

in_guild-settled : (o : Option Channel) (g h : ℕ) → in_guild o g ≡ true → in_guild o h ≡ (g == h)
in_guild-settled none g h e = cc
in_guild-settled (some c) g h e = ground (arith, e)

pub upsert_channel-AreSummed :
    (s : Store) (c : Channel) → IsSettled s c → AreSummed s → AreSummed (upsert_channel s c)
upsert_channel-AreSummed s c settled v =
    let (a, b, e) = upsert_channel-pings s c in
    record {
      distinct = subst IsDistinct (sym a) v.distinct;
      summed = λ guild. elim settled [
        | inl silent ↦ ground (arith, guild_pings-upsert_channel s c guild v)
        | inr there ↦ ground (
          arith,
          in_guild-settled (lookup c.id s.channels) c.guild_id guild there,
          guild_pings-upsert_channel s c guild v,
        )
      ];
    }
