-- ===== src/Store/Channels/Lifetimes.antt =====
-- The order of the channels over a run, and what the removal of a guild leaves.
use tuicord_v.Base.Dict.{lookup, lookup-erase}
use tuicord_v.Base.{
  ℕ, ◌≡◌, refl, sym, ap, ◌∙◌, true, false, List, [], ◌∷◌, none, ◌==◌, if◌then◌else◌, arith,
  Bool-cases, inl, inr, ==_iff, Option-cases, any,
}
use tuicord_v.Store.Channels.Index.{
  IsIndexed, IsIndexed-same, order_of, occurs, upsert_channel-IsIndexed, drop_channel-IsIndexed,
  drop_channels-IsIndexed, clear_ping-channel_order,
}
use tuicord_v.Store.Channels.Pings.{clear_ping-channels, remove_channel_order-SamePings}
use tuicord_v.Store.Channels.{
  advance_channel, upsert_channel, forget_channel, drop_channel, drop_channels, remove_channel,
  children, remove_channel_order,
}
use tuicord_v.Store.Data.{Channel}
use tuicord_v.Store.Guilds.{remove_guild}
use tuicord_v.Store.State.{Store, new, touch_meta}
use tuicord_v.Store.Unread.Sums.{in_guild}
use tuicord_v.Store.Unread.{clear_ping}

forget-IsIndexed :
    (s : Store) (id : ℕ)
    → IsIndexed s
    → IsIndexed (touch_meta (advance_channel (clear_ping (forget_channel s id) id) id))
unfolding touch_meta advance_channel forget_channel
forget-IsIndexed s id v =
    IsIndexed-same _ s (clear_ping-channel_order (forget_channel s id) id)
      (clear_ping-channels (forget_channel s id) id).0 v

remove_channel-IsIndexed : (s : Store) (id : ℕ) → IsIndexed s → IsIndexed (remove_channel s id)
unfolding remove_channel
remove_channel-IsIndexed s id v =
    let emptied = drop_channels s (children s id) in
    let dropped = drop_channel emptied id in
    let w : IsIndexed dropped.0 =
      drop_channel-IsIndexed emptied id (drop_channels-IsIndexed (children s id) s v) in
    elim (Bool-cases dropped.1) [
      | inl known ↦ rw known w
      | inr unknown ↦ rw unknown (forget-IsIndexed dropped.0 id w)
    ]

-- What is known after some channels are dropped.
lookup-drop_channel :
    (s : Store) (id k : ℕ)
    → lookup k (drop_channel s id).0.channels ≡ (if id == k then none else lookup k s.channels)
unfolding drop_channel touch_meta advance_channel forget_channel
lookup-drop_channel s id k = elim (Option-cases (lookup id s.channels)) [
  | inl unknown ↦
      let absent : (id == k) ≡ true → lookup k s.channels ≡ none =
        λ e. ap (λ i. lookup i s.channels) (sym ((==_iff id k).0 e)) ∙ unknown in
      rw (unknown, drop_channel) (ground (arith, absent))
  | inr (c, known) ↦
      let ordered = remove_channel_order s c.guild_id id in
      let same : (clear_ping ordered id).channels ≡ s.channels =
        (clear_ping-channels ordered id).0 ∙ (remove_channel_order-SamePings s c.guild_id id).2 in
      rw (known, drop_channel) (rw same (lookup-erase id k s.channels))
]

lookup-drop_channels :
    (ids : List ℕ) (s : Store) (k : ℕ)
    → lookup k (drop_channels s ids).channels
      ≡ (if any (λ i. i == k) ids then none else lookup k s.channels)
unfolding drop_channels
lookup-drop_channels [] s k = refl
lookup-drop_channels (id ∷ ids) s k =
    ground (arith, lookup-drop_channels ids (drop_channel s id).0 k, lookup-drop_channel s id k)

occurs-any : (k : ℕ) (ids : List ℕ) → any (λ i. i == k) ids ≡ false → occurs k ids ≡ 0
occurs-any k [] e = refl
occurs-any k (i ∷ ids) e = ground (arith, occurs-any k ids)

module _ (s : Store) (guild : ℕ) (v : IsIndexed s) where
  abbrev emptied : Store
  emptied = drop_channels s (order_of s guild)

  emptied_lem : (k : ℕ) → in_guild (lookup k emptied.channels) guild ≡ false
  emptied_lem k = elim (Bool-cases (any (λ i. i == k) (order_of s guild))) [
    | inl listed ↦ ground (arith, lookup-drop_channels (order_of s guild) s k, listed)
    | inr unlisted ↦ ground (
      arith,
      lookup-drop_channels (order_of s guild) s k,
      occurs-any k (order_of s guild) unlisted,
      v.listed guild k,
    )
  ]

  -- In a store whose orders name each known channel once, RemoveGuild leaves no channel of the guild.
  pub in_guild-remove_guild :
      (k : ℕ) → in_guild (lookup k (remove_guild s guild).channels) guild ≡ false
  unfolding remove_guild touch_meta
  in_guild-remove_guild k = emptied_lem k

  remove_guild-IsIndexed : IsIndexed (remove_guild s guild)
  unfolding remove_guild touch_meta
  remove_guild-IsIndexed = record {
    listed = λ h k.
        let w = drop_channels-IsIndexed (order_of s guild) s v in
        elim (Bool-cases (guild == h)) [
          | inl gone ↦
              let h_is : guild ≡ h = (==_iff guild h).0 gone in
              rw (lookup-erase guild h emptied.channel_order, gone)
                (rw (← h_is) (rw (emptied_lem k) refl))
          | inr other ↦ rw (lookup-erase guild h emptied.channel_order, other) (w.listed h k)
        ];
  }

-- The operations that make, move and drop channels.
pub data Step (s : Store) : Store → Type 0 where
  upsert : (c : Channel) → Step s (upsert_channel s c)
  remove : (id : ℕ) → Step s (remove_channel s id)
  remove_all : (guild : ℕ) → Step s (remove_guild s guild)

pub data Reach (s : Store) : Store → Type 0 where
  here : Reach s s
  next : {t u : Store} → Reach s t → Step t u → Reach s u

Step-IsIndexed : {s t : Store} → Step s t → IsIndexed s → IsIndexed t
Step-IsIndexed {s} (upsert c) v = upsert_channel-IsIndexed s c v
Step-IsIndexed {s} (remove id) v = remove_channel-IsIndexed s id v
Step-IsIndexed {s} (remove_all guild) v = remove_guild-IsIndexed s guild v

new-IsIndexed : (limit : ℕ) → IsIndexed (new limit)
unfolding new lookup
new-IsIndexed limit = record { listed = λ guild id. refl }

from-IsIndexed : {s t : Store} → IsIndexed s → Reach s t → IsIndexed t
from-IsIndexed v here = v
from-IsIndexed v (next r st) = Step-IsIndexed st (from-IsIndexed v r)

-- However channels are upserted, also into another guild, and channels and guilds are removed from
-- a new store, the order of each guild names every known channel of the guild once and no other.
pub Reach-IsIndexed : (limit : ℕ) {t : Store} → Reach (new limit) t → IsIndexed t
Reach-IsIndexed limit r = from-IsIndexed (new-IsIndexed limit) r
