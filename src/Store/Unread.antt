-- ===== src/Store/Unread.antt =====
-- internal/store/store.go: the counters of unread messages and of pings.
pub mod Sums
use tuicord_v.Base.Dict.{Dict, lookup, insert, erase, get}
use tuicord_v.Base.{
  ℕ, ◌+◌, ◌-◌, Bool, true, List, [], ◌∷◌, none, some, ltb, leb, ◌==◌, if◌then◌else◌, map, filter,
}
use tuicord_v.Store.State.{Store}

unfoldable pub increment_unread : Store → ℕ → Store
increment_unread s channel = record s {
  unread = insert channel (get s.unread channel 0 + 1) s.unread;
}

unfoldable pub unread : Store → ℕ → ℕ
unread s channel = get s.unread channel 0

unfoldable pub increment_ping : Store → ℕ → Store
increment_ping s channel =
    let counted = record s { pings = insert channel (get s.pings channel 0 + 1) s.pings } in
    elim (lookup channel s.channels) [
      | none ↦ counted
      | some c ↦ record counted {
        guild_pings = insert c.guild_id (get s.guild_pings c.guild_id 0 + 1) s.guild_pings;
      }
    ]

-- `guildPings[guild] -= count`, and the entry goes when it is not positive.
unfoldable pub lower : ℕ → ℕ → Dict ℕ → Dict ℕ
lower guild count guild_pings =
    let before = get guild_pings guild 0 in
    if leb before count then erase guild guild_pings else insert guild (before - count) guild_pings

unfoldable pub clear_ping : Store → ℕ → Store
clear_ping s channel =
    let count = get s.pings channel 0 in
    let guild_pings : Dict ℕ = elim (lookup channel s.channels) [
      | none ↦ s.guild_pings
      | some c ↦ lower c.guild_id count s.guild_pings
    ] in
    if count == 0 then s else record s { guild_pings = guild_pings; pings = erase channel s.pings }

unfoldable pub clear_unread : Store → ℕ → Store
clear_unread s channel = clear_ping (record s { unread = erase channel s.unread }) channel

unfoldable pub pings : Store → ℕ → ℕ
pings s channel = get s.pings channel 0

unfoldable pub guild_pings : Store → ℕ → ℕ
guild_pings s guild = get s.guild_pings guild 0

-- The sum of the counts of a map.
unfoldable pub total : Dict ℕ → ℕ
total [] = 0
total ((k, count) ∷ counts) = count + total counts

unfoldable pub total_unread : Store → ℕ
total_unread s = total s.unread

unfoldable pub total_pings : Store → ℕ
total_pings s = total s.pings

unfoldable pub pinged_channels : Store → Dict Bool
pinged_channels s = map (λ e. (e.0, true)) (filter (λ e. ltb 0 e.1) s.pings)
