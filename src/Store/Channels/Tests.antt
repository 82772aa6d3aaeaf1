-- ===== src/Store/Channels/Tests.antt =====
-- Two channels of a guild: pings, a move, and the removal of the guild.
use native.Mathlib.Decide.{ℕ_discrete}
use tuicord_v.Base.Dict.{lookup, insert, erase}
use tuicord_v.Base.{ℕ, ◌+◌, ◌≡◌, refl, false, [], ◌∷◌, inl, if◌then◌else◌, ◌==◌}
use tuicord_v.Store.Channels.Index.{IsIndexed}
use tuicord_v.Store.Channels.Lifetimes
use tuicord_v.Store.Channels.Lifetimes.{Reach-IsIndexed, in_guild-remove_guild}
use tuicord_v.Store.Channels.PingSteps
use tuicord_v.Store.Channels.PingSteps.{Reach-AreSummed}
use tuicord_v.Store.Channels.Pings.{guild_pings-upsert_channel}
use tuicord_v.Store.Channels.{
  remove_channel_order, append_channel_order, advance_channel, same_channel_presentation,
  latest_for, place_channel, is_presented, upsert_channel, less_channel, sort_channels, channels,
  forget_channel, drop_channel, drop_channels, children, remove_channel,
}
use tuicord_v.Store.Data.{Channel, zero_channel, deep_equal}
use tuicord_v.Store.Guilds.{remove_guild, purge_folders}
use tuicord_v.Store.Sorting.{sink, back_onto, sort_from, insertion_sort}
use tuicord_v.Store.State.{Store, new, increment, touch_meta}
use tuicord_v.Store.Unread.Sums.{AreSummed, in_guild, pings_in}
use tuicord_v.Store.Unread.{increment_ping, lower, clear_ping, clear_unread, guild_pings, pings}

program : Unit {0}
unfolding remove_channel_order append_channel_order advance_channel same_channel_presentation
    latest_for place_channel is_presented upsert_channel less_channel sort_channels channels
    forget_channel drop_channel drop_channels children remove_channel deep_equal ℕ_discrete
    remove_guild purge_folders sink back_onto sort_from insertion_sort new increment touch_meta
    increment_ping lower clear_ping clear_unread guild_pings pings lookup insert erase
program = tt

abbrev channel : ℕ → ℕ → Channel
channel id guild = record zero_channel { id = id; guild_id = guild }

abbrev start : Store
start = upsert_channel (upsert_channel (new 4) (channel 5 1)) (channel 3 1)

listed : channels start 1 ≡ channel 3 1 ∷ channel 5 1 ∷ []
unfolding program
listed = refl

moved : channels (upsert_channel start (channel 5 2)) 1 ≡ channel 3 1 ∷ []
unfolding program
moved = refl

-- The same channel again leaves the revision of the metadata.
same_again : (upsert_channel start (channel 3 1)).meta_rev ≡ start.meta_rev
unfolding program
same_again = refl

-- Pings that come before their channel are missing in the guild, and are taken off it once they are
-- read: the ping of the channel 3 no longer shows.
abbrev early : Store
early =
    increment_ping
      (upsert_channel (upsert_channel (increment_ping (new 4) 5) (channel 5 1)) (channel 3 1)) 3

missing : guild_pings early 1 ≡ 1
unfolding program
missing = refl

lost : guild_pings (clear_unread early 5) 1 ≡ 0
unfolding program
lost = refl

still_pinged : pings (clear_unread early 5) 3 ≡ 1
unfolding program
still_pinged = refl

new-AreSummed_pinged : AreSummed (increment_ping (new 4) 5)
new-AreSummed_pinged = Reach-AreSummed 4 (PingSteps.next PingSteps.here (PingSteps.ping 5))

guild_pings-upsert_channel_example :
    guild_pings (upsert_channel (increment_ping (new 4) 5) (channel 5 1)) 1
      + (if 1 == 1 then pings (increment_ping (new 4) 5) 5 else 0)
    ≡ pings_in
        (upsert_channel (increment_ping (new 4) 5) (channel 5 1)).channels
        1
        (upsert_channel (increment_ping (new 4) 5) (channel 5 1)).pings
      + (if in_guild (lookup 5 (increment_ping (new 4) 5).channels) 1
          then pings (increment_ping (new 4) 5) 5
          else 0)
guild_pings-upsert_channel_example =
    guild_pings-upsert_channel (increment_ping (new 4) 5) (channel 5 1) 1 new-AreSummed_pinged

abbrev pinged : Store
pinged = clear_unread (increment_ping (upsert_channel (new 4) (channel 5 1)) 5) 5

settled : pings (new 4) 5 ≡ 0
unfolding program
settled = refl

pinged-Reach : PingSteps.Reach (new 4) pinged
pinged-Reach =
    PingSteps.next
      (PingSteps.next (PingSteps.next PingSteps.here (PingSteps.upsert (channel 5 1) (inl settled)))
        (PingSteps.ping 5))
      (PingSteps.read 5)

Reach-AreSummed_example : AreSummed pinged
Reach-AreSummed_example = Reach-AreSummed 4 pinged-Reach

start-Reach : Lifetimes.Reach (new 4) start
start-Reach =
    Lifetimes.next (Lifetimes.next Lifetimes.here (Lifetimes.upsert (channel 5 1)))
      (Lifetimes.upsert (channel 3 1))

Reach-IsIndexed_example : IsIndexed start
Reach-IsIndexed_example = Reach-IsIndexed 4 start-Reach

in_guild-remove_guild_example : in_guild (lookup 5 (remove_guild start 1).channels) 1 ≡ false
in_guild-remove_guild_example = in_guild-remove_guild start 1 (Reach-IsIndexed 4 start-Reach) 5
