-- ===== src/Store/State.antt =====
-- internal/store/store.go: the state of the store, and its revision counters.
use tuicord_v.Base.Dict.{Dict}
use tuicord_v.Base.{ℕ, ◌+◌, ◌%◌, ◌^◌, ◌<◌, ◌≡◌, Bool, false, List, [], leb, if◌then◌else◌}
use native.Mathlib.Nat.{mod-eq_of_lt}
use tuicord_v.Store.Data.{Guild, Channel, Member, Role, GuildEmoji, GuildSticker}
use tuicord_v.Store.Ordering.{GuildFolder}
use tuicord_v.Store.Ring.{Ring}

-- `Store`. A message counter is an ℕ; the revisions and generations are 64-bit words.
pub record Store : Type 0 where
  pub history_limit : ℕ
  pub guild_order : List ℕ
  pub guilds : Dict Guild
  pub guild_generation : Dict ℕ
  pub channel_order : Dict (List ℕ)
  pub channels : Dict Channel
  pub latest_message : Dict ℕ
  pub messages : Dict Ring
  pub deleted_messages : Dict (Dict ℕ)
  pub pruned_delete_revision : Dict ℕ
  pub channel_generation : Dict ℕ
  pub members : Dict (Dict Member)
  pub roles : Dict (Dict Role)
  pub unread : Dict ℕ
  pub pings : Dict ℕ
  pub guild_pings : Dict ℕ
  pub guild_folders : List GuildFolder
  pub guild_emojis : Dict (List GuildEmoji)
  pub guild_stickers : Dict (List GuildSticker)
  pub has_nitro : Bool
  pub rev : ℕ
  pub meta_rev : ℕ

abbrev pub default_history_limit : ℕ
default_history_limit = 200

-- An `int` below 0 is read as 0 here.
unfoldable pub new : ℕ → Store
new history_limit = record {
  history_limit = if leb history_limit 0 then default_history_limit else history_limit;
  guild_order = [];
  guilds = [];
  guild_generation = [];
  channel_order = [];
  channels = [];
  latest_message = [];
  messages = [];
  deleted_messages = [];
  pruned_delete_revision = [];
  channel_generation = [];
  members = [];
  roles = [];
  unread = [];
  pings = [];
  guild_pings = [];
  guild_folders = [];
  guild_emojis = [];
  guild_stickers = [];
  has_nitro = false;
  rev = 0;
  meta_rev = 0;
}

-- `++` on a `uint64`.
unfoldable pub increment : ℕ → ℕ
increment v = (v + 1) % 2 ^ 64

pub increment_lem : (v : ℕ) → v + 1 < 2 ^ 64 → increment v ≡ v + 1
unfolding increment
increment_lem v h = mod-eq_of_lt h

unfoldable pub next_revision : Store → Store × ℕ
next_revision s = let rev = increment s.rev in (record s { rev = rev }, rev)

unfoldable pub touch_meta : Store → Store
touch_meta s = record s { meta_rev = increment s.meta_rev }
