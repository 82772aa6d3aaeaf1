-- ===== src/Store/Guilds.antt =====
-- internal/store/store.go: guilds, their order, folders, emojis and stickers.
use package.text.Mathlib.Text.{◌==◌ as str_eq}
use mathlib.Core.Option
use tuicord_v.Base.Dict.{lookup, insert, erase, get}
use tuicord_v.Base.{
  ℕ, Bool, true, false, List, [], ◌∷◌, ◌++◌, Option, none, some, String, length, ◌==◌,
  if◌then◌else◌, map, filter, not, remove_first,
}
use tuicord_v.Store.Channels.{drop_channels}
use tuicord_v.Store.Data.{Guild, GuildEmoji, GuildSticker, zero_guild}
use tuicord_v.Store.Ordering.{GuildFolder}
use tuicord_v.Store.State.{Store, increment, touch_meta}

-- A sparse guild takes the name and the owner that are known.
unfoldable pub fill_guild : Option Guild → Guild → Guild
fill_guild none g = g
fill_guild (some existing) g = record g {
  name = if str_eq g.name "" then existing.name else g.name;
  owner_id = if g.owner_id == 0 then existing.owner_id else g.owner_id;
}

unfoldable pub first_seen : Store → ℕ → Store
first_seen s id = elim (lookup id s.guilds) [
  | some _ ↦ s
  | none ↦ record s {
    guild_order = s.guild_order ++ id ∷ [];
    guild_generation = insert id (increment (get s.guild_generation id 0)) s.guild_generation;
  }
]

unfoldable pub upsert_guild : Store → Guild → Store
upsert_guild s g =
    let seen = first_seen s g.id in
    touch_meta (record seen { guilds = insert g.id (fill_guild (lookup g.id s.guilds) g) s.guilds })

unfoldable pub guild_generation_of : Store → ℕ → ℕ
guild_generation_of s id = get s.guild_generation id 0

unfoldable pub set_guild_folders : Store → List GuildFolder → Store
set_guild_folders s folders = record s { guild_folders = folders }

unfoldable pub set_guild_emojis : Store → ℕ → List GuildEmoji → Store
set_guild_emojis s guild emojis =
    let emptied = erase guild s.guild_emojis in
    record s {
      guild_emojis = if length emojis == 0 then emptied else insert guild emojis s.guild_emojis;
    }

unfoldable pub guild_emojis : Store → ℕ → List GuildEmoji
guild_emojis s guild = get s.guild_emojis guild []

unfoldable pub set_guild_stickers : Store → ℕ → List GuildSticker → Store
set_guild_stickers s guild stickers =
    let emptied = erase guild s.guild_stickers in
    record s {
      guild_stickers =
          if length stickers == 0 then emptied else insert guild stickers s.guild_stickers;
    }

unfoldable pub guild_stickers : Store → ℕ → List GuildSticker
guild_stickers s guild = get s.guild_stickers guild []

unfoldable pub set_nitro : Store → Bool → Store
set_nitro s v = record s { has_nitro = v }

-- `Guilds`.
unfoldable pub guilds : Store → List Guild
guilds s = map (λ id. get s.guilds id zero_guild) s.guild_order

unfoldable pub guild_name : Store → ℕ → Option String
guild_name s id = Option.map (λ (g : Guild). g.name) (lookup id s.guilds)

unfoldable pub set_guild_unavailable : Store → ℕ → Bool → Store × Bool
set_guild_unavailable s id unavailable = elim (lookup id s.guilds) [
  | none ↦ (s, false)
  | some guild ↦ (
    touch_meta
        (record s { guilds = insert id (record guild { unavailable = unavailable }) s.guilds }),
    true,
  )
]

-- The loop over the folders: the guild goes from each, and a folder without guilds goes.
unfoldable pub purge_folders : ℕ → List GuildFolder → List GuildFolder
purge_folders id folders =
    filter (λ (f : GuildFolder). not (length f.guild_ids == 0))
      (map (λ (f : GuildFolder). record f { guild_ids = filter (λ g. not (g == id)) f.guild_ids })
        folders)

unfoldable pub remove_guild : Store → ℕ → Store
remove_guild s id =
    let emptied = drop_channels s (get s.channel_order id []) in
    touch_meta (record emptied {
      channel_order = erase id emptied.channel_order;
      members = erase id emptied.members;
      roles = erase id emptied.roles;
      guild_emojis = erase id emptied.guild_emojis;
      guild_stickers = erase id emptied.guild_stickers;
      guild_pings = erase id emptied.guild_pings;
      guilds = erase id emptied.guilds;
      guild_generation =
          insert id (increment (get emptied.guild_generation id 0)) emptied.guild_generation;
      guild_order = remove_first (λ g. g == id) emptied.guild_order;
      guild_folders = purge_folders id emptied.guild_folders;
    })
