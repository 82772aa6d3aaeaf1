-- ===== src/Store/Data.antt =====
-- internal/store/store.go: guilds, channels, members, roles and the catalogs of a guild. Of the
-- numbers, a `Position` is signed; a time is a number of nanoseconds. A slice is a list, so a nil
-- slice and an empty one are the same here.
use tuicord_v.Base.Int.{ℤ, pos}
use native.Mathlib.Decide.{ℕ_discrete}
use package.text.Mathlib.Text.{◌==◌ as str_eq}
use package.text.Mathlib.TextEquality.{eq_iff}
use tuicord_v.Base.{ℕ, Bool, false, List, [], Option, none, String, ◌≡◌, ◌≢◌, true, refl}
use tuicord_v.Store.Permissions.{ChannelKind, text}
use tuicord_v.Store.Rich.{StickerFormat}

pub record Guild : Type 0 where
  pub id : ℕ
  pub name : String
  pub unavailable : Bool
  pub owner_id : ℕ
  pub rules_channel_id : ℕ

-- `PermissionOverwrite`, its permissions as words.
pub record OverwriteWords : Type 0 where
  pub id : ℕ
  pub role : Bool
  pub allow : ℕ
  pub deny : ℕ

pub data ThreadSort : Type 0 where
  latest_activity creation_date : ThreadSort

pub record ThreadMeta : Type 0 where
  pub archived : Bool
  pub locked : Bool
  pub message_count : ℕ
  pub member_count : ℕ
  pub owner_id : ℕ
  pub last_active : ℕ
  pub joined : Bool
  pub applied_tags : List ℕ

pub record Tag : Type 0 where
  pub id : ℕ
  pub name : String
  pub emoji : String

pub record ForumMeta : Type 0 where
  pub tags : List Tag
  pub default_sort : ThreadSort

pub record Member : Type 0 where
  pub id : ℕ
  pub name : String
  pub username : String
  pub nick : String
  pub avatar_url : String
  pub color : ℕ
  pub role_ids : List ℕ

pub record Channel : Type 0 where
  pub id : ℕ
  pub guild_id : ℕ
  pub name : String
  pub kind : ChannelKind
  pub last_message_id : ℕ
  pub position : ℤ
  pub parent_id : ℕ
  pub recipient_ids : List ℕ
  pub overwrites : List OverwriteWords
  pub thread_meta : Option ThreadMeta
  pub recipients : List Member
  pub forum : Option ForumMeta

pub record Role : Type 0 where
  pub id : ℕ
  pub name : String
  pub position : ℤ
  pub color : ℕ
  pub hoist : Bool
  pub mentionable : Bool
  -- `Colors[0]`, `Colors[1]` and `Colors[2]`.
  pub primary : ℕ
  pub secondary : ℕ
  pub tertiary : ℕ
  pub permissions : ℕ

pub record GuildEmoji : Type 0 where
  pub id : ℕ
  pub name : String
  pub animated : Bool

pub record GuildSticker : Type 0 where
  pub id : ℕ
  pub name : String
  pub format : StickerFormat

-- The zero values of a failed lookup.
abbrev pub zero_channel : Channel
zero_channel = record {
  id = 0;
  guild_id = 0;
  name = "";
  kind = text;
  last_message_id = 0;
  position = pos 0;
  parent_id = 0;
  recipient_ids = [];
  overwrites = [];
  thread_meta = none;
  recipients = [];
  forum = none;
}

abbrev pub zero_guild : Guild
zero_guild = record { id = 0; name = ""; unavailable = false; owner_id = 0; rules_channel_id = 0 }

abbrev pub zero_member : Member
zero_member = record {
  id = 0;
  name = "";
  username = "";
  nick = "";
  avatar_url = "";
  color = 0;
  role_ids = [];
}

abbrev pub zero_role : Role
zero_role = record {
  id = 0;
  name = "";
  position = pos 0;
  color = 0;
  hoist = false;
  mentionable = false;
  primary = 0;
  secondary = 0;
  tertiary = 0;
  permissions = 0;
}

pub str_ne : (a b : String) → str_eq a b ≡ false → a ≢ b
str_ne a b other e = cc ((eq_iff a b).1 e)

abbrev string_decision : (a b : String) (t : Bool) → str_eq a b ≡ t → Dec (a ≡ b)
string_decision a b true e = yes ((eq_iff a b).0 e)
string_decision a b false e = no (str_ne a b e)

String-discrete : Discrete String
String-discrete a b = string_decision a b (str_eq a b) refl

Member-discrete : Discrete Member
Member-discrete = hlevel (ℕ_discrete, String-discrete)

Channel-discrete : Discrete Channel
Channel-discrete = hlevel (ℕ_discrete, String-discrete, Member-discrete)

-- `reflect.DeepEqual` on channels.
unfoldable pub deep_equal : Channel → Channel → Bool
unfolding Channel-discrete Member-discrete String-discrete
deep_equal a b = elim (Channel-discrete a b) [ yes _ ↦ true | no _ ↦ false ]

pub deep_equal_refl : (a : Channel) → deep_equal a a ≡ true
unfolding deep_equal
deep_equal_refl a =
    elim (Channel-discrete a a)
      as (λ (d : Dec (a ≡ a)).
        (let r : Bool = elim d [ yes _ ↦ true | no _ ↦ false ] in r) ≡ true) [
          | yes _ ↦ refl
          | no ne ↦ absurd (ne refl)
        ]
