-- ===== src/Store/Ordering.antt =====
-- internal/store/ordering.go: the rows of the guild rail. A name is the list of its bytes; the sets
-- and the map of the code are functions from guild ids.
pub mod Tracks
pub mod Guilds
mod Tests
use tuicord_v.Base.Int.{ℤ, pos, negsuc}
use tuicord_v.Base.{
  ℕ, Bool, true, false, ◌&&◌, ◌||◌, List, [], ◌∷◌, ◌++◌, Option, none, some, length, ◌==◌,
  if◌then◌else◌,
}

-- The fields of a guild that are read here.
pub record Guild : Type 0 where
  pub id : ℕ
  pub name : List ℕ

pub record GuildFolder : Type 0 where
  pub id : ℤ
  pub name : List ℕ
  pub color : ℕ
  pub guild_ids : List ℕ

pub record GuildRow : Type 0 where
  pub folder : Bool
  pub name : List ℕ
  pub color : ℕ
  pub collapsed : Bool
  pub indent : Bool
  pub pinned : Bool
  pub guild_id : ℕ
  pub folder_id : ℤ

-- `byID`: of guilds with the same id the last.
unfoldable pub by_id : List Guild → ℕ → Option Guild
by_id [] id = none
by_id (g ∷ guilds) id = elim (by_id guilds id) [
  | some h ↦ some h
  | none ↦ if g.id == id then some g else none
]

-- The rows so far, and the ids of the guilds that are pinned and that are emitted.
pub record Rail : Type 0 where
  pub rows : List GuildRow
  pub pinned_set : ℕ → Bool
  pub emitted : ℕ → Bool

abbrev pub insert : (ℕ → Bool) → ℕ → ℕ → Bool
insert set id k = id == k || set k

abbrev pub guild_row : Guild → Bool → ℤ → Bool → GuildRow
guild_row g indent folder_id pinned = record {
  folder = false;
  name = g.name;
  color = 0;
  collapsed = false;
  indent = indent;
  pinned = pinned;
  guild_id = g.id;
  folder_id = folder_id;
}

unfoldable pub append_guild : Rail → Guild → Bool → ℤ → Rail
append_guild r g indent folder_id = if r.pinned_set g.id || r.emitted g.id then r else record r {
  emitted = insert r.emitted g.id;
  rows = r.rows ++ guild_row g indent folder_id false ∷ [];
}

unfoldable pub pin_guild : (ℕ → Option Guild) → Rail → ℕ → Rail
pin_guild guild_of r id = if r.pinned_set id then r else elim (guild_of id) [
  | none ↦ r
  | some g ↦ record r {
    pinned_set = insert r.pinned_set id;
    rows = r.rows ++ guild_row g false (pos 0) true ∷ [];
  }
]

unfoldable pub pin_guilds : (ℕ → Option Guild) → Rail → List ℕ → Rail
pin_guilds guild_of r [] = r
pin_guilds guild_of r (id ∷ ids) = pin_guilds guild_of (pin_guild guild_of r id) ids

-- The guild of an id, if it is known, appended or only marked as emitted.
unfoldable pub append_known : (ℕ → Option Guild) → Rail → ℕ → Bool → ℤ → Rail
append_known guild_of r id indent folder_id = elim (guild_of id) [
  | none ↦ r
  | some g ↦ append_guild r g indent folder_id
]

unfoldable pub append_members : (ℕ → Option Guild) → ℤ → Rail → List ℕ → Rail
append_members guild_of folder_id r [] = r
append_members guild_of folder_id r (id ∷ ids) =
    append_members guild_of folder_id (append_known guild_of r id true folder_id) ids

abbrev pub mark_known : (ℕ → Option Guild) → Rail → ℕ → Rail
mark_known guild_of r id = elim (guild_of id) [
  | none ↦ r
  | some g ↦ record r { emitted = insert r.emitted id }
]

unfoldable pub mark_members : (ℕ → Option Guild) → Rail → List ℕ → Rail
mark_members guild_of r [] = r
mark_members guild_of r (id ∷ ids) = mark_members guild_of (mark_known guild_of r id) ids

abbrev pub is_zero : ℤ → Bool
is_zero (pos n) = n == 0
is_zero (negsuc n) = false

unfoldable pub bare_folder : GuildFolder → Bool
bare_folder f = length f.name == 0 && is_zero f.id && length f.guild_ids == 1

abbrev group_name : List ℕ
group_name = b'G' ∷ b'r' ∷ b'o' ∷ b'u' ∷ b'p' ∷ []

unfoldable pub folder_name : GuildFolder → List ℕ
folder_name f = if length f.name == 0 then group_name else f.name

abbrev pub folder_row : GuildFolder → Bool → GuildRow
folder_row f collapsed = record {
  folder = true;
  name = folder_name f;
  color = f.color;
  collapsed = collapsed;
  indent = false;
  pinned = false;
  guild_id = 0;
  folder_id = f.id;
}

-- The guild of a bare folder, which has one id.
abbrev pub append_first : (ℕ → Option Guild) → Rail → List ℕ → Rail
append_first guild_of r [] = r
append_first guild_of r (id ∷ ids) = append_known guild_of r id false (pos 0)

unfoldable pub append_folder : (ℕ → Option Guild) → (ℤ → Bool) → Rail → GuildFolder → Rail
append_folder guild_of collapsed r f =
    let headed = record r { rows = r.rows ++ folder_row f (collapsed f.id) ∷ [] } in
    if bare_folder f
    then append_first guild_of r f.guild_ids
    else if collapsed f.id
    then mark_members guild_of headed f.guild_ids
    else append_members guild_of f.id headed f.guild_ids

unfoldable pub append_folders : (ℕ → Option Guild) → (ℤ → Bool) → Rail → List GuildFolder → Rail
append_folders guild_of collapsed r [] = r
append_folders guild_of collapsed r (f ∷ folders) =
    append_folders guild_of collapsed (append_folder guild_of collapsed r f) folders

unfoldable pub append_guilds : Rail → List Guild → Rail
append_guilds r [] = r
append_guilds r (g ∷ guilds) = append_guilds (append_guild r g false (pos 0)) guilds

abbrev pub empty_rail : Rail
empty_rail = record { rows = []; pinned_set = λ k. false; emitted = λ k. false }

unfoldable pub order_guilds : List GuildFolder → List Guild → List ℕ → (ℤ → Bool) → List GuildRow
order_guilds folders guilds pinned collapsed =
    let guild_of = by_id guilds in
    (append_guilds
      (append_folders guild_of collapsed (pin_guilds guild_of empty_rail pinned) folders)
      guilds).rows
