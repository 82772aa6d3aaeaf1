-- ===== src/Store/Permissions.antt =====
-- internal/store/permissions.go: the permissions of a member in a guild and in a channel. A set of
-- permissions gives for the number of a bit whether it is set; a `uint64` has the bits below 64.
pub mod Overwrites
pub mod Channels
mod Tests
use tuicord_v.Base.{
  ℕ, zero, suc, ◌+◌, Bool, true, false, ◌&&◌, ◌||◌, not, List, [], ◌∷◌, Option, none, some, length,
  any, ◌==◌, if◌then◌else◌,
}

abbrev pub Permission : Type 0
Permission = ℕ → Bool

abbrev pub no_permissions : Permission
no_permissions k = false

abbrev pub all_permissions : Permission
all_permissions k = true

-- The number of the administrator's bit.
abbrev pub perm_administrator : ℕ
perm_administrator = 3

-- Whether the bits below n of perm are all in p.
unfoldable pub has_below : ℕ → Permission → Permission → Bool
has_below zero p perm = true
has_below (suc k) p perm = (not (perm k) || p k) && has_below k p perm

-- `p.Has(perm)`.
unfoldable pub has : Permission → Permission → Bool
has p perm = if p perm_administrator then true else has_below 64 p perm

unfoldable pub combine_permissions : Permission → List Permission → Permission
combine_permissions perms [] = perms
combine_permissions perms (r ∷ roles) = combine_permissions (λ k. perms k || r k) roles

pub record PermissionOverwrite : Type 0 where
  pub id : ℕ
  pub role : Bool
  pub allow : Permission
  pub deny : Permission

-- `perms &^= o.Deny; perms |= o.Allow`.
abbrev pub overwrite : Permission → Permission → Permission → Permission
overwrite perms deny allow k = perms k && not (deny k) || allow k

-- The loop over the overwrites that match.
unfoldable pub overwrite_all :
    (PermissionOverwrite → Bool) → Permission → List PermissionOverwrite → Permission
overwrite_all applies perms [] = perms
overwrite_all applies perms (o ∷ overwrites) =
    overwrite_all applies (if applies o then overwrite perms o.deny o.allow else perms) overwrites

-- The loop that gathers what the roles' overwrites allow and deny.
unfoldable pub gather :
    (PermissionOverwrite → Bool)
    → Permission
    → Permission
    → List PermissionOverwrite
    → Permission × Permission
gather applies allow deny [] = (allow, deny)
gather applies allow deny (o ∷ overwrites) =
    let hit = applies o in
    gather applies (λ k. allow k || hit && o.allow k) (λ k. deny k || hit && o.deny k) overwrites

abbrev pub is_everyone : ℕ → PermissionOverwrite → Bool
is_everyone everyone_role o = o.role && o.id == everyone_role

abbrev pub is_of_roles : ℕ → List ℕ → PermissionOverwrite → Bool
is_of_roles everyone_role member_roles o =
    o.role && not (o.id == everyone_role) && any (λ r. r == o.id) member_roles

abbrev pub is_of_member : ℕ → PermissionOverwrite → Bool
is_of_member member o = not o.role && o.id == member

unfoldable pub apply_overwrites :
    Permission → ℕ → List ℕ → ℕ → List PermissionOverwrite → Permission
apply_overwrites base everyone_role member_roles member overwrites =
    let perms = overwrite_all (is_everyone everyone_role) base overwrites in
    let (allow, deny) =
      gather (is_of_roles everyone_role member_roles) no_permissions no_permissions overwrites in
    if base perm_administrator
    then base
    else overwrite_all (is_of_member member) (overwrite perms deny allow) overwrites

pub data ChannelKind : Type 0 where
  text voice category dm announcement forum thread : ChannelKind

-- The fields of a channel that are read here.
pub record Channel : Type 0 where
  pub overwrites : List PermissionOverwrite
  pub kind : ChannelKind
  pub parent_id : ℕ

-- What is read of the store: a guild's owner, a role's permissions, a member's roles, a channel.
pub record Directory : Type 0 where
  pub owner_ids : ℕ → Option ℕ
  pub role_permissions : ℕ → ℕ → Option Permission
  pub role_ids : ℕ → ℕ → Option (List ℕ)
  pub channels : ℕ → Option Channel

abbrev pub found_or : {A : Type 0} → Option A → A → A
found_or none d = d
found_or (some a) d = a

-- The loop over a member's roles.
unfoldable pub add_roles : (ℕ → Option Permission) → Permission → List ℕ → Permission
add_roles roles perms [] = perms
add_roles roles perms (rid ∷ rids) =
    add_roles roles (λ k. perms k || found_or (roles rid) no_permissions k) rids

abbrev pub is_owner : Option ℕ → ℕ → Bool
is_owner none user = false
is_owner (some owner) user = not (owner == 0) && owner == user

unfoldable pub member_permissions : Directory → ℕ → ℕ → Permission
member_permissions s guild user =
    let base = found_or (s.role_permissions guild guild) no_permissions in
    if is_owner (s.owner_ids guild) user
    then all_permissions
    else add_roles (s.role_permissions guild) base (found_or (s.role_ids guild user) [])

unfoldable pub member_can : Directory → ℕ → ℕ → Permission → Bool
member_can s guild user perm = has (member_permissions s guild user) perm

abbrev pub is_thread : ChannelKind → Bool
is_thread thread = true
is_thread _ = false

-- The overwrites that hold in a channel: a thread without any has its parent's.
unfoldable pub effective_overwrites : Directory → Channel → List PermissionOverwrite
effective_overwrites s c =
    if length c.overwrites == 0 && is_thread c.kind && not (c.parent_id == 0)
    then elim (s.channels c.parent_id) [ none ↦ c.overwrites | some parent ↦ parent.overwrites ]
    else c.overwrites

unfoldable pub channel_permissions : Directory → ℕ → ℕ → ℕ → Permission
channel_permissions s guild user channel =
    let base = member_permissions s guild user in
    if base perm_administrator then base else elim (s.channels channel) [
      | none ↦ base
      | some c ↦
          apply_overwrites base guild (found_or (s.role_ids guild user) []) user
            (effective_overwrites s c)
    ]

unfoldable pub channel_can : Directory → ℕ → ℕ → ℕ → Permission → Bool
channel_can s guild user channel perm = has (channel_permissions s guild user channel) perm
