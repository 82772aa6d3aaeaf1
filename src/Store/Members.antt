-- ===== src/Store/Members.antt =====
-- internal/store/store.go, mutation.go and color.go: members, roles and the colour of a member's name.
pub mod Display
mod Tests
use package.text.Mathlib.Text.{◌==◌ as str_eq}
use mathlib.Core.Option
use tuicord_v.Base.Dict.{Dict, lookup, insert, erase, get}
use tuicord_v.Base.Int.{ℤ, pos, negsuc, ltb_ℤ, eq_ℤ}
use tuicord_v.Base.{
  ℕ, Bool, true, false, ◌&&◌, ◌||◌, not, List, [], ◌∷◌, Option, none, some, String, length, ltb,
  ◌==◌, if◌then◌else◌, map,
}
use tuicord_v.Store.Data.{Channel, Member, Role}
use tuicord_v.Store.Permissions.{ChannelKind, dm}
use tuicord_v.Store.Sorting.{insertion_sort}
use tuicord_v.Store.State.{Store, touch_meta}

-- The loop over two slices of the same length.
unfoldable pub same_ids : List ℕ → List ℕ → Bool
same_ids [] [] = true
same_ids (x ∷ xs) (y ∷ ys) = x == y && same_ids xs ys
same_ids _ _ = false

unfoldable pub same_member : Member → Member → Bool
same_member a b =
    a.id == b.id
    && str_eq a.name b.name
    && str_eq a.username b.username
    && str_eq a.nick b.nick
    && str_eq a.avatar_url b.avatar_url
    && a.color == b.color
    && same_ids a.role_ids b.role_ids

-- `s.members[guild][user]`
unfoldable pub find_member : Store → ℕ → ℕ → Option Member
find_member s guild user = lookup user (get s.members guild [])

unfoldable pub put_member : Store → ℕ → Member → Store
put_member s guild m =
    touch_meta
      (record s { members = insert guild (insert m.id m (get s.members guild [])) s.members })

unfoldable pub is_same_member : Option Member → Member → Bool
is_same_member none m = false
is_same_member (some existing) m = same_member existing m

unfoldable pub upsert_member : Store → ℕ → Member → Store
upsert_member s guild m =
    if is_same_member (find_member s guild m.id) m then s else put_member s guild m

-- The identity of a sparse author over the member that is known.
unfoldable pub merge_identity : Member → Member → Member
merge_identity existing m = record existing {
  name = if str_eq existing.name "" then m.name else existing.name;
  username = if str_eq m.username "" then existing.username else m.username;
  avatar_url = if str_eq existing.avatar_url "" then m.avatar_url else existing.avatar_url;
}

-- `changed`
unfoldable pub is_changed : Member → Member → Bool
is_changed existing m =
    str_eq existing.name "" && not (str_eq m.name "")
    || not (str_eq m.username "") && not (str_eq m.username existing.username)
    || str_eq existing.avatar_url "" && not (str_eq m.avatar_url "")

unfoldable pub remember_member_identity : Store → ℕ → Member → Store
remember_member_identity s guild m =
    if guild == 0 || m.id == 0 then s else elim (find_member s guild m.id) [
      | none ↦ put_member s guild m
      | some existing ↦
          let touched = touch_meta (record s {
            members =
                insert guild (insert m.id (merge_identity existing m) (get s.members guild []))
                  s.members;
          }) in
          if is_changed existing m then touched else s
    ]

-- A guild without members stays without.
unfoldable pub remove_member : Store → ℕ → ℕ → Store
remove_member s guild user = elim (lookup guild s.members) [
  | none ↦ touch_meta s
  | some by_user ↦ touch_meta (record s { members = insert guild (erase user by_user) s.members })
]

unfoldable pub member_name : Store → ℕ → ℕ → Option String
member_name s guild user = Option.map (λ (m : Member). m.name) (find_member s guild user)

-- The first member of a list with an id.
unfoldable pub first_with_id : ℕ → List Member → Option Member
first_with_id user [] = none
first_with_id user (m ∷ ms) = if m.id == user then some m else first_with_id user ms

abbrev pub is_dm : ChannelKind → Bool
is_dm dm = true
is_dm _ = false

unfoldable pub channel_recipient : Store → ℕ → ℕ → Option Member
channel_recipient s channel user = elim (lookup channel s.channels) [
  | none ↦ none
  | some c ↦ if is_dm c.kind then first_with_id user c.recipients else none
]

-- `s.roles[guild][role]`
unfoldable pub find_role : Store → ℕ → ℕ → Option Role
find_role s guild role = lookup role (get s.roles guild [])

unfoldable pub upsert_role : Store → ℕ → Role → Store
upsert_role s guild r =
    touch_meta (record s { roles = insert guild (insert r.id r (get s.roles guild [])) s.roles })

unfoldable pub remove_role : Store → ℕ → ℕ → Store
remove_role s guild role = elim (lookup guild s.roles) [
  | none ↦ touch_meta s
  | some by_role ↦ touch_meta (record s { roles = insert guild (erase role by_role) s.roles })
]

unfoldable pub less_role : Role → Role → Bool
less_role a b = if eq_ℤ a.position b.position then ltb a.id b.id else ltb_ℤ b.position a.position

unfoldable pub sort_roles : List Role → List Role
sort_roles rs = insertion_sort less_role rs

unfoldable pub roles : Store → ℕ → List Role
roles s guild = sort_roles (map (λ e. e.1) (get s.roles guild []))

-- `GradientAt(0)`: at 0 an interpolation gives its first colour.
unfoldable pub gradient_at_start : Role → ℕ
gradient_at_start r =
    if r.primary == 0 && r.secondary == 0 && r.tertiary == 0
    then r.color
    else if r.secondary == 0
    then (if r.primary == 0 then r.color else r.primary)
    else r.primary

-- `bestPos`, `bestID`, and `best` where `found` is set.
pub record Best : Type 0 where
  pub pos : ℤ
  pub id : ℕ
  pub role : Option Role

abbrev pub is_none : Option Role → Bool
is_none none = true
is_none (some r) = false

-- A role of the member against the best so far.
unfoldable pub challenge : Best → ℕ → Option Role → Best
challenge best rid none = best
challenge best rid (some r) =
    let higher = ltb_ℤ best.pos r.position in
    let tied = eq_ℤ r.position best.pos && (is_none best.role || ltb rid best.id) in
    let colourless = gradient_at_start r == 0 in
    if colourless || not (higher || tied)
    then best
    else record { pos = r.position; id = rid; role = some r }

unfoldable pub best_role : (ℕ → Option Role) → Best → List ℕ → Best
best_role roles best [] = best
best_role roles best (rid ∷ rids) = best_role roles (challenge best rid (roles rid)) rids

abbrev pub no_best : Best
no_best = record { pos = negsuc 0; id = 0; role = none }

unfoldable pub member_display_role : Store → ℕ → ℕ → Option Role
member_display_role s guild user = elim (find_member s guild user) [
  | none ↦ none
  | some m ↦ (best_role (find_role s guild) no_best m.role_ids).role
]

unfoldable pub member_color : Store → ℕ → ℕ → ℕ
member_color s guild user = elim (member_display_role s guild user) [
  | none ↦ 0
  | some role ↦ gradient_at_start role
]
