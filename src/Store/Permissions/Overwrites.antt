-- ===== src/Store/Permissions/Overwrites.antt =====
-- The precedence of a channel's overwrites, bit by bit.
use tuicord_v.Base.{
  ℕ, ◌≡◌, refl, ◌∙◌, Bool, true, false, ◌&&◌, ◌||◌, List, [], ◌∷◌, Option, none, some, any,
  if◌then◌else◌, arith, Bool-cases, inl, inr,
}
use tuicord_v.Store.Permissions.{
  Permission, no_permissions, perm_administrator, PermissionOverwrite, overwrite, overwrite_all,
  gather, is_everyone, is_of_roles, is_of_member, apply_overwrites, found_or,
}

-- What one overwrite says of a bit: allowed, denied or nothing.
abbrev pub word : PermissionOverwrite → ℕ → Option Bool
word o k = if o.allow k then some true else if o.deny k then some false else none

abbrev pub first_of : Option Bool → Option Bool → Option Bool
first_of none b = b
first_of (some v) b = some v

-- The last word on a bit among the overwrites that apply.
pub last_word : (PermissionOverwrite → Bool) → ℕ → List PermissionOverwrite → Option Bool
last_word applies k [] = none
last_word applies k (o ∷ os) =
    first_of (last_word applies k os) (if applies o then word o k else none)

-- The word of several overwrites together: allowed if one allows, else denied if one denies.
pub joint_word : (PermissionOverwrite → Bool) → ℕ → List PermissionOverwrite → Option Bool
joint_word applies k os =
    if any (λ o. applies o && o.allow k) os
    then some true
    else if any (λ o. applies o && o.deny k) os
    then some false
    else none

module _ (applies : PermissionOverwrite → Bool) (k : ℕ) where
  overwrite_all-last_word :
      (perms : Permission) (os : List PermissionOverwrite)
      → overwrite_all applies perms os k ≡ found_or (last_word applies k os) (perms k)
  unfolding overwrite_all last_word
  overwrite_all-last_word perms [] = refl
  overwrite_all-last_word perms (o ∷ os) = ground (
    arith,
    overwrite_all-last_word (if applies o then overwrite perms o.deny o.allow else perms) os,
    last_word applies k os,
  )

  gather-any :
      (allow deny : Permission) (os : List PermissionOverwrite)
      → ((gather applies allow deny os).0 k ≡ (allow k || any (λ o. applies o && o.allow k) os))
        × ((gather applies allow deny os).1 k ≡ (deny k || any (λ o. applies o && o.deny k) os))
  unfolding gather
  gather-any allow deny [] = ground arith
  gather-any allow deny (o ∷ os) = ground (
    arith,
    gather-any (λ j. allow j || applies o && o.allow j) (λ j. deny j || applies o && o.deny j) os,
  )

-- For a base set without the administrator's bit, a bit of the result is decided by the last word of
-- the member's own overwrites on it; without one, by the roles' overwrites together, where an allow
-- wins over a deny; without one, by the last word of the overwrites of @everyone; and else the bit is
-- the base's. A base set with the administrator's bit stays as it is.
pub apply_overwrites-word :
    (base : Permission) (everyone : ℕ) (roles : List ℕ) (member : ℕ) (os : List PermissionOverwrite)
    (k : ℕ)
    → apply_overwrites base everyone roles member os k ≡ (
        if base perm_administrator
        then base k
        else found_or
            (first_of (last_word (is_of_member member) k os) (
              first_of
                (joint_word (is_of_roles everyone roles) k os)
                (last_word (is_everyone everyone) k os)))
            (base k))
unfolding apply_overwrites joint_word
apply_overwrites-word base everyone roles member os k =
    let by_roles = is_of_roles everyone roles in
    let gathered = gather by_roles no_permissions no_permissions os in
    let perms = overwrite_all (is_everyone everyone) base os in
    let merged : Permission = overwrite perms gathered.1 gathered.0 in
    elim (Bool-cases (base perm_administrator)) [
      | inl admin ↦ rw admin refl
      | inr plain ↦ rw plain (
          overwrite_all-last_word (is_of_member member) k merged os
          ∙ ground (
            arith,
            gather-any by_roles k no_permissions no_permissions os,
            overwrite_all-last_word (is_everyone everyone) k base os,
            last_word (is_of_member member) k os,
            last_word (is_everyone everyone) k os,
          ))
    ]
