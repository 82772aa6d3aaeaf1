-- ===== src/Store/Permissions/Tests.antt =====
-- Permissions in concrete channels, and the theorems there.
use tuicord_v.Base.{ℕ, ◌≡◌, refl, true, false, List, [], ◌∷◌, some, ◌==◌, if◌then◌else◌}
use tuicord_v.Store.Permissions.{
  Permission, no_permissions, perm_administrator, has_below, has, PermissionOverwrite,
  overwrite_all, gather, apply_overwrites, Channel, Directory, thread, text, add_roles,
  member_permissions, effective_overwrites, channel_permissions, is_everyone, is_of_roles,
  is_of_member, found_or,
}
use tuicord_v.Store.Permissions.Overwrites.{first_of, last_word, joint_word, apply_overwrites-word}

program : Unit {0}
unfolding has_below has overwrite_all gather apply_overwrites add_roles member_permissions
    effective_overwrites channel_permissions
program = tt

abbrev bit : ℕ → Permission
bit n k = k == n

-- @everyone (the role 1) may not send messages, the role 5 may.
abbrev quiet : List PermissionOverwrite
quiet =
    record { id = 1; role = true; allow = no_permissions; deny = bit 11 }
    ∷ record { id = 5; role = true; allow = bit 11; deny = no_permissions }
    ∷ []

denied : apply_overwrites (bit 11) 1 [] 9 quiet 11 ≡ false
unfolding program
denied = refl

allowed : apply_overwrites (bit 11) 1 (5 ∷ []) 9 quiet 11 ≡ true
unfolding program
allowed = refl

apply_overwrites-word_example : apply_overwrites (bit 11) 1 (5 ∷ []) 9 quiet 11 ≡ (
    if bit 11 perm_administrator
    then bit 11 11
    else found_or
        (first_of (last_word (is_of_member 9) 11 quiet) (
          first_of
            (joint_word (is_of_roles 1 (5 ∷ [])) 11 quiet)
            (last_word (is_everyone 1) 11 quiet)))
        (bit 11 11))
apply_overwrites-word_example = apply_overwrites-word (bit 11) 1 (5 ∷ []) 9 quiet 11

abbrev parent : Channel
parent = record { overwrites = quiet; kind = text; parent_id = 0 }

abbrev post : Channel
post = record { overwrites = []; kind = thread; parent_id = 20 }

-- The channel 20 and its thread 21.
abbrev server : Directory
server = record {
  owner_ids = λ g. some 2;
  role_permissions = λ g r. some (bit 11);
  role_ids = λ g u. some [];
  channels = λ c. if c == 20 then some parent else some post;
}
