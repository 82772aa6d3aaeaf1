-- ===== src/Store/Members/Tests.antt =====
-- A member with three roles.
use tuicord_v.Base.Dict.{lookup, insert, erase}
use tuicord_v.Base.Int.{pos}
use tuicord_v.Base.{ℕ, ◌≡◌, refl, true, [], ◌∷◌, some, any, ◌==◌}
use tuicord_v.Store.Data.{Member, Role, zero_member, zero_role}
use tuicord_v.Store.Members.Display.{IsOf, is_under, member_display_role-best}
use tuicord_v.Store.Members.{
  Best, same_ids, same_member, find_member, put_member, is_same_member, upsert_member, find_role,
  upsert_role, gradient_at_start, challenge, best_role, member_display_role, member_color,
}
use tuicord_v.Store.State.{Store, new, increment, touch_meta}

program : Unit {0}
unfolding same_ids same_member find_member put_member is_same_member upsert_member find_role
    upsert_role gradient_at_start challenge best_role member_display_role member_color new increment
    touch_meta lookup insert erase
program = tt

abbrev role : ℕ → ℕ → ℕ → Role
role id position color = record zero_role { id = id; position = pos position; color = color }

abbrev ann : Member
ann = record zero_member { id = 9; role_ids = 1 ∷ 3 ∷ 2 ∷ [] }

abbrev guild : Store
guild =
    upsert_member
      (upsert_role (upsert_role (upsert_role (new 4) 7 (role 1 5 0)) 7 (role 2 4 255)) 7
        (role 3 4 16))
      7 ann

-- The highest role has no colour; of the two beside each other the one with the smaller id counts.
display : member_display_role guild 7 9 ≡ some (role 2 4 255)
unfolding program
display = refl

colour : member_color guild 7 9 ≡ 255
unfolding program
colour = refl

-- The same member again changes nothing.
again : upsert_member guild 7 ann ≡ guild
unfolding program
again = refl

member_display_role-best_example :
    (best : Best) × (member_display_role guild 7 9 ≡ best.role)
    × IsOf (find_role guild 7) (λ k. any (λ i. i == k) ann.role_ids) best
    × (is_under best 3 (find_role guild 7 3) ≡ true)
unfolding program
member_display_role-best_example = member_display_role-best guild 7 9 ann 3 refl refl
