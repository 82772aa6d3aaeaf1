-- ===== src/Store/Ordering/Tests.antt =====
-- The guild rail of three guilds, one of them pinned, in an open and a collapsed folder.
use tuicord_v.Base.Int.{ℤ, pos, negsuc}
use tuicord_v.Base.{ℕ, ◌≡◌, refl, Bool, false, List, [], ◌∷◌, map, ◌==◌}
use tuicord_v.Store.Ordering.{
  Guild, GuildFolder, GuildRow, by_id, append_guild, pin_guild, pin_guilds, append_known,
  append_members, mark_members, bare_folder, folder_name, append_folder, append_folders,
  append_guilds, order_guilds,
}
use tuicord_v.Store.Ordering.Tracks.{count_rows, hides}
use tuicord_v.Store.Ordering.Guilds.{count_rows-order_guilds}

program : Unit {0}
unfolding by_id append_guild pin_guild pin_guilds append_known append_members mark_members
    bare_folder folder_name append_folder append_folders append_guilds order_guilds count_rows hides
program = tt

abbrev guild : ℕ → Guild
guild n = record { id = n; name = n ∷ [] }

abbrev folder : ℕ → List ℕ → GuildFolder
folder n ids = record { id = pos n; name = []; color = 0; guild_ids = ids }

abbrev folders : List GuildFolder
folders = folder 7 (1 ∷ 2 ∷ []) ∷ folder 8 (3 ∷ 1 ∷ []) ∷ []

abbrev guilds : List Guild
guilds = guild 1 ∷ guild 2 ∷ guild 3 ∷ guild 4 ∷ []

abbrev collapsed : ℤ → Bool
collapsed (pos n) = n == 8
collapsed (negsuc n) = false

rail :
    map (λ (r : GuildRow). r.guild_id) (order_guilds folders guilds (2 ∷ []) collapsed)
    ≡ 2 ∷ 0 ∷ 1 ∷ 0 ∷ 4 ∷ []
unfolding program
rail = refl

count_rows-order_guilds_example : count_rows 2 (order_guilds folders guilds (2 ∷ []) collapsed) ≡ 1
unfolding program
count_rows-order_guilds_example =
    count_rows-order_guilds folders guilds (2 ∷ []) collapsed 2 refl refl
