-- ===== src/Store/Ordering/Guilds.antt =====
-- Each guild has one row, unless a collapsed folder hides it.
use tuicord_v.Base.Int.{ℤ}
use tuicord_v.Base.{ℕ, ◌≤◌, ◌≡◌, refl, Bool, true, false, List, any, ◌==◌, arith}
use tuicord_v.Store.Ordering.Tracks.{
  count_rows, hides, Tracks, append_guilds-Tracks, append_folders-Tracks, pin_guilds-Tracks, sees,
  sees-append_guilds,
}
use tuicord_v.Store.Ordering.{
  Guild, GuildFolder, by_id, Rail, pin_guilds, append_folders, append_guilds, order_guilds,
  empty_rail,
}

empty-Tracks : (id : ℕ) (hidden : Bool) → Tracks id hidden empty_rail
unfolding count_rows
empty-Tracks id hidden = record { at_most = omega arith; exact = λ h. refl }

module _ (folders : List GuildFolder) (guilds : List Guild) (pinned : List ℕ) (collapsed : ℤ → Bool)
    (id : ℕ) where
  abbrev foldered : Rail
  foldered =
      append_folders (by_id guilds) collapsed (pin_guilds (by_id guilds) empty_rail pinned) folders

  rail-Tracks :
      (hidden : Bool)
      → (hidden ≡ false → hides collapsed id folders ≡ false)
      → Tracks id hidden (append_guilds foldered guilds)
  rail-Tracks hidden apart = append_guilds-Tracks id hidden foldered guilds (
      append_folders-Tracks id (by_id guilds) hidden collapsed
        (pin_guilds (by_id guilds) empty_rail pinned) folders apart
        (pin_guilds-Tracks id guilds hidden empty_rail pinned refl (empty-Tracks id hidden)))

  -- No guild has two rows in the guild rail, whatever the folders, pins and collapsed folders are.
  pub count_rows-le : count_rows id (order_guilds folders guilds pinned collapsed) ≤ 1
  unfolding order_guilds
  count_rows-le = ground (arith, (rail-Tracks true (λ h. cc)).at_most)

  -- A guild of the store that no collapsed folder holds has exactly one row in the guild rail. (A
  -- folder that stands for a bare guild counts as no folder.)
  pub count_rows-order_guilds :
      any (λ (g : Guild). g.id == id) guilds ≡ true
      → hides collapsed id folders ≡ false
      → count_rows id (order_guilds folders guilds pinned collapsed) ≡ 1
  unfolding order_guilds sees
  count_rows-order_guilds known shown =
      ground
        (arith, (rail-Tracks false (λ h. shown)).exact refl, sees-append_guilds id foldered guilds)
