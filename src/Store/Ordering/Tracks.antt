-- ===== src/Store/Ordering/Tracks.antt =====
-- Each loop of OrderGuilds keeps the count of a guild's rows at what has been seen of it.
use mathlib.Core.Path.{subst}
use native.Mathlib.Decide.{ℕ_discrete}
use tuicord_v.Base.Int.{ℤ, pos}
use tuicord_v.Base.{
  ℕ, ◌+◌, ◌≤◌, ◌≡◌, sym, ap, ◌∙◌, Bool, true, false, ◌&&◌, ◌||◌, not, List, [], ◌∷◌, ◌++◌, Option,
  some, any, ◌==◌, if◌then◌else◌, arith, Bool-cases, Option-cases, inl, inr,
}
use tuicord_v.Store.Ordering.{
  Guild, GuildFolder, GuildRow, by_id, Rail, append_guild, pin_guild, pin_guilds, append_known,
  append_members, mark_known, mark_members, bare_folder, append_first, append_folder,
  append_folders, append_guilds, guild_row, folder_row,
}

-- The number of rows of a guild.
unfoldable pub count_rows : ℕ → List GuildRow → ℕ
count_rows id [] = 0
count_rows id (row ∷ rows) =
    let rest = count_rows id rows in if not row.folder && row.guild_id == id then 1 + rest else rest

count_rows-append :
    (id : ℕ) (rows : List GuildRow) (row : GuildRow)
    → count_rows id (rows ++ row ∷ [])
      ≡ count_rows id rows + (if not row.folder && row.guild_id == id then 1 else 0)
unfolding count_rows
count_rows-append id [] row = ground arith
count_rows-append id (r ∷ rows) row = ground (arith, count_rows-append id rows row)

by_id-id : (guilds : List Guild) (id : ℕ) {g : Guild} → by_id guilds id ≡ some g → g.id ≡ id
unfolding by_id
by_id-id [] id h = ground arith
by_id-id (x ∷ guilds) id {g} h = ground (arith, by_id-id guilds id {g = g})

abbrev pub contains : ℕ → List ℕ → Bool
contains id = any (λ k. k == id)

-- Whether a collapsed folder that is no bare guild holds an id.
unfoldable pub hides : (ℤ → Bool) → ℕ → List GuildFolder → Bool
hides collapsed id folders =
    any (λ (f : GuildFolder). not (bare_folder f) && collapsed f.id && contains id f.guild_ids)
      folders

module _ (id : ℕ) where
  abbrev pub seen : Rail → ℕ
  seen r = if r.pinned_set id || r.emitted id then 1 else 0

  -- A guild that has been seen has one row, or none if it is hidden.
  pub record Tracks (hidden : Bool) (r : Rail) : Type 0 where
    pub at_most : count_rows id r.rows ≤ seen r
    pub exact : hidden ≡ false → count_rows id r.rows ≡ seen r

  append_guild-Tracks :
      (hidden : Bool) (r : Rail) (g : Guild) (indent : Bool) (folder_id : ℤ)
      → Tracks hidden r
      → Tracks hidden (append_guild r g indent folder_id)
  unfolding append_guild
  append_guild-Tracks hidden r g indent folder_id t =
      let added = count_rows-append id r.rows (guild_row g indent folder_id false) in
      elim (Bool-cases (r.pinned_set g.id || r.emitted g.id)) [
        | inl old ↦ rw (old, append_guild) t
        | inr new ↦ elim (ℕ_discrete g.id id) [
          | yes same ↦
              let new' : (r.pinned_set id || r.emitted id) ≡ false =
                ap (λ (k : ℕ). r.pinned_set k || r.emitted k) (sym same) ∙ new in
              rw (new, append_guild)
                (record {
                  at_most = ground (arith, added, new', same);
                  exact = λ h. ground (arith, added, new', same, t.exact h);
                })
          | no other ↦
              rw (new, append_guild)
                (record {
                  at_most = ground (arith, added, other);
                  exact = λ h. ground (arith, added, other, t.exact h);
                })
        ]
      ]

  -- Where nothing has been emitted yet, as in the loop over the pinned ids.
  pin_guild-Tracks :
      (guilds : List Guild) (hidden : Bool) (r : Rail) (k : ℕ)
      → r.emitted ≡ (λ j. false)
      → Tracks hidden r
      → Tracks hidden (pin_guild (by_id guilds) r k)
  unfolding pin_guild
  pin_guild-Tracks guilds hidden r k none_yet t = elim (Bool-cases (r.pinned_set k)) [
    | inl old ↦ rw (old, pin_guild) t
    | inr new ↦ elim (Option-cases (by_id guilds k)) [
      | inl unknown ↦ rw (new, unknown, pin_guild) t
      | inr (g, known) ↦
          let here : g.id ≡ k = by_id-id guilds k known in
          let added = count_rows-append id r.rows (guild_row g false (pos 0) true) in
          let quiet : r.emitted id ≡ false = ap (λ (f : ℕ → Bool). f id) none_yet in
          elim (ℕ_discrete k id) [
            | yes same ↦
                let new' : r.pinned_set id ≡ false = ap r.pinned_set (sym same) ∙ new in
                rw (new, known, pin_guild)
                  (record {
                    at_most = ground (arith, added, new', same, here, quiet);
                    exact = λ h. ground (arith, added, new', same, here, quiet, t.exact h);
                  })
            | no other ↦
                rw (new, known, pin_guild)
                  (record {
                    at_most = ground (arith, added, other, here);
                    exact = λ h. ground (arith, added, other, here, t.exact h);
                  })
          ]
    ]
  ]

  emitted-pin_guild :
      (guild_of : ℕ → Option Guild) (r : Rail) (k : ℕ)
      → (pin_guild guild_of r k).emitted ≡ r.emitted
  unfolding pin_guild
  emitted-pin_guild guild_of r k = ground arith

  pub pin_guilds-Tracks :
      (guilds : List Guild) (hidden : Bool) (r : Rail) (ids : List ℕ)
      → r.emitted ≡ (λ j. false)
      → Tracks hidden r
      → Tracks hidden (pin_guilds (by_id guilds) r ids)
  unfolding pin_guilds
  pin_guilds-Tracks guilds hidden r [] none_yet t = t
  pin_guilds-Tracks guilds hidden r (k ∷ ids) none_yet t =
      pin_guilds-Tracks guilds hidden (pin_guild (by_id guilds) r k) ids
        (emitted-pin_guild (by_id guilds) r k ∙ none_yet)
        (pin_guild-Tracks guilds hidden r k none_yet t)

  module _ (guild_of : ℕ → Option Guild) (hidden : Bool) where
    append_known-Tracks :
        (r : Rail) (k : ℕ) (indent : Bool) (folder_id : ℤ)
        → Tracks hidden r
        → Tracks hidden (append_known guild_of r k indent folder_id)
    unfolding append_known
    append_known-Tracks r k indent folder_id t = elim (Option-cases (guild_of k)) [
      | inl unknown ↦ rw (unknown, append_known) t
      | inr (g, known) ↦
          rw (known, append_known) (append_guild-Tracks hidden r g indent folder_id t)
    ]

    append_members-Tracks :
        (folder_id : ℤ) (r : Rail) (ids : List ℕ)
        → Tracks hidden r
        → Tracks hidden (append_members guild_of folder_id r ids)
    unfolding append_members
    append_members-Tracks folder_id r [] t = t
    append_members-Tracks folder_id r (k ∷ ids) t =
        append_members-Tracks folder_id (append_known guild_of r k true folder_id) ids
          (append_known-Tracks r k true folder_id t)

    -- A collapsed folder marks its guilds without a row: what has a row keeps it, and what is not
    -- hidden is not marked.
    mark_members-Tracks :
        (r : Rail) (ids : List ℕ)
        → (hidden ≡ false → contains id ids ≡ false)
        → Tracks hidden r
        → Tracks hidden (mark_members guild_of r ids)
    unfolding mark_members
    mark_members-Tracks r [] apart t = t
    mark_members-Tracks r (k ∷ ids) apart t =
        mark_members-Tracks (mark_known guild_of r k) ids (λ h. ground (arith, apart h))
          (elim (Option-cases (guild_of k)) [
            | inl unknown ↦ rw (unknown, mark_known) t
            | inr (g, known) ↦
                rw (known, mark_known)
                  (record {
                    at_most = ground arith;
                    exact = λ h. ground (arith, apart h, t.exact h);
                  })
          ])

    opened :
        (collapsed : ℤ → Bool) (r : Rail) (f : GuildFolder)
        → bare_folder f ≡ false
        → collapsed f.id ≡ false
        → append_folder guild_of collapsed r f
          ≡ append_members guild_of f.id
              (record r { rows = r.rows ++ folder_row f (collapsed f.id) ∷ [] })
              f.guild_ids
    unfolding append_folder
    opened collapsed r f real open_one = ground (arith, real, open_one)

    shut :
        (collapsed : ℤ → Bool) (r : Rail) (f : GuildFolder)
        → bare_folder f ≡ false
        → collapsed f.id ≡ true
        → append_folder guild_of collapsed r f
          ≡ mark_members guild_of
              (record r { rows = r.rows ++ folder_row f (collapsed f.id) ∷ [] })
              f.guild_ids
    unfolding append_folder
    shut collapsed r f real closed = ground (arith, real, closed)

    append_first-Tracks :
        (r : Rail) (ids : List ℕ) → Tracks hidden r → Tracks hidden (append_first guild_of r ids)
    append_first-Tracks r [] t = t
    append_first-Tracks r (k ∷ ids) t = append_known-Tracks r k false (pos 0) t

    append_folder-Tracks :
        (collapsed : ℤ → Bool) (r : Rail) (f : GuildFolder)
        → (hidden ≡ false
            → (not (bare_folder f) && collapsed f.id && contains id f.guild_ids) ≡ false)
        → Tracks hidden r
        → Tracks hidden (append_folder guild_of collapsed r f)
    unfolding append_folder
    append_folder-Tracks collapsed r f apart t =
        let added = count_rows-append id r.rows (folder_row f (collapsed f.id)) in
        let headed : Rail = record r { rows = r.rows ++ folder_row f (collapsed f.id) ∷ [] } in
        let kept : Tracks hidden headed = record {
          at_most = ground (arith, added);
          exact = λ h. ground (arith, added, t.exact h);
        } in
        elim (Bool-cases (bare_folder f)) [
          | inl bare ↦ rw (bare, append_folder) (append_first-Tracks r f.guild_ids t)
          | inr real ↦ elim (Bool-cases (collapsed f.id)) [
            | inr open_one ↦
                subst (Tracks hidden) (sym (opened collapsed r f real open_one))
                  (append_members-Tracks f.id headed f.guild_ids kept)
            | inl closed ↦
                subst (Tracks hidden) (sym (shut collapsed r f real closed))
                  (mark_members-Tracks headed f.guild_ids (λ h. ground (arith, apart h)) kept)
          ]
        ]

    pub append_folders-Tracks :
        (collapsed : ℤ → Bool) (r : Rail) (folders : List GuildFolder)
        → (hidden ≡ false → hides collapsed id folders ≡ false)
        → Tracks hidden r
        → Tracks hidden (append_folders guild_of collapsed r folders)
    unfolding append_folders hides
    append_folders-Tracks collapsed r [] apart t = t
    append_folders-Tracks collapsed r (f ∷ folders) apart t =
        append_folders-Tracks collapsed (append_folder guild_of collapsed r f) folders
          (λ h. ground (arith, apart h))
          (append_folder-Tracks collapsed r f (λ h. ground (arith, apart h)) t)

  pub append_guilds-Tracks :
      (hidden : Bool) (r : Rail) (guilds : List Guild)
      → Tracks hidden r
      → Tracks hidden (append_guilds r guilds)
  unfolding append_guilds
  append_guilds-Tracks hidden r [] t = t
  append_guilds-Tracks hidden r (g ∷ guilds) t =
      append_guilds-Tracks hidden (append_guild r g false (pos 0)) guilds
        (append_guild-Tracks hidden r g false (pos 0) t)

  unfoldable pub sees : Rail → Bool
  sees r = r.pinned_set id || r.emitted id

  sees-append_guild :
      (r : Rail) (g : Guild) → sees (append_guild r g false (pos 0)) ≡ (sees r || g.id == id)
  unfolding sees append_guild
  sees-append_guild r g = elim (ℕ_discrete g.id id) [
    | no other ↦ ground (arith, other)
    | yes same ↦
        let there : (r.pinned_set g.id || r.emitted g.id) ≡ (r.pinned_set id || r.emitted id) =
          ap (λ (k : ℕ). r.pinned_set k || r.emitted k) same in
        ground (arith, same, there)
  ]

  -- After the last loop every guild of the store has been seen.
  pub sees-append_guilds :
      (r : Rail) (guilds : List Guild)
      → (sees r || any (λ (g : Guild). g.id == id) guilds) ≡ true
      → sees (append_guilds r guilds) ≡ true
  unfolding append_guilds
  sees-append_guilds r [] h = ground arith
  sees-append_guilds r (g ∷ guilds) h =
      sees-append_guilds (append_guild r g false (pos 0)) guilds
        (ground (arith, sees-append_guild r g))
