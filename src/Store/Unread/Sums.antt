-- ===== src/Store/Unread/Sums.antt =====
-- The pings of a guild are the sum of those of its channels, and when they are not.
use tuicord_v.Base.Dict.{
  Dict, lookup, insert, erase, get, IsDistinct, erase-IsDistinct, insert-IsDistinct, lookup-erase,
  lookup-insert, erase_absent,
}
use tuicord_v.Base.{
  ℕ, ◌+◌, ◌-◌, ◌≡◌, refl, sym, ap, ◌∙◌, Bool, false, [], ◌∷◌, Option, none, some, ◌==◌,
  if◌then◌else◌, arith, Bool-cases, inl, inr, Option-cases,
}
use tuicord_v.Store.Data.{Channel}
use tuicord_v.Store.State.{Store}
use tuicord_v.Store.Unread.{increment_ping, clear_ping, lower, guild_pings}

abbrev pub in_guild : Option Channel → ℕ → Bool
in_guild none guild = false
in_guild (some c) guild = c.guild_id == guild

-- The pings of the channels that are known to be in a guild.
unfoldable pub pings_in : Dict Channel → ℕ → Dict ℕ → ℕ
pings_in channels guild [] = 0
pings_in channels guild ((channel, n) ∷ counts) =
    (if in_guild (lookup channel channels) guild then n else 0) + pings_in channels guild counts

pub record AreSummed (s : Store) : Type 0 where
  pub distinct : IsDistinct s.pings
  pub summed : (guild : ℕ) → guild_pings s guild ≡ pings_in s.channels guild s.pings

module _ (channels : Dict Channel) (guild : ℕ) where
  pub pings_in-erase :
      (channel : ℕ) (counts : Dict ℕ)
      → IsDistinct counts
      → pings_in channels guild counts
        ≡ (if in_guild (lookup channel channels) guild then get counts channel 0 else 0)
          + pings_in channels guild (erase channel counts)
  unfolding pings_in erase lookup
  pings_in-erase channel [] d = ground arith
  pings_in-erase channel ((k, n) ∷ counts) d = elim (Bool-cases (k == channel)) [
    | inl here ↦
        let k_is : k ≡ channel = ground arith in
        let absent : lookup channel counts ≡ none = ap (λ j. lookup j counts) (sym k_is) ∙ d.0 in
        rw (here, erase_absent channel counts absent, k_is) refl
    | inr there ↦ rw there (omega (arith, pings_in-erase channel counts d.1))
  ]

  pings_in-insert :
      (channel n : ℕ) (counts : Dict ℕ)
      → IsDistinct counts
      → pings_in channels guild (insert channel n counts)
          + (if in_guild (lookup channel channels) guild then get counts channel 0 else 0)
        ≡ pings_in channels guild counts
          + (if in_guild (lookup channel channels) guild then n else 0)
  unfolding insert pings_in
  pings_in-insert channel n counts d = omega (arith, pings_in-erase channel counts d)

get-lower :
    (guild count k : ℕ) (m : Dict ℕ)
    → get (lower guild count m) k 0 ≡ (if guild == k then get m guild 0 - count else get m k 0)
unfolding lower
get-lower guild count k m =
    ground (arith, lookup-erase guild k m, lookup-insert guild k (get m guild 0 - count) m)

pub increment_ping-AreSummed :
    (s : Store) (channel : ℕ) → AreSummed s → AreSummed (increment_ping s channel)
unfolding increment_ping guild_pings
increment_ping-AreSummed s channel v =
    let n = get s.pings channel 0 + 1 in
    elim (Option-cases (lookup channel s.channels)) [
      | inl unknown ↦
          rw (unknown, increment_ping)
            (record {
              distinct = insert-IsDistinct channel n s.pings v.distinct;
              summed = λ guild. ground (
                arith,
                unknown,
                v.summed guild,
                pings_in-insert s.channels guild channel n s.pings v.distinct,
              );
            })
      | inr (c, known) ↦
          let m = get s.guild_pings c.guild_id 0 + 1 in
          rw (known, increment_ping)
            (record {
              distinct = insert-IsDistinct channel n s.pings v.distinct;
              summed = λ guild. ground (
                arith,
                known,
                v.summed guild,
                pings_in-insert s.channels guild channel n s.pings v.distinct,
                lookup-insert c.guild_id guild m s.guild_pings,
              );
            })
    ]

pub clear_ping-AreSummed :
    (s : Store) (channel : ℕ) → AreSummed s → AreSummed (clear_ping s channel)
unfolding clear_ping guild_pings
clear_ping-AreSummed s channel v = elim (Bool-cases (get s.pings channel 0 == 0)) [
  | inl no_pings ↦ rw no_pings v
  | inr some_pings ↦ elim (Option-cases (lookup channel s.channels)) [
    | inl unknown ↦
        rw (some_pings, unknown, clear_ping)
          (record {
            distinct = erase-IsDistinct channel s.pings v.distinct;
            summed = λ guild. ground (
              arith,
              unknown,
              v.summed guild,
              pings_in-erase s.channels guild channel s.pings v.distinct,
            );
          })
    | inr (c, known) ↦
        rw (some_pings, known, clear_ping)
          (record {
            distinct = erase-IsDistinct channel s.pings v.distinct;
            summed = λ guild. ground (
              arith,
              known,
              v.summed guild,
              pings_in-erase s.channels guild channel s.pings v.distinct,
              get-lower c.guild_id (get s.pings channel 0) guild s.guild_pings,
            );
          })
  ]
]
