-- ===== src/Store/Channels/Index.antt =====
-- The order of a guild's channels names each known channel of the guild once, and no other.
use tuicord_v.Base.Dict.{Dict, lookup, insert, erase, get, lookup-erase, lookup-insert}
use tuicord_v.Base.{
  ℕ, ◌+◌, ◌-◌, ◌≡◌, refl, sym, ap, ◌∙◌, true, false, ◌&&◌, List, [], ◌∷◌, ◌++◌, Option, none, some,
  ◌==◌, if◌then◌else◌, arith, Bool-cases, inl, inr, ==_iff, Option-cases, any, remove_first,
}
use tuicord_v.Store.Channels.Pings.{
  upsert_channel-pings, stored_channel, remove_channel_order-SamePings, clear_ping-channels,
}
use tuicord_v.Store.Channels.{
  remove_channel_order, append_channel_order, advance_channel, latest_for, place_channel,
  is_presented, upsert_channel, forget_channel, drop_channel, drop_channels,
}
use tuicord_v.Store.Data.{Channel}
use tuicord_v.Store.State.{Store, touch_meta}
use tuicord_v.Store.Unread.Sums.{in_guild}
use tuicord_v.Store.Unread.{clear_ping}

abbrev pub occurs : ℕ → List ℕ → ℕ
occurs k [] = 0
occurs k (x ∷ xs) = (if x == k then 1 else 0) + occurs k xs

abbrev pub order_of : Store → ℕ → List ℕ
order_of s guild = get s.channel_order guild []

pub record IsIndexed (s : Store) : Type 0 where
  pub listed :
      (guild id : ℕ)
      → occurs id (order_of s guild) ≡ (if in_guild (lookup id s.channels) guild then 1 else 0)

occurs-snoc :
    (k id : ℕ) (xs : List ℕ) → occurs k (xs ++ id ∷ []) ≡ occurs k xs + (if id == k then 1 else 0)
occurs-snoc k id [] = omega arith
occurs-snoc k id (x ∷ xs) = omega (arith, occurs-snoc k id xs)

occurs-remove_first :
    (k id : ℕ) (xs : List ℕ)
    → occurs k (remove_first (λ c. c == id) xs) ≡ occurs k xs - (if id == k then 1 else 0)
occurs-remove_first k id [] = ground arith
occurs-remove_first k id (x ∷ xs) = ground (arith, occurs-remove_first k id xs)

occurs-absent : (id : ℕ) (xs : List ℕ) → any (λ c. c == id) xs ≡ false → occurs id xs ≡ 0
occurs-absent id [] e = refl
occurs-absent id (x ∷ xs) e = ground (arith, occurs-absent id xs)

occurs-get-insert :
    (g h k : ℕ) (xs : List ℕ) (m : Dict (List ℕ))
    → occurs k (get (insert g xs m) h []) ≡ (if g == h then occurs k xs else occurs k (get m h []))
occurs-get-insert g h k xs m = elim (Bool-cases (g == h)) [
  | inl here ↦ rw (lookup-insert g h xs m, here) refl
  | inr there ↦ rw (lookup-insert g h xs m, there) refl
]

same_guild :
    (s : Store) (g h k : ℕ) → (g == h) ≡ true → occurs k (order_of s g) ≡ occurs k (order_of s h)
same_guild s g h k e = let g_is : g ≡ h = ground arith in ap (λ i. occurs k (order_of s i)) g_is

same_id : (id k : ℕ) (xs : List ℕ) → (id == k) ≡ true → occurs k xs ≡ occurs id xs
same_id id k xs e = let id_is : id ≡ k = ground arith in ap (λ i. occurs i xs) (sym id_is)

module _ (s : Store) (guild id h k : ℕ) where
  occurs-remove_channel_order :
      occurs k (order_of (remove_channel_order s guild id) h)
      ≡ occurs k (order_of s h) - (if guild == h && id == k then 1 else 0)
  unfolding remove_channel_order
  occurs-remove_channel_order =
      let rest = remove_first (λ c. c == id) (order_of s guild) in
      elim (Bool-cases (any (λ c. c == id) (order_of s guild))) [
        | inl there ↦ rw there (
            occurs-get-insert guild h k rest s.channel_order
            ∙ ground (arith, same_guild s guild h k, occurs-remove_first k id (order_of s guild)))
        | inr absent ↦
            let none_left : occurs id (order_of s guild) ≡ 0 =
              occurs-absent id (order_of s guild) absent in
            rw absent
              (ground (arith, none_left, same_guild s guild h k, same_id id k (order_of s guild)))
      ]

  occurs-append_channel_order :
      occurs k (order_of (append_channel_order s guild id) h)
      ≡ occurs k (order_of s h) + (if guild == h && id == k then 1 else 0)
  unfolding append_channel_order
  occurs-append_channel_order =
      occurs-get-insert guild h k (order_of s guild ++ id ∷ []) s.channel_order
      ∙ ground (arith, same_guild s guild h k, occurs-snoc k id (order_of s guild))

-- What the placing of a channel adds to an order, given where the channel was.
occurs-place_channel :
    (s : Store) (existing : Option Channel) (c : Channel) (h k : ℕ)
    → (c.id == k ≡ true → occurs k (order_of s h) ≡ (if in_guild existing h then 1 else 0))
    → occurs k (order_of (place_channel s existing c) h)
      ≡ (if c.id == k then (if c.guild_id == h then 1 else 0) else occurs k (order_of s h))
unfolding place_channel advance_channel
occurs-place_channel s none c h k before =
    ground (arith, occurs-append_channel_order s c.guild_id c.id h k, before)
occurs-place_channel s (some existing) c h k before =
    let removed = remove_channel_order s existing.guild_id c.id in
    elim (Bool-cases (existing.guild_id == c.guild_id)) [
      | inl stays ↦ rw stays (ground (arith, before))
      | inr moves ↦ rw moves (
          ground (
            arith,
            before,
            occurs-remove_channel_order s existing.guild_id c.id h k,
            occurs-append_channel_order removed c.guild_id c.id h k,
          ))
    ]

order_of-upsert_channel :
    (s : Store) (c : Channel) (h : ℕ)
    → (known : Store) × (known.channel_order ≡ s.channel_order)
      × (order_of (upsert_channel s c) h
          ≡ order_of (place_channel known (lookup c.id s.channels) (stored_channel s c)) h)
unfolding upsert_channel touch_meta
order_of-upsert_channel s c h =
    let known = record s {
      latest_message =
          if latest_for s c == 0
          then s.latest_message
          else insert c.id (latest_for s c) s.latest_message;
    } in
    elim (Bool-cases (is_presented (lookup c.id s.channels) (stored_channel s c))) [
      | inl shown ↦ rw shown (known, refl, refl)
      | inr fresh ↦ rw fresh (known, refl, refl)
    ]

pub upsert_channel-IsIndexed :
    (s : Store) (c : Channel) → IsIndexed s → IsIndexed (upsert_channel s c)
upsert_channel-IsIndexed s c v = record {
  listed = λ h k.
      let (known, same, order) = order_of-upsert_channel s c h in
      let before : occurs k (order_of known h)
          ≡ (if in_guild (lookup k s.channels) h then 1 else 0) =
        ap (λ m. occurs k (get m h [])) same ∙ v.listed h k in
      let at_c : (c.id == k) ≡ true
          → occurs k (order_of known h) ≡ (if in_guild (lookup c.id s.channels) h then 1 else 0) =
        λ e.
          before
          ∙ ap (λ i. if in_guild (lookup i s.channels) h then 1 else 0)
              (sym ((==_iff c.id k).0 e)) in
      rw (upsert_channel-pings s c).2 (
        ap (occurs k) order
        ∙ ground (
          arith,
          before,
          at_c,
          occurs-place_channel known (lookup c.id s.channels) (stored_channel s c) h k at_c,
          lookup-insert c.id k (stored_channel s c) s.channels,
        ));
}

pub IsIndexed-same :
    (q s : Store)
    → q.channel_order ≡ s.channel_order
    → q.channels ≡ s.channels
    → IsIndexed s
    → IsIndexed q
IsIndexed-same q s e f v = record { listed = λ guild id. rw (e, f) (v.listed guild id) }

pub clear_ping-channel_order :
    (s : Store) (id : ℕ) → (clear_ping s id).channel_order ≡ s.channel_order
unfolding clear_ping
clear_ping-channel_order s id = elim (Bool-cases (get s.pings id 0 == 0)) [
  | inl no_pings ↦ rw no_pings refl
  | inr some_pings ↦ rw some_pings refl
]

-- The channel that goes was listed once, in its guild.
removed-IsIndexed :
    (s : Store) (id : ℕ) (c : Channel)
    → lookup id s.channels ≡ some c
    → IsIndexed s
    → IsIndexed (record (remove_channel_order s c.guild_id id) { channels = erase id s.channels })
removed-IsIndexed s id c there v = record {
  listed = λ h k.
      let at_id : (id == k) ≡ true → lookup k s.channels ≡ some c =
        λ e. ap (λ i. lookup i s.channels) (sym ((==_iff id k).0 e)) ∙ there in
      ground (
        arith,
        v.listed h k,
        at_id,
        occurs-remove_channel_order s c.guild_id id h k,
        lookup-erase id k s.channels,
      );
}

pub drop_channel-IsIndexed : (s : Store) (id : ℕ) → IsIndexed s → IsIndexed (drop_channel s id).0
unfolding drop_channel touch_meta advance_channel forget_channel
drop_channel-IsIndexed s id v = elim (Option-cases (lookup id s.channels)) [
  | inl unknown ↦ rw (unknown, drop_channel) v
  | inr (c, known) ↦
      let ordered = remove_channel_order s c.guild_id id in
      let cleared = clear_ping ordered id in
      let same : cleared.channels ≡ s.channels =
        (clear_ping-channels ordered id).0 ∙ (remove_channel_order-SamePings s c.guild_id id).2 in
      rw (known, drop_channel)
        (IsIndexed-same _ (record ordered { channels = erase id s.channels })
          (clear_ping-channel_order ordered id) (ap (erase id) same)
          (removed-IsIndexed s id c known v))
]

pub drop_channels-IsIndexed :
    (ids : List ℕ) (s : Store) → IsIndexed s → IsIndexed (drop_channels s ids)
unfolding drop_channels
drop_channels-IsIndexed [] s v = v
drop_channels-IsIndexed (id ∷ ids) s v =
    drop_channels-IsIndexed ids (drop_channel s id).0 (drop_channel-IsIndexed s id v)
