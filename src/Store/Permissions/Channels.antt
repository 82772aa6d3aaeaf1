-- ===== src/Store/Permissions/Channels.antt =====
-- What a member may do in a channel.
use native.Mathlib.Decide.{dec_le}
use tuicord_v.Base.{
  ℕ, zero, suc, ◌<◌, ◌≡◌, ◌≢◌, ◌↔◌, refl, sym, ap, ◌∙◌, Bool, true, false, ◌&&◌, not, [], some,
  length, ◌==◌, if◌then◌else◌, arith, Bool-cases, inl, inr, ◌⊎◌,
}
use tuicord_v.Store.Permissions.{
  Permission, all_permissions, perm_administrator, has_below, has, Channel, Directory, thread,
  is_thread, is_owner, member_permissions, effective_overwrites, channel_permissions, channel_can,
  apply_overwrites, found_or,
}

has_below-le :
    (n : ℕ) (p perm : Permission)
    → has_below n p perm ≡ true
    → (k : ℕ) → k < n
    → perm k ≡ true
    → p k ≡ true
unfolding has_below
has_below-le zero p perm h k l e = absurd (omega arith)
has_below-le (suc n) p perm h k l e = elim (dec_le n k) [
  | no below ↦ has_below-le n p perm (ground arith) k (omega arith) e
  | yes last ↦
      let same : k ≡ n = omega arith in
      let e' : perm n ≡ true = ap perm (sym same) ∙ e in ap p same ∙ ground (arith, e')
]

has_below_intro :
    (n : ℕ) (p perm : Permission)
    → ((k : ℕ) → k < n → perm k ≡ true → p k ≡ true)
    → has_below n p perm ≡ true
unfolding has_below
has_below_intro zero p perm h = refl
has_below_intro (suc n) p perm h =
    ground (arith, h n, has_below_intro n p perm (λ k l. h k (omega arith)))

-- The permissions of a member hold for perm exactly when they have the administrator's bit, or every
-- bit of perm.
pub has_iff :
    (p perm : Permission)
    → (has p perm ≡ true)
      ↔ ((p perm_administrator ≡ true) ⊎ ((k : ℕ) → k < 64 → perm k ≡ true → p k ≡ true))
unfolding has
has_iff p perm = elim (Bool-cases (p perm_administrator)) [
  | inl admin ↦ (λ h. inl admin, λ h. rw admin refl)
  | inr plain ↦ (
    λ h. inr (
        has_below-le 64 p perm
          (sym (ap (λ (b : Bool). if b then true else has_below 64 p perm) plain) ∙ h)),
    λ h. elim h [
      | inl admin ↦ rw admin refl
      | inr every ↦ rw plain (has_below_intro 64 p perm every)
    ],
  )
]

module _ (s : Directory) (guild user : ℕ) where
  owner_permissions :
      user ≢ 0 → s.owner_ids guild ≡ some user → member_permissions s guild user ≡ all_permissions
  unfolding member_permissions
  owner_permissions known owner =
      let yes_owner : is_owner (s.owner_ids guild) user ≡ true = ground (arith, owner) in
      rw yes_owner refl

  inherited :
      (c parent : Channel)
      → c.overwrites ≡ []
      → c.kind ≡ thread
      → c.parent_id ≢ 0
      → s.channels c.parent_id ≡ some parent
      → effective_overwrites s c ≡ parent.overwrites
  unfolding effective_overwrites
  inherited c parent empty kind nested above =
      let test : (length c.overwrites == 0 && is_thread c.kind && not (c.parent_id == 0)) ≡ true =
        ground (arith, empty, kind, nested) in
      rw (test, above) refl

  own : (c : Channel) → is_thread c.kind ≡ false → effective_overwrites s c ≡ c.overwrites
  unfolding effective_overwrites
  own c top = ground (arith, top)

  -- The owner of a guild may do everything in every channel of it.
  pub channel_can-owner :
      (channel : ℕ) (perm : Permission)
      → user ≢ 0
      → s.owner_ids guild ≡ some user
      → channel_can s guild user channel perm ≡ true
  unfolding channel_can channel_permissions has
  channel_can-owner channel perm known owner =
      let all : member_permissions s guild user ≡ all_permissions = owner_permissions known owner in
      rw all refl

  -- In a thread without overwrites of its own, whose parent is a known channel and no thread, a member
  -- has the permissions of the parent channel.
  pub channel_permissions-thread :
      (channel : ℕ) (c parent : Channel)
      → s.channels channel ≡ some c
      → c.overwrites ≡ []
      → c.kind ≡ thread
      → c.parent_id ≢ 0
      → s.channels c.parent_id ≡ some parent
      → is_thread parent.kind ≡ false
      → channel_permissions s guild user channel ≡ channel_permissions s guild user c.parent_id
  unfolding channel_permissions
  channel_permissions-thread channel c parent found empty kind nested above top =
      let same : effective_overwrites s c ≡ effective_overwrites s parent =
        inherited c parent empty kind nested above ∙ sym (own parent top) in
      elim (Bool-cases (member_permissions s guild user perm_administrator)) [
        | inl admin ↦ rw admin refl
        | inr plain ↦
            rw (plain, found, above)
              (ap
                (apply_overwrites (member_permissions s guild user) guild
                  (found_or (s.role_ids guild user) []) user)
                same)
      ]
