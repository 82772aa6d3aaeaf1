-- ===== src/Store/Ring/Patch.antt =====
-- The methods that change the first message with a nonce or an id in place.
use mathlib.Core.Option
use tuicord_v.Base.{
  ℕ, ◌+◌, ◌%◌, ◌<◌, ◌≡◌, refl, sym, ap, ◌∙◌, Bool, true, false, String, Option, none, some, get_or,
  set, index_of, arith, modify_first, modify_at, any, any-index_of, modify_first-modify_at,
  index_of-lt, length-set,
}
use tuicord_v.Store.Message.{Message, zero_message}
use tuicord_v.Store.Ring.Window.{
  IsValid, length-copy_from, copy_from_ext, copy_from-set, get_or-copy_from, find_from-index_of,
}
use tuicord_v.Store.Ring.{
  Ring, cap, copy_from, slice, find_from, has_id, has_nonce, index_by_nonce, index_by_id,
  replace_by_nonce, mark_failed, update_by_id,
}

-- What the methods share: the message at a physical index becomes its image.
abbrev patch_index : Option ℕ → (Message → Message) → ℕ → Ring → Ring × Bool
patch_index o f rev r = elim o [
  | some i ↦ (record r { buf = set r.buf i (f (get_or r.buf i zero_message)); rev = rev }, true)
  | none ↦ (r, false)
]

abbrev pub Patches : (Message → Bool) → (Message → Message) → Ring → Ring × Bool → Type 0
Patches p f r out =
    IsValid out.0
    × (slice out.0 ≡ modify_first p f (slice r))
    × (out.1 ≡ any p (slice r))
    × (cap out.0 ≡ cap r)

patch_at_offset :
    (o : Option ℕ) (f : Message → Message) (rev : ℕ) (r : Ring)
    → IsValid r
    → ((k : ℕ) → o ≡ some k → k < r.size)
    → let out = patch_index (Option.map (λ k. (r.start + (0 + k)) % cap r) o) f rev r in
      IsValid out.0
      × (slice out.0 ≡ modify_at o f zero_message (slice r))
      × (out.1 ≡ elim o [ none ↦ false | some _ ↦ true ])
      × (cap out.0 ≡ cap r)
unfolding slice
patch_at_offset none f rev r v h = (v, refl, refl, refl)
patch_at_offset (some k) f rev r v h =
    let i = (r.start + (0 + k)) % cap r in
    let m = f (get_or r.buf i zero_message) in
    let q : Ring = record r { buf = set r.buf i m } in
    let same : cap q ≡ cap r = length-set r.buf i m in
    (
      record {
        positive = omega (arith, v.positive);
        start_in = omega (arith, v.start_in);
        size_in = omega (arith, v.size_in);
      },
      copy_from_ext (record q { rev = rev }) q 0 0 r.size (λ j hj. refl)
          ∙ copy_from-set r 0 r.size k m v.start_in (omega arith) (h k refl)
          ∙ ap (λ x. set (slice r) k (f x))
              (sym (get_or-copy_from r 0 r.size k zero_message (h k refl))),
      refl,
      same,
    )

-- The search and the patch together.
pub patch_first :
    (p : Message → Bool) (f : Message → Message) (rev : ℕ) (r : Ring)
    → IsValid r
    → Patches p f r (patch_index (find_from p r 0 r.size) f rev r)
patch_first p f rev r v =
    let hit = index_of p (copy_from r 0 r.size) in
    let at_hit =
      patch_at_offset hit f rev r v (λ k e.
        omega (arith, index_of-lt p (copy_from r 0 r.size) e, length-copy_from r 0 r.size)) in
    rw (find_from-index_of p r 0 r.size, modify_first-modify_at p f zero_message, any-index_of p)
      (unfold slice in at_hit)

abbrev pub stamp : ℕ → (Message → Message) → Message → Message
stamp rev patch m = let n = patch m in record n { rev = rev }

-- On a well-formed ring, `updateByID` patches and stamps the first message with the id, changes no
-- other, keeps the ring well formed at its capacity, and reports whether there is one.
pub update_by_id-Patches :
    (r : Ring) (id : ℕ) (patch : Message → Message) (rev : ℕ)
    → IsValid r
    → Patches (has_id id) (stamp rev patch) r (update_by_id r id patch rev)
unfolding update_by_id index_by_id
update_by_id-Patches r id patch rev v = patch_first (has_id id) (stamp rev patch) rev r v

-- On a well-formed ring, `replaceByNonce` puts the confirmed message in the place of the first with
-- the nonce, changes no other, keeps the ring well formed at its capacity, and reports whether
-- there is one.
pub replace_by_nonce-Patches :
    (r : Ring) (nonce : String) (m : Message)
    → IsValid r
    → Patches (has_nonce nonce) (λ _. m) r (replace_by_nonce r nonce m)
unfolding replace_by_nonce index_by_nonce
replace_by_nonce-Patches r nonce m v = patch_first (has_nonce nonce) (λ _. m) m.rev r v

abbrev pub fail_message : ℕ → Message → Message
fail_message rev m = record m { failed = true; pending = false; rev = rev }

-- On a well-formed ring, `markFailed` makes the first message with the nonce failed, no longer
-- pending, and stamped, changes no other, keeps the ring well formed at its capacity, and reports
-- whether there is one.
pub mark_failed-Patches :
    (r : Ring) (nonce : String) (rev : ℕ)
    → IsValid r
    → Patches (has_nonce nonce) (fail_message rev) r (mark_failed r nonce rev)
unfolding mark_failed index_by_nonce
mark_failed-Patches r nonce rev v = patch_first (has_nonce nonce) (fail_message rev) rev r v
