-- ===== src/Store/Ring/Remove.antt =====
-- `removeByID`: what the shifting loop leaves in each slot, and when the ring is then the list
-- without the message.
use mathlib.Core.Option
use mathlib.Core.Path.{ap₂}
use native.Mathlib.Nat.{add-zero, zero-add}
use tuicord_v.Base.Wrap.{wrap_injective, wrap-lt, wrap_assoc, wrap_turn}
use tuicord_v.Base.{
  ℕ, zero, suc, ◌+◌, ◌-◌, ◌%◌, ◌≤◌, ◌<◌, ◌≡◌, refl, sym, ap, ◌∙◌, true, false, List, ◌∷◌, none,
  some, length, get_or, get_elem?, set, index_of, arith, remove_first, remove_at,
  remove_first-remove_at, index_of-lt, any, any-index_of, Option-cases, inl, inr, length-set,
  get_or-set, ltb, leb, ◌==◌, ◌&&◌, if◌then◌else◌,
}
use tuicord_v.Store.Message.{Message, zero_message}
use tuicord_v.Store.Ring.Window.{
  IsValid, length-slice, copy_from_ext, find_from-index_of, get_elem?-copy_from,
}
use tuicord_v.Store.Ring.{
  Ring, cap, at, copy_from, slice, has_id, index_by_id, shift_from, remove_by_id,
}

length-shift_from : (buf : List Message) (i n k : ℕ) → length (shift_from buf i n k) ≡ length buf
unfolding shift_from
length-shift_from buf i n zero = refl
length-shift_from buf i n (suc k) =
    let to = (i + n) % length buf in
    let m = get_or buf ((i + 1 + n) % length buf) zero_message in
    length-shift_from (set buf to m) i (n + 1) k ∙ length-set buf to m

-- The slots n, n + 1, ..., counted from i, take the message behind them; the others keep theirs.
get_or-shift_from :
    (buf : List Message) (c i n k t : ℕ)
    → length buf ≡ c
    → i < c
    → n + k < c
    → t < c
    → get_or (shift_from buf i n k) ((i + t) % c) zero_message ≡ (
        if leb n t && ltb t (n + k)
        then get_or buf ((i + (t + 1)) % c) zero_message
        else get_or buf ((i + t) % c) zero_message)
unfolding shift_from
get_or-shift_from buf c i n zero t l hi hn ht = ground arith
get_or-shift_from buf c i n (suc k) t l hi hn ht =
    let e : i + 1 + n ≡ i + (n + 1) = omega arith in
    let m = get_or buf ((i + (n + 1)) % c) zero_message in
    let buf' = set buf ((i + n) % c) m in
    rw (l, e)
      (get_or-shift_from buf' c i (n + 1) k t (length-set buf ((i + n) % c) m ∙ l) hi (omega arith)
          ht
        ∙ ground (
          arith,
          get_or-set buf ((i + n) % c) ((i + t) % c) m zero_message,
          get_or-set buf ((i + n) % c) ((i + (t + 1)) % c) m zero_message,
          wrap-lt c i n,
          wrap_injective c i n t,
          wrap_injective c i n (t + 1),
        ))

-- The same, for a slot at the offset q of a ring whose loop starts at the offset p.
module _ (r : Ring) (p q : ℕ) (v : IsValid r) (hp : p < r.size) (hq : suc q < r.size) where
  from_later :
      p ≤ q
      → get_or
          (shift_from r.buf ((r.start + p) % cap r) 0 (r.size - 1))
          ((r.start + q) % cap r)
          zero_message
        ≡ at r (q + 1)
  from_later h =
      let e : p + (q - p) ≡ q = omega arith in
      let e' : p + (q - p + 1) ≡ q + 1 = omega arith in
      let i = (r.start + p) % cap r in
      let all =
        get_or-shift_from r.buf (cap r) i 0 (r.size - 1) (q - p) refl
          (wrap-lt (cap r) r.start p v.positive) (omega arith) (omega arith) in
      let all' =
        rw (wrap_assoc (cap r) r.start p (q - p), wrap_assoc (cap r) r.start p (q - p + 1), e, e')
          at all in
      ground arith

  from_earlier :
      q < p
      → get_or
          (shift_from r.buf ((r.start + p) % cap r) 0 (r.size - 1))
          ((r.start + q) % cap r)
          zero_message
        ≡ (if leb r.size (q + cap r + 1 - p) then at r q else at r (q + 1))
  from_earlier h =
      let t = q + cap r - p in
      let e : p + t ≡ q + cap r = omega arith in
      let e' : p + (t + 1) ≡ q + 1 + cap r = omega arith in
      let i = (r.start + p) % cap r in
      let all =
        get_or-shift_from r.buf (cap r) i 0 (r.size - 1) t refl
          (wrap-lt (cap r) r.start p v.positive) (omega arith) (omega arith) in
      let all' =
        rw
          (
            wrap_assoc (cap r) r.start p t,
            wrap_assoc (cap r) r.start p (t + 1),
            e,
            e',
            wrap_turn (cap r) r.start q,
            wrap_turn (cap r) r.start (q + 1),
          )
          at all in
      ground arith

-- The ring that `removeByID` leaves when it finds the message at the offset p.
abbrev removed : Ring → ℕ → ℕ → Ring
removed r p rev =
    let shifted = shift_from r.buf ((r.start + p) % cap r) 0 (r.size - 1) in
    record {
      buf = set shifted ((r.start + r.size - 1) % cap r) zero_message;
      rev = rev;
      start = if r.size - 1 == 0 then 0 else r.start;
      size = r.size - 1;
    }

cap-removed : (r : Ring) (p rev : ℕ) → cap (removed r p rev) ≡ cap r
cap-removed r p rev =
    let i = (r.start + p) % cap r in
    let shifted = shift_from r.buf i 0 (r.size - 1) in
    length-set shifted ((r.start + r.size - 1) % cap r) zero_message
    ∙ length-shift_from r.buf i 0 (r.size - 1)

-- The offset q of that ring.
at-removed :
    (r : Ring) (p q rev : ℕ)
    → IsValid r
    → p < r.size
    → suc q < r.size
    → at (removed r p rev) q
      ≡ (if ltb q p && leb r.size (q + cap r + 1 - p) then at r q else at r (q + 1))
at-removed r p q rev v hp hq =
    let i = (r.start + p) % cap r in
    let shifted = shift_from r.buf i 0 (r.size - 1) in
    let last : r.start + r.size - 1 ≡ r.start + (r.size - 1) = omega arith in
    let more : (r.size - 1 == 0) ≡ false = ground arith in
    let room : (r.start + (r.size - 1)) % cap r < length shifted = omega (
      arith,
      length-shift_from r.buf i 0 (r.size - 1),
      wrap-lt (cap r) r.start (r.size - 1) v.positive,
    ) in
    rw (cap-removed r p rev, more, last)
      (get_or-set shifted ((r.start + (r.size - 1)) % cap r) ((r.start + q) % cap r) zero_message
          zero_message room
        ∙ ground (
          arith,
          wrap_injective (cap r) r.start (r.size - 1) q,
          from_later r p q v hp hq,
          from_earlier r p q v hp hq,
        ))

copy_from-remove_at :
    (r q : Ring) (i n p : ℕ)
    → ((k : ℕ) → k < p → at q (i + k) ≡ at r (i + k))
    → ((k : ℕ) → p ≤ k → k < n → at q (i + k) ≡ at r (i + (k + 1)))
    → p ≤ n
    → copy_from q i n ≡ remove_at p (copy_from r i (suc n))
unfolding copy_from
copy_from-remove_at r q i n zero low high l =
    copy_from_ext q r i (i + 1) n
      λ k hk. let e : i + 1 + k ≡ i + (k + 1) = omega arith in rw e (high k (omega arith) hk)
copy_from-remove_at r q i zero (suc p) low high l = absurd (omega arith)
copy_from-remove_at r q i (suc n) (suc p) low high l =
    ap₂ ◌∷◌ (rw add-zero at (low 0 (omega arith))) (
      copy_from-remove_at r q (i + 1) n p
        (λ k hk. let e : i + 1 + k ≡ i + suc k = omega arith in rw e (low (suc k) (omega arith)))
        (λ k hp hk.
          let e : i + 1 + k ≡ i + suc k = omega arith in
          let e' : i + 1 + (k + 1) ≡ i + (suc k + 1) = omega arith in
          rw (e, e') (high (suc k) (omega arith) (omega arith)))
        (omega arith))

pub removed-IsValid : (r : Ring) (p rev : ℕ) → IsValid r → IsValid (removed r p rev)
removed-IsValid r p rev v = ground (arith, cap-removed r p rev)

-- With room behind the message, the ring is the list without it.
slice-removed :
    (r : Ring) (p rev : ℕ)
    → IsValid r
    → p < r.size
    → p + r.size ≤ cap r + 1
    → slice (removed r p rev) ≡ remove_at p (slice r)
unfolding slice
slice-removed r p rev v hp h =
    let e : r.size ≡ suc (r.size - 1) = omega arith in
    copy_from-remove_at r (removed r p rev) 0 (r.size - 1) p
      (λ k hk. rw zero-add (ground (arith, at-removed r p k rev v hp)))
      (λ k hk hn. simp zero-add (ground (arith, at-removed r p k rev v hp))) (omega arith)
    ∙ ap (λ n. remove_at p (copy_from r 0 n)) (sym e)

-- Without it, the oldest message is lost too: its slot takes the second one.
oldest-removed :
    (r : Ring) (p rev : ℕ)
    → IsValid r
    → p < r.size
    → cap r + 2 ≤ p + r.size
    → get_elem? (slice (removed r p rev)) 0 ≡ get_elem? (slice r) 1
unfolding slice
oldest-removed r p rev v hp h =
    get_elem?-copy_from (removed r p rev) 0 (r.size - 1) 0 (omega arith)
    ∙ ap some (ground (arith, at-removed r p 0 rev v hp))
    ∙ sym (get_elem?-copy_from r 0 r.size 1 (omega arith))

index_by_id_offset :
    (r : Ring) (id : ℕ)
    → index_by_id r id
      ≡ Option.map (λ k. (r.start + (0 + k)) % cap r) (index_of (has_id id) (slice r))
unfolding slice index_by_id
index_by_id_offset r id = find_from-index_of (has_id id) r 0 r.size

found :
    (r : Ring) (id rev p : ℕ)
    → index_of (has_id id) (slice r) ≡ some p
    → remove_by_id r id rev ≡ (removed r p rev, true)
unfolding remove_by_id
found r id rev p e =
    let i : index_by_id r id ≡ some ((r.start + p) % cap r) =
      index_by_id_offset r id ∙ rw (e, zero-add) refl in
    rw (i, remove_by_id) refl

not_found :
    (r : Ring) (id rev : ℕ)
    → index_of (has_id id) (slice r) ≡ none
    → remove_by_id r id rev ≡ (r, false)
unfolding remove_by_id
not_found r id rev e =
    let i : index_by_id r id ≡ none = index_by_id_offset r id ∙ rw e refl in
    rw (i, remove_by_id) refl

module _ (r : Ring) (id rev p : ℕ) (v : IsValid r)
    (e : index_of (has_id id) (slice r) ≡ some p) where
  offset-lt : p < r.size
  offset-lt = omega (arith, index_of-lt (has_id id) (slice r) e, length-slice r)

  -- On a well-formed ring, when the message at the offset p is the first with the id, and p + size
  -- is at most the capacity plus one, `removeByID` drops exactly that message.
  pub slice-remove_by_id :
      p + r.size ≤ cap r + 1 → slice (remove_by_id r id rev).0 ≡ remove_first (has_id id) (slice r)
  slice-remove_by_id h =
      rw (found r id rev p e)
        (slice-removed r p rev v offset-lt h ∙ sym (remove_first-remove_at (has_id id) (slice r) e))

  -- When the message at the offset p is the first with the id in a well-formed ring, and p + size
  -- is at least the capacity plus two, the second message stands in the oldest place after.
  pub oldest-remove_by_id :
      cap r + 2 ≤ p + r.size → get_elem? (slice (remove_by_id r id rev).0) 0 ≡ get_elem? (slice r) 1
  oldest-remove_by_id h = rw (found r id rev p e) (oldest-removed r p rev v offset-lt h)

-- `removeByID` keeps a ring well formed, reports whether a message had the id, and leaves one
-- message less exactly when one had it.
pub remove_by_id-IsValid :
    (r : Ring) (id rev : ℕ)
    → IsValid r
    → IsValid (remove_by_id r id rev).0
      × ((remove_by_id r id rev).1 ≡ any (has_id id) (slice r))
      × (length (slice (remove_by_id r id rev).0)
          ≡ (if any (has_id id) (slice r) then r.size - 1 else r.size))
remove_by_id-IsValid r id rev v = elim (Option-cases (index_of (has_id id) (slice r))) [
  | inl e ↦
      let absent : any (has_id id) (slice r) ≡ false =
        any-index_of (has_id id) (slice r) ∙ rw e refl in
      rw (absent, not_found r id rev e) (v, refl, length-slice r)
  | inr (p, e) ↦
      let present : any (has_id id) (slice r) ≡ true =
        any-index_of (has_id id) (slice r) ∙ rw e refl in
      rw (present, found r id rev p e)
        (removed-IsValid r p rev v, refl, length-slice (removed r p rev))
]
