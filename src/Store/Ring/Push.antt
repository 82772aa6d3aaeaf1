-- ===== src/Store/Ring/Push.antt =====
-- `push` against a bounded list: the ring holds the last messages that were pushed, oldest first.
use mathlib.Core.List.{foldl, append-nil, append_assoc}
use native.Mathlib.Decide.{dec_lt}
use native.Mathlib.Nat.{zero-add}
use native.Mathlib.Numerals.{add-one}
use mathlib.Core.Path.{ap₂}
use tuicord_v.Base.Wrap.{wrap-lt, wrap_assoc, wrap-cases, wrap_self}
use tuicord_v.Base.{
  ℕ, suc, ◌+◌, ◌-◌, ◌%◌, ◌<◌, ◌≡◌, refl, sym, ap, ◌∙◌, false, List, [], ◌∷◌, ◌++◌, length, set,
  arith, length-set, get_or-set, length-replicate, keep_last, drop, max, ltb, keep_last_all,
  drop-append, lt→ltb, keep_last-append, length-append,
}
use tuicord_v.Store.Message.{Message, zero_message}
use tuicord_v.Store.Ring.Window.{IsValid, length-slice, copy_from_ext, copy_from_snoc, at-set}
use tuicord_v.Store.Ring.{Ring, cap, at, copy_from, slice, push, new_ring}

pub new_ring-IsValid : (c : ℕ) → IsValid (new_ring c)
unfolding new_ring
new_ring-IsValid c =
    ground (arith, length-replicate 1 zero_message, length-replicate c zero_message)

cap-new_ring : (c : ℕ) → cap (new_ring c) ≡ max c 1
unfolding new_ring
cap-new_ring c = ground (arith, length-replicate 1 zero_message, length-replicate c zero_message)

slice-new_ring : (c : ℕ) → slice (new_ring c) ≡ []
unfolding new_ring slice copy_from
slice-new_ring c = refl

pub push-IsValid : (r : Ring) (m : Message) → IsValid r → IsValid (push r m)
unfolding push
push-IsValid r m v = ground (
  arith,
  length-set r.buf ((r.start + r.size) % cap r) m,
  length-set r.buf r.start m,
  wrap-lt (cap r) r.start 1,
)

-- A push below the capacity appends.
slice-push_room :
    (r : Ring) (m : Message) → IsValid r → r.size < cap r → slice (push r m) ≡ slice r ++ m ∷ []
unfolding slice push
slice-push_room r m v h =
    let q : Ring = record r {
      buf = set r.buf ((r.start + r.size) % cap r) m;
      rev = max r.rev m.rev;
      size = suc r.size;
    } in
    rw (lt→ltb _ _ h, add-one)
      (copy_from_snoc q 0 r.size
        ∙ ap₂ (λ xs x. xs ++ x ∷ [])
            (copy_from_ext q r 0 0 r.size
              λ k hk. rw zero-add (ground (arith, at-set r r.size k m v.start_in h (omega arith))))
            (rw zero-add (ground (arith, at-set r r.size r.size m v.start_in h h))))

-- What the slots of a full ring hold after a push.
at-push_full :
    (r : Ring) (m : Message) (k : ℕ)
    → IsValid r
    → suc k < cap r
    → at (record r { buf = set r.buf r.start m; start = (r.start + 1) % cap r }) k ≡ at r (1 + k)
at-push_full r m k v h =
    rw (length-set r.buf r.start m, wrap_assoc (cap r) r.start 1 k)
      (ground (
        arith,
        get_or-set r.buf r.start ((r.start + (1 + k)) % cap r) m zero_message v.start_in,
        wrap-cases (cap r) r.start (1 + k) v.start_in,
      ))

at-push_full_last :
    (r : Ring) (m : Message) (k : ℕ)
    → IsValid r
    → suc k ≡ cap r
    → at (record r { buf = set r.buf r.start m; start = (r.start + 1) % cap r }) k ≡ m
at-push_full_last r m k v h =
    rw (length-set r.buf r.start m, wrap_assoc (cap r) r.start 1 k)
      (ground (
        arith,
        get_or-set r.buf r.start ((r.start + (1 + k)) % cap r) m zero_message v.start_in,
        wrap_self (cap r) r.start (1 + k) v.start_in,
      ))

-- A push at the capacity drops the oldest message and appends.
slice-push_full :
    (r : Ring) (m : Message) (k : ℕ)
    → IsValid r
    → r.size ≡ cap r
    → suc k ≡ cap r
    → slice (push r m) ≡ drop 1 (slice r) ++ m ∷ []
unfolding slice push copy_from
slice-push_full r m k v h e =
    let q : Ring = record r {
      buf = set r.buf r.start m;
      rev = max r.rev m.rev;
      start = (r.start + 1) % cap r;
    } in
    let full : ltb r.size (cap r) ≡ false = ground arith in
    let size_is : r.size ≡ suc k = omega arith in
    rw (full, size_is)
      (copy_from_snoc q 0 k
        ∙ ap₂ (λ xs x. xs ++ x ∷ [])
            (copy_from_ext q r 0 1 k λ j hj. rw zero-add (at-push_full r m j v (omega arith)))
            (rw zero-add (at-push_full_last r m k v e)))

-- On a well-formed ring, a push leaves the last `cap` messages of the old ones and the new one:
-- what is evicted is the oldest.
pub slice-push :
    (r : Ring) (m : Message) → IsValid r → slice (push r m) ≡ keep_last (cap r) (slice r ++ m ∷ [])
slice-push r m v =
    let n : length (slice r ++ m ∷ []) ≡ r.size + 1 =
      omega (arith, length-append (slice r) (m ∷ []), length-slice r) in
    elim (dec_lt r.size (cap r)) [
      | yes room ↦
          slice-push_room r m v room ∙ sym (keep_last_all (cap r) (slice r ++ m ∷ []) (omega arith))
      | no full ↦
          slice-push_full r m (cap r - 1) v (omega arith) (omega arith)
          ∙ sym (drop-append 1 (slice r) (m ∷ []) (omega (arith, length-slice r)))
          ∙ ap (λ j. drop j (slice r ++ m ∷ [])) {x = 1} (omega arith)
    ]

pub cap-push : (r : Ring) (m : Message) → cap (push r m) ≡ cap r
unfolding push
cap-push r m =
    ground (arith, length-set r.buf ((r.start + r.size) % cap r) m, length-set r.buf r.start m)

pub slice-pushes :
    (ms : List Message) (r : Ring)
    → IsValid r
    → slice (foldl push r ms) ≡ keep_last (cap r) (slice r ++ ms)
slice-pushes [] r v =
    rw append-nil (sym (keep_last_all (cap r) (slice r) (omega (arith, length-slice r))))
slice-pushes (m ∷ ms) r v =
    slice-pushes ms (push r m) (push-IsValid r m v)
    ∙ rw (cap-push r m, slice-push r m v)
        (keep_last-append (cap r) (slice r ++ m ∷ []) ms ∙ rw append_assoc refl)

-- Pushed one by one into a new ring, messages are kept as a list that holds the last of them, as
-- many as the capacity, oldest first.
pub slice-pushes-new_ring :
    (c : ℕ) (ms : List Message) → slice (foldl push (new_ring c) ms) ≡ keep_last (max c 1) ms
slice-pushes-new_ring c ms =
    slice-pushes ms (new_ring c) (new_ring-IsValid c) ∙ rw (slice-new_ring c, cap-new_ring c) refl
