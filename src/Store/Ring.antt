-- ===== src/Store/Ring.antt =====
-- internal/store/ring.go: the bounded history of one channel, a circular buffer of messages.
-- A method that changes the ring returns the new ring, beside its result where it has one.
pub mod Window
pub mod Push
pub mod Patch
pub mod Remove
pub mod Reactions
mod Tests
use text.Mathlib.Text.{◌==◌ as str_eq}
use tuicord_v.Base.{
  ℕ, zero, suc, ◌+◌, ◌-◌, ◌%◌, max, Bool, true, false, List, [], ◌∷◌, Option, none, some, String,
  length, get_or, set, replicate, ltb, ◌==◌, if◌then◌else◌,
}
use tuicord_v.Store.Message.{Message, zero_message}

pub record Ring : Type 0 where
  pub buf : List Message
  pub rev : ℕ
  pub start : ℕ
  pub size : ℕ

-- The capacity of a ring, `len(r.buf)`.
abbrev pub cap : Ring → ℕ
cap r = length r.buf

-- A capacity below 1 is 1; an `int` below 0 is read as 0 here.
unfoldable pub new_ring : ℕ → Ring
new_ring capacity =
    let c = if ltb capacity 1 then 1 else capacity in
    record { buf = replicate c zero_message; rev = 0; start = 0; size = 0 }

unfoldable pub push : Ring → Message → Ring
push r m =
    let rev = max r.rev m.rev in
    if ltb r.size (cap r)
    then record r { buf = set r.buf ((r.start + r.size) % cap r) m; rev = rev; size = r.size + 1 }
    else record r { buf = set r.buf r.start m; rev = rev; start = (r.start + 1) % cap r }

-- The element at offset i from the oldest, `r.buf[(r.start+i)%len(r.buf)]`.
abbrev pub at : Ring → ℕ → Message
at r i = get_or r.buf ((r.start + i) % cap r) zero_message

-- The loop of `copy`, over the offsets i, i + 1, ... of the n elements that are left.
unfoldable pub copy_from : Ring → ℕ → ℕ → List Message
copy_from r i zero = []
copy_from r i (suc n) = at r i ∷ copy_from r (i + 1) n

-- `slice`, which is `copy` into a fresh slice.
unfoldable pub slice : Ring → List Message
slice r = copy_from r 0 r.size

-- The loop that `indexByNonce` and `indexByID` share: the physical index of the first hit.
unfoldable pub find_from : (Message → Bool) → Ring → ℕ → ℕ → Option ℕ
find_from p r i zero = none
find_from p r i (suc n) =
    if p (at r i) then some ((r.start + i) % cap r) else find_from p r (i + 1) n

abbrev pub has_nonce : String → Message → Bool
has_nonce nonce m = str_eq m.nonce nonce

abbrev pub has_id : ℕ → Message → Bool
has_id id m = m.id == id

unfoldable pub index_by_nonce : Ring → String → Option ℕ
index_by_nonce r nonce = find_from (has_nonce nonce) r 0 r.size

unfoldable pub index_by_id : Ring → ℕ → Option ℕ
index_by_id r id = find_from (has_id id) r 0 r.size

unfoldable pub replace_by_nonce : Ring → String → Message → Ring × Bool
replace_by_nonce r nonce confirmed = elim (index_by_nonce r nonce) [
  | some i ↦ (record r { buf = set r.buf i confirmed; rev = confirmed.rev }, true)
  | none ↦ (r, false)
]

unfoldable pub mark_failed : Ring → String → ℕ → Ring × Bool
mark_failed r nonce rev = elim (index_by_nonce r nonce) [
  | some i ↦
      let m = get_or r.buf i zero_message in
      (
        record r {
          buf = set r.buf i (record m { failed = true; pending = false; rev = rev });
          rev = rev;
        },
        true,
      )
  | none ↦ (r, false)
]

unfoldable pub update_by_id : Ring → ℕ → (Message → Message) → ℕ → Ring × Bool
update_by_id r id patch rev = elim (index_by_id r id) [
  | some i ↦
      let m = patch (get_or r.buf i zero_message) in
      (record r { buf = set r.buf i (record m { rev = rev }); rev = rev }, true)
  | none ↦ (r, false)
]

-- The loop of `removeByID`: for n = n, n + 1, ... of k rounds, `buf[(i+n)%len]` is overwritten by
-- the element behind it.
unfoldable pub shift_from : List Message → ℕ → ℕ → ℕ → List Message
shift_from buf i n zero = buf
shift_from buf i n (suc k) =
    let from = (i + 1 + n) % length buf in
    let to = (i + n) % length buf in
    shift_from (set buf to (get_or buf from zero_message)) i (n + 1) k

unfoldable pub remove_by_id : Ring → ℕ → ℕ → Ring × Bool
remove_by_id r id rev = elim (index_by_id r id) [
  | none ↦ (r, false)
  | some i ↦
      let shifted = shift_from r.buf i 0 (r.size - 1) in
      let last = (r.start + r.size - 1) % cap r in
      let size = r.size - 1 in
      (
        record {
          buf = set shifted last zero_message;
          rev = rev;
          start = if size == 0 then 0 else r.start;
          size = size;
        },
        true,
      )
]
