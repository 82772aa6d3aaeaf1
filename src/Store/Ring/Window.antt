-- ===== src/Store/Ring/Window.antt =====
-- The messages of a ring as a list: what a write at one offset does to `slice`, and that a search
-- finds the first hit of `slice`.
use mathlib.Core.Option
use mathlib.Core.Path.{ap₂, subst, sym}
use native.Mathlib.Nat.{add-zero}
use tuicord_v.Base.Wrap.{wrap_injective, wrap-lt}
use tuicord_v.Base.{
  ℕ, zero, suc, ◌+◌, ◌%◌, ◌≤◌, ◌<◌, ◌≡◌, refl, sym, ap, ◌∙◌, Bool, [], ◌∷◌, ◌++◌, Option, none,
  some, length, get_or, set, index_of, get_or, get_elem?, inl, inr, Bool-cases, arith,
  if◌then◌else◌, length-set, get_or-set, ◌==◌,
}
use tuicord_v.Store.Message.{Message, zero_message}
use tuicord_v.Store.Ring.{Ring, cap, at, copy_from, slice, find_from}

pub record IsValid (r : Ring) : Type 0 where
  pub positive : 0 < cap r
  pub start_in : r.start < cap r
  pub size_in : r.size ≤ cap r

pub length-copy_from : (r : Ring) (i n : ℕ) → length (copy_from r i n) ≡ n
unfolding copy_from
length-copy_from r i zero = refl
length-copy_from r i (suc n) = ap suc (length-copy_from r (i + 1) n)

pub length-slice : (r : Ring) → length (slice r) ≡ r.size
unfolding slice
length-slice r = length-copy_from r 0 r.size

-- Two windows with the same elements are equal.
pub copy_from_ext :
    (r q : Ring) (i j n : ℕ)
    → ((k : ℕ) → k < n → at r (i + k) ≡ at q (j + k))
    → copy_from r i n ≡ copy_from q j n
unfolding copy_from
copy_from_ext r q i j zero h = refl
copy_from_ext r q i j (suc n) h = ap₂ ◌∷◌ (simp add-zero at (h 0 (omega arith))) (
    copy_from_ext r q (i + 1) (j + 1) n λ k hk.
      let e : i + 1 + k ≡ i + suc k = omega arith in
      let e' : j + 1 + k ≡ j + suc k = omega arith in rw (e, e') (h (suc k) (omega arith)))

pub copy_from_snoc :
    (r : Ring) (i n : ℕ) → copy_from r i (suc n) ≡ copy_from r i n ++ at r (i + n) ∷ []
unfolding copy_from
copy_from_snoc r i zero = rw add-zero refl
copy_from_snoc r i (suc n) =
    let e : i + suc n ≡ i + 1 + n = omega arith in
    rw e (ap (◌∷◌ (at r i)) (copy_from_snoc r (i + 1) n))

-- The element at an offset, after a write at another or the same one.
pub at-set :
    (r : Ring) (i j : ℕ) (m : Message)
    → r.start < cap r
    → i < cap r
    → j < cap r
    → at (record r { buf = set r.buf ((r.start + i) % cap r) m }) j ≡ (if i == j then m else at r j)
at-set r i j m hs hi hj = rw (length-set r.buf ((r.start + i) % cap r) m) (
    ground (
      arith,
      get_or-set r.buf ((r.start + i) % cap r) ((r.start + j) % cap r) m zero_message,
      wrap-lt (cap r) r.start i,
      wrap_injective (cap r) r.start i j,
    ))

map_shift :
    (s i n : ℕ) (o : Option ℕ)
    → Option.map (λ k. (s + (i + 1 + k)) % n) o
      ≡ Option.map (λ k. (s + (i + k)) % n) (Option.map suc o)
map_shift s i n none = refl
map_shift s i n (some k) =
    let e : i + 1 + k ≡ i + suc k = omega arith in ap (λ (j : ℕ). some ((s + j) % n)) e

pub find_from-index_of :
    (p : Message → Bool) (r : Ring) (i n : ℕ)
    → find_from p r i n
      ≡ Option.map (λ k. (r.start + (i + k)) % cap r) (index_of p (copy_from r i n))
unfolding find_from copy_from
find_from-index_of p r i zero = refl
find_from-index_of p r i (suc n) = elim (Bool-cases (p (at r i))) [
  | inl hit ↦ rw (hit, add-zero) refl
  | inr miss ↦ rw miss (
      find_from-index_of p r (i + 1) n
      ∙ map_shift r.start i (cap r) (index_of p (copy_from r (i + 1) n)))
]

pub get_or-copy_from :
    (r : Ring) (i n k : ℕ) (d : Message) → k < n → get_or (copy_from r i n) k d ≡ at r (i + k)
unfolding copy_from
get_or-copy_from r i zero k d h = elim h [ ]
get_or-copy_from r i (suc n) zero d h = rw add-zero refl
get_or-copy_from r i (suc n) (suc k) d h =
    let e : i + suc k ≡ i + 1 + k = omega arith in
    rw e (get_or-copy_from r (i + 1) n k d (omega arith))

-- A write at an offset is a write into the list.
pub copy_from-set :
    (r : Ring) (i n k : ℕ) (m : Message)
    → r.start < cap r
    → i + n ≤ cap r
    → k < n
    → copy_from (record r { buf = set r.buf ((r.start + (i + k)) % cap r) m }) i n
      ≡ set (copy_from r i n) k m
unfolding copy_from
copy_from-set r i zero k m hs hn hk = elim hk [ ]
copy_from-set r i (suc n) zero m hs hn hk =
    let q : Ring = record r { buf = set r.buf ((r.start + (i + 0)) % cap r) m } in
    ap₂ ◌∷◌ (ground (arith, at-set r (i + 0) i m))
      (copy_from_ext q r (i + 1) (i + 1) n λ j hj. ground (arith, at-set r (i + 0) (i + 1 + j) m))
copy_from-set r i (suc n) (suc k) m hs hn hk =
    let e : i + suc k ≡ i + 1 + k = omega arith in
    ap₂ ◌∷◌ (ground (arith, at-set r (i + suc k) i m)) (
      subst
        (λ j.
          copy_from (record r { buf = set r.buf ((r.start + j) % cap r) m }) (i + 1) n
          ≡ set (copy_from r (i + 1) n) k m)
        (sym e) (copy_from-set r (i + 1) n k m hs (omega arith) (omega arith)))

pub get_elem?-copy_from :
    (r : Ring) (i n k : ℕ) → k < n → get_elem? (copy_from r i n) k ≡ some (at r (i + k))
unfolding copy_from
get_elem?-copy_from r i zero k h = elim h [ ]
get_elem?-copy_from r i (suc n) zero h = rw add-zero refl
get_elem?-copy_from r i (suc n) (suc k) h =
    let e : i + suc k ≡ i + 1 + k = omega arith in
    rw e (get_elem?-copy_from r (i + 1) n k (omega arith))
