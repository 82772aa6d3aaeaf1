-- ===== src/Media/Cache/Evict.antt =====
-- The invariant of the cache, and what eviction keeps.
use mathlib.Core.Path.{subst}
use tuicord_v.Base.{
  ℕ, zero, suc, ◌%◌, ◌^◌, ◌≤◌, ◌<◌, ◌≡◌, refl, sym, ap, ◌∙◌, true, false, List, [], ◌∷◌, ◌++◌, none,
  some, length, ltb, arith, inl, inr, ◌⊎◌, Bool-cases,
}
use tuicord_v.Media.Cache.Entries.{
  total_bytes, fitting, fitting_all, fitting_over, back-cases, has_key, AreDistinct,
  has_key-unlink_self, has_key-unlink_ne, AreDistinct-unlink, total_bytes-unlink, unlink_back,
  length-append_last,
}
use tuicord_v.Media.Cache.{
  LruEntry, Cache, back, find_entry, unlink, remove_lru_locked, is_over, evict_from,
  evict_lru_locked,
}

module _ {K : Type 0} (dec : Discrete K) where
  -- The map has the keys of the list, each key once, and the byte count is the sum, as an int64.
  pub record IsValid (c : Cache K) : Type 0 where
    pub distinct : AreDistinct dec c.lru
    pub items_are : (k : K) → c.items k ≡ has_key dec k c.lru
    pub bytes_are : c.lru_bytes ≡ total_bytes c.lru % 2 ^ 64

  pub remove_lru_locked-IsValid :
      (c : Cache K) (e : LruEntry K)
      → IsValid c
      → find_entry dec e.key c.lru ≡ some e
      → IsValid (remove_lru_locked dec c e)
  unfolding remove_lru_locked
  remove_lru_locked-IsValid c e v h = record {
    distinct = AreDistinct-unlink dec e.key c.lru v.distinct;
    items_are = λ k. ground (
      arith,
      v.items_are k,
      has_key-unlink_self dec e.key c.lru v.distinct,
      has_key-unlink_ne dec e.key k c.lru,
    );
    bytes_are = omega (arith, v.bytes_are, total_bytes-unlink dec e.key c.lru h);
  }

  -- What a cache is after an eviction.
  pub record Evicts (c d : Cache K) : Type 0 where
    pub valid : IsValid d
    pub kept : d.lru ≡ fitting c.max_size c.max_bytes c.lru
    pub same_size : d.max_size ≡ c.max_size
    pub same_bytes : d.max_bytes ≡ c.max_bytes

  fits :
      (c : Cache K)
      → IsValid c
      → total_bytes c.lru < 2 ^ 63
      → is_over dec c ≡ false
      → c.lru ≡ fitting c.max_size c.max_bytes c.lru
  fits c v small h =
      sym (fitting_all c.max_size c.max_bytes c.lru (ground arith) (ground (arith, v.bytes_are)))

  over :
      (c : Cache K)
      → IsValid c
      → total_bytes c.lru < 2 ^ 63
      → is_over dec c ≡ true
      → (c.max_size < length c.lru) ⊎ (c.max_bytes < total_bytes c.lru)
  over c v small h = elim (Bool-cases (ltb c.max_size (length c.lru))) [
    | inl long ↦ inl (ground arith)
    | inr short ↦ inr (ground (arith, v.bytes_are))
  ]

  evict_from_under :
      (fuel : ℕ) (c : Cache K) → is_over dec c ≡ false → evict_from dec (suc fuel) c ≡ c
  unfolding evict_from
  evict_from_under fuel c h = rw (h, evict_from) refl

  evict_from-none : (fuel : ℕ) (c : Cache K) → back c.lru ≡ none → evict_from dec (suc fuel) c ≡ c
  unfolding evict_from
  evict_from-none fuel c h = ground arith

  evict_from-some :
      (fuel : ℕ) (c : Cache K) (e : LruEntry K)
      → is_over dec c ≡ true
      → back c.lru ≡ some e
      → evict_from dec (suc fuel) c ≡ evict_from dec fuel (remove_lru_locked dec c e)
  unfolding evict_from
  evict_from-some fuel c e h l = rw (h, l, evict_from) refl

  still : (c : Cache K) → IsValid c → c.lru ≡ fitting c.max_size c.max_bytes c.lru → Evicts c c
  still c v h = record { valid = v; kept = h; same_size = refl; same_bytes = refl }

  still_nil : (c : Cache K) → IsValid c → c.lru ≡ [] → Evicts c c
  still_nil c v h =
      still c v (rw h (sym (fitting_all c.max_size c.max_bytes [] (omega arith) (omega arith))))

  module _ (c : Cache K) (v : IsValid c) (xs : List (LruEntry K)) (x : LruEntry K)
      (split : c.lru ≡ xs ++ x ∷ []) where
    last_unlinked : (unlink dec x.key c.lru ≡ xs) × (find_entry dec x.key c.lru ≡ some x)
    last_unlinked = rw split (unlink_back dec xs x (subst (AreDistinct dec) split v.distinct))

    last_lru : (remove_lru_locked dec c x).lru ≡ xs
    unfolding remove_lru_locked
    last_lru = last_unlinked.0

    last_IsValid : IsValid (remove_lru_locked dec c x)
    last_IsValid = remove_lru_locked-IsValid c x v last_unlinked.1

    last_fitting :
        total_bytes c.lru < 2 ^ 63
        → is_over dec c ≡ true
        → fitting c.max_size c.max_bytes xs ≡ fitting c.max_size c.max_bytes c.lru
    last_fitting small h = rw split (
        sym (
          fitting_over c.max_size c.max_bytes xs x (
            subst (λ l. (c.max_size < length l) ⊎ (c.max_bytes < total_bytes l)) split
              (over c v small h))))

    Evicts-last :
        {d : Cache K}
        → total_bytes c.lru < 2 ^ 63
        → is_over dec c ≡ true
        → Evicts (remove_lru_locked dec c x) d
        → Evicts c d
    unfolding remove_lru_locked
    Evicts-last {d} small h r = record {
      valid = r.valid;
      kept = r.kept ∙ ap (fitting c.max_size c.max_bytes) last_lru ∙ last_fitting small h;
      same_size = r.same_size;
      same_bytes = r.same_bytes;
    }

    last_small : total_bytes c.lru < 2 ^ 63 → total_bytes (remove_lru_locked dec c x).lru < 2 ^ 63
    unfolding remove_lru_locked
    last_small small = omega (arith, small, total_bytes-unlink dec x.key c.lru last_unlinked.1)

    last_shorter :
        (fuel : ℕ) → length c.lru ≤ suc fuel → length (remove_lru_locked dec c x).lru ≤ fuel
    last_shorter fuel h = rw last_lru (omega (arith, ap length split, length-append_last xs x))

  evict_from-Evicts :
      (fuel : ℕ) (c : Cache K)
      → IsValid c
      → total_bytes c.lru < 2 ^ 63
      → length c.lru ≤ fuel
      → Evicts c (evict_from dec fuel c)
  unfolding evict_from
  evict_from-Evicts zero c v small h = still_nil c v (ground arith)
  evict_from-Evicts (suc fuel) c v small h = elim (Bool-cases (is_over dec c)) [
    | inr under ↦
        subst (Evicts c) (sym (evict_from_under fuel c under)) (still c v (fits c v small under))
    | inl above ↦ elim (back-cases c.lru) [
      | inl (empty, last) ↦
          subst (Evicts c) (sym (evict_from-none fuel c last)) (still_nil c v empty)
      | inr (xs, x, split, last) ↦ subst (Evicts c) (sym (evict_from-some fuel c x above last)) (
          Evicts-last c v xs x split small above (
            evict_from-Evicts fuel (remove_lru_locked dec c x) (last_IsValid c v xs x split)
              (last_small c v xs x split small) (last_shorter c v xs x split fuel h)))
    ]
  ]

  -- Eviction keeps the longest prefix that fits both limits, and a well-formed cache well formed, where
  -- the sum of the bytes is an int64.
  pub evict_lru_locked-Evicts :
      (c : Cache K) → IsValid c → total_bytes c.lru < 2 ^ 63 → Evicts c (evict_lru_locked dec c)
  unfolding evict_lru_locked
  evict_lru_locked-Evicts c v small = evict_from-Evicts (length c.lru) c v small (omega arith)

  -- Whatever the sum of the bytes, an entry at the front that fits both limits alone stays there.
  pub record Keeps (e : LruEntry K) (d : Cache K) : Type 0 where
    pub valid : IsValid d
    pub others : List (LruEntry K)
    pub lru_is : d.lru ≡ e ∷ others

  head-cases :
      (e : LruEntry K) (es xs : List (LruEntry K)) (x : LruEntry K)
      → e ∷ es ≡ xs ++ x ∷ []
      → ((es ≡ []) × (e ≡ x)) ⊎ ((ys : List (LruEntry K)) × (xs ≡ e ∷ ys))
  head-cases e es [] x h = inl (cc h, cc h)
  head-cases e es (y ∷ ys) x h = inr (ys, cc h)

  alone_fits :
      (c : Cache K) (e : LruEntry K)
      → IsValid c
      → c.lru ≡ e ∷ []
      → 0 < c.max_size
      → e.bytes ≤ c.max_bytes
      → is_over dec c ≡ false
  alone_fits c e v one size le =
      let bytes : c.lru_bytes ≡ e.bytes % 2 ^ 64 =
        v.bytes_are ∙ ap (λ l. total_bytes l % 2 ^ 64) one ∙ omega arith in
      ground (arith, ap length one, bytes)

  evict_from-Keeps :
      (fuel : ℕ) (c : Cache K) (e : LruEntry K) (es : List (LruEntry K))
      → IsValid c
      → c.lru ≡ e ∷ es
      → 0 < c.max_size
      → e.bytes ≤ c.max_bytes
      → Keeps e (evict_from dec fuel c)
  unfolding evict_from
  evict_from-Keeps zero c e es v first size le = record { valid = v; others = es; lru_is = first }
  evict_from-Keeps (suc fuel) c e es v first size le = elim (Bool-cases (is_over dec c)) [
    | inr under ↦
        subst (Keeps e) (sym (evict_from_under fuel c under))
          (record { valid = v; others = es; lru_is = first })
    | inl above ↦ elim (back-cases c.lru) [
      | inl (empty, last) ↦ cc (first, empty)
      | inr (xs, x, split, last) ↦
          subst (Keeps e) (sym (evict_from-some fuel c x above last))
            (elim (head-cases e es xs x (sym first ∙ split)) [
              | inl (alone, same) ↦
                  cc (above, alone_fits c e v (first ∙ ap (λ l. e ∷ l) alone) size le)
              | inr (ys, rest) ↦
                  evict_from-Keeps fuel (remove_lru_locked dec c x) e ys
                    (last_IsValid c v xs x split) (last_lru c v xs x split ∙ rest)
                    (unfold remove_lru_locked in size) (unfold remove_lru_locked in le)
            ])
    ]
  ]

  pub evict_lru_locked-Keeps :
      (c : Cache K) (e : LruEntry K) (es : List (LruEntry K))
      → IsValid c
      → c.lru ≡ e ∷ es
      → 0 < c.max_size
      → e.bytes ≤ c.max_bytes
      → Keeps e (evict_lru_locked dec c)
  unfolding evict_lru_locked
  evict_lru_locked-Keeps c e es v first size le =
      evict_from-Keeps (length c.lru) c e es v first size le
