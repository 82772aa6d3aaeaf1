-- ===== src/Media/Cache/Reach.antt =====
-- The caches that a new one becomes under GetLRU, PutLRU and ConfigureLRU.
use native.Mathlib.Decide.{dec_lt, dec_le}
use tuicord_v.Base.{
  ℕ, ◌+◌, ◌^◌, ◌≤◌, ◌<◌, ◌≡◌, refl, ap, true, Option, none, some, length, arith, inl, inr, ◌⊎◌,
  Bool-cases,
}
use tuicord_v.Media.Image.{Image, decoded_image_bytes}
use tuicord_v.Media.Cache.Entries.{
  total_bytes, fitting_bounds, has_key, find_entry-has_key, find_entry-key, length-unlink,
  total_bytes-unlink, unlink-le,
}
use tuicord_v.Media.Cache.Evict.{IsValid, Evicts, evict_lru_locked-Evicts}
use tuicord_v.Media.Cache.Access.{
  front, front-IsValid, get_lru_hit, get_lru_miss, put_lru-Evicts, limits-put_lru,
  lru-put_lru_refused,
}
use tuicord_v.Media.Cache.{
  unlink, Cache, LruEntry, find_entry, get_lru, put_lru, configure_lru, new_memory_cache,
}

module _ {K : Type 0} (dec : Discrete K) where
  -- Every byte limit is below 2 ^ 62.
  pub data Reach : Cache K → Type 0 where
    created :
        (max_lru max_bytes : ℕ) → max_bytes < 2 ^ 62 → Reach (new_memory_cache max_lru max_bytes)
    got : {c : Cache K} → Reach c → (url : K) → Reach (get_lru dec c url).0
    stored :
        {c : Cache K} → Reach c → (url : K) (img : Option Image) → Reach (put_lru dec c url img)
    configured :
        {c : Cache K}
        → Reach c
        → (max_entries max_bytes : ℕ) → max_bytes < 2 ^ 62
        → Reach (configure_lru dec c max_entries max_bytes)

  -- Well formed, and within its limits; the byte count is the sum of the entries' bytes, unwrapped.
  abbrev pub IsBounded : Cache K → Type 0
  IsBounded c =
      IsValid dec c
      × (length c.lru ≤ c.max_size)
      × (total_bytes c.lru ≤ c.max_bytes)
      × (c.lru_bytes ≡ total_bytes c.lru)
      × (c.max_bytes < 2 ^ 62)

  bounded :
      (c : Cache K)
      → IsValid dec c
      → length c.lru ≤ c.max_size
      → total_bytes c.lru ≤ c.max_bytes
      → c.max_bytes < 2 ^ 62
      → IsBounded c
  bounded c v size bytes limit = (v, size, bytes, omega (arith, v.bytes_are), limit)

  Evicts-IsBounded : {c d : Cache K} → c.max_bytes < 2 ^ 62 → Evicts dec c d → IsBounded d
  Evicts-IsBounded {c} {d} limit e =
      let b = fitting_bounds c.max_size c.max_bytes c.lru in
      bounded d e.valid (omega (arith, ap length e.kept, e.same_size, b.0))
        (omega (arith, ap total_bytes e.kept, e.same_bytes, b.1)) (omega (arith, e.same_bytes))

  front-IsBounded :
      (c : Cache K) (url : K) (e : LruEntry K)
      → IsBounded c
      → has_key dec url c.lru ≡ true
      → find_entry dec url c.lru ≡ some e
      → IsBounded (front dec c e)
  unfolding front
  front-IsBounded c url e v hit found =
      let key : e.key ≡ url = find_entry-key dec url c.lru found in
      let same : unlink dec e.key c.lru ≡ unlink dec url c.lru = ap (λ k. unlink dec k c.lru) key in
      bounded (front dec c e) (front-IsValid dec c e v.0)
        (omega (arith, ap length same, length-unlink dec url c.lru hit))
        (omega (arith, ap total_bytes same, total_bytes-unlink dec url c.lru found)) v.4

  get_lru-IsBounded : (c : Cache K) (url : K) → IsBounded c → IsBounded (get_lru dec c url).0
  get_lru-IsBounded c url v = elim (Bool-cases (has_key dec url c.lru)) [
    | inr miss ↦ rw (get_lru_miss dec c url v.0 miss) v
    | inl hit ↦
        let (e, found) = find_entry-has_key dec url c.lru hit in
        rw (get_lru_hit dec c url e v.0 found) (front-IsBounded c url e v hit found)
  ]

  put_lru-IsBounded :
      (c : Cache K) (url : K) (img : Image) → IsBounded c → IsBounded (put_lru dec c url (some img))
  unfolding front
  put_lru-IsBounded c url img v =
      let bytes = decoded_image_bytes (some img) in
      let refused : (bytes ≡ 0) ⊎ (c.max_bytes < bytes) → IsBounded (put_lru dec c url (some img)) =
        λ h.
          let r = lru-put_lru_refused dec c url img v.0 h in
          let limits = limits-put_lru dec c url img h in
          bounded (put_lru dec c url (some img)) r.0
            (omega (arith, ap length r.1, unlink-le dec url c.lru, limits))
            (omega (arith, ap total_bytes r.1, unlink-le dec url c.lru, limits))
            (omega (arith, limits)) in
      elim (dec_lt 0 bytes) [
        | no empty ↦ refused (inl (omega arith))
        | yes pos ↦ elim (dec_le bytes c.max_bytes) [
          | no large ↦ refused (inr (omega arith))
          | yes le ↦
              let small : bytes + total_bytes (unlink dec url c.lru) < 2 ^ 63 =
                omega (arith, unlink-le dec url c.lru) in
              Evicts-IsBounded v.4 (put_lru-Evicts dec c url img bytes v.0 refl pos le small)
        ]
      ]

  configure_lru-IsBounded :
      (c : Cache K) (max_entries max_bytes : ℕ)
      → max_bytes < 2 ^ 62
      → IsBounded c
      → IsBounded (configure_lru dec c max_entries max_bytes)
  unfolding configure_lru
  configure_lru-IsBounded c n b limit v = Evicts-IsBounded (ground arith) (
      evict_lru_locked-Evicts dec _
        (record { distinct = v.0.distinct; items_are = v.0.items_are; bytes_are = v.0.bytes_are })
        (omega arith))

  -- Every cache that calls of GetLRU, PutLRU and ConfigureLRU make of a new one, with byte limits
  -- below 2 ^ 62, is well formed and within its limits, and its byte count has never wrapped: it is
  -- the sum of the entries' bytes.
  pub Reach-IsBounded : {c : Cache K} → Reach c → IsBounded c
  unfolding new_memory_cache has_key put_lru
  Reach-IsBounded (created n b limit) =
      bounded (new_memory_cache n b)
        (record { distinct = tt; items_are = λ k. refl; bytes_are = refl }) (omega arith)
        (omega arith) (ground arith)
  Reach-IsBounded (got {c} r url) = get_lru-IsBounded c url (Reach-IsBounded r)
  Reach-IsBounded (stored r url none) = Reach-IsBounded r
  Reach-IsBounded (stored {c} r url (some img)) = put_lru-IsBounded c url img (Reach-IsBounded r)
  Reach-IsBounded (configured {c} r n b limit) =
      configure_lru-IsBounded c n b limit (Reach-IsBounded r)
