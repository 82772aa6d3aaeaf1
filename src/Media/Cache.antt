-- ===== src/Media/Cache.antt =====
-- internal/media/cache.go: the LRU of decoded images. `lru` is the list from its front to its back,
-- and `items` the keys of the map; the element of a key in the map is the entry with that key. The
-- keys are the URLs, compared by ==. `lru_bytes` is an int64 given by its 64 bits, so a negative
-- one is at least 2 ^ 63; a limit is positive.
pub mod Entries
pub mod Evict
pub mod Access
pub mod Reach
use mathlib.Core.Logic.{ite}
use tuicord_v.Base.{
  ℕ, zero, suc, ◌+◌, ◌-◌, ◌*◌, ◌^◌, ◌%◌, ◌&&◌, Bool, true, false, ◌||◌, not, List, [], ◌∷◌, Option,
  none, some, length, ltb, ◌==◌, if◌then◌else◌,
}
use tuicord_v.Base.Word.{add_int64, sub_int64, is_negative}
use tuicord_v.Media.Image.{Image, decoded_image_bytes}

pub record LruEntry (K : Type 0) : Type 0 where
  pub key : K
  pub img : Image
  pub bytes : ℕ

pub record Cache (K : Type 0) : Type 0 where
  pub lru : List (LruEntry K)
  pub items : K → Bool
  pub max_size : ℕ
  pub max_bytes : ℕ
  pub lru_bytes : ℕ

abbrev pub default_lru_size : ℕ
default_lru_size = 64

abbrev pub default_decoded_cache_max_bytes : ℕ
default_decoded_cache_max_bytes = 64 * 2 ^ 20

-- `NewMemoryCache`; a limit that is not positive is 0 here.
unfoldable pub new_memory_cache : {K : Type 0} → ℕ → ℕ → Cache K
new_memory_cache max_lru max_bytes = record {
  lru = [];
  items = λ _. false;
  max_size = if max_lru == 0 then default_lru_size else max_lru;
  max_bytes = if max_bytes == 0 then default_decoded_cache_max_bytes else max_bytes;
  lru_bytes = 0;
}

-- `c.lru.Back()`.
unfoldable pub back : {K : Type 0} → List (LruEntry K) → Option (LruEntry K)
back [] = none
back (e ∷ []) = some e
back (e ∷ e' ∷ es) = back (e' ∷ es)

module _ {K : Type 0} (dec : Discrete K) where
  abbrev pub set_item : (K → Bool) → K → Bool → K → Bool
  set_item items key v k = ite (dec k key) v (items k)

  -- The element of a key.
  unfoldable pub find_entry : K → List (LruEntry K) → Option (LruEntry K)
  find_entry key [] = none
  find_entry key (e ∷ es) = ite (dec e.key key) (some e) (find_entry key es)

  -- `c.lru.Remove(elem)`.
  unfoldable pub unlink : K → List (LruEntry K) → List (LruEntry K)
  unlink key [] = []
  unlink key (e ∷ es) = let rest = unlink key es in ite (dec e.key key) es (e ∷ rest)

  unfoldable pub remove_lru_locked : Cache K → LruEntry K → Cache K
  remove_lru_locked c entry = record c {
    items = set_item c.items entry.key false;
    lru_bytes = sub_int64 c.lru_bytes entry.bytes;
    lru = unlink entry.key c.lru;
  }

  abbrev pub is_over : Cache K → Bool
  is_over c =
      ltb c.max_size (length c.lru)
      || (ltb c.max_bytes c.lru_bytes && not (is_negative c.lru_bytes))

  -- The loop of `evictLRULocked`, on fuel.
  unfoldable pub evict_from : ℕ → Cache K → Cache K
  evict_from zero c = c
  evict_from (suc fuel) c = elim (is_over c) [
    | false ↦ c
    | true ↦ elim (back c.lru) [ none ↦ c | some e ↦ evict_from fuel (remove_lru_locked c e) ]
  ]

  unfoldable pub evict_lru_locked : Cache K → Cache K
  evict_lru_locked c = evict_from (length c.lru) c

  unfoldable pub configure_lru : Cache K → ℕ → ℕ → Cache K
  configure_lru c max_entries max_bytes = evict_lru_locked (record c {
    max_size = if max_entries == 0 then default_lru_size else max_entries;
    max_bytes = if max_bytes == 0 then default_decoded_cache_max_bytes else max_bytes;
  })

  unfoldable pub get_lru : Cache K → K → Cache K × Option Image
  get_lru c url = if not (c.items url) then (c, none) else elim (find_entry url c.lru) [
    | none ↦ (c, none)
    | some e ↦ (record c { lru = e ∷ unlink url c.lru }, some e.img)
  ]

  -- `PutLRU` of an image that can be kept.
  unfoldable pub put_cacheable : Cache K → K → Image → ℕ → Cache K
  put_cacheable c url img bytes =
      let entry : LruEntry K = record { key = url; img = img; bytes = bytes } in
      if c.items url
      then elim (find_entry url c.lru) [
        | none ↦ c
        | some old ↦ evict_lru_locked (record c {
          lru_bytes = add_int64 (sub_int64 c.lru_bytes old.bytes) bytes;
          lru = entry ∷ unlink url c.lru;
        })
      ]
      else evict_lru_locked (record c {
        items = set_item c.items url true;
        lru = entry ∷ c.lru;
        lru_bytes = add_int64 c.lru_bytes bytes;
      })

  unfoldable pub put_lru : Cache K → K → Option Image → Cache K
  put_lru c url none = c
  put_lru c url (some img) =
      let bytes = decoded_image_bytes (some img) in
      if bytes == 0 || ltb c.max_bytes bytes
      then (if c.items url
          then elim (find_entry url c.lru) [ none ↦ c | some e ↦ remove_lru_locked c e ]
          else c)
      else put_cacheable c url img bytes
