-- ===== src/Media/Cache/Access.antt =====
-- What GetLRU, PutLRU and ConfigureLRU do to a well-formed cache.
use mathlib.Core.Logic.{if_pos}
use mathlib.Core.Path.{fun_ext}
use tuicord_v.Base.{
  ℕ, ◌+◌, ◌^◌, ◌≤◌, ◌<◌, ◌≡◌, refl, sym, ap, ◌∙◌, Bool, true, false, List, ◌∷◌, Option, none, some,
  if◌then◌else◌, arith, inl, inr, ◌⊎◌, Bool-cases,
}
use tuicord_v.Base.Word.{add_int64, sub_int64}
use tuicord_v.Media.Image.{Image, decoded_image_bytes}
use tuicord_v.Media.Cache.Entries.{
  total_bytes, fitting, has_key, has_key-unlink_self, has_key-unlink_ne, AreDistinct-unlink,
  total_bytes-unlink, find_entry-key, find_entry-has_key, unlink_absent, has_key-find_entry,
}
use tuicord_v.Media.Cache.Evict.{
  IsValid, Evicts, evict_lru_locked-Evicts, Keeps, evict_lru_locked-Keeps,
  remove_lru_locked-IsValid,
}
use tuicord_v.Media.Cache.{
  LruEntry, Cache, set_item, find_entry, unlink, remove_lru_locked, evict_lru_locked, get_lru,
  put_lru, put_cacheable,
}

module _ {K : Type 0} (dec : Discrete K) where
  -- The entry of a key moves to the front with its content, and the map has the key.
  unfoldable pub front : Cache K → LruEntry K → Cache K
  front c e = record c {
    items = set_item dec c.items e.key true;
    lru_bytes = add_int64 e.bytes (total_bytes (unlink dec e.key c.lru));
    lru = e ∷ unlink dec e.key c.lru;
  }

  pub front-IsValid : (c : Cache K) (e : LruEntry K) → IsValid dec c → IsValid dec (front c e)
  unfolding front has_key
  front-IsValid c e v = record {
    distinct = (
      has_key-unlink_self dec e.key c.lru v.distinct,
      AreDistinct-unlink dec e.key c.lru v.distinct,
    );
    items_are = λ k. ground (arith, v.items_are k, has_key-unlink_ne dec e.key k c.lru);
    bytes_are = refl;
  }

  set_item_same :
      (items : K → Bool) (url : K) → items url ≡ true → set_item dec items url true ≡ items
  set_item_same items url h = fun_ext (λ k. ground (arith, h))

  module _ (c : Cache K) (url : K) (img : Image) (bytes : ℕ) (v : IsValid dec c) where
    abbrev entry : LruEntry K
    entry = record { key = url; img = img; bytes = bytes }

    front_hit :
        (old : LruEntry K)
        → c.items url ≡ true
        → find_entry dec url c.lru ≡ some old
        → record c {
          lru_bytes = add_int64 (sub_int64 c.lru_bytes old.bytes) bytes;
          lru = entry ∷ unlink dec url c.lru;
        }
          ≡ front c entry
    unfolding front
    front_hit old h found =
        ground
          (arith, set_item_same c.items url h, v.bytes_are, total_bytes-unlink dec url c.lru found)

    front_miss :
        c.items url ≡ false
        → record c {
          items = set_item dec c.items url true;
          lru = entry ∷ c.lru;
          lru_bytes = add_int64 c.lru_bytes bytes;
        }
          ≡ front c entry
    unfolding front
    front_miss h = ground (arith, unlink_absent dec url c.lru, v.items_are url, v.bytes_are)

    put_cacheable-front : put_cacheable dec c url img bytes ≡ evict_lru_locked dec (front c entry)
    unfolding put_cacheable
    put_cacheable-front = elim (Bool-cases (c.items url)) [
      | inr miss ↦ rw miss (ap (evict_lru_locked dec) (front_miss miss))
      | inl hit ↦
          let (old, found) = find_entry-has_key dec url c.lru (sym (v.items_are url) ∙ hit) in
          rw (hit, found) (ap (evict_lru_locked dec) (front_hit old hit found))
    ]

    put_lru-front :
        decoded_image_bytes (some img) ≡ bytes
        → 0 < bytes
        → bytes ≤ c.max_bytes
        → put_lru dec c url (some img) ≡ evict_lru_locked dec (front c entry)
    unfolding put_lru
    put_lru-front size pos le = ground (arith, size, put_cacheable-front)

    pub put_lru-Evicts :
        decoded_image_bytes (some img) ≡ bytes
        → 0 < bytes
        → bytes ≤ c.max_bytes
        → bytes + total_bytes (unlink dec url c.lru) < 2 ^ 63
        → Evicts dec (front c entry) (put_lru dec c url (some img))
    unfolding front
    put_lru-Evicts size pos le small =
        rw (put_lru-front size pos le)
          (evict_lru_locked-Evicts dec (front c entry) (front-IsValid c entry v) small)

    -- Whatever the sum of the bytes is.
    pub put_lru-Keeps :
        decoded_image_bytes (some img) ≡ bytes
        → 0 < bytes
        → bytes ≤ c.max_bytes
        → 0 < c.max_size
        → Keeps dec entry (put_lru dec c url (some img))
    unfolding front
    put_lru-Keeps size pos le room = rw (put_lru-front size pos le) (
        evict_lru_locked-Keeps dec (front c entry) entry (unlink dec url c.lru)
          (front-IsValid c entry v) refl room le)

    -- On a well-formed cache, PutLRU of an image of a positive size within the byte limit puts it
    -- before the entries of other URLs, in their order, and keeps as many from the front as fit both
    -- limits; the cache stays well formed. The bytes of the image and of these entries add up to less
    -- than 2 ^ 63, beyond which the int64 that counts them wraps.
    pub lru-put_lru :
        decoded_image_bytes (some img) ≡ bytes
        → 0 < bytes
        → bytes ≤ c.max_bytes
        → bytes + total_bytes (unlink dec url c.lru) < 2 ^ 63
        → IsValid dec (put_lru dec c url (some img))
          × ((put_lru dec c url (some img)).lru
              ≡ fitting c.max_size c.max_bytes (entry ∷ unlink dec url c.lru))
    lru-put_lru size pos le small =
        let r = put_lru-Evicts size pos le small in (r.valid, unfold front in r.kept)

  put_lru_drop :
      (c : Cache K) (url : K) (img : Image)
      → (decoded_image_bytes (some img) ≡ 0) ⊎ (c.max_bytes < decoded_image_bytes (some img))
      → put_lru dec c url (some img) ≡ (
          if c.items url
          then elim (find_entry dec url c.lru) [ none ↦ c | some e ↦ remove_lru_locked dec c e ]
          else c)
  unfolding put_lru
  put_lru_drop c url img h = elim h [ inl h ↦ ground (arith, h) | inr h ↦ ground (arith, h) ]

  find_self :
      (url : K) (es : List (LruEntry K)) {e : LruEntry K}
      → find_entry dec url es ≡ some e
      → find_entry dec e.key es ≡ some e
  find_self url es {e} h = ap (λ k. find_entry dec k es) (find_entry-key dec url es h) ∙ h

  -- On a well-formed cache, PutLRU of an image of no size or above the byte limit removes the URL's
  -- entry and nothing else; the cache stays well formed.
  pub lru-put_lru_refused :
      (c : Cache K) (url : K) (img : Image)
      → IsValid dec c
      → (decoded_image_bytes (some img) ≡ 0) ⊎ (c.max_bytes < decoded_image_bytes (some img))
      → IsValid dec (put_lru dec c url (some img))
        × ((put_lru dec c url (some img)).lru ≡ unlink dec url c.lru)
  lru-put_lru_refused c url img v h =
      rw (put_lru_drop c url img h) (elim (Bool-cases (c.items url)) [
        | inr miss ↦ rw miss (v, sym (unlink_absent dec url c.lru (sym (v.items_are url) ∙ miss)))
        | inl hit ↦
            let (e, found) = find_entry-has_key dec url c.lru (sym (v.items_are url) ∙ hit) in
            rw (hit, found)
              (
                remove_lru_locked-IsValid dec c e v (find_self url c.lru found),
                unfold remove_lru_locked in
                    ap (λ k. unlink dec k c.lru) (find_entry-key dec url c.lru found),
              )
      ])

  pub limits-put_lru :
      (c : Cache K) (url : K) (img : Image)
      → (decoded_image_bytes (some img) ≡ 0) ⊎ (c.max_bytes < decoded_image_bytes (some img))
      → ((put_lru dec c url (some img)).max_size ≡ c.max_size)
        × ((put_lru dec c url (some img)).max_bytes ≡ c.max_bytes)
  unfolding remove_lru_locked
  limits-put_lru c url img h = rw (put_lru_drop c url img h) (ground arith)

  pub get_lru_hit :
      (c : Cache K) (url : K) (e : LruEntry K)
      → IsValid dec c
      → find_entry dec url c.lru ≡ some e
      → get_lru dec c url ≡ (front c e, some e.img)
  unfolding get_lru front
  get_lru_hit c url e v h = ground (
    arith,
    v.items_are url,
    has_key-find_entry dec url c.lru h,
    h,
    find_entry-key dec url c.lru h,
    set_item_same c.items url,
    v.bytes_are,
    total_bytes-unlink dec url c.lru h,
  )

  pub get_lru_miss :
      (c : Cache K) (url : K)
      → IsValid dec c
      → has_key dec url c.lru ≡ false
      → get_lru dec c url ≡ (c, none)
  unfolding get_lru
  get_lru_miss c url v h = ground (arith, v.items_are url)

  find_entry-first :
      (url : K) (e : LruEntry K) (es : List (LruEntry K))
      → e.key ≡ url
      → find_entry dec url (e ∷ es) ≡ some e
  unfolding find_entry
  find_entry-first url e es h = if_pos (dec e.key url) h (some e) (find_entry dec url es)

  -- On a well-formed cache with room for an entry, an image of a positive size within the byte limit
  -- that PutLRU stores is
  -- what GetLRU of its URL returns next.
  pub get_lru-put_lru :
      (c : Cache K) (url : K) (img : Image)
      → IsValid dec c
      → 0 < c.max_size
      → 0 < decoded_image_bytes (some img)
      → decoded_image_bytes (some img) ≤ c.max_bytes
      → (get_lru dec (put_lru dec c url (some img)) url).1 ≡ some img
  get_lru-put_lru c url img v size pos le =
      let bytes = decoded_image_bytes (some img) in
      let r = put_lru-Keeps c url img bytes v refl pos le size in
      let e : LruEntry K = record { key = url; img = img; bytes = bytes } in
      let found : find_entry dec url (put_lru dec c url (some img)).lru ≡ some e =
        ap (find_entry dec url) r.lru_is ∙ find_entry-first url e r.others refl in
      ap (λ (p : Cache K × Option Image). p.1)
        (get_lru_hit (put_lru dec c url (some img)) url e r.valid found)
