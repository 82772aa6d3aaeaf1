-- ===== src/Media/Tests.antt =====
-- Runs of the cache of decoded images, and the theorems at concrete caches.
use native.Mathlib.Decide.{ℕ_discrete}
use tuicord_v.Base.{ℕ, ◌-◌, ◌<◌, ◌^◌, ◌≤◌, ◌≡◌, refl, [], ◌∷◌, some, length, arith}
use tuicord_v.Media.Image.{Image, packed, paletted, rgba, decoded_image_bytes, checked_mul}
use tuicord_v.Media.Cache.{
  Cache, back, find_entry, unlink, remove_lru_locked, evict_from, evict_lru_locked, get_lru,
  put_lru, put_cacheable, configure_lru, new_memory_cache,
}
use tuicord_v.Media.Cache.Entries.{total_bytes, fitting}
use tuicord_v.Media.Cache.Evict.{IsValid}
use tuicord_v.Media.Cache.Access.{lru-put_lru, get_lru-put_lru}
use tuicord_v.Media.Cache.Reach.{Reach, created, stored, Reach-IsBounded}

program : Unit {0}
unfolding new_memory_cache back find_entry unlink remove_lru_locked evict_from evict_lru_locked
    get_lru put_lru put_cacheable configure_lru decoded_image_bytes checked_mul fitting ℕ_discrete
program = tt

-- Of 10, 20 and 30 bytes.
abbrev small : Image
small = packed rgba 10

abbrev middle : Image
middle = packed rgba 20

abbrev large : Image
large = paletted 22 1

-- A cache of two images and 45 bytes after two images at the keys 1 and 2.
abbrev two : Cache ℕ
two = put_lru ℕ_discrete (put_lru ℕ_discrete (new_memory_cache 2 45) 1 (some small)) 2 (some middle)

two_reached : Reach ℕ_discrete two
two_reached = stored (stored (created 2 45 (omega arith)) 1 (some small)) 2 (some middle)

-- The third image does not fit beside the second.
evicted :
    (put_lru ℕ_discrete two 3 (some large)).lru ≡ record { key = 3; img = large; bytes = 30 } ∷ []
unfolding program
evicted = refl

Reach-IsBounded_example :
    IsValid ℕ_discrete two
    × (length two.lru ≤ two.max_size)
    × (total_bytes two.lru ≤ two.max_bytes)
    × (two.lru_bytes ≡ total_bytes two.lru)
    × (two.max_bytes < 2 ^ 62)
Reach-IsBounded_example = Reach-IsBounded ℕ_discrete two_reached

lru-put_lru_example :
    IsValid ℕ_discrete (put_lru ℕ_discrete two 3 (some large))
    × ((put_lru ℕ_discrete two 3 (some large)).lru
        ≡ fitting two.max_size two.max_bytes
            (record { key = 3; img = large; bytes = 30 } ∷ unlink ℕ_discrete 3 two.lru))
unfolding program
lru-put_lru_example =
    lru-put_lru ℕ_discrete two 3 large 30 (Reach-IsBounded ℕ_discrete two_reached).0 refl
      (omega arith) (omega arith) (omega arith)

get_lru-put_lru_example :
    (get_lru ℕ_discrete (put_lru ℕ_discrete two 3 (some large)) 3).1 ≡ some large
unfolding program
get_lru-put_lru_example =
    get_lru-put_lru ℕ_discrete two 3 large (Reach-IsBounded ℕ_discrete two_reached).0 (omega arith)
      (omega arith) (omega arith)

-- With limits above 2 ^ 62 the byte count wraps, and two images stay that do not fit.
abbrev huge : Image
huge = packed rgba (2 ^ 63 - 1)

wrapped :
    length
      (put_lru ℕ_discrete
        (put_lru ℕ_discrete (new_memory_cache 2 (2 ^ 63 - 1)) 1 (some huge))
        2
        (some huge)).lru
    ≡ 2
unfolding program
wrapped = refl
