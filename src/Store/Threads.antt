-- ===== src/Store/Threads.antt =====
-- The order of threads of internal/store/channels.go.
mod Tests
use mathlib.Core.List.{Perm}
use tuicord_v.Base.{
  ℕ, ◌≡◌, Bool, true, false, List, Option, none, some, ltb, ◌==◌, if◌then◌else◌, arith,
}
use tuicord_v.Store.Data.{Channel, ThreadMeta}
use tuicord_v.Store.Sorting.{insertion_sort, IsSorted, insertion_sort-IsSorted, insertion_sort-perm}

-- `c.Thread.LastActive`, where every caller has a channel with a thread's data.
abbrev pub last_active_of : Option ThreadMeta → ℕ
last_active_of none = 0
last_active_of (some meta) = meta.last_active

unfoldable pub less_thread : Channel → Channel → Bool
less_thread a b =
    let a_time = last_active_of a.thread_meta in
    let b_time = last_active_of b.thread_meta in
    if a_time == b_time then ltb b.id a.id else ltb b_time a_time

unfoldable pub sort_threads : List Channel → List Channel
sort_threads ts = insertion_sort less_thread ts

less_thread_asymm : (x y : Channel) → less_thread x y ≡ true → less_thread y x ≡ false
unfolding less_thread
less_thread_asymm x y h = ground arith

less_thread_trans :
    (x y z : Channel) → less_thread x y ≡ false → less_thread y z ≡ false → less_thread x z ≡ false
unfolding less_thread
less_thread_trans x y z h k = ground arith

-- sortThreads returns the threads that it is given, sorted: no thread comes before one that was
-- active more recently, or that was active at the same time and has a larger id.
pub sort_threads-IsSorted :
    (ts : List Channel) → IsSorted less_thread (sort_threads ts) × Perm (sort_threads ts) ts
unfolding sort_threads
sort_threads-IsSorted ts = (
  insertion_sort-IsSorted less_thread less_thread_asymm less_thread_trans ts,
  insertion_sort-perm less_thread ts,
)
