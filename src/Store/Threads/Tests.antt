-- ===== src/Store/Threads/Tests.antt =====
-- Three threads sorted.
use mathlib.Core.List.{Perm}
use tuicord_v.Base.{ℕ, ◌≡◌, refl, List, [], ◌∷◌, false, some}
use tuicord_v.Store.Data.{Channel, zero_channel}
use tuicord_v.Store.Sorting.{sink, back_onto, sort_from, insertion_sort, IsSorted}
use tuicord_v.Store.Threads.{less_thread, sort_threads, sort_threads-IsSorted}

abbrev thread : ℕ → ℕ → Channel
thread id last_active = record zero_channel {
  id = id;
  thread_meta = some (record {
    archived = false;
    locked = false;
    message_count = 0;
    member_count = 0;
    owner_id = 0;
    last_active = last_active;
    joined = false;
    applied_tags = [];
  });
}

abbrev three : List Channel
three = thread 1 50 ∷ thread 2 70 ∷ thread 3 50 ∷ []

sorted : sort_threads three ≡ thread 2 70 ∷ thread 3 50 ∷ thread 1 50 ∷ []
unfolding less_thread sink back_onto sort_from insertion_sort sort_threads
sorted = refl

sort_threads-IsSorted_example :
    IsSorted less_thread (sort_threads three) × Perm (sort_threads three) three
sort_threads-IsSorted_example = sort_threads-IsSorted three
