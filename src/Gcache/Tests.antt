-- ===== src/Gcache/Tests.antt =====
-- Runs of the caches, and their theorems at concrete inputs.
use gk.Common.{
  true, false, ℕ, ◌≡◌, ◌≤◌, refl, List, [], ◌∷◌, arith, none, some, ite, if◌then◌else◌, ℕ_discrete,
}
use gk.Common.Maps.{Map, lookup, insert, delete}
use gk.Common.Str.{str, Str_discrete}
use gk.Common.Int64.{
  pos, negsuc, add64, to_bits, from_bits, digits, format_int, parse_int, parse_digits,
}
use gk.Gcache.Clock.{expiry, is_past}
use gk.Gcache.Timed.{TimedCache, new_timed_cache, timed_get, timed_set, timed_close, evict_expired}
use gk.Gcache.Timed.Laws.{is_over}
use gk.Gcache.Timed.Loop.{
  selecting, ended, Steps, evicted, stopped, closed, done, next, timed_close-never_ends,
}
use gk.Gcache.Memory.{
  MemoryCache, MemoryItem, CacheError, Reply, ok, err, new_memory_cache, fresh, get_read,
  get_finish, memory_get, memory_set, memory_delete, memory_expire, memory_add, counter,
  cleanup_expired,
}
use gk.Gcache.Memory
use gk.Gcache.Options.{apply_options, with_db, with_cleanup_interval}
use gk.Gcache.Timed
use gk.Gcache.Memory.Laws.{
  read, memory_get-memory_set, memory_get-memory_get, memory_add-memory_add,
}
use gk.Gcache.Memory.Race.{get_finish-memory_set}
use gk.Gcache.Linked.{contains, remove, move_to_front, back}
use gk.Gcache.Lru.{
  LruEntry, LruCache, new_lru_cache, lru_get, lru_set, lru_len, make_room, push_new,
}
use gk.Gcache.Lru.View.{view}
use gk.Gcache.Lru.Refine.{Repr, ideal_get, ideal_set}
use gk.Gcache.Lru.Runs.{Call, get, set, run, ideal_run, run-ideal_run, new_lru_cache-Repr}

caches : Unit {0}
unfolding lookup insert delete Str_discrete ℕ_discrete expiry is_past new_timed_cache timed_get
    timed_close timed_set Timed.unexpired evict_expired new_memory_cache apply_options with_db
    with_cleanup_interval fresh get_read get_finish memory_get memory_set memory_delete
    memory_expire memory_add counter Memory.unexpired cleanup_expired to_bits from_bits add64 digits
    format_int parse_int parse_digits contains remove move_to_front back new_lru_cache lru_get
    lru_set lru_len make_room push_new run ideal_get ideal_set ideal_run
caches = tt

abbrev t1 : TimedCache ℕ
t1 = timed_set 10 (str "a") 7 (pos 5) (new_timed_cache (pos 1))

abbrev m0 : MemoryCache
m0 = new_memory_cache (with_db (pos 2) ∷ with_cleanup_interval (pos 7) ∷ [])

abbrev m1 : MemoryCache
m1 = memory_set 10 (str "n") (str "41") (pos 5) m0

abbrev l0 : LruCache ℕ
l0 = new_lru_cache (pos 2)

abbrev some_calls : List (Call ℕ)
some_calls =
    set (str "a") 1
    ∷ set (str "b") 2
    ∷ get (str "a")
    ∷ set (str "c") 3
    ∷ get (str "b")
    ∷ get (str "a")
    ∷ []

interval_of : m0.cleanup_interval ≡ pos 7
unfolding caches
interval_of = refl

-- The key that was used least recently is gone, the other two are there.
lru_run : (ideal_run 2 some_calls []).1 ≡ some 1 ∷ none ∷ some 1 ∷ []
unfolding caches
lru_run = refl

memory_run :
    ((memory_add 12 (str "n") (pos 1) m1).1 ≡ ok (pos 42))
    × (read 16 (str "n") m1 ≡ err CacheError.cache_miss)
    × ((memory_add 16 (str "n") (pos 1) m1).1 ≡ ok (pos 1))
unfolding caches
memory_run = (refl, refl, refl)

run-ideal_run_example :
    (c' : LruCache ℕ) × (z' : Map ℕ (LruEntry ℕ)) × (run some_calls l0
      ≡ some (c', (ideal_run l0.capacity some_calls []).1))
    × Repr c' z'
    × (view z' ≡ (ideal_run l0.capacity some_calls []).0)
    × (lru_len c' ≤ l0.capacity)
run-ideal_run_example = run-ideal_run some_calls l0 [] (new_lru_cache-Repr (pos 2))

memory_get-memory_set_example :
    read 12 (str "n") (memory_set 11 (str "n") (str "3") (negsuc 0) m1)
    ≡ ite
        (Str_discrete (str "n") (str "n"))
        (if is_over 11 (negsuc 0) 12 then err CacheError.cache_miss else ok (str "3"))
        (read 12 (str "n") m1)
memory_get-memory_set_example =
    memory_get-memory_set (str "n") (str "n") (str "3") (negsuc 0) 11 12 m1

memory_get-memory_get_example :
    read 17 (str "n") (memory_get 16 (str "n") m1).0 ≡ read 17 (str "n") m1
memory_get-memory_get_example = memory_get-memory_get (str "n") (str "n") 16 17 m1 (omega arith)

memory_add-memory_add_example :
    memory_add 12 (str "n") (pos 2) (memory_add 12 (str "n") (pos 1) m1).0
    ≡ memory_add 12 (str "n") (add64 (pos 1) (pos 2)) m1
unfolding caches
memory_add-memory_add_example = memory_add-memory_add 12 (str "n") (pos 1) (pos 2) (pos 42) m1 refl

abbrev t0 : TimedCache ℕ
t0 = new_timed_cache (pos 1)

-- A call of `Close` while the goroutine waits lets it end.
ends_in_time : Steps t0 (selecting true) (timed_close t0) ended
unfolding caches
ends_in_time =
    next (closed t0 (selecting true))
      (next (stopped (timed_close t0) refl) (done (timed_close t0) ended))

-- A call of `Close` during a cleanup: the goroutine waits for nil from then on.
timed_close-never_ends_example : ¬ (selecting false ≡ ended)
unfolding caches
timed_close-never_ends_example =
    timed_close-never_ends t0 (evict_expired 5 (timed_close t0)) (selecting false) (
      next (evicted 5 (timed_close t0)) (done (evict_expired 5 (timed_close t0)) (selecting false)))

get_finish-memory_set_example :
    (read 17 (str "n") (memory_set 16 (str "n") (str "9") (pos 5) (memory_get 16 (str "n") m1).0)
      ≡ ok (str "9"))
    × (read 17 (str "n") (memory_set 16 (str "n") (str "9") (pos 5) m1) ≡ ok (str "9"))
    × (read 17
          (str "n")
          (get_finish 16
            (str "n")
            (get_read (str "n") m1)
            (memory_set 16 (str "n") (str "9") (pos 5) m1)).0
        ≡ err CacheError.cache_miss)
unfolding caches
get_finish-memory_set_example =
    get_finish-memory_set (str "n") (str "9") (pos 5) 16 16 17 m1 refl refl
