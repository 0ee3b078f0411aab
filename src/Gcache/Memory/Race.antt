-- ===== src/Gcache/Memory/Race.antt =====
-- `GetWithContext` reads the item under the lock, and deletes the key under a second lock.
use gk.Common.{ℕ, ◌≡◌, none, false, refl, ap, ◌∙◌, if◌then◌else◌, arith, if_pos}
use gk.Common.Maps.{lookup-delete}
use gk.Common.Str.{Str, Str_discrete}
use gk.Common.Int64.{ℤ}
use gk.Gcache.Timed.Laws.{is_over}
use gk.Gcache.Memory.{
  MemoryCache, CacheError, ok, err, fresh, get_read, get_finish, memory_get, memory_set,
  memory_delete,
}
use gk.Gcache.Memory.Laws.{read, memory_get-memory_set}

-- A value whose lifetime is not over is read.
set_read :
    (key value : Str) (ttl : ℤ) (set_at now : ℕ) (m : MemoryCache)
    → is_over set_at ttl now ≡ false
    → read now key (memory_set set_at key value ttl m) ≡ ok value
set_read key value ttl set_at now m live =
    memory_get-memory_set key key value ttl set_at now m
    ∙ if_pos (Str_discrete key key) refl _ _
    ∙ ap (λ b. if b then err CacheError.cache_miss else ok value) live

-- If a `Get` finds no fresh item, and another goroutine stores a value whose lifetime is not over, then
-- the value is read where it was stored after the whole `Get`, and also where it was stored between the
-- halves of the `Get` and the second half has not run; but once the second half has run, the key is a
-- miss, at any later time: the completed write is lost.
pub get_finish-memory_set :
    (key value : Str) (ttl : ℤ) (set_at now later : ℕ) (m : MemoryCache)
    → fresh now (get_read key m) ≡ none
    → is_over set_at ttl later ≡ false
    → (read later key (memory_set set_at key value ttl (memory_get now key m).0) ≡ ok value)
      × (read later key (memory_set set_at key value ttl m) ≡ ok value)
      × (read later key (get_finish now key (get_read key m) (memory_set set_at key value ttl m)).0
          ≡ err CacheError.cache_miss)
unfolding get_read get_finish memory_delete memory_get fresh
get_finish-memory_set key value ttl set_at now later m h live = (
  set_read key value ttl set_at later (memory_get now key m).0 live,
  set_read key value ttl set_at later m live,
  ground (arith, h, lookup-delete Str_discrete key key (memory_set set_at key value ttl m).items),
)
