-- ===== src/Gcache/Memory.antt =====
-- `MemoryCache`: memory.go. An operation without a context is the one with a context, which is never
-- read. A value is a list of bytes, so that nil and the empty slice are one; `cloneBytes` copies it,
-- and copies of a list are equal.
pub mod Laws
pub mod Race
use mathlib.Core.Option
use gk.Common.{
  ℕ, zero, suc, ◌-◌, ◌==◌, Bool, true, false, List, [], ◌∷◌, Option, none, some, if◌then◌else◌,
}
use gk.Common.Maps.{Map, lookup, insert, delete}
use gk.Common.Str.{Str, Str_discrete}
use gk.Common.Int64.{ℤ, pos, negsuc, add64, neg64, format_int, parse_int}
use gk.Gcache.Options.{Options, Setter, apply_options}
use gk.Gcache.Clock.{expiry, is_past}

pub record MemoryItem : Type 0 where
  pub value : Str
  pub expires_at : ℕ

-- `stopped` says that `stopCleanup` is closed.
pub record MemoryCache : Type 0 where
  pub items : Map Str MemoryItem
  pub cleanup_interval : ℤ
  pub stopped : Bool

-- A minute, by default.
abbrev pub default_options : Options
default_options = record {
  address = [];
  password = [];
  db = pos 0;
  pool_size = pos 0;
  min_idle_conns = pos 0;
  dial_timeout = pos 0;
  read_timeout = pos 0;
  write_timeout = pos 0;
  max_retries = pos 0;
  cleanup_interval = pos 60_000_000_000;
}

unfoldable pub new_memory_cache : List Setter → MemoryCache
new_memory_cache opts =
    let options = apply_options opts default_options in
    record { items = []; cleanup_interval = options.cleanup_interval; stopped = false }

pub data CacheError : Type 0 where
  cache_miss not_supported bad_number : CacheError

pub data Reply (A : Type 0) : Type 0 where
  ok : A → Reply A
  err : CacheError → Reply A

-- `!ok || m.isExpired(item)`, and the item otherwise.
unfoldable pub fresh : ℕ → Option MemoryItem → Option MemoryItem
fresh now none = none
fresh now (some item) = if is_past now item.expires_at then none else some item

unfoldable pub memory_delete : Str → MemoryCache → MemoryCache
memory_delete key m = record m { items = delete Str_discrete key m.items }

-- The two halves of `GetWithContext`: the read under the lock, and what follows once it is released.
unfoldable pub get_read : Str → MemoryCache → Option MemoryItem
get_read key m = lookup Str_discrete key m.items

unfoldable pub get_finish : ℕ → Str → Option MemoryItem → MemoryCache → MemoryCache × Reply Str
get_finish now key item m = elim (fresh now item) [
  | none ↦ (memory_delete key m, err CacheError.cache_miss)
  | some it ↦ (m, ok it.value)
]

unfoldable pub memory_get : ℕ → Str → MemoryCache → MemoryCache × Reply Str
unfolding get_read get_finish
memory_get now key m = get_finish now key (get_read key m) m

unfoldable pub memory_set : ℕ → Str → Str → ℤ → MemoryCache → MemoryCache
memory_set now key value expiration m = record m {
  items =
      insert Str_discrete key (record { value = value; expires_at = expiry now expiration })
        m.items;
}

unfoldable pub memory_exists : ℕ → Str → MemoryCache → Bool
memory_exists now key m = elim (fresh now (lookup Str_discrete key m.items)) [
  | none ↦ false
  | some it ↦ true
]

expire_item : ℕ → Str → ℕ → MemoryCache → MemoryCache × Reply (Unit {0})
expire_item now key life m = elim (fresh now (lookup Str_discrete key m.items)) [
  | none ↦ (memory_delete key m, err CacheError.cache_miss)
  | some it ↦ (
    record m {
      items = insert Str_discrete key (record it { expires_at = expiry now (pos life) }) m.items;
    },
    ok tt,
  )
]

-- A lifetime that is not positive does nothing.
unfoldable pub memory_expire : ℕ → Str → ℤ → MemoryCache → MemoryCache × Reply (Unit {0})
unfolding expire_item
memory_expire now key (pos zero) m = (m, ok tt)
memory_expire now key (negsuc n) m = (m, ok tt)
memory_expire now key (pos (suc n)) m = expire_item now key (suc n) m

-- `none` is the answer -1, for an item that never expires. The item is not past here, so the time
-- that is left is a natural number.
unfoldable pub memory_ttl : ℕ → Str → MemoryCache → Reply (Option ℕ)
memory_ttl now key m = elim (fresh now (lookup Str_discrete key m.items)) [
  | none ↦ err CacheError.cache_miss
  | some it ↦ ok (if it.expires_at == 0 then none else some (it.expires_at - now))
]

-- The value and the expiry from which `add` counts on, or `none` where the bytes are no number.
unfoldable pub counter : Option MemoryItem → Option (ℤ × ℕ)
counter none = some (pos 0, 0)
counter (some it) = Option.map (λ n. (n, it.expires_at)) (parse_int it.value)

unfoldable pub memory_add : ℕ → Str → ℤ → MemoryCache → MemoryCache × Reply ℤ
memory_add now key delta m = elim (counter (fresh now (lookup Str_discrete key m.items))) [
  | none ↦ (m, err CacheError.bad_number)
  | some (current, expires) ↦
      let sum = add64 current delta in
      (
        record m {
          items =
              insert Str_discrete key (record { value = format_int sum; expires_at = expires })
                m.items;
        },
        ok sum,
      )
]

unfoldable pub memory_increment : ℕ → Str → ℤ → MemoryCache → MemoryCache × Reply ℤ
unfolding memory_add
memory_increment now key value m = memory_add now key value m

unfoldable pub memory_decrement : ℕ → Str → ℤ → MemoryCache → MemoryCache × Reply ℤ
unfolding memory_add
memory_decrement now key value m = memory_add now key (neg64 value) m

-- `once` makes a second call harmless.
unfoldable pub memory_close : MemoryCache → MemoryCache
memory_close m = record m { stopped = true }

unfoldable pub unexpired : ℕ → Map Str MemoryItem → Map Str MemoryItem
unexpired now [] = []
unexpired now ((k, it) ∷ m) =
    let rest = unexpired now m in if is_past now it.expires_at then rest else (k, it) ∷ rest

-- What `cleanupLoop` runs at every tick.
unfoldable pub cleanup_expired : ℕ → MemoryCache → MemoryCache
cleanup_expired now m = record m { items = unexpired now m.items }

-- The operations on hashes, lists and sets.
pub data Unsupported : Type 0 where
  hash_set hash_get hash_get_all hash_delete : Unsupported
  list_push list_pop list_range : Unsupported
  set_add set_members set_is_member : Unsupported

unfoldable pub run_unsupported : {A : Type 0} → Unsupported → MemoryCache → MemoryCache × Reply A
run_unsupported op m = (m, err CacheError.not_supported)
