-- ===== src/Gcache/Timed.antt =====
-- `TimedCache`: timed.go. The goroutine that cleans up is in Timed/Loop.
pub mod Laws
pub mod Loop
use gk.Common.{
  ℕ, zero, suc, Bool, true, false, List, [], ◌∷◌, Option, none, some, length, if◌then◌else◌,
}
use gk.Common.Maps.{Map, lookup, insert, delete}
use gk.Common.Str.{Str, Str_discrete}
use gk.Common.Int64.{ℤ, pos, negsuc}
use gk.Gcache.Clock.{expiry, is_past}

pub record TimedEntry (V : Type 0) : Type 0 where
  pub value : V
  pub expires_at : ℕ

-- `running` says that `stop` is a channel, and not nil.
pub record TimedCache (V : Type 0) : Type 0 where
  pub cache : Map Str (TimedEntry V)
  pub running : Bool

-- `NewTimedCache`: a positive interval starts the goroutine.
unfoldable pub new_timed_cache : {V : Type 0} → ℤ → TimedCache V
new_timed_cache (pos zero) = record { cache = []; running = false }
new_timed_cache (pos (suc n)) = record { cache = []; running = true }
new_timed_cache (negsuc n) = record { cache = []; running = false }

module _ {V : Type 0} where
  live_value : ℕ → Option (TimedEntry V) → Option V
  live_value now none = none
  live_value now (some e) = if is_past now e.expires_at then none else some e.value

  unfoldable pub timed_get : ℕ → Str → TimedCache V → Option V
  unfolding live_value
  timed_get now key c = live_value now (lookup Str_discrete key c.cache)

  unfoldable pub timed_set : ℕ → Str → V → ℤ → TimedCache V → TimedCache V
  timed_set now key value ttl c = record c {
    cache = insert Str_discrete key (record { value = value; expires_at = expiry now ttl }) c.cache;
  }

  unfoldable pub timed_delete : Str → TimedCache V → TimedCache V
  timed_delete key c = record c { cache = delete Str_discrete key c.cache }

  unfoldable pub timed_len : TimedCache V → ℕ
  timed_len c = length c.cache

  unfoldable pub timed_close : TimedCache V → TimedCache V
  timed_close c = record c { running = false }

  -- The loop of `evictExpired` over the map.
  unfoldable pub unexpired : ℕ → Map Str (TimedEntry V) → Map Str (TimedEntry V)
  unexpired now [] = []
  unexpired now ((k, e) ∷ m) =
      let rest = unexpired now m in if is_past now e.expires_at then rest else (k, e) ∷ rest

  unfoldable pub evict_expired : ℕ → TimedCache V → TimedCache V
  evict_expired now c = record c { cache = unexpired now c.cache }
