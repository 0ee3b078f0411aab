-- ===== src/Gcache/Clock.antt =====
-- Times and lifetimes. A time is a number of nanoseconds, and 0 is Go's zero time, which stands for
-- "never". The clock is an argument of each operation that reads it.
use gk.Common.{ℕ, zero, suc, ◌+◌, Bool, ltb, ◌==◌, ◌&&◌, not}
use gk.Common.Int64.{ℤ, pos, negsuc}

-- `time.Now().Add(ttl)` for a positive lifetime, and the zero time for any other.
unfoldable pub expiry : ℕ → ℤ → ℕ
expiry now (pos zero) = 0
expiry now (pos (suc n)) = now + suc n
expiry now (negsuc n) = 0

-- `!expiresAt.IsZero() && now.After(expiresAt)`
unfoldable pub is_past : ℕ → ℕ → Bool
is_past now expires_at = not (expires_at == 0) && ltb expires_at now
