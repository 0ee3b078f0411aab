-- ===== src/Gretry.antt =====
-- Retries with a backoff: gretry/retry.go.
pub mod Options
pub mod Delay
pub mod Retry
mod Tests
