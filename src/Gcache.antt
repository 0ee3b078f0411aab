-- ===== src/Gcache.antt =====
-- The in-process caches of gcache: timed.go, memory.go, lru.go, lfu.go and the options of cache.go.
pub mod Clock
pub mod Options
pub mod Linked
pub mod Lru
pub mod Lfu
pub mod Timed
pub mod Memory
mod Tests
