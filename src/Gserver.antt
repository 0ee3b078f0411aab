-- ===== src/Gserver.antt =====
-- The router of ghttp/gserver: matcher.go, radix.go, method_matcher.go and `CheckPathValid` of util.go.
pub mod Entry
pub mod Radix
pub mod PathCheck
pub mod Method
pub mod Server
mod Tests
