-- ===== src/Config.antt =====
-- internal/config/config.go: the settings whose values are checked at the start (Config/Limits) and the paths
-- that answer over plain HTTP (Config/Paths).
pub mod Paths
pub mod Exempt
pub mod Limits
pub mod Bounded
pub mod Accepted
mod Tests
