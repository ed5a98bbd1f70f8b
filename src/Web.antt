-- ===== src/Web.antt =====
-- Parts of the web server, internal/web: request paths and language prefixes (Web/Paths), what a request
-- says of its client behind a proxy (Web/Proxy), and the order and groups of a report (Web/Checks).
pub mod Paths
pub mod Language
pub mod Proxy
pub mod Checks
pub mod Local
pub mod Trusted
pub mod Sorted
pub mod Shown
mod Tests
