-- ===== src/Placement.antt =====
-- Placement tests: the lookups of internal/ipt/poller.go (Placement/Poll), the start of a test, its tokens and
-- who may see it, in internal/web/server.go (Placement/Access, Placement/Start), and the life of a test
-- with results that arrive in any order (Placement/Life). The calls of the IMAP library are parameters.
pub mod Poll
pub mod Access
pub mod Start
pub mod Life
mod Rows
mod Found
mod Begun
pub mod Owned
pub mod Verdict
mod Tests
