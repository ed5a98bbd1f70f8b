-- ===== src/Store.antt =====
-- The store of internal/store/store.go over the schema of internal/db/db.go. Store/Tables has the
-- rows and what a deletion does, Store/Mailboxes, Store/Messages and Store/Placements the
-- operations. The proofs are in the other children.
pub mod Tables
pub mod Mailboxes
pub mod Messages
pub mod Placements
pub mod Rows
pub mod Sound
pub mod Empty
pub mod Operations
pub mod References
pub mod Keys
pub mod Unique
pub mod Counts
pub mod Retention
pub mod Reports
mod Tests
