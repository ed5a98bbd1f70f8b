-- ===== src/Spf.antt =====
-- The SPF evaluation of cmd/sender-report/auth.go. Spf/Address has the comparison of addresses,
-- Spf/Parse the reading of records and mechanisms, Spf/Mechanism the mechanisms and Spf/Check
-- the evaluation itself. The proofs are in the other children.
pub mod Address
pub mod Parse
pub mod Mechanism
pub mod Check
pub mod Budget
pub mod Seen
pub mod Levels
pub mod Network
pub mod Cidr
pub mod Names
mod Tests
