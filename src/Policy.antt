-- ===== src/Policy.antt =====
-- The reading of domain policies in internal/analyzer: the DMARC lookup of dns.go (Policy/Lookup), the alignment
-- and policy checks of analyzer.go (Policy/Verdicts), and the type of a mail (Policy/MailType).
pub mod Lookup
pub mod Verdicts
pub mod MailType
pub mod Answers
pub mod Absent
mod Tests
