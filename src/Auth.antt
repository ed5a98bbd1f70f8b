-- ===== src/Auth.antt =====
-- The results that are written into the headers of a received mail: DKIM, DMARC and the header
-- lines of cmd/sender-report/auth.go.
pub mod Dmarc
pub mod Alignment
pub mod Dkim
pub mod Signatures
pub mod Headers
pub mod Injection
pub mod Strip
pub mod Kinds
pub mod Kept
pub mod Enrich
mod Tests
