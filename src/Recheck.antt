-- ===== src/Recheck.antt =====
-- recheckPersistAPI of internal/web/server.go: a report that the browser has checked again and sealed anew is
-- stored with the score of its checks; and payloadAPI, which gives the sealed payload out. SHA-256, hex,
-- base64 and JSON are parameters.
pub mod Reference
pub mod Persist
pub mod Payload
mod Listed
mod Frame
pub mod Confined
pub mod Given
mod Tests
