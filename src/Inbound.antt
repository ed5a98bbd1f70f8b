-- ===== src/Inbound.antt =====
-- What cmd/sender-report/main.go does with a mail that the SMTP server hands on: the recipient
-- validator (Inbound/Recipients), the sealing of what is stored (Inbound/Payload) and processInbound
-- (Inbound/Handle), over the store and the headers of the receiver. The analysis, the marshalling
-- to JSON, the sealing and the decoding of words are parameters, and so are the times.
pub mod Recipients
pub mod Payload
pub mod Handle
pub mod Rows
pub mod Stored
pub mod Delivery
mod Owner
mod Fixtures
mod Tests
