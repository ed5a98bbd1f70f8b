-- ===== src/Create.antt =====
-- createMailbox of internal/web/server.go, with the address that generateMailboxAddress makes. A
-- handler is a program of calls of the store (Create/Program), so that the calls of several requests
-- may come in any order (Create/Traffic). Errors of the database itself are left out, as in the
-- store, and so are the counters of the metrics.
pub mod Program
pub mod Handler
pub mod Traffic
mod Measure
mod Credit
mod Effect
mod Pool
pub mod Limits
mod Tests
