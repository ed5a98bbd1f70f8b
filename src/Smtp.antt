-- ===== src/Smtp.antt =====
-- internal/smtp/server.go: one connection of the SMTP receiver, from the rate limit to its end.
-- Smtp/Wire has the line reader, `extractSMTPPath` and `readData`; Smtp/Session the commands;
-- Smtp/Serve the loop of `handleConn`. The proofs are in the other children: Smtp/Stuffing on
-- `readData`, Smtp/Mails on what is delivered, Smtp/Ends on the loop's fuel, Smtp/Closing on the ends, Smtp/Tls on STARTTLS.
pub mod Wire
pub mod Session
pub mod Serve
pub mod Stuffing
pub mod Ends
pub mod Closing
pub mod Mails
pub mod Tls
pub mod Order
pub mod Overlong
mod Tests
