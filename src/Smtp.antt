-- ===== src/Smtp.antt =====
-- LA6: the mail server mysmtp_server.c and its client mysmtp_client.c.
pub mod Mailbox
pub mod Session
pub mod Client
pub mod Box
pub mod Search
pub mod Stored
pub mod Protocol
pub mod Forged
pub mod Order
pub mod Reachable
pub mod Bounds
pub mod Typed
pub mod Threads
mod Tests
