-- ===== src/Words.antt =====
-- LA2: words of a file, asked for one by one over UDP (wordserver.c, wordclient.c).
pub mod Server
pub mod Client
pub mod Exchange
mod Transfer
mod Lines
mod Tests
