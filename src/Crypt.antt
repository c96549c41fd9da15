-- ===== src/Crypt.antt =====
-- LA3: files encrypted over TCP (doencfileserver.c, retrieveencfileclient.c).
pub mod Cipher
pub mod Framing
pub mod Roundtrip
pub mod Dialogue
pub mod Session
mod Tests
