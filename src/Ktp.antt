-- ===== src/Ktp.antt =====
-- LA4.0: the KTP socket layer (ksocket.h, ksocket.c), a reliable stop-and-wait protocol over UDP.
pub mod Socket
pub mod Lookup
pub mod Table
pub mod Send
pub mod Recv
pub mod Progress
pub mod Calls
pub mod Packets
pub mod Delivery
pub mod Network
pub mod Invariant
pub mod Preserved
pub mod Reliable
pub mod Transfer
pub mod Files
pub mod Users
pub mod Totals
mod NetworkTests
mod Tests
