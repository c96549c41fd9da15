-- ===== src/Cldp.antt =====
-- LA7: the lightweight discovery protocol (cldp_server.c, cldp_client.c).
pub mod Checksum
pub mod Integrity
pub mod ServerList
pub mod Directory
pub mod Cleanup
pub mod Packet
pub mod Wire
pub mod Peer
pub mod Queries
pub mod Marking
pub mod Heard
pub mod Exchange
mod Tests
