-- ===== src/Tasks.antt =====
-- LA5: the task queue server (server.c) and its client (client.c).
pub mod Queue
pub mod Handler
pub mod Changes
pub mod Ownership
pub mod Server
pub mod Children
pub mod Fleet
pub mod Guarantees
pub mod Requests
pub mod Loading
mod Tests
