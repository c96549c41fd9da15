-- ===== src/Worker.antt =====
-- LA5: the client that works on the tasks (client.c).
pub mod Expression
pub mod Loop
pub mod Numerals
mod Evaluation
mod Exchange
mod Tests
