-- ===== src/Chat.antt =====
-- LT1: two servers that select over their clients, and the clients (LT1_22CS10082_B/chatserver.c and
-- LT1_22CS30017/chatserver.c).
mod Run
mod Rounds
mod Relay
mod Clients
mod Pairs
mod Safety
mod Forwarding
mod Watching
mod Winner
mod Numbers
mod Slots
mod Fairness
mod Tests
