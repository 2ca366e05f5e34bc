-- ===== src/Pipes.antt =====
-- pe_pipes.c: what the exchange writes to its traders (`Writing`) and what it does with a message
-- (`Messages`).
pub mod Writing
pub mod Reading
pub mod Lengths
pub mod Messages
