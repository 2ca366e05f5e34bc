-- ===== src/Orderbook.antt =====
-- pe_orderbook.c: price levels (`Levels`), the books (`Orders`) and matching (`Matching`).
pub mod Levels
pub mod Orders
pub mod Matching
pub mod Create
pub mod Invariant
pub mod Weight
pub mod Linked
