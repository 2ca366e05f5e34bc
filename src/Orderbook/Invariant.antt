-- ===== src/Orderbook/Invariant.antt =====
-- What holds of the exchange's books, levels and accounts between any two steps of pe_orderbook.c.
pub mod Side
pub mod Product
pub mod Steps
pub mod Open
pub mod BuyRound
pub mod BuyLoop
pub mod SellRound
pub mod SellLoop
pub mod Place
pub mod Finish
