-- ===== src/Tests.antt =====
-- Tests by evaluation, and the theorems at concrete inputs.
mod State
mod Runs
mod Messages
mod Books
mod Accounts
mod Queues
mod Texts
mod Loop
mod Reading
mod Linked
mod Trading
