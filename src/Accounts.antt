-- ===== src/Accounts.antt =====
-- Two threads that transfer money between two accounts, and one that prints the sum of the balances:
-- without a lock, and with one.
pub mod Racy
pub mod Locked
