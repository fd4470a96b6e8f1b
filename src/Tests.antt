-- ===== src/Tests.antt =====
-- The theorems at concrete inputs, and small runs of the definitions.
mod Records
mod Runs
mod Transactions
mod Utilities
mod Draws
mod Pools
mod Owners
mod Locking
mod Granting
