-- ===== src/Txn.antt =====
-- The `txn_manager` crate: transactions and their locks.
pub mod Transaction
pub mod LockManager
mod Tests
