-- ===== src/Store.antt =====
-- The program under Server Store/: a server for a store with transactions.
pub mod Registry
pub mod Transactions
pub mod Blobs
pub mod Versions
pub mod Protocol
pub mod Server
pub mod Shutdown
pub mod Tests
