-- ===== src/Store.antt =====
-- `class NwcStore` (packages/sovran-nwc/nwc_daemon.py): the ledger of sub-wallets and transactions,
-- method by method. Each child holds a group of methods, and their proofs stand below it.
pub mod Rows
pub mod Sql
pub mod Apps
pub mod Transfer
pub mod Incoming
pub mod Outgoing
pub mod Events
pub mod Queries
pub mod Ledger
pub mod Receiving
pub mod History
mod Tests
