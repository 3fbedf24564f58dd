-- ===== src/Indexer.antt =====
-- apps/indexer/src: mirroring the accounts of the chain into the table of identities. The log is
-- not modelled, and the calls of the database other than `create` do not fail.
pub mod Apply
pub mod Cursor
pub mod Guard
pub mod Pipeline
pub mod Backfill
pub mod Subscription
