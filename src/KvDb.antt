-- ===== src/KvDb.antt =====
-- memKvDatabase: an in-memory store of rows, each a chain of versions under a lock.
pub mod Version
pub mod Row
pub mod Transaction
mod Tests
