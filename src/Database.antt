-- ===== src/Database.antt =====
-- database/: the index from keys to records, while a block grows and once it is complete.
pub mod KeyChild
pub mod SolidIndex
mod Tests
