-- ===== src/Meta.antt =====
-- meta/: the versions of a table's metadata, and their numbers.
pub mod TableId
pub mod TableIdTree
pub mod Timeline
mod Tests
