-- ===== src/Cluster.antt =====
-- cluster/: the log of a cluster, its entries, blocks and files.
pub mod LogIndex
pub mod Block
pub mod LogFile
pub mod FindBlock
pub mod Rollback
pub mod Iterator
mod Tests
