-- ===== src/Thread.antt =====
-- thread/: the locks that the program brings along.
pub mod McsSpinlock
mod Tests
