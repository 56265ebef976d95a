-- ===== src/Prospector.antt =====
-- lc-lib/prospector: the search for files to harvest.
pub mod Info
pub mod State
pub mod Scan
pub mod Rounds
mod Tests
