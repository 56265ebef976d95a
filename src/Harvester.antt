-- ===== src/Harvester.antt =====
-- lc-lib/harvester: reading a file in lines, and the routine that makes events of them.
pub mod LineReader
pub mod Reading
pub mod Chain
pub mod Fields
pub mod Session
