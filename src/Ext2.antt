-- ===== src/Ext2.antt =====
-- A4: the ext2 tools.
pub mod Disk
pub mod Bitmaps
pub mod Marks
pub mod Counters
pub mod Fixes
pub mod Blocks
pub mod Names
pub mod Paths
pub mod Inodes
pub mod Entries
pub mod Image
pub mod Writable
pub mod Walk
pub mod Remove
pub mod Restore
pub mod Create
pub mod Link
pub mod Copy
pub mod Check
pub mod Samples
mod Tests
