-- ===== src/Ext2/Disk.antt =====
-- A4/ext2.h: the bytes of the mapped image, and the words of 16 and 32 bits that lie in them, the
-- low byte first.
mod Defs
mod Words
unfoldable pub use Defs.*
pub use Words.*
