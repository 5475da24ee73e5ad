-- ===== src/Swap.antt =====
-- A3/swap.c: the swap area of the paging simulator.
pub mod Bitmap
mod Tests
