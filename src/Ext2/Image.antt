-- ===== src/Ext2/Image.antt =====
-- A4/ext2_utils.c and the commands of A4: what the pointers of `main` lead to.
use csc369_assignments.Prelude.{ℕ, ◌+◌, ◌*◌, ◌-◌, ◌%◌, ◌^◌, Option, none, some, update}
use csc369_assignments.Ext2.Disk.{Disk, read32, write32}
use csc369_assignments.Ext2.Inodes.{Inode}
use csc369_assignments.Ext2.Bitmaps.{update_bitmap, allocate_block}

-- The two bitmaps as arrays and on the disk, the free counters of the superblock (32 bits) and of
-- the block group (16 bits), the table of inodes, and the data blocks as bytes.
pub record Image : Type 0 where
  pub block_bitmap : ℕ → ℕ
  pub inode_bitmap : ℕ → ℕ
  pub block_bits : ℕ → ℕ
  pub inode_bits : ℕ → ℕ
  pub s_free_blocks_count : ℕ
  pub s_free_inodes_count : ℕ
  pub bg_free_blocks_count : ℕ
  pub bg_free_inodes_count : ℕ
  pub inodes : ℕ → Inode
  pub disk : Disk

-- `counter--` and `counter++` on 32 and on 16 bits.
abbrev pub down : ℕ → ℕ → ℕ
down w c = (c + 2 ^ w - 1) % 2 ^ w

abbrev pub up : ℕ → ℕ → ℕ
up w c = (c + 1) % 2 ^ w

-- A pointer to a table of block numbers: that of an inode, or words on the disk.
pub data Blocks : Type 0 where
  of_inode : ℕ → Blocks
  at_address : ℕ → Blocks

unfoldable pub load_block : Blocks → ℕ → Image → ℕ
load_block (of_inode n) ind m = (m.inodes n).i_block ind
load_block (at_address a) ind m = read32 m.disk (a + 4 * ind)

abbrev pub set_inode : ℕ → Inode → Image → Image
set_inode n inode m = record m { inodes = update m.inodes n inode }

unfoldable pub store_block : Blocks → ℕ → ℕ → Image → Image
store_block (of_inode n) ind v m =
    let inode = m.inodes n in
    set_inode n (record inode { i_block = update inode.i_block ind (v % 2 ^ 32) }) m
store_block (at_address a) ind v m = record m { disk = write32 m.disk (a + 4 * ind) v }

-- `allocate_block` with the bitmap on the disk, and with the array and both counters, as its
-- callers go on. Without a free block they write before the start of the array.
unfoldable pub take_bits : Image → Option (ℕ × Image)
take_bits m = elim (allocate_block m.block_bitmap m.block_bits) [
  | none ↦ none
  | some (n, bits) ↦ some (n, record m { block_bits = bits })
]

-- `block_bitmap[n] = 1`, and both counters go down.
unfoldable pub count_block : ℕ → Image → Image
count_block n m = record m {
  block_bitmap = update m.block_bitmap n 1;
  s_free_blocks_count = down 32 m.s_free_blocks_count;
  bg_free_blocks_count = down 16 m.bg_free_blocks_count;
}

unfoldable pub count_inode : Image → Image
count_inode m = record m {
  s_free_inodes_count = down 32 m.s_free_inodes_count;
  bg_free_inodes_count = down 16 m.bg_free_inodes_count;
}

-- An inode is marked in both bitmaps.
unfoldable pub mark_inode : ℕ → Image → Image
mark_inode n m = record m {
  inode_bitmap = update m.inode_bitmap n 1;
  inode_bits = update_bitmap m.inode_bits n;
}
