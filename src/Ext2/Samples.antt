-- ===== src/Ext2/Samples.antt =====
-- A4: small directories and a small image for the examples.
use csc369_assignments.Prelude.{ℕ, ◌+◌, ◌*◌, refl, [], ◌∷◌, ◌==◌, if◌then◌else◌, arith}
use csc369_assignments.Ext2.Disk.{Disk, IsBytes, read16, read32, write8, write16, write32}
use csc369_assignments.Ext2.Inodes.{Inode}
use csc369_assignments.Ext2.Entries.{fill_entry, strncpy}
use csc369_assignments.Ext2.Entries.Layout.{Entry, Layout}
use csc369_assignments.Ext2.Image.{Image}

abbrev pub empty_disk : Disk
empty_disk a = 0

abbrev pub dot : Entry
dot = record { inode = 2; rec_len = 12; file_type = 2; name = b'.' ∷ [] }

abbrev pub file_a : Entry
file_a = record { inode = 12; rec_len = 1012; file_type = 1; name = b'a' ∷ [] }

-- Block 9 holds the directory itself and a file.
abbrev pub small_disk : Disk
small_disk =
    fill_entry (1024 * 9 + 12) 12 1012 1 1 (b'a' ∷ [])
      (fill_entry (1024 * 9) 2 12 1 2 (b'.' ∷ []) empty_disk)

pub small_disk-Layout : Layout small_disk 9 0 (dot ∷ file_a ∷ [])
unfolding fill_entry strncpy read16 read32 write8 write16 write32
small_disk-Layout = (
  record {
    inode_at = refl;
    rec_len_at = refl;
    name_len_at = refl;
    file_type_at = refl;
    name_at = (refl, tt);
  },
  omega arith,
  omega arith,
  (
    record {
      inode_at = refl;
      rec_len_at = refl;
      name_len_at = refl;
      file_type_at = refl;
      name_at = (refl, tt);
    },
    omega arith,
    omega arith,
    refl,
  ),
)

abbrev pub long_dot : Entry
long_dot = record { inode = 2; rec_len = 1012; file_type = 2; name = b'.' ∷ [] }

abbrev pub short_a : Entry
short_a = record { inode = 12; rec_len = 12; file_type = 1; name = b'a' ∷ [] }

-- Here the last entry has no more than it needs.
abbrev pub full_disk : Disk
full_disk =
    fill_entry (1024 * 9 + 1012) 12 12 1 1 (b'a' ∷ [])
      (fill_entry (1024 * 9) 2 1012 1 2 (b'.' ∷ []) empty_disk)

pub full_disk-Layout : Layout full_disk 9 0 (long_dot ∷ short_a ∷ [])
unfolding fill_entry strncpy read16 read32 write8 write16 write32
full_disk-Layout = (
  record {
    inode_at = refl;
    rec_len_at = refl;
    name_len_at = refl;
    file_type_at = refl;
    name_at = (refl, tt);
  },
  omega arith,
  omega arith,
  (
    record {
      inode_at = refl;
      rec_len_at = refl;
      name_len_at = refl;
      file_type_at = refl;
      name_at = (refl, tt);
    },
    omega arith,
    omega arith,
    refl,
  ),
)

pub small_disk-IsBytes : IsBytes small_disk
unfolding fill_entry strncpy write8 write16 write32
small_disk-IsBytes a = ground arith

-- A table with one block.
abbrev pub one_block : ℕ → ℕ → ℕ
one_block b k = if k == 0 then b else 0

abbrev pub inode_of : ℕ → Inode
inode_of b = record {
  i_mode = 0;
  i_uid = 0;
  i_size = 1024;
  i_atime = 0;
  i_ctime = 0;
  i_mtime = 0;
  i_dtime = 0;
  i_gid = 0;
  i_links_count = 1;
  i_blocks = 2;
  i_flags = 0;
  osd1 = 0;
  i_block = one_block b;
  i_generation = 0;
  i_file_acl = 0;
  i_dir_acl = 0;
  i_faddr = 0;
}

-- The inode 1 is the directory in block 9, the inode 11 a file in block 20.
abbrev pub image_of : Disk → Image
image_of disk = record {
  block_bitmap = λ k. if k == 19 then 1 else 0;
  inode_bitmap = λ k. if k == 11 then 1 else 0;
  block_bits = λ k. if k == 2 then 8 else 0;
  inode_bits = λ k. if k == 1 then 8 else 0;
  s_free_blocks_count = 127;
  s_free_inodes_count = 31;
  bg_free_blocks_count = 127;
  bg_free_inodes_count = 31;
  inodes = λ k. if k == 11 then inode_of 20 else inode_of 9;
  disk = disk;
}
