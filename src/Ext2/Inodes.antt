-- ===== src/Ext2/Inodes.antt =====
-- A4/ext2.h, A4/ext2_utils.c: inodes and directory entries as they are made.
use csc369_assignments.Prelude.{ℕ, ◌+◌, ◌%◌, ◌^◌, ◌≡◌, refl, false, ltb, ◌==◌, if◌then◌else◌}
use csc369_assignments.Ext2.Names.{dir_type, f_type, inode_to_dir_type, dir_type-inode_to_dir_type}
use csc369_assignments.Ext2.Blocks.{BlockState, check_blocks, file_block_check}

-- `struct ext2_inode`
pub record Inode : Type 0 where
  pub i_mode : ℕ
  pub i_uid : ℕ
  pub i_size : ℕ
  pub i_atime : ℕ
  pub i_ctime : ℕ
  pub i_mtime : ℕ
  pub i_dtime : ℕ
  pub i_gid : ℕ
  pub i_links_count : ℕ
  pub i_blocks : ℕ
  pub i_flags : ℕ
  pub osd1 : ℕ
  pub i_block : ℕ → ℕ
  pub i_generation : ℕ
  pub i_file_acl : ℕ
  pub i_dir_acl : ℕ
  pub i_faddr : ℕ

-- `struct ext2_dir_entry`, but for the name.
pub record DirEntry : Type 0 where
  pub inode : ℕ
  pub rec_len : ℕ
  pub name_len : ℕ
  pub file_type : ℕ

-- `init_inode`
unfoldable pub init_inode : Inode → ℕ → Inode
init_inode new_inode i_mode = record new_inode {
  i_mode = i_mode;
  i_size = 1024;
  i_uid = 0;
  i_dtime = 0;
  i_gid = 0;
  i_links_count = 1;
  i_blocks = 2;
  osd1 = 0;
  i_block = λ i. if ltb i 15 then 0 else new_inode.i_block i;
  i_generation = 0;
  i_file_acl = 0;
  i_dir_acl = 0;
  i_faddr = 0;
}

-- `init_dir_entry`; the length of a name is a byte.
unfoldable pub init_dir_entry : ℕ → ℕ → ℕ → DirEntry
init_dir_entry new_inode_num name_length type = record {
  inode = (new_inode_num + 1) % 2 ^ 32;
  rec_len = 0;
  name_len = name_length % 2 ^ 8;
  file_type = type;
}

-- A new inode of a known type and an entry made for it with the type that the checker gives agree
-- in their types, and the checker finds no block of the inode that is not marked.
init_inode-passes :
    (old : Inode) (i_mode num name_length : ℕ) (indirect : ℕ → ℕ) (m : BlockState)
    → (f_type i_mode == b'e') ≡ false
    → (dir_type (init_dir_entry num name_length (inode_to_dir_type i_mode)).file_type
        ≡ f_type (init_inode old i_mode).i_mode)
      × (file_block_check (init_inode old i_mode).i_block indirect m ≡ m)
unfolding init_inode init_dir_entry file_block_check check_blocks
init_inode-passes old i_mode num name_length indirect m known =
    (rw known at (dir_type-inode_to_dir_type i_mode), refl)
