-- ===== src/Ext2/Check.antt =====
-- A4/ext2_checker.c: the walks over the directories, and `main`.
pub mod Repairs
pub mod Marked
mod Tests
use csc369_assignments.Prelude.{
  ℕ, zero, suc, ◌+◌, ◌*◌, ◌-◌, ◌%◌, ◌^◌, Option, none, some, Bool, true, false, not, ◌&&◌, ◌||◌,
  List, [], ◌∷◌, ◌==◌, if◌then◌else◌, update,
}
use csc369_assignments.Ext2.Disk.{Disk, write8}
use csc369_assignments.Ext2.Names.{dir_type, f_type, inode_to_dir_type}
use csc369_assignments.Ext2.Bitmaps.{update_i_bitmap}
use csc369_assignments.Ext2.Inodes.{Inode}
use csc369_assignments.Ext2.Entries.{
  entry_inode, entry_rec_len, entry_file_type, starts_with, table_at,
}
use csc369_assignments.Ext2.Image.{Image, count_inode, mark_inode}
use csc369_assignments.Ext2.Counters.{Counts, inode_check, block_check}
use csc369_assignments.Ext2.Blocks.{BlockState, mark_block, file_block_check}

-- The image, and the number of repairs.
pub record CheckState : Type 0 where
  pub image : Image
  pub total : ℕ

-- The parts of it that `inode_check` and `block_check`, and `file_block_check`, work on.
abbrev pub counts_of : CheckState → Counts
counts_of s = record {
  s_free_inodes_count = s.image.s_free_inodes_count;
  s_free_blocks_count = s.image.s_free_blocks_count;
  bg_free_inodes_count = s.image.bg_free_inodes_count;
  bg_free_blocks_count = s.image.bg_free_blocks_count;
  total = s.total;
}

abbrev pub with_counts : Counts → CheckState → CheckState
with_counts c s = record {
  image = record s.image {
    s_free_inodes_count = c.s_free_inodes_count;
    s_free_blocks_count = c.s_free_blocks_count;
    bg_free_inodes_count = c.bg_free_inodes_count;
    bg_free_blocks_count = c.bg_free_blocks_count;
  };
  total = c.total;
}

abbrev pub blocks_of : CheckState → BlockState
blocks_of s = record {
  block_bitmap = s.image.block_bitmap;
  block_bits = s.image.block_bits;
  s_free_blocks_count = s.image.s_free_blocks_count;
  bg_free_blocks_count = s.image.bg_free_blocks_count;
  total = s.total;
}

abbrev pub with_blocks : BlockState → CheckState → CheckState
with_blocks b s = record {
  image = record s.image {
    block_bitmap = b.block_bitmap;
    block_bits = b.block_bits;
    s_free_blocks_count = b.s_free_blocks_count;
    bg_free_blocks_count = b.bg_free_blocks_count;
  };
  total = b.total;
}

-- A walk over a directory from its table of blocks.
abbrev pub Visit : Type 0
Visit = (ℕ → ℕ) → CheckState → Option CheckState

-- The entries that the walks pass over: `.` and `..`, and every other name that begins with a dot.
unfoldable pub is_dot : Disk → ℕ → Bool
is_dot disk a = starts_with disk (a + 8) (b'.' ∷ b'.' ∷ []) || starts_with disk (a + 8) (b'.' ∷ [])

-- The table of the inode that an entry names.
abbrev pub entry_table : ℕ → CheckState → ℕ → ℕ
entry_table a s = (s.image.inodes (entry_inode s.image.disk a - 1)).i_block

-- The loop over the entries of a block, with what a walk does at an entry that it does not pass. The
-- inode of every entry is copied first: there is none for an entry whose inode number is 0.
unfoldable pub each_entry :
    ℕ → (ℕ → CheckState → Option CheckState) → ℕ → ℕ → CheckState → Option CheckState
each_entry zero act block_num rec_len_total s = none
each_entry (suc fuel) act block_num rec_len_total s =
    let a = 1024 * block_num + rec_len_total in
    let passed = if is_dot s.image.disk a then some s else act a s in
    let done = if entry_inode s.image.disk a == 0 then none else passed in
    elim (rec_len_total == 1024) [
      | true ↦ some s
      | false ↦ elim done [
        | none ↦ none
        | some s1 ↦ each_entry fuel act block_num (rec_len_total + entry_rec_len s1.image.disk a) s1
      ]
    ]

-- A directory that is an entry is walked over at once.
abbrev pub descend : Visit → ℕ → (ℕ → ℕ) → CheckState → Option CheckState
descend visit a table s =
    if dir_type (entry_file_type s.image.disk a) == b'd' then visit table s else some s

abbrev pub repaired : CheckState → CheckState
repaired s = record s { total = s.total + 1 }

-- `i_mode_check` at an entry: the type of the entry becomes that of the inode.
unfoldable pub fix_type : Visit → ℕ → CheckState → Option CheckState
fix_type visit a s =
    let disk = s.image.disk in
    let insp_inode = s.image.inodes (entry_inode disk a - 1) in
    let fixed = record s.image {
      disk = write8 disk (a + 7) (inode_to_dir_type insp_inode.i_mode);
    } in
    descend visit a insp_inode.i_block (
      if f_type insp_inode.i_mode == dir_type (entry_file_type disk a)
      then s
      else record { image = fixed; total = s.total + 1 })

-- `inode_all_check` at an entry: its inode is marked.
unfoldable pub fix_inode : Visit → ℕ → CheckState → Option CheckState
fix_inode visit a s =
    let node = entry_inode s.image.disk a - 1 in
    descend visit a (entry_table a s) (
      if s.image.inode_bitmap node == 0
      then record { image = count_inode (mark_inode node s.image); total = s.total + 1 }
      else s)

-- `i_dtime_check` at an entry: the test is for a time that is not set, and what is set is a copy.
unfoldable pub fix_dtime : Visit → ℕ → CheckState → Option CheckState
fix_dtime visit a s =
    let insp_inode = s.image.inodes (entry_inode s.image.disk a - 1) in
    descend visit a insp_inode.i_block (if insp_inode.i_dtime == 0 then repaired s else s)

-- `block_all_check` at an entry: the blocks of a file are marked.
unfoldable pub fix_blocks : Visit → ℕ → CheckState → Option CheckState
fix_blocks visit a s =
    let type = dir_type (entry_file_type s.image.disk a) in
    let table = entry_table a s in
    let file = file_block_check table (table_at s.image.disk (table 12)) (blocks_of s) in
    descend visit a table (if (type == b'f') || (type == b'l') then with_blocks file s else s)

-- A walk: the blocks of a table, up to the first that is not in use. The variable `rec_len_total` of
-- `i_mode_check` and `i_dtime_check` is not set at first: `start` is what it holds, in every
-- call the same; and these two read the block after the one in the table. The fuel bounds the depth of the
-- directories and the blocks of each.
unfoldable pub walk_blocks :
    ℕ
    → (Visit → ℕ → CheckState → Option CheckState)
    → ℕ
    → ℕ
    → (ℕ → ℕ)
    → ℕ
    → CheckState
    → Option CheckState
walk_blocks zero act shift start i_block ind s = none
walk_blocks (suc fuel) act shift start i_block ind s =
    let visit = λ (table : ℕ → ℕ). walk_blocks fuel act shift start table 0 in
    elim (i_block ind == 0) [
      | true ↦ some s
      | false ↦ elim (each_entry 1025 (act visit) (i_block ind + shift) start s) [
        | none ↦ none
        | some s1 ↦ walk_blocks fuel act shift start i_block (ind + 1) s1
      ]
    ]

unfoldable pub i_mode_check : ℕ → ℕ → (ℕ → ℕ) → CheckState → Option CheckState
i_mode_check fuel start i_block s = walk_blocks fuel fix_type 1 start i_block 0 s

unfoldable pub inode_all_check : ℕ → (ℕ → ℕ) → CheckState → Option CheckState
inode_all_check fuel i_block s = walk_blocks fuel fix_inode 0 0 i_block 0 s

unfoldable pub i_dtime_check : ℕ → ℕ → (ℕ → ℕ) → CheckState → Option CheckState
i_dtime_check fuel start i_block s = walk_blocks fuel fix_dtime 1 start i_block 0 s

-- `block_all_check` marks the blocks of a directory too.
unfoldable pub block_all_check : ℕ → (ℕ → ℕ) → ℕ → CheckState → Option CheckState
block_all_check zero i_block ind s = none
block_all_check (suc fuel) i_block ind s =
    let visit = λ (table : ℕ → ℕ). block_all_check fuel table 0 in
    elim (i_block ind == 0) [
      | true ↦ some s
      | false ↦
          let s1 = with_blocks (mark_block (i_block ind) (blocks_of s)) s in
          elim (each_entry 1025 (fix_blocks visit) (i_block ind) 0 s1) [
            | none ↦ none
            | some s2 ↦ block_all_check fuel i_block (ind + 1) s2
          ]
    ]

abbrev pub then_check : Option CheckState → Visit → Option CheckState
then_check none next = none
then_check (some s) next = next (s.image.inodes 2).i_block s

-- `main` of `ext2_checker`, on an image with nothing repaired yet.
unfoldable pub ext2_checker : ℕ → ℕ → CheckState → Option CheckState
ext2_checker fuel start s =
    let s1 = with_counts (inode_check s.image.inode_bitmap (counts_of s)) s in
    let s2 = with_counts (block_check s1.image.block_bitmap (counts_of s1)) s1 in
    let s3 = then_check (some s2) (i_mode_check fuel start) in
    let s4 = then_check s3 (inode_all_check fuel) in
    let s5 = then_check s4 (i_dtime_check fuel start) in
    then_check s5 (λ table. block_all_check fuel table 0)
