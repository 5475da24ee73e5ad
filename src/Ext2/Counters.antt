-- ===== src/Ext2/Counters.antt =====
-- A4/ext2_checker.c: the counters of free inodes and blocks, and how they are checked.
use csc369_assignments.Prelude.{ℕ, ◌+◌, ◌-◌, ◌%◌, ◌^◌, ◌==◌, if◌then◌else◌}
use csc369_assignments.Prelude.Int.{ℤ, pos, negsuc, signed32}
use csc369_assignments.Prelude.Count.{count}

-- The free counters of the superblock (32 bits) and of the block group (16 bits), and the number of
-- repairs.
pub record Counts : Type 0 where
  pub s_free_inodes_count : ℕ
  pub s_free_blocks_count : ℕ
  pub bg_free_inodes_count : ℕ
  pub bg_free_blocks_count : ℕ
  pub total : ℕ

abbrev pub abs_value : ℤ → ℕ
abs_value (pos n) = n
abs_value (negsuc n) = n + 1

-- `diff = temp_count - counter`, for a counter of 32 bits.
abbrev pub difference : ℕ → ℕ → ℤ
difference temp_count counter = signed32 ((temp_count + 2 ^ 32 - counter) % 2 ^ 32)

-- `if (diff < 0) counter -= diff; else counter += diff;` on a counter below `w`.
abbrev pub adjusted : ℕ → ℕ → ℤ → ℕ
adjusted w counter (pos d) = (counter + d) % w
adjusted w counter (negsuc d) = (counter + (d + 1)) % w

-- The two halves of `inode_check`.
abbrev pub inode_check_sb : ℕ → Counts → Counts
inode_check_sb temp_count m =
    let diff = difference temp_count m.s_free_inodes_count in
    if temp_count == m.s_free_inodes_count then m else record m {
      s_free_inodes_count = adjusted (2 ^ 32) m.s_free_inodes_count diff;
      total = m.total + abs_value diff;
    }

abbrev pub inode_check_gd : ℕ → Counts → Counts
inode_check_gd temp_count m =
    let diff = difference temp_count m.bg_free_inodes_count in
    if temp_count == m.bg_free_inodes_count then m else record m {
      bg_free_inodes_count = adjusted (2 ^ 16) m.bg_free_inodes_count diff;
      total = m.total + abs_value diff;
    }

-- `inode_check`
unfoldable pub inode_check : (ℕ → ℕ) → Counts → Counts
inode_check inode_bitmap m =
    let temp_count = count 32 (λ i. inode_bitmap i == 0) in
    inode_check_gd temp_count (inode_check_sb temp_count m)

-- The two halves of `block_check`, which compare the counters of blocks and change those of inodes.
abbrev pub block_check_sb : ℕ → Counts → Counts
block_check_sb temp_count m =
    let diff = difference temp_count m.s_free_blocks_count in
    if temp_count == m.s_free_blocks_count then m else record m {
      s_free_inodes_count = adjusted (2 ^ 32) m.s_free_inodes_count diff;
      total = m.total + abs_value diff;
    }

abbrev pub block_check_gd : ℕ → Counts → Counts
block_check_gd temp_count m =
    let diff = difference temp_count m.bg_free_blocks_count in
    if temp_count == m.bg_free_blocks_count then m else record m {
      bg_free_inodes_count = adjusted (2 ^ 16) m.bg_free_inodes_count diff;
      total = m.total + abs_value diff;
    }

-- `block_check`
unfoldable pub block_check : (ℕ → ℕ) → Counts → Counts
block_check block_bitmap m =
    let temp_count = count 128 (λ i. block_bitmap i == 0) in
    block_check_gd temp_count (block_check_sb temp_count m)
