-- ===== src/Ext2/Tests.antt =====
-- A4: the theorems about the ext2 tools at concrete bitmaps and counters.
use csc369_assignments.Prelude.{
  ℕ, ◌+◌, ◌-◌, ◌≤◌, ◌<◌, ◌≡◌, refl, ◌⊎◌, true, false, none, some, ◌==◌, if◌then◌else◌, arith,
}
use csc369_assignments.Prelude.Word.{test_bit}
use csc369_assignments.Prelude.Count.{count}
use csc369_assignments.Ext2.Bitmaps.{
  update_bitmap, deall_bitmap, bit_at, read_bitmap, allocate_block,
}
use csc369_assignments.Ext2.Marks.{deall_bitmap-update_bitmap, allocate_block_lem}
use csc369_assignments.Ext2.Counters.{Counts, inode_check}
use csc369_assignments.Ext2.Fixes.{inode_check_lem}
use csc369_assignments.Ext2.Blocks.{BlockState, Used, Later, file_block_check, file_block_check_lem}

-- The first eleven places are in use.
abbrev eleven : ℕ → ℕ
eleven i = if i == 0 then 255 else if i == 1 then 7 else 0

eleven_free : bit_at eleven 11 ≡ false
unfolding bit_at test_bit
eleven_free = refl

deall_bitmap-update_bitmap_example :
    ((j : ℕ) → bit_at (update_bitmap eleven 11) j ≡ (if 11 == j then true else bit_at eleven j))
    × ((j : ℕ) → bit_at (deall_bitmap eleven 11) j ≡ (if 11 == j then false else bit_at eleven j))
    × (bit_at eleven 11 ≡ false → deall_bitmap (update_bitmap eleven 11) 11 ≡ eleven)
    × (bit_at eleven 11 ≡ true → update_bitmap (deall_bitmap eleven 11) 11 ≡ eleven)
deall_bitmap-update_bitmap_example = deall_bitmap-update_bitmap eleven 11

allocate_block_lem_example :
    ((allocate_block (read_bitmap eleven) eleven ≡ none)
      × ((k : ℕ) → k < 128 → bit_at eleven k ≡ true))
    ⊎ ((n : ℕ) × (bits' : ℕ → ℕ) × (allocate_block (read_bitmap eleven) eleven ≡ some (n, bits'))
        × (n < 128)
        × (bit_at eleven n ≡ false)
        × ((k : ℕ) → k < n → bit_at eleven k ≡ true)
        × ((j : ℕ) → bit_at bits' j ≡ (if n == j then true else bit_at eleven j)))
allocate_block_lem_example = allocate_block_lem eleven

-- One inode of 32 in use.
abbrev inodes : ℕ → ℕ
inodes i = if i == 3 then 1 else 0

abbrev short : Counts
short = record {
  s_free_inodes_count = 30;
  s_free_blocks_count = 100;
  bg_free_inodes_count = 31;
  bg_free_blocks_count = 100;
  total = 0;
}

free_31 : count 32 (λ i. inodes i == 0) ≡ 31
unfolding count
free_31 = refl

inode_check_lem_example : inode_check inodes short ≡ record short {
  s_free_inodes_count = count 32 (λ i. inodes i == 0);
  bg_free_inodes_count = count 32 (λ i. inodes i == 0);
  total = 0 + (count 32 (λ i. inodes i == 0) - 30) + (count 32 (λ i. inodes i == 0) - 31);
}
inode_check_lem_example =
    inode_check_lem inodes short (rw free_31 (omega arith)) (rw free_31 (omega arith))

abbrev blocks : BlockState
blocks = record {
  block_bitmap = λ k. 0;
  block_bits = λ k. 0;
  s_free_blocks_count = 128;
  bg_free_blocks_count = 128;
  total = 0;
}

abbrev table : ℕ → ℕ
table k = if k == 0 then 21 else 0

file_block_check_lem_example :
    ((k : ℕ)
      → k ≤ 12
      → Used table 0 k
      → ((file_block_check table table blocks).block_bitmap (table k - 1) == 0) ≡ false)
    × ((k : ℕ)
        → k ≤ 200
        → Used table 0 12
        → Used table 0 k
        → ((file_block_check table table blocks).block_bitmap (table k - 1) == 0) ≡ false)
    × Later blocks (file_block_check table table blocks)
file_block_check_lem_example = file_block_check_lem table table blocks
