-- ===== src/Ext2/Copy/Tests.antt =====
-- A4/ext2_cp.c: a file of three bytes.
use csc369_assignments.Prelude.{ℕ, ◌+◌, ◌*◌, ◌/◌, ◌%◌, ◌<◌, ◌≡◌, some, arith}
use csc369_assignments.Ext2.Copy.{write_file_to_blocks, blocks_for}
use csc369_assignments.Ext2.Copy.Contents.{block_of, IsSeparate, write_file_to_blocks_lem}
use csc369_assignments.Ext2.Samples.{empty_disk, one_block}

abbrev text : ℕ → ℕ
text j = 97 + j

one_block-IsSeparate : IsSeparate empty_disk (one_block 20) ((3 + 1023) / 1024)
one_block-IsSeparate = record {
  distinct = λ i k lt below. absurd (omega arith);
  not_table = λ k below. ground arith;
}

write_file_to_blocks_lem_example :
    (disk' : ℕ → ℕ) × (write_file_to_blocks text 3 (blocks_for 3) (one_block 20) empty_disk
      ≡ some disk')
    × ((j : ℕ)
        → j < 3
        → disk' (1024 * block_of empty_disk (one_block 20) (j / 1024) + j % 1024) ≡ text j)
write_file_to_blocks_lem_example =
    write_file_to_blocks_lem text 3 (one_block 20) empty_disk (omega arith) one_block-IsSeparate
