-- ===== src/Ext2/Restore/Tests.antt =====
-- A4/ext2_rm.c, A4/ext2_restore.c: the theorems about a removed file at a small image.
use csc369_assignments.Prelude.{
  ℕ, zero, suc, ◌+◌, ◌*◌, ◌-◌, ◌<◌, ◌≡◌, refl, true, none, some, List, [], ◌∷◌, arith,
}
use csc369_assignments.Prelude.Word.{test_bit}
use csc369_assignments.Ext2.Disk.{write8, write16, write32}
use csc369_assignments.Ext2.Names.{dir_type}
use csc369_assignments.Ext2.Bitmaps.{bit_at}
use csc369_assignments.Ext2.Entries.{fill_entry, strncpy, starts_with}
use csc369_assignments.Ext2.Entries.Layout.{Layout, need}
use csc369_assignments.Ext2.Entries.Search.{clash}
use csc369_assignments.Ext2.Image.{Image}
use csc369_assignments.Ext2.Remove.{unlink_blocks, remove}
use csc369_assignments.Ext2.Remove.Unlink.{unlink_blocks_lem}
use csc369_assignments.Ext2.Restore.{restore_file}
use csc369_assignments.Ext2.Restore.Gap.{NoGap, restore_file-hangs}
use csc369_assignments.Ext2.Restore.Back.{IsFile, IsEntryOf, IsRestored}
use csc369_assignments.Ext2.Restore.Roundtrip.{restore_file-remove}
use csc369_assignments.Ext2.Samples.{
  dot, file_a, small_disk, small_disk-Layout, small_disk-IsBytes, one_block, image_of,
}

abbrev name_a : List ℕ
name_a = b'a' ∷ []

abbrev name_b : List ℕ
name_b = b'b' ∷ []

dot_differs : clash dot.name name_a ≡ true
unfolding clash
dot_differs = refl

name_ends : small_disk (1024 * 9 + 12 + 8 + 1) ≡ 0
unfolding fill_entry strncpy write8 write16 write32
name_ends = refl

unlink_blocks_lem_example :
    (disk' : ℕ → ℕ) × (unlink_blocks 12 (one_block 9) 0 0 name_a small_disk ≡ some disk')
    × (disk' ≡ write16 small_disk (1024 * 9 + 0 + 4) (12 + 1012))
    × Layout disk' 9 0 (record dot { rec_len = 12 + 1012 } ∷ [])
unlink_blocks_lem_example =
    unlink_blocks_lem (one_block 9) name_a [] dot file_a [] small_disk refl small_disk-Layout tt
      dot_differs refl name_ends tt

name_b-NoGap : NoGap 9 (need 1) name_b (image_of small_disk) 0 (dot ∷ file_a ∷ [])
unfolding starts_with fill_entry strncpy write8 write16 write32
name_b-NoGap = (refl, (refl, tt))

empty_block : (k : ℕ) → k < 8 → small_disk k ≡ 0
unfolding fill_entry strncpy write8 write16 write32
empty_block k lt = ground arith

restore_file-hangs_example : restore_file (one_block 9) name_b (image_of small_disk) ≡ none
restore_file-hangs_example =
    restore_file-hangs (one_block 9) name_b (dot ∷ file_a ∷ []) (image_of small_disk)
      small_disk-Layout name_b-NoGap refl empty_block

image_of-IsFile : IsFile 11 1 (image_of small_disk)
unfolding bit_at test_bit
image_of-IsFile = record {
  one_link = refl;
  direct = omega arith;
  has_blocks = record { in_use = λ k lo hi. ground arith; end = refl };
  no_indirect = refl;
  marked = record { in_array = λ k lt. ground arith; on_disk = λ k lt. bits k lt };
  inode_in_array = refl;
  inode_on_disk = refl;
  s_free_blocks_fits = omega arith;
  s_free_inodes_fits = omega arith;
  bg_free_blocks_fits = omega arith;
  bg_free_inodes_fits = omega arith;
}
  where
    bits : (k : ℕ) → k < 1 → bit_at (image_of small_disk).block_bits (one_block 20 k - 1) ≡ true
    bits zero lt = refl
    bits (suc k) lt = absurd (omega arith)

image_of-IsEntryOf : IsEntryOf 9 11 name_a [] dot file_a [] (image_of small_disk)
unfolding dir_type
image_of-IsEntryOf = record {
  layout = small_disk-Layout;
  bytes = small_disk-IsBytes;
  others = tt;
  other = dot_differs;
  others_after = tt;
  own_name = refl;
  own_inode = refl;
  own_type = refl;
  name_ends = name_ends;
  tight = tt;
  tight_before = refl;
}

restore_file-remove_example :
    (m1 m2 : Image) × (remove 1 11 name_a 1000 (image_of small_disk) ≡ some m1)
    × (restore_file (m1.inodes 1).i_block name_a m1 ≡ some (0, m2))
    × IsRestored 11 1000 (image_of small_disk) m2
restore_file-remove_example =
    restore_file-remove 1 11 1 1000 name_a [] dot file_a [] (image_of small_disk) (omega arith) refl
      image_of-IsFile image_of-IsEntryOf
