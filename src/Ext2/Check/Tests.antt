-- ===== src/Ext2/Check/Tests.antt =====
-- A4/ext2_checker.c: a directory whose file has a free inode.
use csc369_assignments.Prelude.{◌≡◌, refl, some, [], ◌∷◌, arith}
use csc369_assignments.Ext2.Names.{dir_type}
use csc369_assignments.Ext2.Check.{CheckState, inode_all_check}
use csc369_assignments.Ext2.Check.Repairs.{AllFlat, Repaired}
use csc369_assignments.Ext2.Check.Marked.{AllMarked, inode_all_check_lem}
use csc369_assignments.Ext2.Samples.{
  dot, file_a, small_disk, small_disk-Layout, one_block, image_of,
}

abbrev unmarked : CheckState
unmarked = record {
  image = record (image_of small_disk) { inode_bitmap = λ k. 0; inode_bits = λ k. 0 };
  total = 0;
}

small-AllFlat : AllFlat (dot ∷ file_a ∷ [])
unfolding dir_type
small-AllFlat = (
  (omega arith, omega arith, omega arith, refl),
  ((omega arith, omega arith, omega arith, refl), tt),
)

inode_all_check_lem_example :
    (s' : CheckState) × (inode_all_check 2 (one_block 9) unmarked ≡ some s')
    × Repaired unmarked s'
    × AllMarked (dot ∷ file_a ∷ []) s'
inode_all_check_lem_example =
    inode_all_check_lem 0 (one_block 9) (dot ∷ file_a ∷ []) unmarked refl refl small_disk-Layout
      small-AllFlat
