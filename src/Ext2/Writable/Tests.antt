-- ===== src/Ext2/Writable/Tests.antt =====
-- A4/ext2_utils.c: the theorems about `get_writable_block` at a small directory.
use csc369_assignments.Prelude.{ℕ, ◌+◌, ◌*◌, ◌-◌, ◌≡◌, refl, some, List, [], ◌∷◌, arith}
use csc369_assignments.Ext2.Bitmaps.{
  allocate_block, next_available_block, first_free, update_bitmap,
}
use csc369_assignments.Ext2.Entries.{write_ent_to_block}
use csc369_assignments.Ext2.Entries.Layout.{Holds, need}
use csc369_assignments.Ext2.Image.{Image, of_inode, load_block}
use csc369_assignments.Ext2.Writable.{get_writable_block}
use csc369_assignments.Ext2.Writable.Faults.{
  stray, get_writable_block-overruns, get_writable_block-misplaces,
}
use csc369_assignments.Ext2.Samples.{long_dot, short_a, full_disk, full_disk-Layout, image_of}

abbrev name_b : List ℕ
name_b = b'b' ∷ []

-- The directory in block 9 is full, and the entry of `b` is written to block 10.
get_writable_block-overruns_example :
    (disk' : ℕ → ℕ) × (get_writable_block (of_inode 1) (need 1) 0 12 (image_of full_disk)
      ≡ some (load_block (of_inode 1) 0 (image_of full_disk) - 1, image_of full_disk))
    × (write_ent_to_block (load_block (of_inode 1) 0 (image_of full_disk)) 13 1 1 name_b full_disk
        ≡ some disk')
    × Holds disk'
        (1024 * (load_block (of_inode 1) 0 (image_of full_disk) + 1))
        (stray (load_block (of_inode 1) 0 (image_of full_disk)) short_a 13 1 name_b)
unfolding load_block
get_writable_block-overruns_example =
    get_writable_block-overruns 1 13 1 name_b (long_dot ∷ []) short_a (image_of full_disk) refl
      full_disk-Layout refl (omega arith)
      (record {
        inode_fits = omega arith;
        rec_len_fits = omega arith;
        name_len_fits = omega arith;
        file_type_fits = omega arith;
        name_fits = (omega arith, tt);
      })
      (omega arith) (omega arith)

abbrev bits_after : ℕ → ℕ
bits_after = update_bitmap (image_of full_disk).block_bits 0

lowest_free :
    allocate_block (image_of full_disk).block_bitmap (image_of full_disk).block_bits
    ≡ some (0, bits_after)
unfolding allocate_block next_available_block first_free
lowest_free = refl

get_writable_block-misplaces_example :
    (m' : Image) × (get_writable_block (of_inode 1) 16 0 12 (image_of full_disk) ≡ some (0, m'))
    × (load_block (of_inode 1) 1 m' ≡ 0)
    × (m'.block_bitmap 0 ≡ 1)
    × (m'.block_bits ≡ bits_after)
    × (m'.disk ≡ full_disk)
unfolding load_block
get_writable_block-misplaces_example =
    get_writable_block-misplaces 1 16 0 (long_dot ∷ []) short_a (image_of full_disk) bits_after refl
      full_disk-Layout (omega arith) lowest_free (omega arith)
