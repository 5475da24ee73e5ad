-- ===== src/Ext2/Create/Tests.antt =====
-- A4/ext2_mkdir.c: `/b` is made in a small image.
use csc369_assignments.Prelude.{ℕ, ◌≡◌, refl, true, some, List, [], ◌∷◌, ltb, if◌then◌else◌, arith}
use csc369_assignments.Ext2.Bitmaps.{
  allocate_block, next_available_inode, next_available_block, update_b_bitmap, first_free,
}
use csc369_assignments.Ext2.Image.{Image, load_block}
use csc369_assignments.Ext2.Paths.{join}
use csc369_assignments.Ext2.Walk.{exact}
use csc369_assignments.Ext2.Walk.Names.{open_path-exact}
use csc369_assignments.Ext2.Create.{is_path, ext2_mkdir}
use csc369_assignments.Ext2.Create.Directory.{IsReady, IsMade, ext2_mkdir-IsMade}
use csc369_assignments.Ext2.Samples.{dot, file_a, small_disk, small_disk-Layout, inode_of, image_of}

abbrev name_b : List ℕ
name_b = b'b' ∷ []

abbrev image : Image
image = record (image_of small_disk) { inode_bitmap = λ k. if ltb k 12 then 1 else 0 }

ready : IsReady image 12 0 (update_b_bitmap image.block_bits 0) (dot ∷ []) file_a name_b
unfolding allocate_block next_available_block first_free load_block
ready = record {
  num_fits = omega arith;
  not_root = omega arith;
  block_free = refl;
  positive = omega arith;
  small = omega arith;
  apart = λ e. omega arith;
  one_block = refl;
  layout = small_disk-Layout;
  room = record {
    inode_fits = omega arith;
    name_len_fits = omega arith;
    file_type_fits = omega arith;
    name_fits = (omega arith, tt);
    room = omega arith;
  };
}

inode_free : next_available_inode image.inode_bitmap ≡ some 12
unfolding next_available_inode first_free
inode_free = refl

slashed : is_path (join (name_b ∷ [])) ≡ true
unfolding is_path
slashed = refl

ext2_mkdir-IsMade_example :
    (m' : Image) × (ext2_mkdir exact (inode_of 0) (join (name_b ∷ [])) image ≡ some (0, m'))
    × IsMade
        (inode_of 0)
        image
        12
        0
        (update_b_bitmap image.block_bits 0)
        (dot ∷ [])
        file_a
        name_b
        ready
        m'
ext2_mkdir-IsMade_example =
    ext2_mkdir-IsMade (inode_of 0) image 12 0 (update_b_bitmap image.block_bits 0) (dot ∷ []) file_a
      name_b ready exact (join (name_b ∷ [])) slashed
      (open_path-exact [] name_b (omega arith, refl, tt)) inode_free
