-- ===== src/Ext2/Link/Tests.antt =====
-- A4/ext2_ln.c: `/b` becomes a link to `/a`.
use csc369_assignments.Prelude.{ℕ, ◌≡◌, refl, some, List, [], ◌∷◌, arith}
use csc369_assignments.Ext2.Names.{dir_type}
use csc369_assignments.Ext2.Entries.{minus_one}
use csc369_assignments.Ext2.Entries.Search.{begins, clash, is_type, find_inode_in_blocks_lem}
use csc369_assignments.Ext2.Image.{Image, load_block}
use csc369_assignments.Ext2.Paths.{join}
use csc369_assignments.Ext2.Walk.{exact, verify_path, verify_from, walk, find_in_inode, inode_at}
use csc369_assignments.Ext2.Walk.Names.{open_path-exact}
use csc369_assignments.Ext2.Link.{ext2_ln_hard}
use csc369_assignments.Ext2.Link.Hard.{IsLinkable, IsLinked, ext2_ln_hard-IsLinked}
use csc369_assignments.Ext2.Samples.{
  dot, file_a, small_disk, small_disk-Layout, one_block, image_of,
}

abbrev name_a : List ℕ
name_a = b'a' ∷ []

abbrev name_b : List ℕ
name_b = b'b' ∷ []

abbrev image : Image
image = image_of small_disk

found_a : find_in_inode 1 12 name_a b'f' image ≡ some 11
unfolding find_in_inode inode_at clash begins is_type dir_type
found_a =
    (find_inode_in_blocks_lem small_disk (one_block 9) 0 12 name_a b'f' (dot ∷ file_a ∷ [])
        (omega arith) (omega arith) (λ j lt. absurd (omega arith)) refl small_disk-Layout).0
      (dot ∷ []) file_a [] refl (refl, tt) refl

no_directory_a : find_in_inode 1 12 name_a b'd' image ≡ some minus_one
unfolding find_in_inode inode_at clash is_type dir_type
no_directory_a =
    (find_inode_in_blocks_lem small_disk (one_block 9) 0 12 name_a b'd' (dot ∷ file_a ∷ [])
        (omega arith) (omega arith) (λ j lt. absurd (omega arith)) refl small_disk-Layout).1
      (refl, (refl, tt))

ready :
    IsLinkable exact exact image
      (join (name_a ∷ []))
      (join (name_b ∷ []))
      name_b
      1
      11
      (dot ∷ [])
      file_a
unfolding verify_path verify_from walk load_block clash is_type dir_type
ready = record {
  target = [];
  target_name = name_a;
  linkpath = [];
  target_dir = 1;
  target_opened = open_path-exact [] name_a (omega arith, refl, tt);
  link_opened = open_path-exact [] name_b (omega arith, refl, tt);
  target_valid = refl;
  link_valid = refl;
  target_walk = refl;
  link_walk = refl;
  target_found = found_a;
  no_directory = no_directory_a;
  dir_fits = omega arith;
  node_fits = omega arith;
  positive = omega arith;
  small = omega arith;
  one_block = refl;
  layout = small_disk-Layout;
  room = record {
    inode_fits = omega arith;
    name_len_fits = omega arith;
    file_type_fits = omega arith;
    name_fits = (omega arith, tt);
    room = omega arith;
  };
  unused = (refl, (refl, tt));
}

ext2_ln_hard-IsLinked_example :
    (m' : Image) × (ext2_ln_hard exact exact (join (name_a ∷ [])) (join (name_b ∷ [])) image
      ≡ some (0, m'))
    × IsLinked exact exact image
        (join (name_a ∷ []))
        (join (name_b ∷ []))
        name_b
        1
        11
        (dot ∷ [])
        file_a
        ready
        m'
ext2_ln_hard-IsLinked_example =
    ext2_ln_hard-IsLinked exact exact image (join (name_a ∷ [])) (join (name_b ∷ [])) name_b 1 11
      (dot ∷ []) file_a ready
