-- ===== src/Ext2/Entries/Tests.antt =====
-- A4/ext2_utils.c: the theorems about directory entries at a small directory.
use csc369_assignments.Prelude.{
  ℕ, ◌+◌, ◌*◌, ◌-◌, ◌%◌, ◌^◌, ◌≡◌, refl, some, List, [], ◌∷◌, ◌++◌, arith,
}
use csc369_assignments.Ext2.Disk.{Outside}
use csc369_assignments.Ext2.Names.{dir_type}
use csc369_assignments.Ext2.Entries.{write_ent_to_block, find_inode_in_blocks, minus_one}
use csc369_assignments.Ext2.Entries.Layout.{Entry, Layout}
use csc369_assignments.Ext2.Entries.Append.{HasRoom, cut_entry, new_entry, write_ent_to_block_lem}
use csc369_assignments.Ext2.Entries.Search.{
  clash, is_type, Stops, AllSkip, find_inode_in_blocks_lem,
}
use csc369_assignments.Ext2.Entries.Lookup.{find_inode_in_blocks-write_ent_to_block}
use csc369_assignments.Ext2.Samples.{dot, file_a, small_disk, small_disk-Layout, one_block}

abbrev name_b : List ℕ
name_b = b'b' ∷ []

name_b-HasRoom : HasRoom file_a 13 1 name_b
name_b-HasRoom = record {
  inode_fits = omega arith;
  name_len_fits = omega arith;
  file_type_fits = omega arith;
  name_fits = (omega arith, tt);
  room = omega arith;
}

write_ent_to_block_lem_example :
    (disk' : ℕ → ℕ) × (write_ent_to_block 9 13 1 1 name_b small_disk ≡ some disk')
    × Layout disk' 9 0 (dot ∷ cut_entry file_a 13 1 name_b ∷ new_entry file_a 13 1 name_b ∷ [])
    × ((x : ℕ) → Outside (1024 * 9) 1024 x → disk' x ≡ small_disk x)
write_ent_to_block_lem_example =
    write_ent_to_block_lem 9 13 1 name_b (dot ∷ []) file_a small_disk name_b-HasRoom
      small_disk-Layout

name_b-AllSkip : AllSkip name_b (dir_type 1) (dot ∷ file_a ∷ [])
unfolding clash is_type dir_type
name_b-AllSkip = (refl, (refl, tt))

find_inode_in_blocks-write_ent_to_block_example :
    (disk' : ℕ → ℕ) × (write_ent_to_block 9 13 1 1 name_b small_disk ≡ some disk')
    × (find_inode_in_blocks disk' (one_block 9) 0 12 name_b (dir_type 1) ≡ some 12)
find_inode_in_blocks-write_ent_to_block_example =
    find_inode_in_blocks-write_ent_to_block small_disk (one_block 9) 0 12 13 1 name_b (dot ∷ [])
      file_a (omega arith) (omega arith) (λ j lt. absurd (omega arith)) refl small_disk-Layout
      name_b-HasRoom name_b-AllSkip (omega arith)

find_inode_in_blocks_lem_example :
    ((before : List Entry) (e : Entry) (after : List Entry)
      → dot ∷ file_a ∷ [] ≡ before ++ e ∷ after
      → AllSkip name_b b'f' before
      → Stops name_b b'f' e
      → find_inode_in_blocks small_disk (one_block 9) 0 12 name_b b'f'
        ≡ some ((e.inode + 2 ^ 32 - 1) % 2 ^ 32))
    × (AllSkip name_b b'f' (dot ∷ file_a ∷ [])
        → find_inode_in_blocks small_disk (one_block 9) 0 12 name_b b'f' ≡ some minus_one)
find_inode_in_blocks_lem_example =
    find_inode_in_blocks_lem small_disk (one_block 9) 0 12 name_b b'f' (dot ∷ file_a ∷ [])
      (omega arith) (omega arith) (λ j lt. absurd (omega arith)) refl small_disk-Layout
