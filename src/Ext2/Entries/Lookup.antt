-- ===== src/Ext2/Entries/Lookup.antt =====
-- A4/ext2_utils.c: an entry that `write_ent_to_block` wrote is found by `find_inode_in_blocks`.
use csc369_assignments.Prelude.{
  ℕ, ◌+◌, ◌-◌, ◌%◌, ◌^◌, ◌≤◌, ◌<◌, ◌≡◌, refl, ap, ◌∙◌, true, false, some, List, [], ◌∷◌, ◌++◌,
  length, ◌==◌, arith,
}
use csc369_assignments.Ext2.Disk.{Disk}
use csc369_assignments.Ext2.Names.{dir_type}
use csc369_assignments.Ext2.Entries.{write_ent_to_block, find_inode_in_blocks}
use csc369_assignments.Ext2.Entries.Layout.{Entry, Layout}
use csc369_assignments.Ext2.Entries.Append.{HasRoom, cut_entry, new_entry, write_ent_to_block_lem}
use csc369_assignments.Ext2.Entries.Search.{
  begins_self, is_type, Stops, AllSkip, find_inode_in_blocks_lem,
}

append_two : (es : List Entry) (x y : Entry) → es ++ x ∷ y ∷ [] ≡ (es ++ x ∷ []) ++ y ∷ []
append_two [] x y = refl
append_two (e ∷ es) x y = ap (λ l. e ∷ l) (append_two es x y)

AllSkip-cut :
    (curr : List ℕ) (t inode file_type : ℕ) (name : List ℕ) (es : List Entry) (last : Entry)
    → AllSkip curr t (es ++ last ∷ [])
    → AllSkip curr t (es ++ cut_entry last inode file_type name ∷ [])
unfolding is_type
AllSkip-cut curr t inode file_type name [] last h = h
AllSkip-cut curr t inode file_type name (e ∷ es) last (s, h) =
    (s, AllSkip-cut curr t inode file_type name es last h)

-- An entry that `write_ent_to_block` puts into the first block of a directory that is in use is
-- found by `find_inode_in_blocks` under its name and type, with its inode number less 1, if the last
-- entry of the block left room for it and every entry before differs from it in type or in a
-- character of the name.
pub find_inode_in_blocks-write_ent_to_block :
    (disk : Disk) (i_block : ℕ → ℕ) (k limit inode file_type : ℕ) (name : List ℕ) (es : List Entry)
    (last : Entry)
    → k ≤ limit
    → limit ≤ 12
    → ((j : ℕ) → j < k → (i_block j == 0) ≡ true)
    → (i_block k == 0) ≡ false
    → Layout disk (i_block k) 0 (es ++ last ∷ [])
    → HasRoom last inode file_type name
    → AllSkip name (dir_type file_type) (es ++ last ∷ [])
    → 0 < inode
    → (disk' : Disk) × (write_ent_to_block (i_block k) inode (length name) file_type name disk
        ≡ some disk')
      × (find_inode_in_blocks disk' i_block 0 limit name (dir_type file_type) ≡ some (inode - 1))
unfolding is_type
find_inode_in_blocks-write_ent_to_block disk i_block k limit inode file_type name es last le small
      free used layout fits skip positive =
    let (disk', e, layout', kept) =
      write_ent_to_block_lem (i_block k) inode file_type name es last disk fits layout in
    let cut = cut_entry last inode file_type name in
    let new = new_entry last inode file_type name in
    let stops : Stops name (dir_type file_type) new = rw (begins_self name) (ground arith) in
    let found =
      (find_inode_in_blocks_lem disk' i_block k limit name (dir_type file_type)
          (es ++ cut ∷ new ∷ []) le small free used layout').0
        (es ++ cut ∷ []) new [] (append_two es cut new)
        (AllSkip-cut name (dir_type file_type) inode file_type name es last skip) stops in
    let number : (inode + 2 ^ 32 - 1) % 2 ^ 32 ≡ inode - 1 = omega (arith, fits.inode_fits) in
    (disk', e, found ∙ ap some number)
