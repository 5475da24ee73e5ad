-- ===== src/Ext2/Link/Hard.antt =====
-- A4/ext2_ln.c: a hard link is made.
use mathlib.Core.Path.{fun_ext}
use csc369_assignments.Prelude.{
  ℕ, ◌+◌, ◌*◌, ◌-◌, ◌%◌, ◌^◌, ◌<◌, ◌≡◌, ◌≢◌, refl, sym, ap, ◌∙◌, true, false, some, List, [], ◌∷◌,
  ◌++◌, length, ◌==◌, ltb, arith,
}
use csc369_assignments.Ext2.Disk.{Disk, Outside}
use csc369_assignments.Ext2.Names.{dir_type}
use csc369_assignments.Ext2.Entries.{write_ent_to_block, find_inode_in_blocks, minus_one}
use csc369_assignments.Ext2.Entries.Layout.{Entry, Layout}
use csc369_assignments.Ext2.Entries.Append.{HasRoom, cut_entry, new_entry, write_ent_to_block_lem}
use csc369_assignments.Ext2.Entries.Search.{AllSkip, find_inode_in_blocks_lem}
use csc369_assignments.Ext2.Entries.Lookup.{find_inode_in_blocks-write_ent_to_block}
use csc369_assignments.Ext2.Image.{Image, of_inode, up, load_block}
use csc369_assignments.Ext2.Writable.{get_writable_block}
use csc369_assignments.Ext2.Writable.Faults.{writable_space}
use csc369_assignments.Ext2.Walk.{Heap, walk, inode_at, open_path, verify_path, find_in_inode}
use csc369_assignments.Ext2.Create.{set_disk, write_after, add_link}
use csc369_assignments.Ext2.Link.{make_hard_link, link_to, ext2_ln_hard}

-- The two paths are valid and lead to the directories `target_dir` and `dir`; the target is the file
-- with inode `node` and no directory; the directory of the link has one block, whose last entry has
-- room for the link, and no entry of this block is a file whose name begins with that of the link.
pub record IsLinkable (heap link_heap : Heap) (m : Image)
    (target_path linkname_path linkname : List ℕ) (dir node : ℕ) (es : List Entry) (last : Entry)
    : Type 0 where
  pub target : List (List ℕ)
  pub target_name : List ℕ
  pub linkpath : List (List ℕ)
  pub target_dir : ℕ
  pub target_opened : open_path heap target_path ≡ some (target, target_name)
  pub link_opened : open_path link_heap linkname_path ≡ some (linkpath, linkname)
  pub target_valid : verify_path target m ≡ some 0
  pub link_valid : verify_path linkpath m ≡ some 0
  pub target_walk : walk 12 target 1 m ≡ some target_dir
  pub link_walk : walk 12 linkpath 1 m ≡ some dir
  pub target_found : find_in_inode target_dir 12 target_name b'f' m ≡ some node
  pub no_directory : find_in_inode target_dir 12 target_name b'd' m ≡ some minus_one
  pub dir_fits : dir < 32
  pub node_fits : node < 32
  pub positive : 0 < load_block (of_inode dir) 0 m
  pub small : load_block (of_inode dir) 0 m < 2 ^ 32
  pub one_block : (load_block (of_inode dir) 1 m == 0) ≡ true
  pub layout : Layout m.disk (load_block (of_inode dir) 0 m) 0 (es ++ last ∷ [])
  pub room : HasRoom last (node + 1) 1 linkname
  pub unused : AllSkip linkname (dir_type 1) (es ++ last ∷ [])

module _ (heap link_heap : Heap) (m : Image) (target_path linkname_path linkname : List ℕ)
    (dir node : ℕ) (es : List Entry) (last : Entry)
    (ready : IsLinkable heap link_heap m target_path linkname_path linkname dir node es last) where
  abbrev block : ℕ
  block = load_block (of_inode dir) 0 m

  -- The image with the link: its entry, the bytes outside of the block, the links of the target, the
  -- other inodes, and the search for the link.
  pub record IsLinked (m' : Image) : Type 0 where
    pub entry :
        Layout m'.disk block 0
          (es ++ cut_entry last (node + 1) 1 linkname ∷ new_entry last (node + 1) 1 linkname ∷ [])
    pub elsewhere : (x : ℕ) → Outside (1024 * block) 1024 x → m'.disk x ≡ m.disk x
    pub links : (m'.inodes node).i_links_count ≡ up 16 (m.inodes node).i_links_count
    pub others : (i : ℕ) → node ≢ i → m'.inodes i ≡ m.inodes i
    pub marks :
        (m'.inode_bitmap ≡ m.inode_bitmap)
        × (m'.inode_bits ≡ m.inode_bits)
        × (m'.block_bitmap ≡ m.block_bitmap)
        × (m'.block_bits ≡ m.block_bits)
    pub counters :
        (m'.s_free_inodes_count ≡ m.s_free_inodes_count)
        × (m'.s_free_blocks_count ≡ m.s_free_blocks_count)
        × (m'.bg_free_inodes_count ≡ m.bg_free_inodes_count)
        × (m'.bg_free_blocks_count ≡ m.bg_free_blocks_count)
    pub found : find_in_inode dir 12 linkname b'f' m' ≡ some node

  dir_at : (m' : Image) → inode_at dir m' ≡ some (m'.inodes dir)
  unfolding inode_at
  dir_at m' = let inside : ltb dir 32 ≡ true = ground (arith, ready.dir_fits) in rw inside refl

  in_use : ((m.inodes dir).i_block 0 == 0) ≡ false
  unfolding load_block
  in_use = ground (arith, ready.positive)

  free_name : find_in_inode dir 12 linkname b'f' m ≡ some minus_one
  unfolding find_in_inode load_block dir_type
  free_name =
      rw (dir_at m, find_in_inode)
        ((find_inode_in_blocks_lem m.disk (m.inodes dir).i_block 0 12 linkname b'f'
            (es ++ last ∷ []) (omega arith) (omega arith) (λ j lt. absurd (omega arith)) in_use
            ready.layout).1
          ready.unused)

  writable_run : get_writable_block (of_inode dir) (length linkname) 0 11 m ≡ some (block - 1, m)
  writable_run =
      let number : (block + 2 ^ 32 - 1) % 2 ^ 32 ≡ block - 1 =
        omega (arith, ready.positive, ready.small) in
      writable_space dir (length linkname) m es last ready.one_block ready.layout 999 11
        (omega (arith, ready.room.room))
      ∙ ap (λ (k : ℕ). some (k, m)) number

  module _ (disk' : Disk)
      (written : write_ent_to_block block (node + 1) (length linkname) 1 linkname m.disk
        ≡ some disk') where
    write_after_run : write_after (block - 1) (node + 1) 1 linkname m ≡ some (tt, set_disk disk' m)
    unfolding write_after
    write_after_run =
        let number : (block - 1 + 1) % 2 ^ 32 ≡ block =
          omega (arith, ready.positive, ready.small) in
        rw (number, written, write_after) refl

    make_hard_link_run :
        make_hard_link node (block - 1) linkname m ≡ some (0, add_link node (set_disk disk' m))
    unfolding make_hard_link
    make_hard_link_run = rw write_after_run refl

    link_to_run :
        link_to ready.target_dir ready.target_name node ready.linkpath linkname m
        ≡ some (0, add_link node (set_disk disk' m))
    unfolding link_to
    link_to_run =
        rw (ready.link_walk, free_name, ready.no_directory, writable_run, make_hard_link_run) refl

    ext2_ln_hard_run :
        ext2_ln_hard heap link_heap target_path linkname_path m
        ≡ some (0, add_link node (set_disk disk' m))
    unfolding ext2_ln_hard
    ext2_ln_hard_run =
        let there : (node == 2 ^ 32 - 1) ≡ false = ground (arith, ready.node_fits) in
        rw
          (
            ready.target_opened, ready.link_opened, ready.target_valid, ready.link_valid,
            ready.target_walk, ready.target_found, there, link_to_run,
          )
          refl

    -- The table of the directory is as it was.
    same_table :
        (i : ℕ)
        → ((add_link node (set_disk disk' m)).inodes dir).i_block i ≡ (m.inodes dir).i_block i
    unfolding add_link
    same_table i = ground arith

    linked_found :
        find_inode_in_blocks disk' (m.inodes dir).i_block 0 12 linkname b'f' ≡ some node
        → find_in_inode dir 12 linkname b'f' (add_link node (set_disk disk' m)) ≡ some node
    unfolding find_in_inode add_link
    linked_found found =
        let m' = add_link node (set_disk disk' m) in
        rw (dir_at m', find_in_inode, fun_ext same_table) found

  -- Without `-s`, on two valid paths, the first to a file that is no directory too, where the
  -- directory of the link has one block with room in its last entry, in which every entry differs
  -- from the link in type or in a character of the name: `ext2_ln` exits with 0, the link is the new
  -- last entry of its directory and has the inode of the target, a search for it finds this inode,
  -- which has one link more; the other inodes, the bitmaps, the counters and the bytes outside of the
  -- block stay.
  pub ext2_ln_hard-IsLinked :
      (m' : Image) × (ext2_ln_hard heap link_heap target_path linkname_path m ≡ some (0, m'))
      × IsLinked m'
  unfolding add_link dir_type load_block
  ext2_ln_hard-IsLinked =
      let (disk', written, layout, kept) =
        write_ent_to_block_lem block (node + 1) 1 linkname es last m.disk ready.room ready.layout in
      let (disk2, again, found) =
        find_inode_in_blocks-write_ent_to_block m.disk (m.inodes dir).i_block 0 12 (node + 1) 1
          linkname es last (omega arith) (omega arith) (λ j lt. absurd (omega arith)) in_use
          ready.layout ready.room ready.unused (omega arith) in
      let same : disk2 ≡ disk' = cc in
      let number : node + 1 - 1 ≡ node = omega arith in
      (
        add_link node (set_disk disk' m),
        ext2_ln_hard_run disk' written,
        record {
          entry = layout;
          elsewhere = kept;
          links = ground arith;
          others = λ i other. ground arith;
          marks = (refl, refl, refl, refl);
          counters = (refl, refl, refl, refl);
          found = linked_found disk' written (
              sym (ap (λ d. find_inode_in_blocks d (m.inodes dir).i_block 0 12 linkname b'f') same)
              ∙ found
              ∙ ap (λ (k : ℕ). some k) number);
        },
      )
