-- ===== src/Ext2/Create/Directory.antt =====
-- A4/ext2_mkdir.c: a directory that is made in the root.
use csc369_assignments.Prelude.{
  ℕ, ◌+◌, ◌*◌, ◌-◌, ◌%◌, ◌^◌, ◌<◌, ◌≡◌, ◌≢◌, refl, ap, ◌∙◌, true, false, Option, some, none, List,
  [], ◌∷◌, ◌++◌, length, ◌==◌, arith, update, if◌then◌else◌,
}
use csc369_assignments.Prelude.State.{pure, and_then, ◌>>◌}
use csc369_assignments.Ext2.Disk.{Disk, Outside}
use csc369_assignments.Ext2.Inodes.{Inode, init_inode, init_dir_entry}
use csc369_assignments.Ext2.Bitmaps.{
  allocate_block, next_available_inode, next_available_block, update_bitmap,
}
use csc369_assignments.Ext2.Entries.{write_ent_to_block, minus_one}
use csc369_assignments.Ext2.Entries.Layout.{
  Entry, Layout, need, Layout-keep, calc_rec_len_div4-need,
}
use csc369_assignments.Ext2.Entries.Append.{HasRoom, cut_entry, new_entry, write_ent_to_block_lem}
use csc369_assignments.Ext2.Image.{
  Image, of_inode, up, down, load_block, set_inode, take_bits, count_block, count_inode, mark_inode,
}
use csc369_assignments.Ext2.Writable.{get_writable_block}
use csc369_assignments.Ext2.Writable.Faults.{writable_space}
use csc369_assignments.Ext2.Walk.{Heap, walk, inode_at, open_path, verify_path, verify_from}
use csc369_assignments.Ext2.Create.{
  enomem, is_none, set_disk, write_after, add_link, new_inode, is_path, make_directory, ext2_mkdir,
}
use csc369_assignments.Ext2.Create.Dots.{
  self_entry, parent_entry, both_dots, both_dots-Layout, both_dots_ne,
}

-- The image and the block of the root as `ext2_mkdir` needs them: a free inode `num`, a free block
-- `k` (counted from 0), and one block of the root, which is not that one, whose last entry has room
-- for the name.
pub record IsReady (m : Image) (num k : ℕ) (bits : ℕ → ℕ) (es : List Entry) (last : Entry)
    (name : List ℕ) : Type 0 where
  pub num_fits : num < 32
  pub not_root : 1 < num
  pub block_free : allocate_block m.block_bitmap m.block_bits ≡ some (k, bits)
  pub positive : 0 < load_block (of_inode 1) 0 m
  pub small : load_block (of_inode 1) 0 m < 2 ^ 32
  pub apart : load_block (of_inode 1) 0 m ≢ k + 1
  pub one_block : (load_block (of_inode 1) 1 m == 0) ≡ true
  pub layout : Layout m.disk (load_block (of_inode 1) 0 m) 0 (es ++ last ∷ [])
  pub room : HasRoom last (num + 1) 2 name

module _ (fresh : Inode) (m : Image) (num k : ℕ) (bits : ℕ → ℕ) (es : List Entry) (last : Entry)
    (name : List ℕ) (ready : IsReady m num k bits es last name) where
  abbrev root_block : ℕ
  root_block = load_block (of_inode 1) 0 m

  -- The image up to where the entry of the new directory is written.
  abbrev counted : Image
  counted = count_inode (count_block k (record (mark_inode num m) { block_bits = bits }))

  abbrev prepared : Image
  prepared = add_link 1 (
      set_disk (both_dots (k + 1) num 1 m.disk)
        (set_inode num (new_inode fresh 0x4000 (k + 1)) counted))

  prepared-root : (i : ℕ) → load_block (of_inode 1) i prepared ≡ load_block (of_inode 1) i m
  unfolding load_block add_link count_inode count_block mark_inode
  prepared-root i = ground (arith, ready.not_root)

  prepared-Layout : Layout prepared.disk root_block 0 (es ++ last ∷ [])
  unfolding add_link
  prepared-Layout =
      Layout-keep m.disk prepared.disk root_block 0 (es ++ last ∷ [])
        (λ x lo hi.
          both_dots_ne (k + 1) num 1 m.disk (omega (arith, ready.num_fits)) (omega arith) x
            (ground (arith, ready.apart)))
        ready.layout

  writable_run :
      get_writable_block (of_inode 1) (need (length name)) 0 12 prepared
      ≡ some (root_block - 1, prepared)
  writable_run =
      let at = prepared-root 0 in
      let b = root_block in
      let number : (b + 2 ^ 32 - 1) % 2 ^ 32 ≡ b - 1 = omega (arith, ready.positive, ready.small) in
      writable_space 1 (need (length name)) prepared es last
        (ap (λ (b : ℕ). b == 0) (prepared-root 1) ∙ ready.one_block) (rw at prepared-Layout) 999 12
        (omega (arith, ready.room.room))
      ∙ ap (λ (b : ℕ). some ((b + 2 ^ 32 - 1) % 2 ^ 32, prepared)) at
      ∙ ap (λ (k : ℕ). some (k, prepared)) number

  -- The image with the new directory: its block, `.` and `..` in it, its entry in the root, the
  -- bytes of the other blocks, the marks, the counters, and the links of the root.
  pub record IsMade (m' : Image) : Type 0 where
    pub own_block : load_block (of_inode num) 0 m' ≡ k + 1
    pub dots : Layout m'.disk (k + 1) 0 (self_entry num ∷ parent_entry 1 ∷ [])
    pub entry :
        Layout m'.disk root_block 0
          (es ++ cut_entry last (num + 1) 2 name ∷ new_entry last (num + 1) 2 name ∷ [])
    pub elsewhere :
        (x : ℕ)
        → Outside (1024 * root_block) 1024 x
        → Outside (1024 * (k + 1)) 1024 x
        → m'.disk x ≡ m.disk x
    pub inode_marked : m'.inode_bitmap ≡ update m.inode_bitmap num 1
    pub block_marked : m'.block_bitmap ≡ update m.block_bitmap k 1
    pub inode_bit : m'.inode_bits ≡ update_bitmap m.inode_bits num
    pub block_bit : m'.block_bits ≡ bits
    pub free_inodes : m'.s_free_inodes_count ≡ down 32 m.s_free_inodes_count
    pub free_blocks : m'.s_free_blocks_count ≡ down 32 m.s_free_blocks_count
    pub group_inodes : m'.bg_free_inodes_count ≡ down 16 m.bg_free_inodes_count
    pub group_blocks : m'.bg_free_blocks_count ≡ down 16 m.bg_free_blocks_count
    pub links : (m'.inodes 1).i_links_count ≡ up 16 (m.inodes 1).i_links_count

  take_run :
      take_bits (mark_inode num m) ≡ some (k, record (mark_inode num m) { block_bits = bits })
  unfolding take_bits mark_inode
  take_run = rw (ready.block_free, take_bits) refl

  make_directory_start :
      make_directory fresh num [] name m
      ≡ and_then
          (get_writable_block (of_inode 1) (need (length name)) 0 12 prepared)
          (λ writable_block.
            if writable_block == minus_one
            then pure enomem
            else (write_after writable_block (num + 1) 2 name >> pure 0))
  unfolding make_directory walk inode_at init_dir_entry mark_inode count_block count_inode
  make_directory_start =
      let short : length name % 2 ^ 8 ≡ length name = omega (arith, ready.room.name_len_fits) in
      rw (take_run, short, calc_rec_len_div4-need (length name)) refl

  own_block_lem : (disk' : Disk) → load_block (of_inode num) 0 (set_disk disk' prepared) ≡ k + 1
  unfolding load_block add_link count_inode count_block mark_inode new_inode init_inode
  own_block_lem disk' = ground (arith, ready.not_root)

  links_lem : (prepared.inodes 1).i_links_count ≡ up 16 (m.inodes 1).i_links_count
  unfolding add_link count_inode count_block mark_inode
  links_lem = ground (arith, ready.not_root)

  module _ (disk' : Disk)
      (written : write_ent_to_block root_block (num + 1) (length name) 2 name prepared.disk
        ≡ some disk') where
    write_after_run :
        write_after (root_block - 1) (num + 1) 2 name prepared ≡ some (tt, set_disk disk' prepared)
    unfolding write_after
    write_after_run =
        let number : (root_block - 1 + 1) % 2 ^ 32 ≡ root_block =
          omega (arith, ready.positive, ready.small) in
        rw (number, written, write_after) refl

    make_directory_run : make_directory fresh num [] name m ≡ some (0, set_disk disk' prepared)
    make_directory_run =
        let there : (root_block - 1 == 2 ^ 32 - 1) ≡ false =
          ground (arith, ready.positive, ready.small) in
        make_directory_start ∙ rw (writable_run, there, write_after_run) refl

  pub make_directory-IsMade :
      (m' : Image) × (make_directory fresh num [] name m ≡ some (0, m')) × IsMade m'
  unfolding add_link count_inode count_block mark_inode
  make_directory-IsMade =
      let (disk', written, layout, kept) =
        write_ent_to_block_lem root_block (num + 1) 2 name es last prepared.disk ready.room
          prepared-Layout in
      (
        set_disk disk' prepared,
        make_directory_run disk' written,
        record {
          own_block = own_block_lem disk';
          dots =
              Layout-keep prepared.disk disk' (k + 1) 0 (self_entry num ∷ parent_entry 1 ∷ [])
                (λ x lo hi. kept x (ground (arith, ready.apart)))
                (both_dots-Layout (k + 1) num 1 m.disk (omega (arith, ready.num_fits))
                  (omega arith));
          entry = layout;
          elsewhere = λ x out new.
              kept x out
              ∙ both_dots_ne (k + 1) num 1 m.disk (omega (arith, ready.num_fits)) (omega arith) x
                  new;
          inode_marked = refl;
          block_marked = refl;
          inode_bit = refl;
          block_bit = refl;
          free_inodes = refl;
          free_blocks = refl;
          group_inodes = refl;
          group_blocks = refl;
          links = links_lem;
        },
      )

  is_free : (b : Option ℕ) → next_available_block m.block_bitmap ≡ b → is_none b ≡ false
  unfolding allocate_block
  is_free none e = absurd (let bad = rw (e, allocate_block) at ready.block_free in cc)
  is_free (some b) e = refl

  -- On an image with a free inode and a free block, with one block of the root in which the last
  -- entry has room for the name, `ext2_mkdir` of a path that is a name behind a slash exits with 0:
  -- the new directory has the inode and the block that were free, and in this block `.` and `..`
  -- alone; the last entry of the root is that of the new directory; the inode and the block are
  -- marked on the disk and in memory, the counters go down, the root has one link more, and no
  -- other byte of the disk is changed.
  pub ext2_mkdir-IsMade :
      (heap : Heap) (path : List ℕ)
      → is_path path ≡ true
      → open_path heap path ≡ some ([], name)
      → next_available_inode m.inode_bitmap ≡ some num
      → (m' : Image) × (ext2_mkdir heap fresh path m ≡ some (0, m')) × IsMade m'
  unfolding ext2_mkdir verify_path verify_from
  ext2_mkdir-IsMade heap path good opened inode_free =
      let (m', run, made) = make_directory-IsMade in
      (m', rw (inode_free, is_free _ refl, good, opened, ext2_mkdir) run, made)
