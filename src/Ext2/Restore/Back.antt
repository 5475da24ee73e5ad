-- ===== src/Ext2/Restore/Back.antt =====
-- A4/ext2_rm.c, A4/ext2_restore.c: the image after a removal and a restoration.
use csc369_assignments.Prelude.{
  ℕ, ◌+◌, ◌*◌, ◌-◌, ◌^◌, ◌≤◌, ◌<◌, ◌≡◌, refl, ◌∙◌, some, true, false, ◌||◌, List, [], ◌∷◌, ◌++◌,
  length, ◌==◌, if◌then◌else◌, arith,
}
use csc369_assignments.Ext2.Disk.{Disk, IsBytes, write16}
use csc369_assignments.Ext2.Names.{dir_type}
use csc369_assignments.Ext2.Bitmaps.{deall_bitmap, bit_at}
use csc369_assignments.Ext2.Marks.{bit_at-update_bitmap, bit_at-deall_bitmap}
use csc369_assignments.Ext2.Entries.{entry_inode, entry_rec_len, entry_file_type}
use csc369_assignments.Ext2.Entries.Layout.{Entry, Layout, need, ends}
use csc369_assignments.Ext2.Entries.Search.{clash}
use csc369_assignments.Ext2.Image.{Image, down, up, set_inode, mark_inode, count_inode}
use csc369_assignments.Ext2.Remove.{free_inode, drop_link}
use csc369_assignments.Ext2.Remove.Unlink.{AllClash}
use csc369_assignments.Ext2.Restore.{check_availability, reallocate_blocks, bring_back, take_gap}
use csc369_assignments.Ext2.Restore.Gap.{NoGap}
use csc369_assignments.Ext2.Restore.Retake.{
  HasBlocks, IsMarked, freed, retaken, free_blocks-run, check_availability-run,
  reallocate_blocks-run, set_all-back, mark_bits-back, downs-ups,
}

-- No entry is longer than it needs, so that there is no gap between them.
abbrev pub AllTight : List Entry → Type 0
AllTight [] = Unit {0}
AllTight (e ∷ es) = (e.rec_len ≡ need (length e.name)) × AllTight es

pub AllTight-NoGap :
    (block_num n : ℕ) (file : List ℕ) (m : Image) (off : ℕ) (es : List Entry)
    → 0 < n
    → AllTight es
    → NoGap block_num n file m off es
AllTight-NoGap block_num n file m off [] positive tight = tt
AllTight-NoGap block_num n file m off (e ∷ es) positive (t, tight) =
    (ground arith, AllTight-NoGap block_num n file m (off + e.rec_len) es positive tight)

-- The inode of a file that has one link, `n` direct blocks and no others, all marked.
pub record IsFile (node n : ℕ) (m : Image) : Type 0 where
  pub one_link : (m.inodes node).i_links_count ≡ 1
  pub direct : n ≤ 12
  pub has_blocks : HasBlocks (m.inodes node).i_block 0 n
  pub no_indirect : (m.inodes node).i_block 12 ≡ 0
  pub marked : IsMarked (m.inodes node).i_block n m
  pub inode_in_array : m.inode_bitmap node ≡ 1
  pub inode_on_disk : bit_at m.inode_bits node ≡ true
  pub s_free_blocks_fits : m.s_free_blocks_count < 2 ^ 32
  pub s_free_inodes_fits : m.s_free_inodes_count < 2 ^ 32
  pub bg_free_blocks_fits : m.bg_free_blocks_count < 2 ^ 16
  pub bg_free_inodes_fits : m.bg_free_inodes_count < 2 ^ 16

-- The entry of the file in the first block of its directory: it is not the first of the block, and
-- the entries before it leave no gap.
pub record IsEntryOf (block_num node : ℕ) (file : List ℕ) (es : List Entry) (before cur : Entry)
    (after : List Entry) (m : Image) : Type 0 where
  pub layout : Layout m.disk block_num 0 (es ++ before ∷ cur ∷ after)
  pub bytes : IsBytes m.disk
  pub others : AllClash file es
  pub other : clash before.name file ≡ true
  pub others_after : AllClash file after
  pub own_name : cur.name ≡ file
  pub own_inode : cur.inode ≡ node + 1
  pub own_type : (dir_type cur.file_type == b'f') || (dir_type cur.file_type == b'l') ≡ true
  pub name_ends : m.disk (1024 * block_num + (ends 0 es + before.rec_len) + 8 + length file) ≡ 0
  pub tight : AllTight es
  pub tight_before : before.rec_len ≡ need (length before.name)

-- The image is as before, but for the deletion time of the inode.
pub record IsRestored (node time : ℕ) (m m' : Image) : Type 0 where
  pub same_disk : m'.disk ≡ m.disk
  pub same_inodes :
      (k : ℕ)
      → m'.inodes k ≡ (if node == k then record (m.inodes k) { i_dtime = time } else m.inodes k)
  pub same_block_bitmap : (k : ℕ) → m'.block_bitmap k ≡ m.block_bitmap k
  pub same_inode_bitmap : (k : ℕ) → m'.inode_bitmap k ≡ m.inode_bitmap k
  pub same_block_bits : (k : ℕ) → bit_at m'.block_bits k ≡ bit_at m.block_bits k
  pub same_inode_bits : (k : ℕ) → bit_at m'.inode_bits k ≡ bit_at m.inode_bits k
  pub same_counts :
      (m'.s_free_blocks_count ≡ m.s_free_blocks_count)
      × (m'.s_free_inodes_count ≡ m.s_free_inodes_count)
      × (m'.bg_free_blocks_count ≡ m.bg_free_blocks_count)
      × (m'.bg_free_inodes_count ≡ m.bg_free_inodes_count)

-- The steps before the blocks are checked.
abbrev pub noted : ℕ → Image → Image
noted node m =
    let m1 = mark_inode node m in
    let inode = m1.inodes node in
    count_inode (set_inode node (record inode { i_links_count = up 16 inode.i_links_count }) m1)

-- A restoration, where the blocks are free.
bring_back-run :
    (node current temp len : ℕ) (blocks : ℕ → ℕ) (m m4 : Image)
    → entry_inode m.disk temp ≡ node + 1
    → (m.inodes node).i_block ≡ blocks
    → check_availability (noted node m).disk blocks (noted node m).block_bitmap ≡ false
    → reallocate_blocks blocks (noted node m) ≡ m4
    → bring_back current temp len m ≡ (
      0,
      record m4 {
        disk =
            write16
              (write16 m4.disk (current + 4) len)
              (temp + 4)
              (entry_rec_len m4.disk current - len);
      },
    )
unfolding bring_back
bring_back-run node current temp len blocks m m4 number table free again =
    let e : node + 1 - 1 ≡ node = omega arith in rw (number, e, table, free, again) refl

pub take_gap-run :
    (node current temp len : ℕ) (m : Image)
    → entry_inode m.disk temp ≡ node + 1
    → (dir_type (entry_file_type m.disk temp) == b'f')
        || (dir_type (entry_file_type m.disk temp) == b'l')
      ≡ true
    → m.inode_bitmap node ≡ 0
    → take_gap current temp len m ≡ some (some (bring_back current temp len m))
unfolding take_gap
take_gap-run node current temp len m number type free =
    let t = dir_type (entry_file_type m.disk temp) in
    let plain : (t == b'd') ≡ false = ground arith in
    let e : node + 1 - 1 ≡ node = omega arith in
    let positive : (node + 1 == 0) ≡ false = ground arith in
    rw (plain, type, number, positive, e, free) refl

module _ (node time n : ℕ) (m : Image) (file : IsFile node n m) (disk1 : Disk) where
  abbrev pub table : ℕ → ℕ
  table = (m.inodes node).i_block

  abbrev pub links : ℕ
  links = (m.inodes node).i_links_count

  -- After the removal.
  abbrev pub unlinked : Image
  unlinked =
      set_inode node (record (m.inodes node) { i_links_count = down 16 links })
        (record m { disk = disk1 })

  abbrev pub removed : Image
  removed = freed n table 0 (free_inode node time unlinked)

  pub drop_link-run : drop_link node time (record m { disk = disk1 }) ≡ some removed
  unfolding drop_link
  drop_link-run =
      let last : (down 16 links == 0) ≡ true = rw file.one_link refl in
      rw (last, drop_link)
        (free_blocks-run n table (free_inode node time unlinked) file.direct file.has_blocks
          file.no_indirect)

  table_kept : (removed.inodes node).i_block ≡ table
  unfolding free_inode
  table_kept = ground arith

  abbrev pub restored : ℕ → ℕ → ℕ → Image
  restored current temp len = record (retaken n table 0 (noted node removed)) {
    disk = write16 (write16 disk1 (current + 4) len) (temp + 4) (entry_rec_len disk1 current - len);
  }

  pub bring_back-removed :
      (current temp len : ℕ)
      → entry_inode disk1 temp ≡ node + 1
      → bring_back current temp len removed ≡ (0, restored current temp len)
  unfolding free_inode mark_inode count_inode
  bring_back-removed current temp len number =
      bring_back-run node current temp len table removed (retaken n table 0 (noted node removed))
        number table_kept
        (check_availability-run n table m.block_bitmap disk1 file.direct file.has_blocks)
        (reallocate_blocks-run n table (noted node removed) file.direct file.has_blocks)

  pub restored-IsRestored :
      (current temp len : ℕ)
      → (restored current temp len).disk ≡ m.disk
      → IsRestored node time m (restored current temp len)
  unfolding free_inode mark_inode count_inode
  restored-IsRestored current temp len same = record {
    same_disk = same;
    same_inodes = λ k. ground (arith, file.one_link);
    same_block_bitmap = set_all-back n table m file.marked;
    same_inode_bitmap = λ k. ground (arith, file.inode_in_array);
    same_block_bits = mark_bits-back n table m file.marked;
    same_inode_bits = λ k.
        bit_at-update_bitmap (deall_bitmap m.inode_bits node) node k
        ∙ ground (arith, bit_at-deall_bitmap m.inode_bits node k, file.inode_on_disk);
    same_counts = (
      downs-ups (2 ^ 32) n m.s_free_blocks_count file.s_free_blocks_fits,
      omega (arith, file.s_free_inodes_fits),
      downs-ups (2 ^ 16) n m.bg_free_blocks_count file.bg_free_blocks_fits,
      omega (arith, file.bg_free_inodes_fits),
    );
  }
