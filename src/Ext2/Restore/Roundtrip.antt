-- ===== src/Ext2/Restore/Roundtrip.antt =====
-- A4/ext2_rm.c, A4/ext2_restore.c: a file that is removed and restored.
use csc369_assignments.Prelude.{
  ℕ, ◌+◌, ◌*◌, ◌-◌, ◌≤◌, ◌<◌, ◌≡◌, ◌≢◌, refl, ap, ◌∙◌, inr, some, true, false, List, ◌∷◌, ◌++◌,
  length, length-append, ◌==◌, update_self, arith,
}
use csc369_assignments.Ext2.Disk.{
  Disk, read16, write16, write16_ne, write16_back, write16_same, read16-write16,
}
use csc369_assignments.Ext2.Entries.{entry_rec_len}
use csc369_assignments.Ext2.Entries.Layout.{
  Entry, Holds, need, ends, Holds-keep, calc_rec_len_div4-need_name, Layout-length, Layout-split,
}
use csc369_assignments.Ext2.Entries.Search.{begins, starts_with-begins, begins_self}
use csc369_assignments.Ext2.Image.{Image}
use csc369_assignments.Ext2.Remove.{free_inode, drop_link, remove, unlink_blocks}
use csc369_assignments.Ext2.Remove.Unlink.{unlink_blocks_lem}
use csc369_assignments.Ext2.Restore.{gap_loop, gap_blocks, restore_file}
use csc369_assignments.Ext2.Restore.Gap.{gap_loop_run}
use csc369_assignments.Ext2.Restore.Back.{
  AllTight-NoGap, IsFile, IsEntryOf, IsRestored, take_gap-run, removed, restored, drop_link-run,
  bring_back-removed, restored-IsRestored,
}

remove-run :
    (dir node : ℕ) (file : List ℕ) (time : ℕ) (m m1 : Image) (disk1 : Disk)
    → unlink_blocks 12 (m.inodes dir).i_block 0 0 file m.disk ≡ some disk1
    → drop_link node time (record m { disk = disk1 }) ≡ some m1
    → remove dir node file time m ≡ some m1
unfolding remove
remove-run dir node file time m m1 disk1 taken dropped = rw (taken, remove) dropped

restore_file-run :
    (i_block : ℕ → ℕ) (file : List ℕ) (m : Image) (r : ℕ × Image)
    → gap_loop 1025 (i_block 0) 0 (need (length file)) file m ≡ some (some r)
    → restore_file i_block file m ≡ some r
unfolding restore_file gap_blocks
restore_file-run i_block file m r found =
    rw (calc_rec_len_div4-need_name (length file), restore_file, found, gap_blocks) refl

-- The directory after a removal: what is found behind the entry before, and how the lengths come
-- back.
module _ (b node : ℕ) (file : List ℕ) (es : List Entry) (before cur : Entry) (after : List Entry)
    (m : Image) (entry : IsEntryOf b node file es before cur after m) where
  abbrev place : ℕ
  place = 1024 * b + ends 0 es

  abbrev len : ℕ
  len = need (length before.name)

  abbrev gone : Disk
  gone = write16 m.disk (place + 4) (before.rec_len + cur.rec_len)

  before-Holds : Holds m.disk place before
  before-Holds = (Layout-split m.disk b 0 es (before ∷ cur ∷ after) entry.layout).0

  cur-Holds : Holds m.disk (place + len) cur
  cur-Holds =
      let (h, fit, below, (h', fit', below', rest)) =
        Layout-split m.disk b 0 es (before ∷ cur ∷ after) entry.layout in
      let e : 1024 * b + (ends 0 es + before.rec_len) ≡ place + len =
        omega (arith, entry.tight_before) in
      rw (← e) h'

  cur-stays : Holds gone (place + len) cur
  cur-stays =
      Holds-keep m.disk gone (place + len) cur
        (λ x lo hi.
          write16_ne m.disk (place + 4) (before.rec_len + cur.rec_len) x (inr (omega arith)))
        cur-Holds

  sum_small : before.rec_len + cur.rec_len < 65536
  sum_small =
      let (h, fit, below, (h', fit', below', rest)) =
        Layout-split m.disk b 0 es (before ∷ cur ∷ after) entry.layout in
      omega arith

  lengths_back :
      write16 (write16 gone (place + 4) len) (place + len + 4) (entry_rec_len gone place - len)
      ≡ m.disk
  lengths_back =
      let sum : entry_rec_len gone place ≡ before.rec_len + cur.rec_len =
        read16-write16 m.disk (place + 4) (before.rec_len + cur.rec_len) sum_small in
      let left : entry_rec_len gone place - len ≡ read16 m.disk (place + len + 4) =
        omega (arith, sum, entry.tight_before, cur-Holds.rec_len_at) in
      let own : len ≡ read16 m.disk (place + 4) =
        omega (arith, entry.tight_before, before-Holds.rec_len_at) in
      let first : write16 gone (place + 4) len ≡ m.disk =
        ap (write16 gone (place + 4)) own
        ∙ write16_back m.disk entry.bytes (place + 4) (before.rec_len + cur.rec_len) in
      ap (λ d. write16 d (place + len + 4) (entry_rec_len gone place - len)) first
      ∙ ap (write16 m.disk (place + len + 4)) left
      ∙ write16_same m.disk entry.bytes (place + len + 4)

  short : length es < 1025
  short = omega (
    arith,
    Layout-length m.disk b 0 (es ++ before ∷ cur ∷ after) entry.layout,
    length-append es (before ∷ cur ∷ after),
  )

  room : need (length file) + need (length before.name) ≤ before.rec_len + cur.rec_len
  room =
      let (h, fit, below, (h', fit', below', rest)) =
        Layout-split m.disk b 0 es (before ∷ cur ∷ after) entry.layout in
      omega (arith, ap length entry.own_name)

-- A file that `ext2_rm` removes and `ext2_restore` restores under its name. The file has one link
-- and at most 12 blocks, all marked, its entry stands in the first block of its directory behind
-- another one, no entry before leaves a gap, and the other names differ from its own in a
-- character. Then both succeed, and the image is again what it was, every byte of the directories,
-- every bit of both bitmaps and every counter, but for the deletion time of the inode, which stays
-- set.
pub restore_file-remove :
    (dir node n time : ℕ) (file : List ℕ) (es : List Entry) (before cur : Entry)
    (after : List Entry) (m : Image)
    → dir ≢ node
    → ((m.inodes dir).i_block 0 == 0) ≡ false
    → IsFile node n m
    → IsEntryOf ((m.inodes dir).i_block 0) node file es before cur after m
    → (m1 m2 : Image) × (remove dir node file time m ≡ some m1)
      × (restore_file (m1.inodes dir).i_block file m1 ≡ some (0, m2))
      × IsRestored node time m m2
unfolding free_inode
restore_file-remove dir node n time file es before cur after m apart used is_file entry =
    let i_block = (m.inodes dir).i_block in
    let b = i_block 0 in
    let disk1 = gone b node file es before cur after m entry in
    let (disk', taken, same, layout') =
      unlink_blocks_lem i_block file es before cur after m.disk used entry.layout entry.others
        entry.other entry.own_name entry.name_ends entry.others_after in
    let taken' : unlink_blocks 12 i_block 0 0 file m.disk ≡ some disk1 = taken ∙ ap some same in
    let m1 = removed node time n m is_file disk1 in
    let p = place b node file es before cur after m entry in
    let l = len b node file es before cur after m entry in
    let held = cur-stays b node file es before cur after m entry in
    let m2 = restored node time n m is_file disk1 p (p + l) l in
    let table : (m1.inodes dir).i_block ≡ i_block = ground arith in
    let own = entry.own_name in
    let begun : begins cur.name file ≡ true = rw own (begins_self file) in
    let taken'' =
      take_gap-run node p (p + l) l m1 (held.inode_at ∙ entry.own_inode)
        (rw held.file_type_at entry.own_type) (update_self m.inode_bitmap node 0)
      ∙ ap (λ (r : ℕ × Image). some (some r))
          (bring_back-removed node time n m is_file disk1 p (p + l) l
            (held.inode_at ∙ entry.own_inode)) in
    let found =
      gap_loop_run b (need (length file)) file m1 es 1025 0
        (record before { rec_len = before.rec_len + cur.rec_len }) after (0, m2)
        (short b node file es before cur after m entry) (rw same at layout')
        (AllTight-NoGap b (need (length file)) file m1 0 es (omega arith) entry.tight)
        (room b node file es before cur after m entry)
        (starts_with-begins disk1 cur.name file (p + l + 8) held.name_at begun) taken'' in
    (
      m1,
      m2,
      remove-run dir node file time m m1 disk1 taken' (drop_link-run node time n m is_file disk1),
      ap (λ t. restore_file t file m1) table ∙ restore_file-run i_block file m1 (0, m2) found,
      restored-IsRestored node time n m is_file disk1 p (p + l) l
          (lengths_back b node file es before cur after m entry),
    )
