-- ===== src/Ext2/Restore.antt =====
-- A4/ext2_restore.c
pub mod Gap
pub mod Retake
pub mod Back
pub mod Roundtrip
mod Tests
use csc369_assignments.Prelude.{
  ℕ, zero, suc, ◌+◌, ◌*◌, ◌-◌, ◌%◌, ◌^◌, Option, none, some, Bool, true, false, not, ◌&&◌, ◌||◌,
  List, [], ◌∷◌, length, leb, ltb, ◌==◌, if◌then◌else◌, update,
}
use csc369_assignments.Prelude.State.{Cmd, pure, ◌>>=◌, ◌>>◌}
use csc369_assignments.Ext2.Disk.{Disk, write16}
use csc369_assignments.Ext2.Inodes.{Inode}
use csc369_assignments.Ext2.Names.{dir_type, calc_rec_len_div4, calc_rec_len_div4_name}
use csc369_assignments.Ext2.Bitmaps.{update_bitmap}
use csc369_assignments.Ext2.Entries.{
  entry_inode, entry_rec_len, entry_name_len, entry_file_type, starts_with, table_at,
}
use csc369_assignments.Ext2.Image.{Image, down, up, set_inode, mark_inode, count_inode, count_block}
use csc369_assignments.Ext2.Walk.{Heap, look, open_path, verify_path, walk, inode_at}
use csc369_assignments.Ext2.Remove.{enoent, eisdir}

-- How a sweep over a table of blocks ends: at a block that is in use already, at an entry that is
-- not in use, or at the limit of the table.
pub data Sweep : Type 0 where
  taken : Sweep
  ended : Sweep
  full : Sweep

-- `check_availability` from an entry to the limit of a table, `rounds` further on.
unfoldable pub check_table : ℕ → (ℕ → ℕ) → ℕ → (ℕ → ℕ) → Sweep
check_table zero i_block search_ind block_bitmap = if i_block search_ind == 0 then ended else full
check_table (suc rounds) i_block search_ind block_bitmap = elim (i_block search_ind == 0) [
  | true ↦ ended
  | false ↦ elim (block_bitmap (i_block search_ind - 1) == 0) [
    | false ↦ taken
    | true ↦ check_table rounds i_block (search_ind + 1) block_bitmap
  ]
]

-- `check_availability`: whether a block is in use.
unfoldable pub check_availability : Disk → (ℕ → ℕ) → (ℕ → ℕ) → Bool
check_availability disk i_block block_bitmap = elim (check_table 12 i_block 0 block_bitmap) [
  | taken ↦ true
  | ended ↦ false
  | full ↦ elim (block_bitmap (i_block 12 - 1) == 0) [
    | false ↦ true
    | true ↦ elim (check_table 200 (table_at disk (i_block 12)) 0 block_bitmap) [
      | taken ↦ true
      | _ ↦ false
    ]
  ]
]

-- The block `b` is in use again.
unfoldable pub retake_block : ℕ → Image → Image
retake_block b m =
    count_block (b - 1) (record m { block_bits = update_bitmap m.block_bits (b - 1) })

-- `reallocate_blocks` from an entry to the limit of a table; whether the limit was reached.
unfoldable pub retake_table : ℕ → (ℕ → ℕ) → ℕ → Image → Bool × Image
retake_table zero i_block search_ind m = (not (i_block search_ind == 0), m)
retake_table (suc rounds) i_block search_ind m = elim (i_block search_ind == 0) [
  | true ↦ (false, m)
  | false ↦ retake_table rounds i_block (search_ind + 1) (retake_block (i_block search_ind) m)
]

-- `reallocate_blocks`
unfoldable pub reallocate_blocks : (ℕ → ℕ) → Image → Image
reallocate_blocks i_block m =
    let r = retake_table 12 i_block 0 m in
    elim r.0 [
      | false ↦ r.1
      | true ↦
          let m1 = retake_block (i_block 12) r.1 in
          (retake_table 200 (table_at m1.disk (i_block 12)) 0 m1).1
    ]

-- The removed entry at `temp` comes back: its inode and its blocks are marked again, and the entry
-- at `current` ends before it.
unfoldable pub bring_back : ℕ → ℕ → ℕ → Image → ℕ × Image
bring_back current temp actual_rec_len m =
    let number = entry_inode m.disk temp in
    let node = number - 1 in
    let blocks = (m.inodes node).i_block in
    let m1 = mark_inode node m in
    let inode = m1.inodes node in
    let m2 = set_inode node (record inode { i_links_count = up 16 inode.i_links_count }) m1 in
    let m3 = count_inode m2 in
    if check_availability m3.disk blocks m3.block_bitmap
    then (4, m3)
    else let m4 = reallocate_blocks blocks m3 in
      let new_rec_len = entry_rec_len m4.disk current - actual_rec_len in
      let disk = write16 (write16 m4.disk (current + 4) actual_rec_len) (temp + 4) new_rec_len in
      (0, record m4 { disk = disk })

-- What the gap after the entry `current` holds under the name: `some none` if it is to be passed over.
-- The bitmap is read at the place of the inode less 1 before the inode 0 is ruled out, which for the
-- inode 0 is far outside of the array.
unfoldable pub take_gap : ℕ → ℕ → ℕ → Image → Option (Option (ℕ × Image))
take_gap current temp actual_rec_len m =
    let type = dir_type (entry_file_type m.disk temp) in
    let number = entry_inode m.disk temp in
    let back = bring_back current temp actual_rec_len m in
    if type == b'd'
    then some (some (2, m))
    else if (type == b'f') || (type == b'l')
    then if number == 0
      then none
      else if m.inode_bitmap (number - 1) == 1
      then some (some (3, m))
      else some (some back)
    else some none

-- The search for a gap in the entries of one block.
unfoldable pub gap_loop : ℕ → ℕ → ℕ → ℕ → List ℕ → Image → Option (Option (ℕ × Image))
gap_loop zero block_num rec_len_total restore_rec_len file_name m = none
gap_loop (suc fuel) block_num rec_len_total restore_rec_len file_name m =
    let current = 1024 * block_num + rec_len_total in
    let rec_len = entry_rec_len m.disk current in
    let rest = gap_loop fuel block_num (rec_len_total + rec_len) restore_rec_len file_name m in
    elim (rec_len_total == 1024) [
      | true ↦ some none
      | false ↦ elim (calc_rec_len_div4 (entry_name_len m.disk current)) [
        | none ↦ none
        | some actual_rec_len ↦
            let temp = current + actual_rec_len in
            if leb (restore_rec_len + actual_rec_len) rec_len
              && starts_with m.disk (temp + 8) file_name
            then elim (take_gap current temp actual_rec_len m) [
              | none ↦ none
              | some none ↦ rest
              | some (some r) ↦ some (some r)
            ]
            else rest
      ]
    ]

-- The blocks `ind` to 11 of the directory, be they in use or not.
unfoldable pub gap_blocks : ℕ → (ℕ → ℕ) → ℕ → ℕ → List ℕ → Image → Option (ℕ × Image)
gap_blocks zero i_block ind restore_rec_len file_name m = some (1, m)
gap_blocks (suc rounds) i_block ind restore_rec_len file_name m =
    elim (gap_loop 1025 (i_block ind) 0 restore_rec_len file_name m) [
      | none ↦ none
      | some (some r) ↦ some r
      | some none ↦ gap_blocks rounds i_block (ind + 1) restore_rec_len file_name m
    ]

-- `restore_file`
unfoldable pub restore_file : (ℕ → ℕ) → List ℕ → Image → Option (ℕ × Image)
restore_file i_block file_name m = elim (calc_rec_len_div4_name (length file_name)) [
  | none ↦ none
  | some restore_rec_len ↦ gap_blocks 12 i_block 0 restore_rec_len file_name m
]

-- The exit code of `main` for a result of `restore_file`.
unfoldable pub restore_code : ℕ → ℕ
restore_code status =
    if (status == 1) || (status == 3) || (status == 4)
    then enoent
    else if status == 2
    then eisdir
    else 0

-- `main` of `ext2_restore`
unfoldable pub ext2_restore : Heap → List ℕ → Cmd Image ℕ
ext2_restore heap file_path = do
  (names, last) ← look (λ m. open_path heap file_path)
  invalid ← look (verify_path names)
  if not (invalid == 0) then pure enoent else do
    dir ← look (walk 11 names 1)
    inode ← look (inode_at dir)
    status ← restore_file inode.i_block last
    pure (restore_code status)
