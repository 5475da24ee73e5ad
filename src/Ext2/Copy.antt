-- ===== src/Ext2/Copy.antt =====
-- A4/ext2_cp.c
pub mod Stored
pub mod Rounds
pub mod Contents
mod Tests
use csc369_assignments.Prelude.{
  ℕ, zero, suc, ◌+◌, ◌*◌, ◌-◌, ◌/◌, ◌%◌, ◌^◌, Option, none, some, Bool, true, false, not, ◌&&◌,
  List, [], ◌∷◌, length, ltb, leb, ◌==◌, if◌then◌else◌, update,
}
use csc369_assignments.Prelude.State.{Cmd, pure, deref, ◌>>=◌, ◌>>◌}
use csc369_assignments.Ext2.Disk.{Disk, read32, write32}
use csc369_assignments.Ext2.Names.{calc_rec_len_div4}
use csc369_assignments.Ext2.Inodes.{Inode, init_inode, init_dir_entry}
use csc369_assignments.Ext2.Bitmaps.{next_available_inode, next_available_block}
use csc369_assignments.Ext2.Entries.{minus_one, table_at}
use csc369_assignments.Ext2.Image.{Image, of_inode, set_inode, take_bits, count_inode, mark_inode}
use csc369_assignments.Ext2.Writable.{get_writable_block}
use csc369_assignments.Ext2.Walk.{
  Heap, look, modify, open_path, path_names, verify_path, walk, find_in_inode,
}
use csc369_assignments.Ext2.Remove.{enoent, without_mark}
use csc369_assignments.Ext2.Create.{enomem, eexist, is_none, set_disk, write_after}

-- A file outside the image: its size in bytes, and the byte at each position.
pub record Source : Type 0 where
  pub byte_length : ℕ
  pub content : ℕ → ℕ

-- `fread` of `n` bytes at a position of the file, and `memcpy` of them to the disk.
unfoldable pub copy_bytes : (ℕ → ℕ) → ℕ → ℕ → ℕ → Disk → Disk
copy_bytes content position n a disk x =
    if leb a x && ltb x (a + n) then content (position + (x - a)) else disk x

-- `write_file_to_blocks`, with the position of the file. Each round but that for the indirect table
-- writes 1024 bytes.
unfoldable pub write_file : ℕ → (ℕ → ℕ) → ℕ → ℕ → ℕ → (ℕ → ℕ) → ℕ → ℕ → Disk → Option Disk
write_file zero content position file_size blocks_needed blocks ind limit disk = none
write_file (suc fuel) content position file_size blocks_needed blocks ind limit disk =
    elim (file_size == 0) [
      | true ↦ some disk
      | false ↦ elim (ltb ind limit) [
        | true ↦ elim (leb 1024 file_size) [
          | true ↦
              write_file fuel content (position + 1024) (file_size - 1024) blocks_needed blocks
                (ind + 1) limit (copy_bytes content position 1024 (1024 * blocks ind) disk)
          | false ↦ some (copy_bytes content position file_size (1024 * blocks ind) disk)
        ]
        | false ↦ elim ((ind == 12) && (limit == 12)) [
          | true ↦
              write_file fuel content position file_size blocks_needed (table_at disk (blocks 12)) 0
                (blocks_needed - 12) disk
          | false ↦ some disk
        ]
      ]
    ]

unfoldable pub write_file_to_blocks : (ℕ → ℕ) → ℕ → ℕ → (ℕ → ℕ) → Disk → Option Disk
write_file_to_blocks content file_size blocks_needed blocks disk =
    write_file (file_size / 1024 + 3) content 0 file_size blocks_needed blocks 0 12 disk

-- The blocks for a file, with one for the indirect table.
unfoldable pub blocks_for : ℕ → ℕ
blocks_for byte_length =
    let whole = byte_length / 1024 in
    let blocks_needed = if byte_length % 1024 == 0 then whole else whole + 1 in
    if ltb 12 blocks_needed then blocks_needed + 1 else blocks_needed

-- A block of the new file, whose table is still a variable of `main`: place `k` of it, or a place
-- of the indirect table in the block of place 12.
unfoldable pub place_block : ℕ → (ℕ → ℕ) × Image → Option ((ℕ → ℕ) × Image)
place_block k (i_block, m) = elim (take_bits m) [
  | none ↦ none
  | some (n, m1) ↦
      let m2 = record m1 { block_bitmap = update m1.block_bitmap n 1 } in
      if ltb 12 k
      then some (i_block, set_disk (write32 m2.disk (1024 * i_block 12 + 4 * (k - 13)) (n + 1)) m2)
      else some (update i_block k (n + 1), m2)
]

unfoldable pub place_blocks : ℕ → ℕ → (ℕ → ℕ) × Image → Option ((ℕ → ℕ) × Image)
place_blocks zero k s = some s
place_blocks (suc rounds) k s = elim (place_block k s) [
  | none ↦ none
  | some s1 ↦ place_blocks rounds (k + 1) s1
]

abbrev pub minus : ℕ → ℕ → ℕ → ℕ
minus w counter n = (counter + 2 ^ w - n) % 2 ^ w

unfoldable pub reserve : ℕ → Image → Image
reserve blocks_needed m = record m {
  s_free_blocks_count = minus 32 m.s_free_blocks_count blocks_needed;
  bg_free_blocks_count = minus 16 m.bg_free_blocks_count blocks_needed;
}

-- The inode, its blocks and their contents.
unfoldable pub fill_file : Inode → ℕ → Source → ℕ → Cmd Image ℕ
fill_file fresh new_inode_num source blocks_needed m =
    let m1 = count_inode (mark_inode new_inode_num m) in
    let inode = record (init_inode fresh 0x8000) {
      i_size = 1024 * blocks_needed;
      i_blocks = blocks_needed * 2;
    } in
    elim (place_blocks blocks_needed 0 (inode.i_block, m1)) [
      | none ↦ none
      | some (i_block, m2) ↦
          let m3 = set_inode new_inode_num (record inode { i_block = i_block }) m2 in
          elim (write_file_to_blocks source.content source.byte_length blocks_needed i_block
            m3.disk) [ none ↦ none | some disk ↦ some (0, set_disk disk m3) ]
    ]

-- What `main` does once it knows the directory and the name of the copy.
unfoldable pub copy_to : Inode → ℕ → Source → ℕ → List ℕ → Cmd Image ℕ
copy_to fresh new_inode_num source dir copy_name = do
  free ← look (λ m. some m.bg_free_blocks_count)
  let blocks_needed = blocks_for source.byte_length
  if ltb free blocks_needed then pure enomem else do
    modify (reserve blocks_needed)
    let new_entry = init_dir_entry new_inode_num (length copy_name) 1
    size ← deref (calc_rec_len_div4 new_entry.name_len)
    writable_block ← get_writable_block (of_inode dir) size 0 12
    write_after writable_block (new_inode_num + 1) 1 copy_name
    fill_file fresh new_inode_num source blocks_needed

-- `main` of `ext2_cp`, with the exit code; `none` is a source file that cannot be opened.
unfoldable pub ext2_cp : Heap → Heap → Inode → Option Source → List ℕ → List ℕ → Cmd Image ℕ
ext2_cp heap dst_heap fresh none src_path dst_path m = some (enoent, m)
ext2_cp heap dst_heap fresh (some source) src_path dst_path m =
    elim (next_available_inode m.inode_bitmap) [
      | none ↦ some (enomem, m)
      | some new_inode_num ↦
          (if is_none (next_available_block m.block_bitmap) then pure enomem else do
            (before, last) ← look (λ m. open_path heap src_path)
            dst ← look (λ m. path_names dst_heap dst_path)
            let copy_name = without_mark last
            invalid ← look (verify_path dst)
            if not (invalid == 0) then pure enoent else do
              dir ← look (walk 12 dst 1)
              there ← look (find_in_inode dir 12 copy_name b'f')
              if not (there == minus_one)
                  then pure eexist
                  else copy_to fresh new_inode_num source dir copy_name)
            m
    ]
