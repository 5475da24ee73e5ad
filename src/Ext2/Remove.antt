-- ===== src/Ext2/Remove.antt =====
-- A4/ext2_rm.c
pub mod Unlink
use csc369_assignments.Prelude.{
  ℕ, zero, suc, ◌+◌, ◌*◌, ◌-◌, ◌%◌, ◌^◌, Option, none, some, Bool, true, false, not, List, [], ◌∷◌,
  ◌==◌, if◌then◌else◌, update,
}
use csc369_assignments.Prelude.State.{Cmd, pure, ◌>>=◌, ◌>>◌}
use csc369_assignments.Ext2.Disk.{Disk, write16, write32}
use csc369_assignments.Ext2.Inodes.{Inode}
use csc369_assignments.Ext2.Bitmaps.{deall_bitmap}
use csc369_assignments.Ext2.Entries.{entry_rec_len, is_string, table_at, minus_one}
use csc369_assignments.Ext2.Image.{Image, down, up, set_inode}
use csc369_assignments.Ext2.Walk.{Heap, look, open_path, verify_path, walk, find_in_inode, inode_at}

abbrev pub enoent : ℕ
enoent = 2

abbrev pub eisdir : ℕ
eisdir = 21

-- The entry at `a` is taken out: the one before it, where there is one, stretches over it.
unfoldable pub unlink_entry : ℕ → Option ℕ → Disk → Disk
unlink_entry a none disk = write32 disk a 0
unlink_entry a (some prev) disk =
    write16 disk (prev + 4) (entry_rec_len disk prev + entry_rec_len disk a)

-- The entries of one block, with the address of the one before.
unfoldable pub unlink_loop : ℕ → ℕ → ℕ → Option ℕ → List ℕ → Disk → Option Disk
unlink_loop zero block_num rec_len_total prev file disk = none
unlink_loop (suc fuel) block_num rec_len_total prev file disk =
    let a = 1024 * block_num + rec_len_total in
    let disk1 = if is_string disk (a + 8) file then unlink_entry a prev disk else disk in
    let rest =
      unlink_loop fuel block_num (rec_len_total + entry_rec_len disk1 a) (some a) file disk1 in
    if rec_len_total == 1024 then some disk else rest

-- The blocks `ind` to 11 of a directory. The offset is not set back between two blocks: after the
-- first block in use it is 1024, and the loop over the entries of the others ends at once.
unfoldable pub unlink_blocks : ℕ → (ℕ → ℕ) → ℕ → ℕ → List ℕ → Disk → Option Disk
unlink_blocks zero i_block ind rec_len_total file disk = some disk
unlink_blocks (suc rounds) i_block ind rec_len_total file disk = elim (i_block ind == 0) [
  | true ↦ unlink_blocks rounds i_block (ind + 1) rec_len_total file disk
  | false ↦ elim (unlink_loop 1025 (i_block ind) rec_len_total none file disk) [
    | none ↦ none
    | some disk1 ↦ unlink_blocks rounds i_block (ind + 1) 1024 file disk1
  ]
]

-- The block `b` is free again. There is no bit for the block 0.
unfoldable pub free_block : ℕ → Image → Option Image
free_block zero m = none
free_block (suc n) m = some (record m {
  block_bits = deall_bitmap m.block_bits n;
  s_free_blocks_count = up 32 m.s_free_blocks_count;
  bg_free_blocks_count = up 16 m.bg_free_blocks_count;
  block_bitmap = update m.block_bitmap n 0;
})

-- The blocks of a table from `ind` to the first entry that is not in use. The words of a
-- table are 2 ^ 15 at most: there are no more in the image.
unfoldable pub free_until_zero : ℕ → (ℕ → ℕ) → ℕ → Image → Option Image
free_until_zero zero table ind m = none
free_until_zero (suc fuel) table ind m = elim (table ind == 0) [
  | true ↦ some m
  | false ↦ elim (free_block (table ind) m) [
    | none ↦ none
    | some m1 ↦ free_until_zero fuel table (ind + 1) m1
  ]
]

-- The entries `ind` and on of a table, for as many places as there are.
unfoldable pub free_direct : ℕ → (ℕ → ℕ) → ℕ → Image → Option Image
free_direct zero table ind m = some m
free_direct (suc rounds) table ind m = elim (free_block (table ind) m) [
  | none ↦ none
  | some m1 ↦ free_direct rounds table (ind + 1) m1
]

-- All blocks of a file.
unfoldable pub free_blocks : (ℕ → ℕ) → Image → Option Image
free_blocks i_block m = elim (i_block 12 == 0) [
  | true ↦ free_until_zero 16 i_block 0 m
  | false ↦ elim (free_direct 12 i_block 0 m) [
    | none ↦ none
    | some m1 ↦ elim (free_until_zero (2 ^ 15) (table_at m1.disk (i_block 12)) 0 m1) [
      | none ↦ none
      | some m2 ↦ free_block (i_block 12) m2
    ]
  ]
]

-- The inode has lost its last link: it is free from now on.
unfoldable pub free_inode : ℕ → ℕ → Image → Image
free_inode file_node time m =
    let m1 = set_inode file_node (record (m.inodes file_node) { i_dtime = time }) m in
    record m1 {
      inode_bits = deall_bitmap m1.inode_bits file_node;
      inode_bitmap = update m1.inode_bitmap file_node 0;
      s_free_inodes_count = up 32 m1.s_free_inodes_count;
      bg_free_inodes_count = up 16 m1.bg_free_inodes_count;
    }

-- `i_links_count--`, and the inode and its blocks are freed if that was the last link.
unfoldable pub drop_link : ℕ → ℕ → Image → Option Image
drop_link file_node time m =
    let inode = m.inodes file_node in
    let m1 = set_inode file_node (record inode { i_links_count = down 16 inode.i_links_count }) m in
    elim (down 16 inode.i_links_count == 0) [
      | true ↦ free_blocks inode.i_block (free_inode file_node time m1)
      | false ↦ some m1
    ]

-- What `main` does to the image once its checks are passed.
unfoldable pub remove : ℕ → ℕ → List ℕ → ℕ → Image → Option Image
remove dir file_node file time m = elim (unlink_blocks 12 (m.inodes dir).i_block 0 0 file m.disk) [
  | none ↦ none
  | some disk ↦ drop_link file_node time (record m { disk = disk })
]

-- A name that ends in '!' loses it. The string that is made of the other characters has no end of
-- its own, and is taken to end there.
unfoldable pub without_mark : List ℕ → List ℕ
without_mark [] = []
without_mark (c ∷ []) = if c == b'!' then [] else c ∷ []
without_mark (c ∷ d ∷ name) = c ∷ without_mark (d ∷ name)

-- The inode of the file or link with a name, or -1.
unfoldable pub find_file : ℕ → List ℕ → Cmd Image ℕ
find_file dir file = do
  node ← look (find_in_inode dir 11 file b'f')
  if node == minus_one then look (find_in_inode dir 11 file b'l') else pure node

unfoldable pub remove_found : ℕ → List ℕ → ℕ → Cmd Image ℕ
remove_found dir file time = do
  directory ← look (find_in_inode dir 11 file b'd')
  if not (directory == minus_one) then pure eisdir else do
    file_node ← find_file dir file
    if file_node == minus_one
        then pure enoent
        else look (inode_at file_node)
          >> (λ m. elim (remove dir file_node file time m) [ none ↦ none | some m' ↦ some (0, m') ])

-- `main` of `ext2_rm`, with the exit code.
unfoldable pub ext2_rm : Heap → List ℕ → ℕ → Cmd Image ℕ
ext2_rm heap file_path time = do
  (names, last) ← look (λ m. open_path heap file_path)
  let file = without_mark last
  invalid ← look (verify_path names)
  if not (invalid == 0)
      then pure enoent
      else do dir ← look (walk 11 names 1); remove_found dir file time
