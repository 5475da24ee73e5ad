-- ===== src/Ext2/Link.antt =====
-- A4/ext2_ln.c
pub mod Hard
mod Tests
use csc369_assignments.Prelude.{
  ℕ, ◌+◌, ◌*◌, none, some, not, ◌||◌, List, [], ◌∷◌, length, ◌==◌, if◌then◌else◌,
}
use csc369_assignments.Prelude.State.{Cmd, pure, ◌>>=◌, ◌>>◌}
use csc369_assignments.Ext2.Disk.{Disk, write8}
use csc369_assignments.Ext2.Inodes.{Inode}
use csc369_assignments.Ext2.Bitmaps.{next_available_inode, next_available_block}
use csc369_assignments.Ext2.Entries.{minus_one}
use csc369_assignments.Ext2.Paths.{get_path_length}
use csc369_assignments.Ext2.Image.{
  Image, of_inode, set_inode, take_bits, count_block, count_inode, mark_inode,
}
use csc369_assignments.Ext2.Writable.{get_writable_block}
use csc369_assignments.Ext2.Walk.{
  Heap, look, modify, open_path, make_path_array, verify_path, walk, find_in_inode,
}
use csc369_assignments.Ext2.Remove.{enoent, eisdir}
use csc369_assignments.Ext2.Create.{
  enomem, eexist, is_none, set_disk, write_after, add_link, new_inode,
}

-- `memcpy` of a string to the disk.
unfoldable pub copy_string : List ℕ → ℕ → Disk → Disk
copy_string [] a disk = disk
copy_string (c ∷ text) a disk = copy_string text (a + 1) (write8 disk a c)

-- The link itself, in the directory `dir`: a symbolic one has an inode and a block of its own.
unfoldable pub make_symlink : Inode → List ℕ → ℕ → List ℕ → Cmd Image ℕ
make_symlink fresh target_path writable_block linkname m =
    elim (next_available_inode m.inode_bitmap) [
      | none ↦ none
      | some new_inode_num ↦
          (do
            modify (mark_inode new_inode_num)
            write_after writable_block (new_inode_num + 1) 7 linkname
            modify count_inode
            all_block ← take_bits
            modify (count_block all_block)
            modify (set_inode new_inode_num (new_inode fresh 0xa000 (all_block + 1)))
            modify (λ m. set_disk (copy_string target_path (1024 * (all_block + 1)) m.disk) m)
            pure 0)
            m
    ]

unfoldable pub make_hard_link : ℕ → ℕ → List ℕ → Cmd Image ℕ
make_hard_link node writable_block linkname = do
  write_after writable_block (node + 1) 1 linkname
  modify (add_link node)
  pure 0

-- The target has been found: `ext2_ln` goes on with the directory of the link.
unfoldable pub link_to : ℕ → List ℕ → ℕ → List (List ℕ) → List ℕ → Cmd Image ℕ
link_to target_dir target_name node linkpath linkname = do
  dir ← look (walk 12 linkpath 1)
  there ← look (find_in_inode dir 12 linkname b'f')
  if not (there == minus_one) then pure eexist else do
    directory ← look (find_in_inode target_dir 12 target_name b'd')
    if not (directory == minus_one) then pure eisdir else do
      writable_block ← get_writable_block (of_inode dir) (length linkname) 0 11
      make_hard_link node writable_block linkname

-- `ext2_ln` without `-s`: the link is another entry for the inode of the target. The heap is that of the
-- target's names, `link_heap` that of the link's.
unfoldable pub ext2_ln_hard : Heap → Heap → List ℕ → List ℕ → Cmd Image ℕ
ext2_ln_hard heap link_heap target_path linkname_path = do
  (target, target_name) ← look (λ m. open_path heap target_path)
  (linkpath, linkname) ← look (λ m. open_path link_heap linkname_path)
  invalid ← look (verify_path target)
  if not (invalid == 0) then pure enoent else do
    invalid_link ← look (verify_path linkpath)
    if not (invalid_link == 0) then pure enoent else do
      target_dir ← look (walk 12 target 1)
      node ← look (find_in_inode target_dir 12 target_name b'f')
      if node == minus_one
          then pure enoent
          else link_to target_dir target_name node linkpath linkname

-- `ext2_ln -s`: the target may be any text.
unfoldable pub ext2_ln_symbolic : Heap → Heap → Inode → List ℕ → List ℕ → Cmd Image ℕ
ext2_ln_symbolic heap link_heap fresh target_path linkname_path = do
  target ← look (λ m. make_path_array heap target_path (get_path_length target_path))
  (linkpath, linkname) ← look (λ m. open_path link_heap linkname_path)
  full ← look (λ m. some (
      is_none (next_available_inode m.inode_bitmap)
      || is_none (next_available_block m.block_bitmap)))
  if full then pure enomem else do
    invalid ← look (verify_path linkpath)
    if not (invalid == 0) then pure enoent else do
      dir ← look (walk 12 linkpath 1)
      there ← look (find_in_inode dir 12 linkname b'f')
      if not (there == minus_one) then pure eexist else do
        writable_block ← get_writable_block (of_inode dir) (length linkname) 0 11
        make_symlink fresh target_path writable_block linkname
