-- ===== src/Ext2/Create.antt =====
-- A4/ext2_mkdir.c
pub mod Dots
pub mod Directory
mod Tests
use csc369_assignments.Prelude.{
  ℕ, ◌+◌, ◌*◌, ◌%◌, ◌^◌, Option, none, some, Bool, true, false, not, ◌&&◌, ◌||◌, List, [], ◌∷◌,
  length, ◌==◌, if◌then◌else◌, update,
}
use csc369_assignments.Prelude.State.{Cmd, pure, deref, ◌>>=◌, ◌>>◌}
use csc369_assignments.Ext2.Disk.{Disk, write8, write16, write32}
use csc369_assignments.Ext2.Names.{calc_rec_len_div4}
use csc369_assignments.Ext2.Inodes.{Inode, DirEntry, init_inode, init_dir_entry}
use csc369_assignments.Ext2.Bitmaps.{next_available_inode, next_available_block}
use csc369_assignments.Ext2.Entries.{strncpy, write_ent_to_block, minus_one}
use csc369_assignments.Ext2.Paths.{first_char}
use csc369_assignments.Ext2.Image.{
  Image, of_inode, up, set_inode, take_bits, count_block, count_inode, mark_inode,
}
use csc369_assignments.Ext2.Writable.{get_writable_block}
use csc369_assignments.Ext2.Walk.{Heap, look, modify, open_path, verify_path, walk, inode_at}
use csc369_assignments.Ext2.Remove.{enoent}

abbrev pub enomem : ℕ
enomem = 12

abbrev pub eexist : ℕ
eexist = 17

abbrev pub is_none {ℓ} : {A : Type ℓ} → Option A → Bool
is_none none = true
is_none (some a) = false

-- An entry without its name is written.
unfoldable pub put_entry : ℕ → DirEntry → Disk → Disk
put_entry a e disk =
    write8 (write8 (write16 (write32 disk a e.inode) (a + 4) e.rec_len) (a + 6) e.name_len) (a + 7)
      e.file_type

-- The entries `.` and `..` of a new directory.
unfoldable pub put_dots : ℕ → ℕ → List ℕ → ℕ → Disk → Disk
put_dots a inode_num name rec_len disk =
    let named =
      strncpy (length name) name (a + 8)
        (put_entry a (init_dir_entry inode_num (length name) 2) disk) in
    write16 named (a + 4) rec_len

abbrev pub set_disk : Disk → Image → Image
set_disk disk m = record m { disk = disk }

-- An entry is written to the block after the one that `get_writable_block` returned.
unfoldable pub write_after : ℕ → ℕ → ℕ → List ℕ → Cmd Image (Unit {0})
write_after writable_block inode file_type name m =
    elim (write_ent_to_block ((writable_block + 1) % 2 ^ 32) inode (length name) file_type name
      m.disk) [ none ↦ none | some disk ↦ some (tt, set_disk disk m) ]

unfoldable pub add_link : ℕ → Image → Image
add_link n m =
    let inode = m.inodes n in
    set_inode n (record inode { i_links_count = up 16 inode.i_links_count }) m

-- The inode of a new directory or link with its first block. The fields that `init_inode` leaves
-- are what `fresh`, the variable on the stack, has there.
unfoldable pub new_inode : Inode → ℕ → ℕ → Inode
new_inode fresh i_mode block =
    let inode = init_inode fresh i_mode in record inode { i_block = update inode.i_block 0 block }

-- The path begins with a slash, or with a dot and a slash.
unfoldable pub is_path : List ℕ → Bool
is_path [] = false
is_path (c ∷ path) = (c == b'/') || ((c == b'.') && (first_char path == b'/'))

-- `ext2_mkdir` from where the path is known to be valid.
unfoldable pub make_directory : Inode → ℕ → List (List ℕ) → List ℕ → Cmd Image ℕ
make_directory fresh new_inode_num names name = do
  modify (mark_inode new_inode_num)
  new_block_num ← take_bits
  modify (λ m. count_inode (count_block new_block_num m))
  let new_entry = init_dir_entry new_inode_num (length name) 2
  new_rec_len ← deref (calc_rec_len_div4 new_entry.name_len)
  let block = 1024 * (new_block_num + 1)
  modify (λ m. set_disk (put_dots block new_inode_num (b'.' ∷ []) 12 m.disk) m)
  modify (set_inode new_inode_num (new_inode fresh 0x4000 (new_block_num + 1)))
  dir ← look (walk 12 names 1)
  modify (λ m. set_disk (put_dots (block + 12) dir (b'.' ∷ b'.' ∷ []) 1012 m.disk) m)
  inode ← look (inode_at dir)
  modify (add_link dir)
  writable_block ← get_writable_block (of_inode dir) new_rec_len 0 12
  if writable_block == minus_one
      then pure enomem
      else (write_after writable_block (new_inode_num + 1) 2 name >> pure 0)

-- `main` of `ext2_mkdir`, with the exit code.
unfoldable pub ext2_mkdir : Heap → Inode → List ℕ → Cmd Image ℕ
ext2_mkdir heap fresh path m = elim (next_available_inode m.inode_bitmap) [
  | none ↦ some (enomem, m)
  | some new_inode_num ↦
      (if is_none (next_available_block m.block_bitmap)
          then pure enomem
          else if not (is_path path)
          then pure enoent
          else do
            (names, name) ← look (λ m. open_path heap path)
            invalid ← look (verify_path names)
            if not (invalid == 0)
                then pure enoent
                else make_directory fresh new_inode_num names name)
        m
]
