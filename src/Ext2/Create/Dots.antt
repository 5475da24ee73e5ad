-- ===== src/Ext2/Create/Dots.antt =====
-- A4/ext2_mkdir.c: the block of a new directory.
use csc369_assignments.Prelude.{
  ℕ, ◌+◌, ◌*◌, ◌%◌, ◌^◌, ◌<◌, ◌≡◌, refl, ◌∙◌, inl, List, [], ◌∷◌, length, arith,
}
use csc369_assignments.Ext2.Disk.{Disk, Outside, write16, write16_ne}
use csc369_assignments.Ext2.Inodes.{init_dir_entry}
use csc369_assignments.Ext2.Entries.{fill_entry}
use csc369_assignments.Ext2.Entries.Layout.{Entry, Holds, Holds-keep, Layout}
use csc369_assignments.Ext2.Entries.Write.{AllBytes, fill_entry_ne, fill_entry-Holds}
use csc369_assignments.Ext2.Entries.Append.{Holds-write16}
use csc369_assignments.Ext2.Create.{put_entry, put_dots}

module _ (a n rec_len : ℕ) (name : List ℕ) (disk : Disk) (small : n + 1 < 2 ^ 32)
    (size : rec_len < 65536) (short : length name < 256) (bytes : AllBytes name) where
  -- The entry as it is, and before its length is put in.
  abbrev pub dir_entry : Entry
  dir_entry = record { inode = n + 1; rec_len = rec_len; file_type = 2; name = name }

  abbrev unsized : Entry
  unsized = record { inode = n + 1; rec_len = 0; file_type = 2; name = name }

  put_dots-fill_entry :
      put_dots a n name rec_len disk
      ≡ write16 (fill_entry a (n + 1) 0 (length name) 2 name disk) (a + 4) rec_len
  unfolding put_dots put_entry fill_entry init_dir_entry
  put_dots-fill_entry =
      let number : (n + 1) % 2 ^ 32 ≡ n + 1 = omega arith in
      let length_byte : length name % 2 ^ 8 ≡ length name = omega arith in
      rw (number, length_byte) refl

  pub put_dots-Holds : Holds (put_dots a n name rec_len disk) a dir_entry
  put_dots-Holds = rw put_dots-fill_entry (
      Holds-write16 (fill_entry a (n + 1) 0 (length name) 2 name disk) a rec_len unsized size (
        fill_entry-Holds a unsized disk (record {
          inode_fits = omega arith;
          rec_len_fits = omega arith;
          name_len_fits = short;
          file_type_fits = omega arith;
          name_fits = bytes;
        })))

  pub put_dots_ne :
      (x : ℕ) → Outside a (8 + length name) x → put_dots a n name rec_len disk x ≡ disk x
  put_dots_ne x out = rw put_dots-fill_entry (
      write16_ne (fill_entry a (n + 1) 0 (length name) 2 name disk) (a + 4) rec_len x (ground arith)
      ∙ fill_entry_ne a unsized disk x out)

-- The new directory itself, and its parent.
abbrev pub self_entry : ℕ → Entry
self_entry n = record { inode = n + 1; rec_len = 12; file_type = 2; name = b'.' ∷ [] }

abbrev pub parent_entry : ℕ → Entry
parent_entry dir = record {
  inode = dir + 1;
  rec_len = 1012;
  file_type = 2;
  name = b'.' ∷ b'.' ∷ [];
}

-- The block that `ext2_mkdir` fills.
abbrev pub both_dots : ℕ → ℕ → ℕ → Disk → Disk
both_dots b n dir disk =
    put_dots (1024 * b + 12) dir (b'.' ∷ b'.' ∷ []) 1012 (put_dots (1024 * b) n (b'.' ∷ []) 12 disk)

module _ (b n dir : ℕ) (disk : Disk) (small : n + 1 < 2 ^ 32) (low : dir + 1 < 2 ^ 32) where
  abbrev first : Disk
  first = put_dots (1024 * b) n (b'.' ∷ []) 12 disk

  second_ne : (x : ℕ) → Outside (1024 * b + 12) 10 x → both_dots b n dir disk x ≡ first x
  second_ne x out =
      put_dots_ne (1024 * b + 12) dir 1012 (b'.' ∷ b'.' ∷ []) first low (omega arith) (omega arith)
        (omega arith, (omega arith, tt)) x (ground arith)

  pub both_dots-Layout : Layout (both_dots b n dir disk) b 0 (self_entry n ∷ parent_entry dir ∷ [])
  both_dots-Layout =
      let start : 1024 * b + 0 ≡ 1024 * b = omega arith in
      (
        rw start (
            Holds-keep first (both_dots b n dir disk) (1024 * b) (self_entry n)
              (λ x lo hi. second_ne x (inl (omega arith)))
              (put_dots-Holds (1024 * b) n 12 (b'.' ∷ []) disk small (omega arith) (omega arith)
                (omega arith, tt))),
        omega arith,
        omega arith,
        (
          put_dots-Holds (1024 * b + 12) dir 1012 (b'.' ∷ b'.' ∷ []) first low (omega arith)
              (omega arith) (omega arith, (omega arith, tt)),
          omega arith,
          omega arith,
          refl,
        ),
      )

  pub both_dots_ne : (x : ℕ) → Outside (1024 * b) 1024 x → both_dots b n dir disk x ≡ disk x
  both_dots_ne x out =
      second_ne x (ground arith)
      ∙ put_dots_ne (1024 * b) n 12 (b'.' ∷ []) disk small (omega arith) (omega arith)
          (omega arith, tt) x (ground arith)
