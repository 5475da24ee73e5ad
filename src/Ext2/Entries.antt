-- ===== src/Ext2/Entries.antt =====
-- A4/ext2_utils.c: the directory entries that lie one after another in a block of the image.
pub mod Layout
pub mod Write
pub mod Append
pub mod Search
pub mod Lookup
mod Tests
use csc369_assignments.Prelude.{
  ℕ, zero, suc, ◌+◌, ◌*◌, ◌-◌, ◌%◌, ◌^◌, Option, none, some, Bool, true, false, ◌&&◌, List, [], ◌∷◌,
  ltb, ◌==◌, if◌then◌else◌,
}
use csc369_assignments.Ext2.Disk.{Disk, read16, read32, write8, write16, write32}
use csc369_assignments.Ext2.Names.{calc_rec_len_div4, dir_type}

-- The fields of the `struct ext2_dir_entry` at an address, but for its name, which follows.
abbrev pub entry_inode : Disk → ℕ → ℕ
entry_inode disk a = read32 disk a

abbrev pub entry_rec_len : Disk → ℕ → ℕ
entry_rec_len disk a = read16 disk (a + 4)

abbrev pub entry_name_len : Disk → ℕ → ℕ
entry_name_len disk a = disk (a + 6)

abbrev pub entry_file_type : Disk → ℕ → ℕ
entry_file_type disk a = disk (a + 7)

-- `strncpy(disk + a, name, n)`: the characters of the name, then zeros.
unfoldable pub strncpy : ℕ → List ℕ → ℕ → Disk → Disk
strncpy zero name a disk = disk
strncpy (suc n) [] a disk = strncpy n [] (a + 1) (write8 disk a 0)
strncpy (suc n) (c ∷ name) a disk = strncpy n name (a + 1) (write8 disk a c)

-- `strncmp(disk + a, name, strlen(name)) == 0`
unfoldable pub starts_with : Disk → ℕ → List ℕ → Bool
starts_with disk a [] = true
starts_with disk a (c ∷ name) = (disk a == c) && starts_with disk (a + 1) name

-- `strcmp(disk + a, name) == 0`
unfoldable pub is_string : Disk → ℕ → List ℕ → Bool
is_string disk a [] = disk a == 0
is_string disk a (c ∷ name) = (disk a == c) && is_string disk (a + 1) name

-- The fields of an entry with its name, written in this order.
unfoldable pub fill_entry : ℕ → ℕ → ℕ → ℕ → ℕ → List ℕ → Disk → Disk
fill_entry a inode rec_len name_len file_type name disk =
    let disk1 = write16 (write32 disk a inode) (a + 4) rec_len in
    let disk2 = write8 (write8 disk1 (a + 6) name_len) (a + 7) file_type in
    strncpy name_len name (a + 8) disk2

-- The entry at `rec_len_total` of a block is the last: it is cut to its length, and the new entry
-- takes what it leaves of the block.
unfoldable pub append_entry : ℕ → ℕ → ℕ → ℕ → ℕ → List ℕ → Disk → Option Disk
append_entry block_num rec_len_total inode name_len file_type name disk =
    let a = 1024 * block_num + rec_len_total in
    elim (calc_rec_len_div4 (entry_name_len disk a)) [
      | none ↦ none
      | some rec_len ↦
          let cut = write16 disk (a + 4) rec_len in
          some (
            fill_entry (a + entry_rec_len cut a) inode
              ((1024 + 2 ^ 16 - (rec_len_total + entry_rec_len cut a)) % 2 ^ 16) name_len file_type
              name cut)
    ]

-- The loop of `write_ent_to_block`. A loop over the entries of a block that has not come to the
-- end of the block after 1024 of them never does: an entry of length 0 holds it up, or the end has
-- been missed.
unfoldable pub write_ent_loop : ℕ → ℕ → ℕ → ℕ → ℕ → ℕ → List ℕ → Disk → Option Disk
write_ent_loop zero block_num rec_len_total inode name_len file_type name disk = none
write_ent_loop (suc fuel) block_num rec_len_total inode name_len file_type name disk =
    let rec_len = entry_rec_len disk (1024 * block_num + rec_len_total) in
    let rest =
      write_ent_loop fuel block_num (rec_len_total + rec_len) inode name_len file_type name disk in
    if rec_len_total == 1024
    then some disk
    else if rec_len + rec_len_total == 1024
    then append_entry block_num rec_len_total inode name_len file_type name disk
    else rest

-- `write_ent_to_block`
unfoldable pub write_ent_to_block : ℕ → ℕ → ℕ → ℕ → List ℕ → Disk → Option Disk
write_ent_to_block block_num inode name_len file_type name disk =
    write_ent_loop 1025 block_num 0 inode name_len file_type name disk

-- The result -1 of an `int`, as a word of 32 bits.
abbrev pub minus_one : ℕ
minus_one = 2 ^ 32 - 1

-- An entry that `find_inode_in_blocks` takes: its name begins with the one that is looked for.
unfoldable pub is_match : Disk → List ℕ → ℕ → ℕ → Bool
is_match disk curr search_type a =
    starts_with disk (a + 8) curr && (dir_type (entry_file_type disk a) == search_type)

-- The loop of `find_inode_in_blocks` over the entries of one block.
unfoldable pub find_loop : ℕ → Disk → ℕ → ℕ → List ℕ → ℕ → Option ℕ
find_loop zero disk block_num rec_len_total curr search_type = none
find_loop (suc fuel) disk block_num rec_len_total curr search_type =
    let a = 1024 * block_num + rec_len_total in
    let rest =
      find_loop fuel disk block_num (rec_len_total + entry_rec_len disk a) curr search_type in
    if rec_len_total == 1024
    then some minus_one
    else if is_match disk curr search_type a
    then some ((entry_inode disk a + 2 ^ 32 - 1) % 2 ^ 32)
    else rest

-- The table of words that lies in a block.
unfoldable pub table_at : Disk → ℕ → ℕ → ℕ
table_at disk block_num k = read32 disk (1024 * block_num + 4 * k)

-- `find_inode_in_blocks`. The fuel is for the tables: the first has 13 entries, the indirect one
-- 201, and a search that is still not at a block in use after that goes round in block 0 for ever.
unfoldable pub find_inode_in_table : ℕ → Disk → (ℕ → ℕ) → ℕ → ℕ → List ℕ → ℕ → Option ℕ
find_inode_in_table zero disk i_block ind limit curr search_type = none
find_inode_in_table (suc fuel) disk i_block ind limit curr search_type = elim (i_block ind == 0) [
  | false ↦ find_loop 1025 disk (i_block ind) 0 curr search_type
  | true ↦ elim (ltb ind limit) [
    | true ↦ find_inode_in_table fuel disk i_block (ind + 1) limit curr search_type
    | false ↦ find_inode_in_table fuel disk (table_at disk (i_block 12)) 0 200 curr search_type
  ]
]

unfoldable pub find_inode_in_blocks : Disk → (ℕ → ℕ) → ℕ → ℕ → List ℕ → ℕ → Option ℕ
find_inode_in_blocks disk i_block ind limit curr search_type =
    find_inode_in_table 416 disk i_block ind limit curr search_type
