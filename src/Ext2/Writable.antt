-- ===== src/Ext2/Writable.antt =====
-- A4/ext2_utils.c: `get_writable_block`.
pub mod Faults
mod Tests
use csc369_assignments.Prelude.{
  ℕ, zero, suc, ◌+◌, ◌*◌, ◌-◌, ◌%◌, ◌^◌, Option, none, some, Bool, true, false, ltb, leb, ◌==◌,
  if◌then◌else◌, ◌&&◌,
}
use csc369_assignments.Ext2.Disk.{Disk, write32}
use csc369_assignments.Ext2.Entries.{entry_rec_len, minus_one}
use csc369_assignments.Ext2.Image.{
  Image, Blocks, at_address, load_block, store_block, take_bits, count_block,
}

-- The loop over the entries of a block: whether the last entry is at least as long as the new one.
unfoldable pub has_space : ℕ → Disk → ℕ → ℕ → ℕ → Option Bool
has_space zero disk block_num rec_len_total n_rec_len = none
has_space (suc fuel) disk block_num rec_len_total n_rec_len =
    let rec_len = entry_rec_len disk (1024 * block_num + rec_len_total) in
    let rest = has_space fuel disk block_num (rec_len_total + rec_len) n_rec_len in
    if rec_len_total == 1024
    then some false
    else if (rec_len + rec_len_total == 1024) && leb n_rec_len rec_len
    then some true
    else rest

-- A new block goes into the next place of the table. The counts of blocks and bytes are changed in
-- a copy of the inode only.
unfoldable pub add_direct : Blocks → ℕ → Image → Option (ℕ × Image)
add_direct i_block search_block_ind m = elim (take_bits m) [
  | none ↦ none
  | some (all_block, m1) ↦
      some
        (all_block, store_block i_block (search_block_ind + 1) all_block (count_block all_block m1))
]

-- The table is full: two blocks, the first for a table with the second in it.
unfoldable pub add_indirect : Blocks → Image → Option (ℕ × Image)
add_indirect i_block m = elim (take_bits m) [
  | none ↦ none
  | some (indirect, m1) ↦ elim (take_bits m1) [
    | none ↦ none
    | some (indirect_data, m2) ↦
        let m3 =
          store_block i_block 12 indirect (count_block indirect_data (count_block indirect m2)) in
        some (minus_one, record m3 { disk = write32 m3.disk (1024 * indirect) indirect_data })
  ]
]

-- `get_writable_block`, which returns the number of the block less 1. The fuel is for the places of
-- the tables: 13 in the first, 117 in an indirect one, which may lead on to others.
unfoldable pub get_writable_from : ℕ → Blocks → ℕ → ℕ → ℕ → Image → Option (ℕ × Image)
get_writable_from zero i_block n_rec_len search_block_ind search_limit m = none
get_writable_from (suc fuel) i_block n_rec_len search_block_ind search_limit m =
    let block_num = load_block i_block search_block_ind m in
    elim (load_block i_block (search_block_ind + 1) m == 0) [
      | true ↦ elim (has_space 1025 m.disk block_num 0 n_rec_len) [
        | none ↦ none
        | some true ↦ some ((block_num + 2 ^ 32 - 1) % 2 ^ 32, m)
        | some false ↦
            if ltb search_block_ind search_limit
            then add_direct i_block search_block_ind m
            else add_indirect i_block m
      ]
      | false ↦ elim (ltb search_block_ind search_limit) [
        | true ↦ get_writable_from fuel i_block n_rec_len (search_block_ind + 1) search_limit m
        | false ↦
            get_writable_from fuel (at_address (4096 * load_block i_block 12 m)) n_rec_len 0 116 m
      ]
    ]

abbrev pub get_writable_block : Blocks → ℕ → ℕ → ℕ → Image → Option (ℕ × Image)
get_writable_block i_block n_rec_len search_block_ind search_limit m =
    get_writable_from 1000 i_block n_rec_len search_block_ind search_limit m
