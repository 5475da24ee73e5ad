-- ===== src/Ext2/Bitmaps.antt =====
-- A4/ext2_utils.c: the inode and block bitmaps, on the disk and as arrays.
use csc369_assignments.Prelude.{
  ℕ, zero, suc, ◌/◌, ◌%◌, Option, none, some, Bool, ◌==◌, if◌then◌else◌, update,
}
use csc369_assignments.Prelude.Word.{test_bit, set_bit, clear_bit}

-- The two searches go from a first index, for as many places as there are.
unfoldable pub first_free : ℕ → ℕ → (ℕ → ℕ) → Option ℕ
first_free zero i bitmap = none
first_free (suc rounds) i bitmap =
    let rest = first_free rounds (suc i) bitmap in if bitmap i == 0 then some i else rest

-- `none` is the result -1.
unfoldable pub next_available_inode : (ℕ → ℕ) → Option ℕ
next_available_inode inode_bitmap = first_free 21 11 inode_bitmap

unfoldable pub next_available_block : (ℕ → ℕ) → Option ℕ
next_available_block block_bitmap = first_free 128 0 block_bitmap

-- `bits[num / 8] |= 1 << num % 8`
unfoldable pub update_bitmap : (ℕ → ℕ) → ℕ → ℕ → ℕ
update_bitmap bits num = update bits (num / 8) (set_bit (bits (num / 8)) (num % 8))

-- `bits[num / 8] &= ~(1 << num % 8)`
unfoldable pub deall_bitmap : (ℕ → ℕ) → ℕ → ℕ → ℕ
deall_bitmap bits num = update bits (num / 8) (clear_bit (bits (num / 8)) (num % 8))

abbrev pub update_i_bitmap : (ℕ → ℕ) → ℕ → ℕ → ℕ
update_i_bitmap inode_bits new_inode_num = update_bitmap inode_bits new_inode_num

abbrev pub update_b_bitmap : (ℕ → ℕ) → ℕ → ℕ → ℕ
update_b_bitmap block_bits new_block_num = update_bitmap block_bits new_block_num

abbrev pub deall_i_bitmap : (ℕ → ℕ) → ℕ → ℕ → ℕ
deall_i_bitmap inode_bits free_inode_num = deall_bitmap inode_bits free_inode_num

abbrev pub deall_b_bitmap : (ℕ → ℕ) → ℕ → ℕ → ℕ
deall_b_bitmap block_bits free_block_num = deall_bitmap block_bits free_block_num

-- Bit `num` of a bitmap on the disk: what `main` reads into the arrays.
unfoldable pub bit_at : (ℕ → ℕ) → ℕ → Bool
bit_at bits num = test_bit (bits (num / 8)) (num % 8)

unfoldable pub read_bitmap : (ℕ → ℕ) → ℕ → ℕ
read_bitmap bits num = if bit_at bits num then 1 else 0

-- `allocate_block`: the block that is found, with the bitmap on the disk changed.
unfoldable pub allocate_block : (ℕ → ℕ) → (ℕ → ℕ) → Option (ℕ × (ℕ → ℕ))
allocate_block block_bitmap block_bits = elim (next_available_block block_bitmap) [
  | none ↦ none
  | some block_num ↦ some (block_num, update_b_bitmap block_bits block_num)
]
