-- ===== src/Ext2/Names.antt =====
-- A4/ext2_utils.c, A4/ext2_checker.c: file types and the lengths of directory entries.
use csc369_assignments.Prelude.{
  ℕ, zero, suc, ◌+◌, ◌-◌, ◌*◌, ◌/◌, ◌%◌, ◌^◌, ◌≤◌, ◌<◌, ◌≡◌, ◌≢◌, refl, Option, none, some, ◌==◌,
  if◌then◌else◌, arith, Bool-cases, inl, inr, ne_of_test,
}

-- `dir_type`
unfoldable pub dir_type : ℕ → ℕ
dir_type type =
    if type == 0
    then b'0'
    else if type == 1
    then b'f'
    else if type == 2
    then b'd'
    else if type == 7
    then b'l'
    else b'e'

-- `(i_mode >> 12) << 12`
abbrev pub format : ℕ → ℕ
format i_mode = i_mode / 2 ^ 12 * 2 ^ 12

-- `f_type`
unfoldable pub f_type : ℕ → ℕ
f_type i_mode =
    if format i_mode == 0xa000
    then b'l'
    else if format i_mode == 0x8000
    then b'f'
    else if format i_mode == 0x4000
    then b'd'
    else b'e'

-- `inode_to_dir_type`
unfoldable pub inode_to_dir_type : ℕ → ℕ
inode_to_dir_type i_mode =
    if format i_mode == 0xa000
    then 7
    else if format i_mode == 0x8000
    then 1
    else if format i_mode == 0x4000
    then 2
    else 1

-- The entry type that the checker writes for an inode is read back as the type of the inode; an
-- inode of no known type gets the entry type of a regular file.
pub dir_type-inode_to_dir_type :
    (i_mode : ℕ)
    → dir_type (inode_to_dir_type i_mode) ≡ (if f_type i_mode == b'e' then b'f' else f_type i_mode)
unfolding dir_type f_type inode_to_dir_type
dir_type-inode_to_dir_type i_mode = ground arith

-- The loop of `calc_rec_len_div4_name`, on fuel.
unfoldable pub pad : ℕ → ℕ → Option ℕ
pad zero rec_len = none
pad (suc fuel) rec_len =
    let next = pad fuel (rec_len + 1) in if rec_len % 4 == 0 then some rec_len else next

-- `calc_rec_len_div4_name`
unfoldable pub calc_rec_len_div4_name : ℕ → Option ℕ
calc_rec_len_div4_name name_length = pad 4 (8 + name_length)

-- `calc_rec_len_div4`, on the length of the entry's name.
unfoldable pub calc_rec_len_div4 : ℕ → Option ℕ
calc_rec_len_div4 name_len = pad 4 (8 + name_len)

pad_lem :
    (fuel n : ℕ)
    → (4 - n % 4) % 4 < fuel
    → (r : ℕ) × (pad fuel n ≡ some r) × (r % 4 ≡ 0) × (n ≤ r) × (r ≤ n + (4 - n % 4) % 4)
unfolding pad
pad_lem zero n enough = absurd (omega arith)
pad_lem (suc fuel) n enough = elim (Bool-cases (n % 4 == 0)) [
  | inl whole ↦ (n, rw whole refl, ground arith, omega arith, omega arith)
  | inr part ↦
      let ne : n % 4 ≢ 0 = ne_of_test (n % 4) 0 part in
      let (r, e, multiple, lo, hi) = pad_lem fuel (n + 1) (omega arith) in
      (r, rw part e, multiple, omega arith, omega arith)
]

-- The loop that pads the length of an entry ends within four rounds, with the least multiple of 4
-- that holds the eight bytes of the entry's head and its name.
pub calc_rec_len_div4_name_lem :
    (name_length : ℕ)
    → (r : ℕ) × (calc_rec_len_div4_name name_length ≡ some r)
      × (r % 4 ≡ 0)
      × (8 + name_length ≤ r)
      × (r < 8 + name_length + 4)
unfolding calc_rec_len_div4_name
calc_rec_len_div4_name_lem n =
    let (r, e, multiple, lo, hi) = pad_lem 4 (8 + n) (omega arith) in
    (r, e, multiple, lo, omega arith)
