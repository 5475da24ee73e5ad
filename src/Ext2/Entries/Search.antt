-- ===== src/Ext2/Entries/Search.antt =====
-- A4/ext2_utils.c: which entry of a directory `find_inode_in_blocks` finds.
use csc369_assignments.Prelude.{
  ℕ, zero, suc, ◌+◌, ◌*◌, ◌-◌, ◌%◌, ◌^◌, ◌≤◌, ◌<◌, ◌≡◌, refl, ap, ◌∙◌, inl, inr, Bool, true, false,
  not, ◌&&◌, ◌||◌, some, List, [], ◌∷◌, ◌++◌, length, length-append, ltb, ◌==◌, arith, Bool-cases,
}
use csc369_assignments.Ext2.Disk.{Disk}
use csc369_assignments.Ext2.Names.{dir_type}
use csc369_assignments.Ext2.Entries.{
  starts_with, is_match, find_loop, find_inode_in_table, find_inode_in_blocks, minus_one,
}
use csc369_assignments.Ext2.Entries.Layout.{Entry, Holds, Layout, NameAt, Layout-length}

-- The second name is the beginning of the first.
unfoldable pub begins : List ℕ → List ℕ → Bool
begins name [] = true
begins [] (d ∷ curr) = false
begins (c ∷ name) (d ∷ curr) = (c == d) && begins name curr

pub begins_self : (name : List ℕ) → begins name name ≡ true
unfolding begins
begins_self [] = refl
begins_self (c ∷ name) = ground (arith, begins_self name)

-- Two names differ at a place where both have a character.
unfoldable pub clash : List ℕ → List ℕ → Bool
clash [] curr = false
clash (c ∷ name) [] = false
clash (c ∷ name) (d ∷ curr) = not (c == d) || clash name curr

unfoldable pub is_type : Entry → ℕ → Bool
is_type e search_type = dir_type e.file_type == search_type

-- An entry that a search passes over, and one that it stops at.
abbrev pub Skips : List ℕ → ℕ → Entry → Type 0
Skips curr search_type e = clash e.name curr || not (is_type e search_type) ≡ true

abbrev pub Stops : List ℕ → ℕ → Entry → Type 0
Stops curr search_type e = begins e.name curr && is_type e search_type ≡ true

abbrev pub AllSkip : List ℕ → ℕ → List Entry → Type 0
AllSkip curr search_type [] = Unit {0}
AllSkip curr search_type (e ∷ es) = Skips curr search_type e × AllSkip curr search_type es

starts_with-clash :
    (disk : Disk) (name curr : List ℕ) (a : ℕ)
    → NameAt disk a name
    → clash name curr ≡ true
    → starts_with disk a curr ≡ false
unfolding starts_with clash
starts_with-clash disk [] curr a at h = cc
starts_with-clash disk (c ∷ name) [] a at h = cc
starts_with-clash disk (c ∷ name) (d ∷ curr) a (here, at) h =
    rw here (ground (arith, starts_with-clash disk name curr (a + 1) at))

pub starts_with-begins :
    (disk : Disk) (name curr : List ℕ) (a : ℕ)
    → NameAt disk a name
    → begins name curr ≡ true
    → starts_with disk a curr ≡ true
unfolding starts_with begins
starts_with-begins disk name [] a at h = refl
starts_with-begins disk [] (d ∷ curr) a at h = cc
starts_with-begins disk (c ∷ name) (d ∷ curr) a (here, at) h =
    rw here (ground (arith, starts_with-begins disk name curr (a + 1) at))

module _ (disk : Disk) (block_num : ℕ) (curr : List ℕ) (search_type : ℕ) where
  skip_run :
      (off : ℕ) (e : Entry)
      → Holds disk (1024 * block_num + off) e
      → Skips curr search_type e
      → is_match disk curr search_type (1024 * block_num + off) ≡ false
  unfolding is_match is_type
  skip_run off e h s =
      let a = 1024 * block_num + off in
      elim (Bool-cases (clash e.name curr)) [
        | inl c ↦ rw (starts_with-clash disk e.name curr (a + 8) h.name_at c) refl
        | inr o ↦ rw h.file_type_at (ground arith)
      ]

  stop_run :
      (off : ℕ) (e : Entry)
      → Holds disk (1024 * block_num + off) e
      → Stops curr search_type e
      → is_match disk curr search_type (1024 * block_num + off) ≡ true
  unfolding is_match is_type
  stop_run off e h s =
      let a = 1024 * block_num + off in
      let b : begins e.name curr ≡ true = ground arith in
      rw (starts_with-begins disk e.name curr (a + 8) h.name_at b, h.file_type_at) (ground arith)

  pub find_loop-found :
      (before : List Entry) (e : Entry) (after : List Entry) (fuel off : ℕ)
      → length before < fuel
      → Layout disk block_num off (before ++ e ∷ after)
      → AllSkip curr search_type before
      → Stops curr search_type e
      → find_loop fuel disk block_num off curr search_type ≡ some ((e.inode + 2 ^ 32 - 1) % 2 ^ 32)
  unfolding find_loop
  find_loop-found before e after zero off enough layout skip stop = absurd (omega arith)
  find_loop-found [] e after (suc fuel) off enough (h, fit, below, rest) skip stop =
      let start : (off == 1024) ≡ false = ground arith in
      rw (start, stop_run off e h stop, h.inode_at) refl
  find_loop-found (x ∷ before) e after (suc fuel) off enough (h, fit, below, rest) (s, skip) stop =
      let start : (off == 1024) ≡ false = ground arith in
      rw (start, skip_run off x h s, h.rec_len_at)
        (find_loop-found before e after fuel (off + x.rec_len) (omega arith) rest skip stop)

  pub find_loop-absent :
      (es : List Entry) (fuel off : ℕ)
      → length es < fuel
      → Layout disk block_num off es
      → AllSkip curr search_type es
      → find_loop fuel disk block_num off curr search_type ≡ some minus_one
  unfolding find_loop
  find_loop-absent es zero off enough layout skip = absurd (omega arith)
  find_loop-absent [] (suc fuel) off enough end skip = rw end refl
  find_loop-absent (x ∷ es) (suc fuel) off enough (h, fit, below, rest) (s, skip) =
      let start : (off == 1024) ≡ false = ground arith in
      rw (start, skip_run off x h s, h.rec_len_at)
        (find_loop-absent es fuel (off + x.rec_len) (omega arith) rest skip)

-- The first block in use of a table is the only one that is searched.
first_block :
    (rounds fuel : ℕ) (disk : Disk) (i_block : ℕ → ℕ) (ind k limit : ℕ) (curr : List ℕ)
    (search_type : ℕ)
    → ind + rounds ≡ k
    → k ≤ limit
    → rounds < fuel
    → ((j : ℕ) → j < k → (i_block j == 0) ≡ true)
    → (i_block k == 0) ≡ false
    → find_inode_in_table fuel disk i_block ind limit curr search_type
      ≡ find_loop 1025 disk (i_block k) 0 curr search_type
unfolding find_inode_in_table
first_block rounds zero disk i_block ind k limit curr t e le enough free used = absurd (omega arith)
first_block zero (suc fuel) disk i_block ind k limit curr t e le enough free used =
    let same : ind ≡ k = omega arith in rw same (rw (used, find_inode_in_table) refl)
first_block (suc rounds) (suc fuel) disk i_block ind k limit curr t e le enough free used =
    let inner : ltb ind limit ≡ true = ground arith in
    rw (free ind (omega arith), inner, find_inode_in_table)
      (first_block rounds fuel disk i_block (ind + 1) k limit curr t (omega arith) le (omega arith)
        free used)

-- `find_inode_in_blocks` searches one block of a directory, the first that is in use, whatever the
-- others hold. There it returns the number, less 1, of the first entry of the type that is asked
-- for whose name begins with the one that is asked for, provided that the entries before
-- differ from it in type or in a character; it returns -1 if all entries differ so.
pub find_inode_in_blocks_lem :
    (disk : Disk) (i_block : ℕ → ℕ) (k limit : ℕ) (curr : List ℕ) (search_type : ℕ)
    (es : List Entry)
    → k ≤ limit
    → limit ≤ 12
    → ((j : ℕ) → j < k → (i_block j == 0) ≡ true)
    → (i_block k == 0) ≡ false
    → Layout disk (i_block k) 0 es
    → ((before : List Entry) (e : Entry) (after : List Entry)
        → es ≡ before ++ e ∷ after
        → AllSkip curr search_type before
        → Stops curr search_type e
        → find_inode_in_blocks disk i_block 0 limit curr search_type
          ≡ some ((e.inode + 2 ^ 32 - 1) % 2 ^ 32))
      × (AllSkip curr search_type es
          → find_inode_in_blocks disk i_block 0 limit curr search_type ≡ some minus_one)
unfolding find_inode_in_blocks
find_inode_in_blocks_lem disk i_block k limit curr t es le small free used layout =
    let size = Layout-length disk (i_block k) 0 es layout in
    let one =
      first_block k 416 disk i_block 0 k limit curr t (omega arith) le (omega arith) free used in
    (
      λ before e after split skip stop.
          let short : length before < 1025 =
            omega (arith, ap length split, length-append before (e ∷ after)) in
          one
          ∙ find_loop-found disk (i_block k) curr t before e after 1025 0 short (rw split at layout)
              skip stop,
      λ skip. one ∙ find_loop-absent disk (i_block k) curr t es 1025 0 (omega arith) layout skip,
    )
