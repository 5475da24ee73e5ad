-- ===== src/Ext2/Restore/Gap.antt =====
-- A4/ext2_restore.c: the search for the gap that a removed entry has left.
use csc369_assignments.Prelude.{
  ℕ, zero, suc, ◌+◌, ◌*◌, ◌≤◌, ◌<◌, ◌≡◌, refl, ap, ◌∙◌, none, some, true, false, ◌&&◌, List, [],
  ◌∷◌, ◌++◌, length, leb, ◌==◌, arith,
}
use csc369_assignments.Ext2.Disk.{Disk, read16}
use csc369_assignments.Ext2.Entries.{starts_with}
use csc369_assignments.Ext2.Entries.Layout.{
  Entry, Holds, Layout, need, ends, calc_rec_len_div4-need, calc_rec_len_div4-need_name,
  Layout-append_lt, Layout-length,
}
use csc369_assignments.Ext2.Image.{Image}
use csc369_assignments.Ext2.Restore.{take_gap, gap_loop, gap_blocks, restore_file}

module _ (block_num restore_rec_len : ℕ) (file_name : List ℕ) (m : Image) where
  -- None of the entries has a gap of the length behind it that holds the name.
  abbrev pub NoGap : ℕ → List Entry → Type 0
  NoGap off [] = Unit {0}
  NoGap off (e ∷ es) =
      (leb (restore_rec_len + need (length e.name)) e.rec_len
          && starts_with m.disk (1024 * block_num + off + need (length e.name) + 8) file_name
        ≡ false)
      × NoGap (off + e.rec_len) es

  pass_run :
      (fuel off : ℕ) (e : Entry) (es : List Entry)
      → Layout m.disk block_num off (e ∷ es)
      → leb (restore_rec_len + need (length e.name)) e.rec_len
          && starts_with m.disk (1024 * block_num + off + need (length e.name) + 8) file_name
        ≡ false
      → gap_loop (suc fuel) block_num off restore_rec_len file_name m
        ≡ gap_loop fuel block_num (off + e.rec_len) restore_rec_len file_name m
  unfolding gap_loop
  pass_run fuel off e es (h, fit, below, rest) no_gap =
      let start : (off == 1024) ≡ false = ground arith in
      rw
        (
          start,
          gap_loop,
          h.name_len_at,
          calc_rec_len_div4-need (length e.name),
          h.rec_len_at,
          no_gap,
        )
        refl

  none_run :
      (es : List Entry) (fuel off : ℕ)
      → length es < fuel
      → Layout m.disk block_num off es
      → NoGap off es
      → gap_loop fuel block_num off restore_rec_len file_name m ≡ some none
  unfolding gap_loop
  none_run es zero off enough layout pass = absurd (omega arith)
  none_run [] (suc fuel) off enough end pass = rw end refl
  none_run (e ∷ es) (suc fuel) off enough layout (p, pass) =
      pass_run fuel off e es layout p
      ∙ none_run es fuel (off + e.rec_len) (omega arith) layout.3 pass

  gap_run :
      (fuel off : ℕ) (e : Entry) (r : ℕ × Image)
      → Holds m.disk (1024 * block_num + off) e
      → restore_rec_len + need (length e.name) ≤ e.rec_len
      → off < 1024
      → starts_with m.disk (1024 * block_num + off + need (length e.name) + 8) file_name ≡ true
      → take_gap
          (1024 * block_num + off)
          (1024 * block_num + off + need (length e.name))
          (need (length e.name))
          m
        ≡ some (some r)
      → gap_loop (suc fuel) block_num off restore_rec_len file_name m ≡ some (some r)
  unfolding gap_loop
  gap_run fuel off e r h room inner named taken =
      let start : (off == 1024) ≡ false = ground arith in
      let gap : leb (restore_rec_len + need (length e.name)) e.rec_len ≡ true = ground arith in
      rw
        (
          start,
          gap_loop,
          h.name_len_at,
          calc_rec_len_div4-need (length e.name),
          h.rec_len_at,
          gap,
          named,
          taken,
        )
        refl

  pub gap_loop_run :
      (es : List Entry) (fuel off : ℕ) (e : Entry) (after : List Entry) (r : ℕ × Image)
      → length es < fuel
      → Layout m.disk block_num off (es ++ e ∷ after)
      → NoGap off es
      → restore_rec_len + need (length e.name) ≤ e.rec_len
      → starts_with m.disk (1024 * block_num + ends off es + need (length e.name) + 8) file_name
        ≡ true
      → take_gap
          (1024 * block_num + ends off es)
          (1024 * block_num + ends off es + need (length e.name))
          (need (length e.name))
          m
        ≡ some (some r)
      → gap_loop fuel block_num off restore_rec_len file_name m ≡ some (some r)
  gap_loop_run es zero off e after r enough layout pass room named taken = absurd (omega arith)
  gap_loop_run [] (suc fuel) off e after r enough layout pass room named taken =
      gap_run fuel off e r layout.0 room (Layout-append_lt m.disk block_num off [] e after layout)
        named taken
  gap_loop_run (x ∷ es) (suc fuel) off e after r enough layout (p, pass) room named taken =
      pass_run fuel off x (es ++ e ∷ after) layout p
      ∙ gap_loop_run es fuel (off + x.rec_len) e after r (omega arith) layout.3 pass room named
          taken

read16-zeros : (disk : Disk) (a : ℕ) → disk a ≡ 0 → disk (a + 1) ≡ 0 → read16 disk a ≡ 0
unfolding read16
read16-zeros disk a low high = omega arith

-- Where a block of zeros is searched, the search does not end: an entry of length 0 has no gap, and
-- the next entry is the same.
gap_loop-zeros :
    (fuel block_num restore_rec_len : ℕ) (file_name : List ℕ) (m : Image)
    → ((k : ℕ) → k < 8 → m.disk (1024 * block_num + k) ≡ 0)
    → gap_loop fuel block_num 0 restore_rec_len file_name m ≡ none
unfolding gap_loop
gap_loop-zeros zero block_num n file_name m zeros = refl
gap_loop-zeros (suc fuel) block_num n file_name m zeros =
    let a = 1024 * block_num + 0 in
    let at = λ (k x : ℕ) (lt : k < 8) (e : x ≡ 1024 * block_num + k). ap m.disk e ∙ zeros k lt in
    let size =
      read16-zeros m.disk (a + 4) (at 4 (a + 4) (omega arith) (omega arith))
        (at 5 (a + 4 + 1) (omega arith) (omega arith)) in
    let no_gap : leb (n + need 0) 0 ≡ false = ground arith in
    rw (gap_loop, at 6 (a + 6) (omega arith) (omega arith), calc_rec_len_div4-need 0, size, no_gap)
      (gap_loop-zeros fuel block_num n file_name m zeros)

-- Where the removed file is not found in the first block of its directory, and this is the only
-- one, `restore_file` does not return: it goes on to search the block 0 of the image, which is
-- empty, and never comes to its end.
pub restore_file-hangs :
    (i_block : ℕ → ℕ) (file_name : List ℕ) (es : List Entry) (m : Image)
    → Layout m.disk (i_block 0) 0 es
    → NoGap (i_block 0) (need (length file_name)) file_name m 0 es
    → i_block 1 ≡ 0
    → ((k : ℕ) → k < 8 → m.disk k ≡ 0)
    → restore_file i_block file_name m ≡ none
unfolding restore_file gap_blocks
restore_file-hangs i_block file_name es m layout pass one zeros =
    let n = need (length file_name) in
    let size = Layout-length m.disk (i_block 0) 0 es layout in
    let first = none_run (i_block 0) n file_name m es 1025 0 (omega arith) layout pass in
    let second =
      gap_loop-zeros 1025 0 n file_name m (λ k lt. ap m.disk (omega arith) ∙ zeros k lt) in
    rw
      (calc_rec_len_div4-need_name (length file_name), restore_file, first, gap_blocks, one, second)
      refl
