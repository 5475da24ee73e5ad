-- ===== src/Ext2/Remove/Unlink.antt =====
-- A4/ext2_rm.c: the entry that the loop over a directory takes out.
use csc369_assignments.Prelude.{
  ℕ, zero, suc, ◌+◌, ◌*◌, ◌≤◌, ◌<◌, ◌≡◌, refl, ◌∙◌, inl, inr, Option, none, some, true, false, List,
  [], ◌∷◌, ◌++◌, length, length-append, ◌==◌, arith, Bool-cases,
}
use csc369_assignments.Ext2.Disk.{Disk, read16, write16, write16_ne, read16-keep}
use csc369_assignments.Ext2.Entries.{entry_rec_len, is_string}
use csc369_assignments.Ext2.Entries.Layout.{
  Entry, Layout, NameAt, ends, Holds-keep, Layout-keep, Layout-length, ends-le,
}
use csc369_assignments.Ext2.Entries.Append.{Holds-write16}
use csc369_assignments.Ext2.Entries.Search.{clash}
use csc369_assignments.Ext2.Remove.{unlink_entry, unlink_loop, unlink_blocks}

-- Every name differs from the file's in a character.
abbrev pub AllClash : List ℕ → List Entry → Type 0
AllClash file [] = Unit {0}
AllClash file (e ∷ es) = (clash e.name file ≡ true) × AllClash file es

is_string-clash :
    (disk : Disk) (name file : List ℕ) (a : ℕ)
    → NameAt disk a name
    → clash name file ≡ true
    → is_string disk a file ≡ false
unfolding is_string clash
is_string-clash disk [] file a at h = cc
is_string-clash disk (c ∷ name) [] a at h = cc
is_string-clash disk (c ∷ name) (d ∷ file) a (here, at) h =
    rw here (ground (arith, is_string-clash disk name file (a + 1) at))

is_string-own :
    (disk : Disk) (name : List ℕ) (a : ℕ)
    → NameAt disk a name
    → disk (a + length name) ≡ 0
    → is_string disk a name ≡ true
unfolding is_string
is_string-own disk [] a at end = let e : a + 0 ≡ a = omega arith in rw (rw e at end) refl
is_string-own disk (c ∷ name) a (here, at) end =
    let e : a + suc (length name) ≡ a + 1 + length name = omega arith in
    rw here (ground (arith, is_string-own disk name (a + 1) at (rw e at end)))

module _ (block_num : ℕ) (file : List ℕ) where
  pass_run :
      (fuel off : ℕ) (prev : Option ℕ) (e : Entry) (es : List Entry) (disk : Disk)
      → Layout disk block_num off (e ∷ es)
      → clash e.name file ≡ true
      → unlink_loop (suc fuel) block_num off prev file disk
        ≡ unlink_loop fuel block_num (off + e.rec_len) (some (1024 * block_num + off)) file disk
  unfolding unlink_loop
  pass_run fuel off prev e es disk (h, fit, below, rest) c =
      let start : (off == 1024) ≡ false = ground arith in
      rw
        (
          start,
          is_string-clash disk e.name file (1024 * block_num + off + 8) h.name_at c,
          h.rec_len_at,
        )
        refl

  rest_run :
      (es : List Entry) (fuel off : ℕ) (prev : Option ℕ) (disk : Disk)
      → length es < fuel
      → Layout disk block_num off es
      → AllClash file es
      → unlink_loop fuel block_num off prev file disk ≡ some disk
  unfolding unlink_loop
  rest_run es zero off prev disk enough layout all = absurd (omega arith)
  rest_run [] (suc fuel) off prev disk enough end all = rw end refl
  rest_run (e ∷ es) (suc fuel) off prev disk enough layout (c, all) =
      pass_run fuel off prev e es disk layout c
      ∙ rest_run es fuel (off + e.rec_len) (some (1024 * block_num + off)) disk (omega arith)
          layout.3 all

  -- The entry of the file itself, with another before it in the block.
  own_run :
      (fuel off p r : ℕ) (cur : Entry) (es : List Entry) (disk : Disk)
      → Layout disk block_num off (cur ∷ es)
      → cur.name ≡ file
      → disk (1024 * block_num + off + 8 + length file) ≡ 0
      → entry_rec_len disk p ≡ r
      → p + 6 ≤ 1024 * block_num + off
      → unlink_loop (suc fuel) block_num off (some p) file disk
        ≡ unlink_loop fuel block_num
            (off + cur.rec_len)
            (some (1024 * block_num + off))
            file
            (write16 disk (p + 4) (r + cur.rec_len))
  unfolding unlink_loop unlink_entry
  own_run fuel off p r cur es disk (h, fit, below, rest) own end before apart =
      let a = 1024 * block_num + off in
      let start : (off == 1024) ≡ false = ground arith in
      let found : is_string disk (a + 8) file ≡ true =
        is_string-own disk file (a + 8) (rw own at h.name_at) end in
      let stay : read16 (write16 disk (p + 4) (r + cur.rec_len)) (a + 4) ≡ cur.rec_len =
        read16-keep disk (write16 disk (p + 4) (r + cur.rec_len)) (a + 4)
          (λ x lo hi. write16_ne disk (p + 4) (r + cur.rec_len) x (inr (omega arith)))
        ∙ h.rec_len_at in
      rw (start, found, before, h.rec_len_at, stay) refl

  module _ (before : Entry) (cur : Entry) (after : List Entry) (own : cur.name ≡ file) where
    -- The entry before, stretched over the one that is removed.
    abbrev pub merged : Entry
    merged = record before { rec_len = before.rec_len + cur.rec_len }

    abbrev pub unlinked : ℕ → Disk → Disk
    unlinked off disk = write16 disk (1024 * block_num + off + 4) (before.rec_len + cur.rec_len)

    take_run :
        (fuel off : ℕ) (prev : Option ℕ) (disk : Disk)
        → suc (length after) < fuel
        → Layout disk block_num off (before ∷ cur ∷ after)
        → clash before.name file ≡ true
        → disk (1024 * block_num + (off + before.rec_len) + 8 + length file) ≡ 0
        → AllClash file after
        → unlink_loop (suc fuel) block_num off prev file disk ≡ some (unlinked off disk)
    take_run zero off prev disk enough layout c end all = absurd (omega arith)
    take_run (suc fuel) off prev disk enough layout c end all =
        let (h, fit, below, layout') = layout in
        let (h', fit', below', rest) = layout' in
        let a = 1024 * block_num + off in
        let next = off + before.rec_len in
        let keep =
          λ (x : ℕ) (lo : 1024 * block_num + (next + cur.rec_len) ≤ x)
              (hi : x < 1024 * block_num + 1024).
            write16_ne disk (a + 4) (before.rec_len + cur.rec_len) x (inr (omega arith)) in
        pass_run (suc fuel) off prev before (cur ∷ after) disk layout c
        ∙ own_run fuel next a before.rec_len cur after disk layout' own end h.rec_len_at
            (omega arith)
        ∙ rest_run after fuel (next + cur.rec_len) (some (1024 * block_num + next))
            (unlinked off disk) (omega arith)
            (Layout-keep disk (unlinked off disk) block_num (next + cur.rec_len) after keep rest)
            all

    unlink_loop_run :
        (es : List Entry) (fuel off : ℕ) (prev : Option ℕ) (disk : Disk)
        → length es + suc (suc (length after)) < fuel
        → Layout disk block_num off (es ++ before ∷ cur ∷ after)
        → AllClash file es
        → clash before.name file ≡ true
        → disk (1024 * block_num + (ends off es + before.rec_len) + 8 + length file) ≡ 0
        → AllClash file after
        → unlink_loop fuel block_num off prev file disk ≡ some (unlinked (ends off es) disk)
    unlink_loop_run es zero off prev disk enough layout all c end all' = absurd (omega arith)
    unlink_loop_run [] (suc fuel) off prev disk enough layout all c end all' =
        take_run fuel off prev disk (omega arith) layout c end all'
    unlink_loop_run (e ∷ es) (suc fuel) off prev disk enough layout (c', all) c end all' =
        pass_run fuel off prev e (es ++ before ∷ cur ∷ after) disk layout c'
        ∙ unlink_loop_run es fuel (off + e.rec_len) (some (1024 * block_num + off)) disk
            (omega arith) layout.3 all c end all'

    -- What is left of the block: the same entries without the one that is removed.
    unlinked-Layout :
        (es : List Entry) (off : ℕ) (disk : Disk)
        → Layout disk block_num off (es ++ before ∷ cur ∷ after)
        → Layout (unlinked (ends off es) disk) block_num off (es ++ merged ∷ after)
    unlinked-Layout [] off disk (h, fit, below, (h', fit', below', rest)) =
        let r = before.rec_len + cur.rec_len in
        let same : off + before.rec_len + cur.rec_len ≡ off + r = omega arith in
        (
          Holds-write16 disk (1024 * block_num + off) r before (omega arith) h,
          omega arith,
          omega arith,
          rw (← same) (
              Layout-keep disk (unlinked off disk) block_num (off + before.rec_len + cur.rec_len)
                after
                (λ x lo hi. write16_ne disk (1024 * block_num + off + 4) r x (inr (omega arith)))
                rest),
        )
    unlinked-Layout (e ∷ es) off disk (h, fit, below, rest) =
        let next = off + e.rec_len in
        let le = ends-le next es in
        let r = before.rec_len + cur.rec_len in
        (
          Holds-keep disk (unlinked (ends next es) disk) (1024 * block_num + off) e
              (λ x lo hi.
                write16_ne disk (1024 * block_num + ends next es + 4) r x (inl (omega (arith, le))))
              h,
          fit,
          below,
          unlinked-Layout es next disk rest,
        )

-- The other blocks are not looked at.
others_run :
    (rounds : ℕ) (i_block : ℕ → ℕ) (ind : ℕ) (file : List ℕ) (disk : Disk)
    → unlink_blocks rounds i_block ind 1024 file disk ≡ some disk
unfolding unlink_blocks unlink_loop
others_run zero i_block ind file disk = refl
others_run (suc rounds) i_block ind file disk = elim (Bool-cases (i_block ind == 0)) [
  | inl free ↦ rw (free, unlink_blocks) (others_run rounds i_block (ind + 1) file disk)
  | inr used ↦ rw (used, unlink_blocks) (others_run rounds i_block (ind + 1) file disk)
]

-- An entry of the first block of a directory that is not the first of the block and whose name is
-- that of the file is taken out by the loop of `ext2_rm`, if the names of the other entries differ
-- from it in a character and its own name has an end: the entry before it stretches over it, the
-- others stay, and only the length of that entry is written.
pub unlink_blocks_lem :
    (i_block : ℕ → ℕ) (file : List ℕ) (es : List Entry) (before cur : Entry) (after : List Entry)
    (disk : Disk)
    → (i_block 0 == 0) ≡ false
    → Layout disk (i_block 0) 0 (es ++ before ∷ cur ∷ after)
    → AllClash file es
    → clash before.name file ≡ true
    → cur.name ≡ file
    → disk (1024 * i_block 0 + (ends 0 es + before.rec_len) + 8 + length file) ≡ 0
    → AllClash file after
    → (disk' : Disk) × (unlink_blocks 12 i_block 0 0 file disk ≡ some disk')
      × (disk' ≡ write16 disk (1024 * i_block 0 + ends 0 es + 4) (before.rec_len + cur.rec_len))
      × Layout disk'
          (i_block 0)
          0
          (es ++ record before { rec_len = before.rec_len + cur.rec_len } ∷ after)
unfolding unlink_blocks
unlink_blocks_lem i_block file es before cur after disk used layout all c own end all' =
    let b = i_block 0 in
    let size = Layout-length disk b 0 (es ++ before ∷ cur ∷ after) layout in
    let disk' = write16 disk (1024 * b + ends 0 es + 4) (before.rec_len + cur.rec_len) in
    let one =
      unlink_loop_run b file before cur after own es 1025 0 none disk
        (omega (arith, length-append es (before ∷ cur ∷ after))) layout all c end all' in
    (
      disk',
      rw (used, one, unlink_blocks) (others_run 11 i_block (0 + 1) file disk'),
      refl,
      unlinked-Layout b file before cur after own es 0 disk layout,
    )
